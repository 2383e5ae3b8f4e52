-- ===== src/Rules/Tests.antt =====
-- types.go and manager.go: runs, and the theorems at concrete inputs.
use gki_pass.Base.{
  List, Memᴰ, [], arith, inl, inr, length, none, refl, some, sym, true, ℕ, ◌++◌, ◌↔◌, ◌∷◌, ◌≡◌, ◌≤◌,
  ◌⊎◌,
}
use gki_pass.Base.Maps.{lookup, nat_eq, string_eq}
use gki_pass.Base.Int.{int_eq, pos, ℤ}
use gki_pass.Rules.{Rule, active, allow, new_rule, port_range_contains, tcp}
use gki_pass.Rules.Address.{
  IpRange, bytes_compare, compare_bytes, ip_range_contains, same_bytes, to_16, v4_prefix,
}
use gki_pass.Rules.Address.Compare.{ip_range_contains-number, number}
use gki_pass.Rules.Text.{match_domain, star}
use gki_pass.Rules.Text.Domain.{Wildcard}
use gki_pass.Rules.Match.{matches_domain, matches_domain_iff, matches_port}
use gki_pass.Rules.Order.{RuleSet, bubble, bubble_rounds, new_rule_set, sort_by_priority}
use gki_pass.Rules.Order.Sorted.{Descending, of_priority, sort_by_priority_lem}
use gki_pass.Rules.Manager.{
  add_rule, get_rule, Incoming, Manager, delete_rule, load_rules, sync_rules, update_rule,
}
use gki_pass.Rules.Manager.Disk.{listing}
use gki_pass.Rules.Manager.Sync.{Synced, load_rules-sync_rules, sync_rules_lem}
use gki_pass.Rules.Manager.Versions.{Grows, versions-Grows}

abbrev low : List ℕ
low = 10 ∷ 0 ∷ 0 ∷ 1 ∷ []

abbrev high : List ℕ
high = 10 ∷ 0 ∷ 1 ∷ 0 ∷ []

abbrev middle : List ℕ
middle = v4_prefix ++ (10 ∷ 0 ∷ 0 ∷ 200 ∷ [])

abbrev addresses : IpRange
addresses = record { network = none; start = some low; end = some high }

in_addresses : ip_range_contains addresses middle ≡ true
unfolding ip_range_contains bytes_compare compare_bytes to_16
in_addresses = refl

ip_range_contains-number_example :
    (ip_range_contains addresses middle ≡ true)
    ↔ ((number (to_16 low) ≤ number (to_16 middle)) × (number (to_16 middle) ≤ number (to_16 high)))
ip_range_contains-number_example =
    ip_range_contains-number low high middle
      (inl refl, (omega arith, (omega arith, (omega arith, (omega arith, tt)))))
      (inl refl, (omega arith, (omega arith, (omega arith, (omega arith, tt)))))
      (
        inr refl,
        (
          omega arith,
          (
            omega arith,
            (
              omega arith,
              (
                omega arith,
                (
                  omega arith,
                  (
                    omega arith,
                    (
                      omega arith,
                      (
                        omega arith,
                        (
                          omega arith,
                          (
                            omega arith,
                            (
                              omega arith,
                              (
                                omega arith,
                                (omega arith, (omega arith, (omega arith, (omega arith, tt)))),
                              ),
                            ),
                          ),
                        ),
                      ),
                    ),
                  ),
                ),
              ),
            ),
          ),
        ),
      )

abbrev first_rule : Rule
first_rule = record (new_rule "a" "web" tcp allow 5) {
  priority = pos 1;
  domains = (b'*' ∷ b'.' ∷ b'x' ∷ []) ∷ [];
  status = active;
  source_ports = record { start = 80; end = 90 } ∷ [];
}

abbrev second_rule : Rule
second_rule = record (new_rule "b" "files" tcp allow 6) { priority = pos 2; version = 4 }

abbrev host : List ℕ
host = b'w' ∷ b'.' ∷ b'x' ∷ []

host_matches : matches_domain first_rule host ≡ true
unfolding matches_domain match_domain same_bytes
host_matches = refl

port_matches : matches_port first_rule 85 7 ≡ true
unfolding matches_port port_range_contains new_rule
port_matches = refl

matches_domain_iff_example : (matches_domain first_rule host ≡ true) ↔ (
    (length first_rule.domains ≡ 0)
    ⊎ ((wanted : List ℕ) × Memᴰ wanted first_rule.domains
        × ((wanted ≡ star ∷ []) ⊎ (wanted ≡ host) ⊎ Wildcard host wanted)))
matches_domain_iff_example = matches_domain_iff first_rule host

abbrev rules : RuleSet
rules = record (new_rule_set "s" "set" 1) { rules = first_rule ∷ second_rule ∷ first_rule ∷ [] }

rules_sorted : (sort_by_priority rules).rules ≡ second_rule ∷ first_rule ∷ first_rule ∷ []
unfolding sort_by_priority bubble_rounds bubble
rules_sorted = refl

sort_by_priority_lem_example :
    Descending (sort_by_priority rules).rules
    × ((p : ℤ) → of_priority p (sort_by_priority rules).rules ≡ of_priority p rules.rules)
    × (record (sort_by_priority rules) { rules = rules.rules } ≡ rules)
sort_by_priority_lem_example = sort_by_priority_lem rules

-- Files that hold the rule itself.
abbrev manager : Manager Rule
manager = record {
  rules = ("a", first_rule) ∷ [];
  rules_by_port = [];
  version = 3;
  files = ("a", first_rule) ∷ [];
}

abbrev incoming : List Incoming
incoming = record { rule = second_rule; now = 9; written = true } ∷ []

sync_rules_lem_example :
    Synced some incoming 7 true manager (sync_rules some incoming 7 true manager)
sync_rules_lem_example = sync_rules_lem some incoming 7 true manager

load_rules-sync_rules_example :
    (get_rule "a" (sync_rules some incoming 7 true manager).0 ≡ none)
    × (get_rule "a"
          (load_rules some
            (some (listing (sync_rules some incoming 7 true manager).0.files))
            (sync_rules some incoming 7 true manager).0).0
        ≡ some first_rule)
unfolding new_rule lookup
load_rules-sync_rules_example =
    load_rules-sync_rules some some incoming 7 manager "a" first_rule (λ r b e. (r, sym e, refl))
      ((first_rule, refl, refl), refl, tt) refl refl

versions-Grows_example :
    Grows manager (add_rule some (some second_rule) 8 true manager).0
    × Grows manager (update_rule some (some second_rule) 8 true manager).0
    × Grows manager (delete_rule "a" true manager).0
unfolding new_rule
versions-Grows_example =
    versions-Grows some (some second_rule) 8 true "a" manager (omega arith) (omega arith, tt)
