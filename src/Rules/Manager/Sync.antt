-- ===== src/Rules/Manager/Sync.antt =====
-- manager.go: what a synchronisation leaves in the map and on the disk.
use gki_pass.Base.{
  Bool, Bool-cases, List, Option, Option-cases, String, [], ap, arith, false, if◌then◌else◌, inl,
  inr, none, not, refl, some, subst, sym, true, ℕ, ◌&&◌, ◌∙◌, ◌∷◌, ◌≡◌, ◌⊎◌,
}
use gki_pass.Base.Maps.{insert, lookup, lookup-insert, nat_eq, string_eq}
use gki_pass.Base.Int.{int_eq}
use gki_pass.Base.Signed.{le_64}
use gki_pass.Rules.{Rule}
use gki_pass.Rules.Manager.{
  Incoming, Manager, RuleError, apply_rules, get_rule, load_rules, save_rule, sync_each, sync_rule,
  sync_rules,
}
use gki_pass.Rules.Manager.Disk.{
  KeepsId, Tidy, Tidy-sync_each, listing, load_rules-listing, on_disk,
}

-- The rule as it is stored.
abbrev pub stamped : Incoming → Rule
stamped incoming = record (incoming.rule) { updated_at = incoming.now }

-- The last of the rules with an identifier.
abbrev pub last_with : String → List Incoming → Option Rule
last_with id [] = none
last_with id (incoming ∷ rules) = elim (last_with id rules) [
  | some rule ↦ some rule
  | none ↦ if string_eq.beq incoming.rule.id id then some (stamped incoming) else none
]

module _ {C : Type 0} (marshal : Rule → Option C) where
  pub rules-save_rule :
      (rule : Rule) (written : Bool) (m : Manager C)
      → ((save_rule marshal rule written m).0.rules ≡ m.rules)
        × ((save_rule marshal rule written m).0.version ≡ m.version)
        × ((save_rule marshal rule written m).0.rules_by_port ≡ m.rules_by_port)
  unfolding save_rule
  rules-save_rule rule written m = ground arith

  lookup-files-save_rule :
      (id : String) (rule : Rule) (written : Bool) (m : Manager C)
      → string_eq.beq rule.id id ≡ false
      → lookup id (save_rule marshal rule written m).0.files ≡ lookup id m.files
  unfolding save_rule
  lookup-files-save_rule id rule written m h = elim (Option-cases (marshal rule)) [
    | inl e ↦ ground arith
    | inr (bytes, e) ↦ let later = lookup-insert rule.id id bytes m.files in ground (arith, later)
  ]

  lookup-sync_each :
      (id : String) (rules : List Incoming) (m : Manager C)
      → lookup id (sync_each marshal rules m).rules
        ≡ (elim (last_with id rules) [ some rule ↦ some rule | none ↦ lookup id m.rules ])
  unfolding sync_each sync_rule
  lookup-sync_each id [] m = refl
  lookup-sync_each id (incoming ∷ rules) m =
      let rest = lookup-sync_each id rules (sync_rule marshal incoming m) in
      let next = lookup-insert incoming.rule.id id (stamped incoming) m.rules in
      let saved =
        rules-save_rule (stamped incoming) incoming.written
          (record m { rules = insert incoming.rule.id (stamped incoming) m.rules }) in
      ground (arith, rest, next, saved)

  lookup-files-sync_each :
      (id : String) (rules : List Incoming) (m : Manager C)
      → last_with id rules ≡ none
      → lookup id (sync_each marshal rules m).files ≡ lookup id m.files
  unfolding sync_each sync_rule
  lookup-files-sync_each id [] m h = refl
  lookup-files-sync_each id (incoming ∷ rules) m h =
      let rest = lookup-files-sync_each id rules (sync_rule marshal incoming m) in
      let saved =
        lookup-files-save_rule id (stamped incoming) incoming.written
          (record m { rules = insert incoming.rule.id (stamped incoming) m.rules }) in
      ground (arith, rest, saved)

  -- The map and the version after a synchronisation that takes place.
  get_rule-sync_rules :
      (rules : List Incoming) (version : ℕ) (full : Bool) (m : Manager C) (id : String)
      → (le_64 version m.version && not full) ≡ false
      → ((sync_rules marshal rules version full m).1 ≡ none)
        × ((sync_rules marshal rules version full m).0.version ≡ version)
        × (get_rule id (sync_rules marshal rules version full m).0 ≡ (elim (last_with id rules) [
          | some rule ↦ some rule
          | none ↦ if full then none else get_rule id m
        ]))
  unfolding sync_rules apply_rules get_rule lookup
  get_rule-sync_rules rules version true m id h =
      let each = lookup-sync_each id rules (record m { rules = []; rules_by_port = [] }) in
      ground (arith, each)
  get_rule-sync_rules rules version false m id h =
      let each = lookup-sync_each id rules m in ground (arith, each)

  -- Nothing at all changes, or the map is brought to the list's rules and the version.
  abbrev pub Synced : List Incoming → ℕ → Bool → Manager C → Manager C × Option RuleError → Type 0
  Synced rules version full m r =
      (((le_64 version m.version && not full) ≡ true) × (r ≡ (m, none)))
      ⊎ (((le_64 version m.version && not full) ≡ false)
          × (r.1 ≡ none)
          × (r.0.version ≡ version)
          × ((id : String)
              → get_rule id r.0 ≡ (elim (last_with id rules) [
                | some rule ↦ some rule
                | none ↦ if full then none else get_rule id m
              ])))

  -- A synchronisation to a version that is not greater, if it is not a full one, returns without an
  -- error and changes nothing at all, neither the manager nor its files. Any other leaves under each
  -- identifier the last rule of the list that has it; where none has it, the old rule stays if the
  -- synchronisation is not full, and there is none if it is. The version is then the one it was
  -- called with, and no error is returned.
  pub sync_rules_lem :
      (rules : List Incoming) (version : ℕ) (full : Bool) (m : Manager C)
      → Synced rules version full m (sync_rules marshal rules version full m)
  unfolding sync_rules
  sync_rules_lem rules version full m = elim (Bool-cases (le_64 version m.version && not full)) [
    | inl e ↦ inl (e, ground (arith, e))
    | inr e ↦
        let out = λ (id : String). get_rule-sync_rules rules version full m id e in
        inr (e, (out "").0, (out "").1, λ id. (out id).2)
  ]

  -- A full synchronisation removes no file: a rule that it takes out of the map, and whose file is
  -- in a tidy directory, is back after the next reload of the directory.
  pub load_rules-sync_rules :
      (unmarshal : C → Option Rule) (rules : List Incoming) (version : ℕ) (m : Manager C)
      (id : String) (rule : Rule)
      → KeepsId marshal unmarshal
      → Tidy unmarshal m.files
      → last_with id rules ≡ none
      → on_disk unmarshal id m.files ≡ some rule
      → (get_rule id (sync_rules marshal rules version true m).0 ≡ none)
        × (get_rule id
              (load_rules unmarshal
                (some (listing (sync_rules marshal rules version true m).0.files))
                (sync_rules marshal rules version true m).0).0
            ≡ some rule)
  unfolding sync_rules apply_rules
  load_rules-sync_rules unmarshal rules version m id rule law tidy gone stale =
      let done = sync_rules marshal rules version true m in
      let out = get_rule-sync_rules rules version true m id (ground arith) in
      let start = record m { rules = []; rules_by_port = [] } in
      let left = lookup-files-sync_each id rules start gone in
      let kept = Tidy-sync_each marshal unmarshal rules start law tidy in
      let same : done.0.files ≡ (sync_each marshal rules start).files = ground arith in
      let back = load_rules-listing unmarshal done.0 id (subst (Tidy unmarshal) (sym same) kept) in
      let there : on_disk unmarshal id done.0.files ≡ some rule =
        ap (on_disk unmarshal id) same
        ∙ ap (λ o. elim o [ none ↦ none | some bytes ↦ unmarshal bytes ]) left
        ∙ stale in
      (ground (arith, out), back ∙ there)
