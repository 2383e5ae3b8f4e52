-- ===== src/Rules/Manager.antt =====
-- manager.go: the rule manager. `rules` is its map; the names that `rulesByPort` is asked for are
-- ports. `files` is the rules directory: the file `<id>.json` stands under `<id>`. Encoding and
-- decoding a rule (encoding/json) are the parameters `marshal` and `unmarshal`, over a type of file
-- contents; whether a file was written, removed or read, and the time, come as arguments. A write
-- that fails leaves the file as it was. Versions are bit patterns of 64 bits, compared as signed
-- numbers. Copies in backups/ are never read and are left out.
pub mod Disk
pub mod Sync
pub mod Versions
use gki_pass.Base.{
  Bool, List, Option, String, [], if◌then◌else◌, length, none, not, some, ℕ, ◌%◌, ◌&&◌, ◌+◌, ◌-◌,
  ◌^◌, ◌∷◌,
}
use gki_pass.Base.Maps.{delete, insert, lookup, nat_eq, string_eq}
use gki_pass.Base.Int.{int_eq}
use gki_pass.Base.Signed.{le_64}
use gki_pass.Rules.{Rule, active, is_active}
use gki_pass.Base.Elements.{filter}

pub record Manager (C : Type 0) : Type 0 where
  pub rules : List (String × Rule)
  pub rules_by_port : List (ℕ × List Rule)
  pub version : ℕ
  pub files : List (String × C)

pub data RuleError : Type 0 where
  no_rule : RuleError
  no_id : RuleError
  rule_exists : RuleError
  rule_missing : RuleError
  save_failed : RuleError
  remove_failed : RuleError
  read_failed : RuleError

-- An entry of the rules directory: `rule_file` says that it is no directory and ends in `.json`;
-- `content` is what reading it returns.
pub record Entry (C : Type 0) : Type 0 where
  pub rule_file : Bool
  pub content : Option C

-- A rule to synchronise, with the time at which it is stored and whether its file is written.
pub record Incoming : Type 0 where
  pub rule : Rule
  pub now : ℕ
  pub written : Bool

module _ {C : Type 0} where
  -- `NewManager`, over the files that are there.
  unfoldable pub new_manager : List (String × C) → Manager C
  new_manager files = record { rules = []; rules_by_port = []; version = 0; files = files }

  -- `applyRules`: what it did for the forwarder is commented out.
  unfoldable pub apply_rules : Manager C → Option RuleError
  apply_rules m = none

  -- `GetRule`
  unfoldable pub get_rule : String → Manager C → Option Rule
  get_rule id m = lookup id m.rules

  -- `GetRulesByPort`
  unfoldable pub get_rules_by_port : ℕ → Manager C → List Rule
  get_rules_by_port port m = elim (lookup port m.rules_by_port) [ none ↦ [] | some rules ↦ rules ]

  -- `DeleteRule`, with whether the file was removed or did not exist.
  unfoldable pub delete_rule : String → Bool → Manager C → Manager C × Option RuleError
  delete_rule id removed m = elim (lookup id m.rules) [
    | none ↦ (m, some rule_missing)
    | some rule ↦
        let shorter = record m { rules = delete id m.rules } in
        if removed
        then (record shorter { files = delete id m.files }, none)
        else (shorter, some remove_failed)
  ]

  -- `GetStats`: the total, the active rules and the others, and the ports.
  unfoldable pub get_stats : Manager C → ℕ × ℕ × ℕ × ℕ
  get_stats m =
      let total = length m.rules in
      let active = length (filter (λ (id, rule). is_active rule.status) m.rules) in
      (total, active, total - active, length m.rules_by_port)

module _ {C : Type 0} (unmarshal : C → Option Rule) where
  -- The body of the loop of `loadRules`.
  unfoldable pub load_entry : Entry C → Manager C → Manager C
  load_entry entry m = if not entry.rule_file then m else (elim entry.content [
    | none ↦ m
    | some bytes ↦ elim (unmarshal bytes) [
      | none ↦ m
      | some rule ↦ record m {
        rules = insert rule.id rule m.rules;
        version = if le_64 rule.version m.version then m.version else rule.version;
      }
    ]
  ])

  unfoldable pub load_entries : List (Entry C) → Manager C → Manager C
  load_entries [] m = m
  load_entries (entry ∷ entries) m = load_entries entries (load_entry entry m)

  -- `loadRules`, with what reading the directory returns.
  unfoldable pub load_rules : Option (List (Entry C)) → Manager C → Manager C × Option RuleError
  load_rules listing m =
      let cleared = record m { rules = []; rules_by_port = [] } in
      elim listing [
        | none ↦ (cleared, some read_failed)
        | some entries ↦ let loaded = load_entries entries cleared in (loaded, apply_rules loaded)
      ]

module _ {C : Type 0} (marshal : Rule → Option C) where
  -- `saveRule`
  unfoldable pub save_rule : Rule → Bool → Manager C → Manager C × Option RuleError
  save_rule rule written m = elim (marshal rule) [
    | none ↦ (m, some save_failed)
    | some bytes ↦
        if written
        then (record m { files = insert rule.id bytes m.files }, none)
        else (m, some save_failed)
  ]

  -- `AddRule`
  unfoldable pub add_rule : Option Rule → ℕ → Bool → Manager C → Manager C × Option RuleError
  add_rule none now written m = (m, some no_rule)
  add_rule (some rule) now written m =
      if string_eq.beq rule.id "" then (m, some no_id) else (elim (lookup rule.id m.rules) [
        | some old ↦ (m, some rule_exists)
        | none ↦
            let version = (m.version + 1) % 2 ^ 64 in
            let stored = record rule { created_at = now; updated_at = now; version = version } in
            save_rule stored written
              (record m { rules = insert rule.id stored m.rules; version = version })
      ])

  -- `UpdateRule`
  unfoldable pub update_rule : Option Rule → ℕ → Bool → Manager C → Manager C × Option RuleError
  update_rule none now written m = (m, some no_rule)
  update_rule (some rule) now written m =
      if string_eq.beq rule.id "" then (m, some no_id) else (elim (lookup rule.id m.rules) [
        | none ↦ (m, some rule_missing)
        | some old ↦
            let version = (old.version + 1) % 2 ^ 64 in
            let stored = record rule {
              created_at = old.created_at;
              updated_at = now;
              version = version;
            } in
            save_rule stored written (record m {
              rules = insert rule.id stored m.rules;
              version = if le_64 version m.version then m.version else version;
            })
      ])

  -- The body of the loop of `SyncRules`; a file that is not written is only logged.
  unfoldable pub sync_rule : Incoming → Manager C → Manager C
  sync_rule incoming m =
      let stored = record (incoming.rule) { updated_at = incoming.now } in
      (save_rule stored incoming.written (record m { rules = insert stored.id stored m.rules })).0

  unfoldable pub sync_each : List Incoming → Manager C → Manager C
  sync_each [] m = m
  sync_each (incoming ∷ rules) m = sync_each rules (sync_rule incoming m)

  -- `SyncRules`
  unfoldable pub sync_rules : List Incoming → ℕ → Bool → Manager C → Manager C × Option RuleError
  sync_rules rules version full m =
      if le_64 version m.version && not full
      then (m, none)
      else (let start = if full then record m { rules = []; rules_by_port = [] } else m in
          let done = record (sync_each rules start) { version = version } in
          (done, apply_rules done))
