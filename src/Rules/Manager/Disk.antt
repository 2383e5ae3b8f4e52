-- ===== src/Rules/Manager/Disk.antt =====
-- manager.go: the rules directory against the manager's map.
use gki_pass.Base.{
  Bool, Bool-cases, List, Option, Option-cases, String, [], arith, if-cases, inl, inr, none, refl,
  some, subst, sym, true, ◌∷◌, ◌≡◌, ◌⊎◌,
}
use gki_pass.Base.Maps.{delete, insert, lookup, lookup-delete, lookup-insert, nat_eq, string_eq}
use gki_pass.Base.Int.{int_eq}
use gki_pass.Rules.{Rule}
use gki_pass.Rules.Manager.{
  Entry, Incoming, Manager, get_rule, load_entries, load_entry, load_rules, save_rule, sync_each,
  sync_rule,
}

-- The entries of the directory when each file can be read.
abbrev pub listing : {C : Type 0} → List (String × C) → List (Entry C)
listing [] = []
listing ((id, bytes) ∷ files) = record { rule_file = true; content = some bytes } ∷ listing files

module _ {C : Type 0} (unmarshal : C → Option Rule) where
  -- Each file holds a rule, under its identifier, and no two have one name.
  abbrev pub Tidy : List (String × C) → Type 0
  Tidy [] = Unit {0}
  Tidy ((id, bytes) ∷ files) =
      ((rule : Rule) × (unmarshal bytes ≡ some rule) × (rule.id ≡ id))
      × (lookup id files ≡ none)
      × Tidy files

  -- What the directory says of an identifier.
  abbrev pub on_disk : String → List (String × C) → Option Rule
  on_disk id files = elim (lookup id files) [ none ↦ none | some bytes ↦ unmarshal bytes ]

  lookup-nil : (id : String) → lookup {V = C} id [] ≡ none
  unfolding lookup
  lookup-nil id = refl

  Tidy-insert :
      (id : String) (bytes : C) (files : List (String × C))
      → ((rule : Rule) × (unmarshal bytes ≡ some rule) × (rule.id ≡ id))
      → Tidy files
      → Tidy (insert id bytes files)
  unfolding insert
  Tidy-insert id bytes [] h t = (h, lookup-nil id, tt)
  Tidy-insert id bytes ((j, old) ∷ files) h (k, fresh, t) =
      let same = string_eq.beq_iff j id in
      let other = string_eq.beq_iff id j in
      let later = lookup-insert id j bytes files in
      if-cases Tidy (string_eq.beq j id) (λ e. (h, ground (arith, same), t))
        (λ e. (k, ground (arith, same, other, later), Tidy-insert id bytes files h t))

  Tidy-delete : (id : String) (files : List (String × C)) → Tidy files → Tidy (delete id files)
  unfolding delete
  Tidy-delete id [] t = tt
  Tidy-delete id ((j, old) ∷ files) (k, fresh, t) =
      let kept = lookup-delete id j files in
      if-cases Tidy (string_eq.beq j id) (λ e. Tidy-delete id files t)
        (λ e. (k, ground (arith, kept), Tidy-delete id files t))

  lookup-load_entries :
      (id : String) (files : List (String × C)) (m : Manager C)
      → Tidy files
      → lookup id (load_entries unmarshal (listing files) m).rules
        ≡ (elim (lookup id files) [ none ↦ lookup id m.rules | some bytes ↦ unmarshal bytes ])
  unfolding load_entries load_entry lookup
  lookup-load_entries id [] m t = refl
  lookup-load_entries id ((j, bytes) ∷ files) m ((rule, e, named), fresh, t) =
      let next = load_entry unmarshal (record { rule_file = true; content = some bytes }) m in
      let rest = lookup-load_entries id files next t in
      let stored = lookup-insert rule.id id rule m.rules in
      ground (arith, rest, stored, string_eq.beq_iff j id, string_eq.beq_iff rule.id id)

  -- Loading a tidy directory whose files can all be read leaves in the map, under each identifier,
  -- the rule that the file of that name holds and nothing else, whatever the map held before.
  pub load_rules-listing :
      (m : Manager C) (id : String)
      → Tidy m.files
      → get_rule id (load_rules unmarshal (some (listing m.files)) m).0 ≡ on_disk id m.files
  unfolding load_rules get_rule lookup
  load_rules-listing m id t =
      lookup-load_entries id m.files (record m { rules = []; rules_by_port = [] }) t

module _ {C : Type 0} (marshal : Rule → Option C) (unmarshal : C → Option Rule) where
  -- A decoded rule has the identifier of the rule that was encoded.
  abbrev pub KeepsId : Type 0
  KeepsId =
      (rule : Rule) (bytes : C)
      → marshal rule ≡ some bytes
      → (decoded : Rule) × (unmarshal bytes ≡ some decoded) × (decoded.id ≡ rule.id)

  -- The files before, or those with one encoded rule more.
  Wrote : List (String × C) → List (String × C) → Type 0
  Wrote files later =
      (later ≡ files)
      ⊎ ((rule : Rule) × (bytes : C) × (marshal rule ≡ some bytes)
          × (later ≡ insert rule.id bytes files))

  Tidy-Wrote :
      (files later : List (String × C))
      → KeepsId
      → Wrote files later
      → Tidy unmarshal files
      → Tidy unmarshal later
  unfolding Wrote
  Tidy-Wrote files later law (inl e) t = subst (Tidy unmarshal) (sym e) t
  Tidy-Wrote files later law (inr (rule, bytes, e, f)) t =
      subst (Tidy unmarshal) (sym f)
        (Tidy-insert unmarshal rule.id bytes files (law rule bytes e) t)

  save_rule-Wrote :
      (rule : Rule) (written : Bool) (m : Manager C)
      → Wrote m.files (save_rule marshal rule written m).0.files
  unfolding Wrote save_rule
  save_rule-Wrote rule written m = elim (Option-cases (marshal rule)) [
    | inl e ↦ inl (ground arith)
    | inr (bytes, e) ↦ elim (Bool-cases written) [
      | inl w ↦ inr (rule, bytes, e, ground arith)
      | inr w ↦ inl (ground arith)
    ]
  ]

  pub Tidy-sync_each :
      (rules : List Incoming) (m : Manager C)
      → KeepsId
      → Tidy unmarshal m.files
      → Tidy unmarshal (sync_each marshal rules m).files
  unfolding sync_each sync_rule
  Tidy-sync_each [] m law t = t
  Tidy-sync_each (incoming ∷ rules) m law t =
      let stored = record (incoming.rule) { updated_at = incoming.now } in
      let start = record m { rules = insert stored.id stored m.rules } in
      let next = save_rule-Wrote stored incoming.written start in
      Tidy-sync_each rules (sync_rule marshal incoming m) law
        (Tidy-Wrote m.files (sync_rule marshal incoming m).files law next t)
