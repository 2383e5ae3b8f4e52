-- ===== src/Rules/Manager/Versions.antt =====
-- manager.go: versions, and the index by port.
use gki_pass.Base.{
  Bool, Bool-cases, List, Option, Option-cases, String, [], arith, if-cases, if◌then◌else◌, inl,
  inr, none, some, subst, sym, ℕ, ◌%◌, ◌+◌, ◌-◌, ◌<◌, ◌^◌, ◌∷◌, ◌≡◌, ◌≤◌,
}
use gki_pass.Base.Maps.{delete, insert, lookup, nat_eq, string_eq}
use gki_pass.Base.Int.{int_eq}
use gki_pass.Base.Signed.{le_64}
use gki_pass.Rules.{Rule}
use gki_pass.Rules.Manager.{Manager, add_rule, delete_rule, update_rule}
use gki_pass.Rules.Manager.Sync.{rules-save_rule}

-- No rule of the map has a version above the number.
abbrev pub UpTo : ℕ → List (String × Rule) → Type 0
UpTo n [] = Unit {0}
UpTo n ((id, rule) ∷ rules) = (rule.version ≤ n) × UpTo n rules

UpTo-insert :
    (n k : ℕ) (id : String) (rule : Rule) (rules : List (String × Rule))
    → rule.version ≤ k
    → n ≤ k
    → UpTo n rules
    → UpTo k (insert id rule rules)
unfolding insert
UpTo-insert n k id rule [] h b u = (h, tt)
UpTo-insert n k id rule ((j, old) ∷ rules) h b (v, u) =
    if-cases (UpTo k) (string_eq.beq j id) (λ e. (h, weaken rules u))
      (λ e. (omega arith, UpTo-insert n k id rule rules h b u))
  where
    weaken : (rules : List (String × Rule)) → UpTo n rules → UpTo k rules
    weaken [] u = tt
    weaken ((i, r) ∷ rules) (w, u) = (omega arith, weaken rules u)

UpTo-delete :
    (n : ℕ) (id : String) (rules : List (String × Rule)) → UpTo n rules → UpTo n (delete id rules)
unfolding delete
UpTo-delete n id [] u = tt
UpTo-delete n id ((j, old) ∷ rules) (v, u) =
    if-cases (UpTo n) (string_eq.beq j id) (λ e. UpTo-delete n id rules u)
      (λ e. (v, UpTo-delete n id rules u))

UpTo-lookup :
    (n : ℕ) (id : String) (rules : List (String × Rule)) (rule : Rule)
    → UpTo n rules
    → lookup id rules ≡ some rule
    → rule.version ≤ n
unfolding lookup
UpTo-lookup n id [] rule u e = absurd (ground arith)
UpTo-lookup n id ((j, old) ∷ rules) rule (v, u) e = elim (Bool-cases (string_eq.beq j id)) [
  | inl same ↦ ground (arith)
  | inr other ↦ UpTo-lookup n id rules rule u (ground arith)
]

module _ {C : Type 0} where
  -- From before a call to after it the version does not fall, and it bounds the rules' versions.
  abbrev pub Grows : Manager C → Manager C → Type 0
  Grows m later = (m.version ≤ later.version) × UpTo later.version later.rules

  Grows-of :
      (m later : Manager C) (n : ℕ) (rules : List (String × Rule))
      → later.version ≡ n
      → later.rules ≡ rules
      → m.version ≤ n
      → UpTo n rules
      → Grows m later
  Grows-of m later n rules e f h u =
      (omega arith, subst (λ k. UpTo k later.rules) (sym e) (subst (UpTo n) (sym f) u))

  delete_rule-Grows :
      (id : String) (removed : Bool) (m : Manager C)
      → UpTo m.version m.rules
      → Grows m (delete_rule id removed m).0
  unfolding delete_rule
  delete_rule-Grows id removed m u = elim (Option-cases (lookup id m.rules)) [
    | inl e ↦
        Grows-of m (delete_rule id removed m).0 m.version m.rules (ground arith) (ground arith)
          (omega arith) u
    | inr (rule, e) ↦
        Grows-of m (delete_rule id removed m).0 m.version (delete id m.rules) (ground arith)
          (ground arith) (omega arith) (UpTo-delete m.version id m.rules u)
  ]

module _ {C : Type 0} (marshal : Rule → Option C) where
  add_rule-Grows :
      (rule : Option Rule) (now : ℕ) (written : Bool) (m : Manager C)
      → m.version < 2 ^ 63 - 1
      → UpTo m.version m.rules
      → Grows m (add_rule marshal rule now written m).0
  unfolding add_rule
  add_rule-Grows none now written m h u = (omega arith, u)
  add_rule-Grows (some rule) now written m h u =
      let done = (add_rule marshal (some rule) now written m).0 in
      let version = (m.version + 1) % 2 ^ 64 in
      let stored = record rule { created_at = now; updated_at = now; version = version } in
      let rules = insert rule.id stored m.rules in
      let saved =
        rules-save_rule marshal stored written (record m { rules = rules; version = version }) in
      elim (Bool-cases (string_eq.beq rule.id "")) [
        | inl e ↦ Grows-of m done m.version m.rules (ground arith) (ground arith) (omega arith) u
        | inr e ↦ elim (Option-cases (lookup rule.id m.rules)) [
          | inr (old, f) ↦
              Grows-of m done m.version m.rules (ground arith) (ground arith) (omega arith) u
          | inl f ↦
              Grows-of m done version rules (ground (arith, saved)) (ground (arith, saved))
                (omega arith)
                (UpTo-insert m.version version rule.id stored m.rules (omega arith) (omega arith) u)
        ]
      ]

  update_rule-Grows :
      (rule : Option Rule) (now : ℕ) (written : Bool) (m : Manager C)
      → m.version < 2 ^ 63 - 1
      → UpTo m.version m.rules
      → Grows m (update_rule marshal rule now written m).0
  unfolding update_rule
  update_rule-Grows none now written m h u = (omega arith, u)
  update_rule-Grows (some rule) now written m h u =
      let done = (update_rule marshal (some rule) now written m).0 in
      elim (Bool-cases (string_eq.beq rule.id "")) [
        | inl e ↦ Grows-of m done m.version m.rules (ground arith) (ground arith) (omega arith) u
        | inr e ↦ elim (Option-cases (lookup rule.id m.rules)) [
          | inl f ↦ Grows-of m done m.version m.rules (ground arith) (ground arith) (omega arith) u
          | inr (old, f) ↦
              let version = (old.version + 1) % 2 ^ 64 in
              let stored = record rule {
                created_at = old.created_at;
                updated_at = now;
                version = version;
              } in
              let rules = insert rule.id stored m.rules in
              let most = if le_64 version m.version then m.version else version in
              let saved =
                rules-save_rule marshal stored written
                  (record m { rules = rules; version = most }) in
              let held = UpTo-lookup m.version rule.id m.rules old u f in
              let enough : (version ≤ most) × (m.version ≤ most) = ground arith in
              Grows-of m done most rules (ground (arith, saved)) (ground (arith, saved)) enough.1
                (UpTo-insert m.version most rule.id stored m.rules enough.0 enough.1 u)
        ]
      ]

  -- While no version is negative, no rule has one above the manager's, and the manager's is not the
  -- last one, adding, updating and deleting a rule, whether they succeed or fail, never lower the manager's version
  -- and leave no rule with a version above it.
  pub versions-Grows :
      (rule : Option Rule) (now : ℕ) (written : Bool) (id : String) (m : Manager C)
      → m.version < 2 ^ 63 - 1
      → UpTo m.version m.rules
      → Grows m (add_rule marshal rule now written m).0
        × Grows m (update_rule marshal rule now written m).0
        × Grows m (delete_rule id written m).0
  versions-Grows rule now written id m h u = (
    add_rule-Grows rule now written m h u,
    update_rule-Grows rule now written m h u,
    delete_rule-Grows id written m u,
  )
