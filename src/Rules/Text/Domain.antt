-- ===== src/Rules/Text/Domain.antt =====
-- types.go: which domains a pattern matches.
use gki_pass.Base.{
  Bool-cases, List, [], ap, ap₂, arith, drop, false, inl, inr, length, length-append, refl, subst,
  sym, take, take-append-drop, true, ℕ, ◌++◌, ◌-◌, ◌<◌, ◌↔◌, ◌∙◌, ◌∷◌, ◌≡◌, ◌≤◌, ◌⊎◌,
}
use gki_pass.Base.Maps.{nat_eq, string_eq}
use gki_pass.Base.Int.{int_eq}
use gki_pass.Rules.Address.{same_bytes}
use gki_pass.Rules.Text.{dot, match_domain, star}
use gki_pass.Rules.Text.Search.{drop-length, same_bytes_iff}

-- The pattern is `*.` and a name that is not empty, and the domain ends in the dot and the name.
abbrev pub Wildcard : List ℕ → List ℕ → Type 0
Wildcard domain wanted =
    (before : List ℕ) × (name : List ℕ) × (0 < length name)
    × (wanted ≡ star ∷ dot ∷ name)
    × (domain ≡ before ++ (dot ∷ name))

ends-before :
    (suffix domain : List ℕ)
    → length suffix ≤ length domain
    → drop (length domain - length suffix) domain ≡ suffix
    → domain ≡ take (length domain - length suffix) domain ++ suffix
ends-before suffix domain h e =
    let cut = length domain - length suffix in
    sym (take-append-drop cut domain) ∙ ap (λ t. take cut domain ++ t) e

drop-before :
    (before suffix domain : List ℕ)
    → domain ≡ before ++ suffix
    → (length suffix ≤ length domain) × (drop (length domain - length suffix) domain ≡ suffix)
drop-before before suffix domain e =
    let total = ap length e ∙ length-append before suffix in
    let cut : length domain - length suffix ≡ length before = omega arith in
    (
      omega arith,
      ap (λ n. drop n domain) cut ∙ ap (drop (length before)) e ∙ drop-length before suffix,
    )

covered :
    (domain : List ℕ) (a b : ℕ) (name : List ℕ)
    → 0 < length name
    → a ∷ b ∷ [] ≡ star ∷ dot ∷ []
    → length (b ∷ name) ≤ length domain
    → drop (length domain - length (b ∷ name)) domain ≡ b ∷ name
    → Wildcard domain (a ∷ b ∷ name)
covered domain a b name long head fits e =
    let a_star : a ≡ star = cc in
    let b_dot : b ≡ dot = cc in
    (
      take (length domain - length (b ∷ name)) domain,
      name,
      long,
      ap₂ (λ x y. x ∷ y ∷ name) a_star b_dot,
      ends-before (b ∷ name) domain fits e
          ∙ ap (λ y. take (length domain - length (b ∷ name)) domain ++ (y ∷ name)) b_dot,
    )

rest-Wildcard :
    (domain wanted : List ℕ)
    → match_domain domain wanted ≡ true
    → same_bytes wanted (star ∷ []) ≡ false
    → same_bytes wanted domain ≡ false
    → Wildcard domain wanted
unfolding match_domain
rest-Wildcard domain [] h x y = absurd (ground arith)
rest-Wildcard domain (a ∷ []) h x y = absurd (ground arith)
rest-Wildcard domain (a ∷ b ∷ name) h x y =
    let suffix = b ∷ name in
    let there = drop (length domain - length suffix) domain in
    let head = same_bytes_iff (a ∷ b ∷ []) (star ∷ dot ∷ []) in
    let ending = same_bytes_iff there suffix in
    covered domain a b name (ground arith) (head.0 (ground arith)) (ground arith)
      (ending.0 (ground arith))

-- A domain matches a pattern exactly if the pattern is `*`, if it is the domain, or if it is a
-- wildcard that covers the domain.
pub match_domain-Wildcard :
    (domain wanted : List ℕ)
    → (match_domain domain wanted ≡ true)
      ↔ ((wanted ≡ star ∷ []) ⊎ (wanted ≡ domain) ⊎ Wildcard domain wanted)
unfolding match_domain
match_domain-Wildcard domain wanted = (to, from)
  where
    to :
        match_domain domain wanted ≡ true
        → (wanted ≡ star ∷ []) ⊎ (wanted ≡ domain) ⊎ Wildcard domain wanted
    to h = elim (Bool-cases (same_bytes wanted (star ∷ []))) [
      | inl x ↦ inl ((same_bytes_iff wanted (star ∷ [])).0 x)
      | inr x ↦ elim (Bool-cases (same_bytes wanted domain)) [
        | inl y ↦ inr (inl ((same_bytes_iff wanted domain).0 y))
        | inr y ↦ inr (inr (rest-Wildcard domain wanted h x y))
      ]
    ]

    from :
        (wanted ≡ star ∷ []) ⊎ (wanted ≡ domain) ⊎ Wildcard domain wanted
        → match_domain domain wanted ≡ true
    from (inl e) = ground (arith, (same_bytes_iff wanted (star ∷ [])).1 e)
    from (inr (inl e)) = ground (arith, (same_bytes_iff wanted domain).1 e)
    from (inr (inr (before, name, long, e, f))) =
        let ending = drop-before before (dot ∷ name) domain f in
        let there = drop (length domain - length (dot ∷ name)) domain in
        let tail = (same_bytes_iff there (dot ∷ name)).1 ending.1 in
        let head = (same_bytes_iff (star ∷ dot ∷ []) (star ∷ dot ∷ [])).1 refl in
        subst (λ w. match_domain domain w ≡ true) (sym e) (ground (arith, ending.0, tail, head))
