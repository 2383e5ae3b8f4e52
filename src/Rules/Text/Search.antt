-- ===== src/Rules/Text/Search.antt =====
-- types.go: what the searches for keywords and domains find.
use gki_pass.Base.{
  Bool-cases, List, Option-cases, [], ap, arith, drop, inl, inr, length, length-append, none, refl,
  some, suc, sym, take, take-append-drop, true, zero, ℕ, ℕ_discrete, ◌++◌, ◌+◌, ◌-◌, ◌<◌, ◌↔◌, ◌∙◌,
  ◌∷◌, ◌≡◌, ◌≢◌, ◌≤◌,
}
use gki_pass.Base.Maps.{nat_eq, string_eq}
use gki_pass.Base.Int.{int_eq}
use gki_pass.Rules.Address.{same_bytes}
use gki_pass.Rules.Text.{contains, index_from, index_of}

pub same_bytes_iff : (xs ys : List ℕ) → (same_bytes xs ys ≡ true) ↔ (xs ≡ ys)
unfolding same_bytes
same_bytes_iff [] [] = ((λ h. refl), λ h. refl)
same_bytes_iff [] (y ∷ ys) = ((λ h. cc), λ h. cc)
same_bytes_iff (x ∷ xs) [] = ((λ h. cc), λ h. cc)
same_bytes_iff (x ∷ xs) (y ∷ ys) = ground (arith, same_bytes_iff xs ys)

-- One string stands in another.
abbrev pub Within : List ℕ → List ℕ → Type 0
Within substr s = (before : List ℕ) × (after : List ℕ) × (s ≡ before ++ (substr ++ after))

take-length : (xs ys : List ℕ) → take (length xs) (xs ++ ys) ≡ xs
take-length [] ys = refl
take-length (x ∷ xs) ys = ap (◌∷◌ x) (take-length xs ys)

pub drop-length : (xs ys : List ℕ) → drop (length xs) (xs ++ ys) ≡ ys
drop-length [] ys = refl
drop-length (x ∷ xs) ys = drop-length xs ys

index_from-Within :
    (rounds i : ℕ) (s substr : List ℕ) (k : ℕ)
    → index_from rounds i s substr ≡ some k
    → Within substr s
unfolding index_from
index_from-Within zero i s substr k e = cc
index_from-Within (suc rounds) i s substr k e =
    elim (Bool-cases (same_bytes (take (length substr) (drop i s)) substr)) [
      | inl here ↦
          let found = (same_bytes_iff (take (length substr) (drop i s)) substr).0 here in
          (
            take i s,
            drop (length substr) (drop i s),
            sym (take-append-drop i s)
                ∙ ap (λ t. take i s ++ t) (sym (take-append-drop (length substr) (drop i s)))
                ∙ ap (λ t. take i s ++ (t ++ drop (length substr) (drop i s))) found,
          )
      | inr later ↦ index_from-Within rounds (i + 1) s substr k (ground arith)
    ]

-- A search that reaches the place finds something.
index_from-found :
    (rounds i : ℕ) (s substr : List ℕ) (j : ℕ)
    → i ≤ j
    → j < i + rounds
    → take (length substr) (drop j s) ≡ substr
    → index_from rounds i s substr ≢ none
unfolding index_from
index_from-found zero i s substr j h k e = absurd (omega arith)
index_from-found (suc rounds) i s substr j h k e = elim (ℕ_discrete i j) [
  | yes here ↦
      let hit = (same_bytes_iff (take (length substr) (drop j s)) substr).1 e in
      let place = ap (λ n. take (length substr) (drop n s)) here in ground (arith, hit, place)
  | no later ↦
      let rest = index_from-found rounds (i + 1) s substr j (omega arith) (omega arith) e in
      ground (arith, rest)
]

-- A string contains another exactly if the other stands in it.
pub contains-Within : (s substr : List ℕ) → (contains s substr ≡ true) ↔ Within substr s
unfolding contains index_of
contains-Within s substr = (to, from)
  where
    to : contains s substr ≡ true → Within substr s
    to h = elim (Option-cases (index_of s substr)) [
      | inl e ↦ absurd (ground arith)
      | inr (k, e) ↦ index_from-Within (length s + 1 - length substr) 0 s substr k e
    ]

    from : Within substr s → contains s substr ≡ true
    from (before, after, e) =
        let total = ap length e ∙ length-append before (substr ++ after) in
        let rest = length-append substr after in
        let there =
          ap (λ t. take (length substr) (drop (length before) t)) e
          ∙ ap (take (length substr)) (drop-length before (substr ++ after))
          ∙ take-length substr after in
        let found =
          index_from-found (length s + 1 - length substr) 0 s substr (length before) (omega arith)
            (omega arith) there in
        elim (Option-cases (index_of s substr)) [
          | inl missing ↦ absurd (found missing)
          | inr (k, at) ↦ ground arith
        ]
