-- ===== src/Base/Elements.antt =====
-- What holds of every element of a list, and tests that look for one.
use mathlib.Core.Bool.{Bool, false, true}
use mathlib.Core.Logic.{inl, inr, ◌↔◌}
use mathlib.Core.List.{List, [], ◌∷◌, Memᴰ}
use mathlib.Core.List.Memᴰ
use mathlib.Core.Path.{ap, refl, ◌∙◌, ◌≡◌}
use native.Mathlib.Omega.{arith}
use gki_pass.Base.Lists.{length}
use gki_pass.Base.Tests.{Bool-cases, if-cases, if◌then◌else◌}

module _ {ℓ} {A : Type ℓ} where
  -- A loop that stops at the first element that passes.
  abbrev pub any_of : (A → Bool) → List A → Bool
  any_of test [] = false
  any_of test (x ∷ xs) = if test x then true else any_of test xs

  abbrev pub filter : (A → Bool) → List A → List A
  filter test [] = []
  filter test (x ∷ xs) = let rest = filter test xs in if test x then x ∷ rest else rest

  pub any_of_iff :
      (test : A → Bool) (xs : List A)
      → (any_of test xs ≡ true) ↔ ((x : A) × Memᴰ x xs × (test x ≡ true))
  any_of_iff test xs = (to xs, from xs)
    where
      to : (xs : List A) → any_of test xs ≡ true → (x : A) × Memᴰ x xs × (test x ≡ true)
      to [] h = absurd (ground arith)
      to (y ∷ ys) h = elim (Bool-cases (test y)) [
        | inl e ↦ (y, Memᴰ.head refl, e)
        | inr e ↦ let found = to ys (ground arith) in (found.0, Memᴰ.tail found.1, found.2)
      ]

      from : (xs : List A) → ((x : A) × Memᴰ x xs × (test x ≡ true)) → any_of test xs ≡ true
      from [] (x, m, e) = elim m [ ]
      from (y ∷ ys) (x, m, e) = elim (Memᴰ.cases_cons m) [
        | inl same ↦ ground arith
        | inr there ↦ let found = from ys (x, there, e) in ground arith
      ]

  pub filter-Mem :
      (test : A → Bool) (xs : List A) {x : A}
      → Memᴰ x (filter test xs)
      → Memᴰ x xs × (test x ≡ true)
  filter-Mem test [] m = elim m [ ]
  filter-Mem test (y ∷ ys) {x} m =
      if-cases (λ l. Memᴰ x l → Memᴰ x (y ∷ ys) × (test x ≡ true)) (test y)
        (λ e m. elim (Memᴰ.cases_cons m) [
          | inl same ↦ (Memᴰ.head same, ap test same ∙ e)
          | inr there ↦ let (found, passes) = filter-Mem test ys there in (Memᴰ.tail found, passes)
        ])
        (λ e m. let (found, passes) = filter-Mem test ys m in (Memᴰ.tail found, passes)) m

  pub filter-none :
      (test : A → Bool) (xs : List A) {x : A}
      → length (filter test xs) ≡ 0
      → Memᴰ x xs
      → test x ≡ false
  filter-none test [] h m = elim m [ ]
  filter-none test (y ∷ ys) h m = elim (Bool-cases (test y)) [
    | inl e ↦ absurd (ground arith)
    | inr e ↦ elim (Memᴰ.cases_cons m) [
      | inl same ↦ ap test same ∙ e
      | inr there ↦ filter-none test ys (ground arith) there
    ]
  ]

  abbrev pub All {κ} : (A → Type κ) → List A → Type κ
  All P [] = Unit {κ}
  All P (x ∷ xs) = P x × All P xs
