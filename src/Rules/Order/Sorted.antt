-- ===== src/Rules/Order/Sorted.antt =====
-- types.go: `SortByPriority` sorts, and keeps the order of rules of one priority.
use gki_pass.Base.{
  Bool, List, [], ap, append-nil, append_assoc, arith, false, if◌then◌else◌, length, refl, subst,
  suc, sym, true, zero, ℕ, ◌++◌, ◌-◌, ◌<◌, ◌∙◌, ◌∷◌, ◌≡◌,
}
use gki_pass.Base.Maps.{nat_eq, string_eq}
use gki_pass.Base.Int.{eq_ℤ, eq_ℤ_iff, int_eq, ltb_ℤ, negsuc, pos, ℤ}
use gki_pass.Rules.{Rule}
use gki_pass.Base.Elements.{All, filter}
use gki_pass.Rules.Order.{RuleSet, bubble, bubble_rounds, sort_by_priority}

-- The first rule's priority is not lower.
abbrev pub NotBelow : Rule → Rule → Type 0
NotBelow a b = ltb_ℤ a.priority b.priority ≡ false

-- Each rule's priority is not below that of any later one.
abbrev pub Descending : List Rule → Type 0
Descending [] = Unit {0}
Descending (a ∷ rules) = All (NotBelow a) rules × Descending rules

-- The rules of one priority, in their order.
abbrev pub of_priority : ℤ → List Rule → List Rule
of_priority p rules = filter (λ rule. eq_ℤ rule.priority p) rules

not_lt_trans : (a b c : ℤ) → ltb_ℤ a b ≡ false → ltb_ℤ b c ≡ false → ltb_ℤ a c ≡ false
not_lt_trans (pos a) (pos b) (pos c) h k = ground arith
not_lt_trans (pos a) (pos b) (negsuc c) h k = refl
not_lt_trans (pos a) (negsuc b) (pos c) h k = absurd (ground arith)
not_lt_trans (pos a) (negsuc b) (negsuc c) h k = refl
not_lt_trans (negsuc a) (pos b) c h k = absurd (ground arith)
not_lt_trans (negsuc a) (negsuc b) (pos c) h k = absurd (ground arith)
not_lt_trans (negsuc a) (negsuc b) (negsuc c) h k = ground arith

lt→not_lt : (a b : ℤ) → ltb_ℤ a b ≡ true → (ltb_ℤ b a ≡ false) × (eq_ℤ a b ≡ false)
lt→not_lt (pos a) (pos b) h = ground arith
lt→not_lt (pos a) (negsuc b) h = absurd (ground arith)
lt→not_lt (negsuc a) (pos b) h = (refl, refl)
lt→not_lt (negsuc a) (negsuc b) h = ground arith

pick : (P : Rule → Type 0) {a b : Rule} (c : Bool) → P a → P b → P (if c then a else b)
pick P true pa pb = pa
pick P false pa pb = pb

All-bubble : (P : Rule → Type 0) (n : ℕ) (rules : List Rule) → All P rules → All P (bubble n rules)
unfolding bubble
All-bubble P zero rules h = h
All-bubble P (suc n) [] h = h
All-bubble P (suc n) (a ∷ []) h = h
All-bubble P (suc n) (a ∷ b ∷ rules) (pa, (pb, h)) =
    let swap = ltb_ℤ a.priority b.priority in
    (pick P swap pb pa, All-bubble P n ((if swap then a else b) ∷ rules) (pick P swap pa pb, h))

-- A swap leaves the rules of each priority in order.
of_priority-bubble :
    (p : ℤ) (n : ℕ) (rules : List Rule) → of_priority p (bubble n rules) ≡ of_priority p rules
unfolding bubble
of_priority-bubble p zero rules = refl
of_priority-bubble p (suc n) [] = refl
of_priority-bubble p (suc n) (a ∷ []) = refl
of_priority-bubble p (suc n) (a ∷ b ∷ rules) =
    let first = eq_ℤ_iff a.priority p in
    let second = eq_ℤ_iff b.priority p in
    let distinct = lt→not_lt a.priority b.priority in
    let swap = ltb_ℤ a.priority b.priority in
    let rest = of_priority-bubble p n ((if swap then a else b) ∷ rules) in ground (arith, rest)

-- A round that goes over all leaves the rest alone.
bubble-append :
    (n : ℕ) (front rest : List Rule)
    → n < length front
    → bubble n (front ++ rest) ≡ bubble n front ++ rest
unfolding bubble
bubble-append zero front rest h = refl
bubble-append (suc n) [] rest h = absurd (omega arith)
bubble-append (suc n) (a ∷ []) rest h = absurd (omega arith)
bubble-append (suc n) (a ∷ b ∷ front) rest h =
    let swap = ltb_ℤ a.priority b.priority in
    ap (◌∷◌ (if swap then b else a))
      (bubble-append n ((if swap then a else b) ∷ front) rest (omega arith))

All-append :
    (P : Rule → Type 0) (front rest : List Rule) → All P (front ++ rest) → All P front × All P rest
All-append P [] rest h = (tt, h)
All-append P (a ∷ front) rest (pa, h) =
    let both = All-append P front rest h in ((pa, both.0), both.1)

not_lt_refl : (a : ℤ) → ltb_ℤ a a ≡ false
not_lt_refl (pos a) = ground arith
not_lt_refl (negsuc a) = ground arith

carry :
    (a b final : Rule)
    → NotBelow (if ltb_ℤ a.priority b.priority then a else b) final
    → NotBelow (if ltb_ℤ a.priority b.priority then b else a) final × NotBelow a final
carry a b final h =
    let order = lt→not_lt a.priority b.priority in
    let over = not_lt_trans a.priority b.priority final.priority in
    let under = not_lt_trans b.priority a.priority final.priority in
    ground (arith, order, over, under)

-- A round over all the rules puts one at the end that is not above any other.
abbrev Settled : Rule → List Rule → Type 0
Settled a rules =
    (front : List Rule) × (final : Rule) × (bubble (length rules) (a ∷ rules)
      ≡ front ++ (final ∷ []))
    × (length front ≡ length rules)
    × All (λ b. NotBelow b final) front
    × NotBelow a final

bubble-Settled : (a : Rule) (rules : List Rule) → Settled a rules
unfolding bubble
bubble-Settled a [] = ([], a, refl, refl, tt, not_lt_refl a.priority)
bubble-Settled a (b ∷ rules) =
    let swap = ltb_ℤ a.priority b.priority in
    let (front, final, e, long, above, carried) = bubble-Settled (if swap then a else b) rules in
    let ends = carry a b final carried in
    (
      (if swap then b else a) ∷ front,
      final,
      ap (◌∷◌ (if swap then b else a)) e,
      omega arith,
      (ends.0, above),
      ends.1,
    )

All-both :
    (P Q : Rule → Type 0) (rules : List Rule)
    → All P rules
    → All Q rules
    → All (λ r. P r × Q r) rules
All-both P Q [] h k = tt
All-both P Q (a ∷ rules) h k = ((h.0, k.0), All-both P Q rules h.1 k.1)

-- The rules that the rounds have still to order stand before those in place, and are not below them.
bubble_rounds-Descending :
    (n : ℕ) (front rest : List Rule)
    → length front ≡ suc n
    → Descending rest
    → All (λ a. All (NotBelow a) rest) front
    → Descending (bubble_rounds n (front ++ rest))
unfolding bubble_rounds
bubble_rounds-Descending n [] rest long ordered above = absurd (omega arith)
bubble_rounds-Descending zero (a ∷ []) rest long ordered above = (above.0, ordered)
bubble_rounds-Descending zero (a ∷ b ∷ front) rest long ordered above = absurd (omega arith)
bubble_rounds-Descending (suc n) (a ∷ rules) rest long ordered above =
    let (front, final, e, fits, over, _) = bubble-Settled a rules in
    let rounds : suc n ≡ length rules = omega arith in
    let whole : bubble (suc n) (a ∷ rules) ≡ front ++ (final ∷ []) =
      ap (λ k. bubble k (a ∷ rules)) rounds ∙ e in
    let kept =
      All-append (λ r. All (NotBelow r) rest) front (final ∷ [])
        (subst (All (λ r. All (NotBelow r) rest)) whole
          (All-bubble (λ r. All (NotBelow r) rest) (suc n) (a ∷ rules) above)) in
    let next : bubble (suc n) (a ∷ rules ++ rest) ≡ front ++ (final ∷ rest) =
      bubble-append (suc n) (a ∷ rules) rest (omega arith)
      ∙ ap (λ xs. xs ++ rest) whole
      ∙ append_assoc front (final ∷ []) rest in
    subst (λ xs. Descending (bubble_rounds n xs)) (sym next)
      (bubble_rounds-Descending n front (final ∷ rest) (omega arith) (kept.1.0, ordered)
        (All-both (λ r. NotBelow r final) (λ r. All (NotBelow r) rest) front over kept.0))

of_priority-bubble_rounds :
    (p : ℤ) (n : ℕ) (rules : List Rule)
    → of_priority p (bubble_rounds n rules) ≡ of_priority p rules
unfolding bubble_rounds
of_priority-bubble_rounds p zero rules = refl
of_priority-bubble_rounds p (suc n) rules =
    of_priority-bubble_rounds p n (bubble (suc n) rules) ∙ of_priority-bubble p (suc n) rules

-- Sorting leaves each rule's priority not below that of any later one, keeps the rules of each
-- priority in their order, so that it loses and adds none, and changes no other field of the set.
pub sort_by_priority_lem :
    (s : RuleSet)
    → Descending (sort_by_priority s).rules
      × ((p : ℤ) → of_priority p (sort_by_priority s).rules ≡ of_priority p s.rules)
      × (record (sort_by_priority s) { rules = s.rules } ≡ s)
unfolding sort_by_priority bubble_rounds
sort_by_priority_lem s =
    (sorted s.rules, λ p. of_priority-bubble_rounds p (length s.rules - 1) s.rules, refl)
  where
    every : (rules : List Rule) → All (λ r. All (NotBelow r) []) rules
    every [] = tt
    every (a ∷ rules) = (tt, every rules)

    sorted : (rules : List Rule) → Descending (bubble_rounds (length rules - 1) rules)
    sorted [] = tt
    sorted (a ∷ rules) =
        let rounds : length rules ≡ suc (length rules) - 1 = omega arith in
        subst (λ n. Descending (bubble_rounds n (a ∷ rules))) rounds
          (subst (λ xs. Descending (bubble_rounds (length rules) xs)) (append-nil (a ∷ rules))
            (bubble_rounds-Descending (length rules) (a ∷ rules) [] refl tt (every (a ∷ rules))))
