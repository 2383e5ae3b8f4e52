-- ===== src/Rules/Address/Compare.antt =====
-- types.go: the order of addresses is that of the numbers that they write.
use gki_pass.Base.{
  List, [], ap, ap₂, arith, dec_lt, inl, inr, length, none, refl, some, subst, suc, sym, true, ℕ,
  ◌&&◌, ◌*◌, ◌+◌, ◌<◌, ◌↔◌, ◌∙◌, ◌∷◌, ◌≡◌, ◌≤◌, ◌⊎◌,
}
use gki_pass.Base.Maps.{nat_eq, string_eq}
use gki_pass.Base.Int.{int_eq}
use gki_pass.Base.Words.{Bytes}
use gki_pass.Rules.Address.{
  Comparison, at_least, at_most, bytes_compare, compare_bytes, ip_range_contains, less, more, same,
  to_16,
}
use native.Mathlib.Nat.{mul-le-mul_right, suc-mul}

-- 256 to the length of the list.
weight : List ℕ → ℕ
weight [] = 1
weight (b ∷ ys) = 256 * weight ys

-- The number that a list of bytes writes, the first byte the highest.
unfoldable pub number : List ℕ → ℕ
unfolding weight
number [] = 0
number (b ∷ ys) = b * weight ys + number ys

number_small : (ys : List ℕ) → Bytes ys → number ys < weight ys
unfolding number weight
number_small [] h = omega arith
number_small (b ∷ ys) h =
    let full : suc b ≤ 256 = omega (arith, h.0) in
    omega (arith, mul-le-mul_right (weight ys) full, suc-mul b (weight ys), number_small ys h.1)

weight-length : (xs ys : List ℕ) → length xs ≡ length ys → weight xs ≡ weight ys
unfolding weight
weight-length [] [] e = refl
weight-length [] (y ∷ ys) e = absurd (omega arith)
weight-length (x ∷ xs) [] e = absurd (omega arith)
weight-length (x ∷ xs) (y ∷ ys) e = omega (arith, weight-length xs ys (omega arith))

-- The first bytes decide unless they are the same.
first_decides :
    (a b : ℕ) (xs ys : List ℕ)
    → Bytes xs
    → length xs ≡ length ys
    → a < b
    → number (a ∷ xs) < number (b ∷ ys)
unfolding number
first_decides a b xs ys h e p =
    let next : suc a ≤ b = omega (arith, p) in
    omega (
      arith,
      mul-le-mul_right (weight ys) next,
      suc-mul a (weight ys),
      number_small xs h,
      weight-length xs ys e,
      ap (λ w. a * w) (weight-length xs ys e),
    )

-- What a comparison of numbers says.
abbrev pub Says : Comparison → ℕ → ℕ → Type 0
Says less a b = a < b
Says same a b = a ≡ b
Says more a b = b < a

Says-add : (c : Comparison) (n a b : ℕ) → Says c a b → Says c (n + a) (n + b)
Says-add less n a b h = omega (arith, h)
Says-add same n a b h = ap (λ x. n + x) h
Says-add more n a b h = omega (arith, h)

by_first :
    (a b : ℕ) (xs ys : List ℕ)
    → Bytes xs
    → Bytes ys
    → length xs ≡ length ys
    → Says (compare_bytes xs ys) (number xs) (number ys)
    → Says (compare_bytes (a ∷ xs) (b ∷ ys)) (number (a ∷ xs)) (number (b ∷ ys))
unfolding compare_bytes number
by_first a b xs ys h k e rest = elim (dec_lt a b) [
  | yes p ↦
      let c : compare_bytes (a ∷ xs) (b ∷ ys) ≡ less = is_less p in
      rw c (first_decides a b xs ys h e p)
  | no p ↦ elim (dec_lt b a) [
    | yes q ↦
        let c : compare_bytes (a ∷ xs) (b ∷ ys) ≡ more = is_more q in
        rw c (first_decides b a ys xs k (sym e) q)
    | no q ↦
        let c : compare_bytes (a ∷ xs) (b ∷ ys) ≡ compare_bytes xs ys = is_rest p q in
        let w : a * weight xs ≡ b * weight ys =
          ap₂ (λ x y. x * y) (omega arith) (weight-length xs ys e) in
        rw c (
          subst (λ x. Says (compare_bytes xs ys) (a * weight xs + number xs) (x + number ys)) w
            (Says-add (compare_bytes xs ys) (a * weight xs) (number xs) (number ys) rest))
  ]
]
  where
    is_less : a < b → compare_bytes (a ∷ xs) (b ∷ ys) ≡ less
    is_less p = ground arith

    is_more : b < a → compare_bytes (a ∷ xs) (b ∷ ys) ≡ more
    is_more q = ground arith

    is_rest : ¬ (a < b) → ¬ (b < a) → compare_bytes (a ∷ xs) (b ∷ ys) ≡ compare_bytes xs ys
    is_rest p q = ground arith

compare_bytes-Says :
    (xs ys : List ℕ)
    → Bytes xs
    → Bytes ys
    → length xs ≡ length ys
    → Says (compare_bytes xs ys) (number xs) (number ys)
unfolding compare_bytes number
compare_bytes-Says [] [] h k e = refl
compare_bytes-Says [] (b ∷ ys) h k e = absurd (omega arith)
compare_bytes-Says (a ∷ xs) [] h k e = absurd (omega arith)
compare_bytes-Says (a ∷ xs) (b ∷ ys) h k e =
    by_first a b xs ys h.1 k.1 (omega arith) (compare_bytes-Says xs ys h.1 k.1 (omega arith))

-- Sixteen bytes, or four, as `net.IP` has them.
abbrev pub IsAddress : List ℕ → Type 0
IsAddress ip = ((length ip ≡ 4) ⊎ (length ip ≡ 16)) × Bytes ip

to_16-IsAddress : (ip : List ℕ) → IsAddress ip → (length (to_16 ip) ≡ 16) × Bytes (to_16 ip)
unfolding to_16
to_16-IsAddress ip (inl e, h) = ground arith
to_16-IsAddress ip (inr e, h) = ground arith

bytes_compare-Says :
    (a b : List ℕ)
    → IsAddress a
    → IsAddress b
    → Says (bytes_compare a b) (number (to_16 a)) (number (to_16 b))
unfolding bytes_compare
bytes_compare-Says a b h k =
    let (la, ba) = to_16-IsAddress a h in
    let (lb, bb) = to_16-IsAddress b k in compare_bytes-Says (to_16 a) (to_16 b) ba bb (la ∙ sym lb)

tests-number :
    (c d : Comparison) (s e n : ℕ)
    → Says c n s
    → Says d n e
    → ((at_least c && at_most d) ≡ true) ↔ ((s ≤ n) × (n ≤ e))
tests-number less d s e n h k = ground arith
tests-number same less s e n h k = ground arith
tests-number same same s e n h k = ground arith
tests-number same more s e n h k = ground arith
tests-number more less s e n h k = ground arith
tests-number more same s e n h k = ground arith
tests-number more more s e n h k = ground arith

-- An address is in a range without a network, from a start to an end that are addresses, exactly if
-- as a number in its 16-byte form it is neither below the start nor above the end.
pub ip_range_contains-number :
    (s e ip : List ℕ)
    → IsAddress s
    → IsAddress e
    → IsAddress ip
    → (ip_range_contains (record { network = none; start = some s; end = some e }) ip ≡ true)
      ↔ ((number (to_16 s) ≤ number (to_16 ip)) × (number (to_16 ip) ≤ number (to_16 e)))
unfolding ip_range_contains
ip_range_contains-number s e ip hs he hip =
    tests-number (bytes_compare ip s) (bytes_compare ip e) (number (to_16 s)) (number (to_16 e))
      (number (to_16 ip)) (bytes_compare-Says ip s hip hs) (bytes_compare-Says ip e hip he)
