-- ===== src/Rules/Address.antt =====
-- types.go: address ranges. `net.IP` is a list of bytes, and `To4`, `To16` and `IPNet.Contains` are
-- those of the standard library.
pub mod Compare
use gki_pass.Base.{
  Bool, List, Option, [], bit_and, drop, false, if◌then◌else◌, length, ltb, none, some, take, true,
  ℕ, ◌&&◌, ◌++◌, ◌==◌, ◌||◌, ◌∷◌,
}
use gki_pass.Base.Maps.{nat_eq, string_eq}
use gki_pass.Base.Int.{int_eq}

-- Prefix of an IPv4 address in its 16-byte form.
abbrev pub v4_prefix : List ℕ
v4_prefix = 0 ∷ 0 ∷ 0 ∷ 0 ∷ 0 ∷ 0 ∷ 0 ∷ 0 ∷ 0 ∷ 0 ∷ 255 ∷ 255 ∷ []

-- Whether two strings have the same bytes.
unfoldable pub same_bytes : List ℕ → List ℕ → Bool
same_bytes [] [] = true
same_bytes (a ∷ xs) (b ∷ ys) = a == b && same_bytes xs ys
same_bytes _ _ = false

-- `ip.To16()`; nil is the empty list.
unfoldable pub to_16 : List ℕ → List ℕ
to_16 ip = if length ip == 4 then v4_prefix ++ ip else if length ip == 16 then ip else []

-- `ip.To4()`; nil is the empty list.
unfoldable pub to_4 : List ℕ → List ℕ
unfolding same_bytes
to_4 ip =
    if length ip == 4
    then ip
    else if length ip == 16 && same_bytes (take 12 ip) v4_prefix
    then drop 12 ip
    else []

pub record IpNet : Type 0 where
  pub ip : List ℕ
  pub mask : List ℕ

masked : List ℕ → List ℕ → List ℕ → Bool
masked [] [] [] = true
masked (n ∷ ns) (m ∷ ms) (x ∷ xs) = bit_and n m == bit_and x m && masked ns ms xs
masked _ _ _ = false

-- `ip.To4()`, or the address itself.
short_form : List ℕ → List ℕ
short_form ip = elim (to_4 ip) [ [] ↦ ip | b ∷ ys ↦ b ∷ ys ]

-- `networkNumberAndMask`
network_number : IpNet → List ℕ × List ℕ
unfolding short_form
network_number net =
    let n = short_form net.ip in
    if length n == 4 && length net.mask == 16
    then (n, drop 12 net.mask)
    else if (length n == 4 || length n == 16) && length n == length net.mask
    then (n, net.mask)
    else ([], [])

-- `IPNet.Contains`
unfoldable pub net_contains : IpNet → List ℕ → Bool
unfolding masked network_number
net_contains net ip = let (n, mask) = network_number net in masked n mask (short_form ip)

-- `IPRange`; a nil address is `none`.
pub record IpRange : Type 0 where
  pub network : Option IpNet
  pub start : Option (List ℕ)
  pub end : Option (List ℕ)

-- The result of a comparison: -1, 0 or 1.
pub data Comparison : Type 0 where
  less same more : Comparison

-- The loop of `bytesCompare`, up to the end of the shorter list.
unfoldable pub compare_bytes : List ℕ → List ℕ → Comparison
compare_bytes [] ys = same
compare_bytes (a ∷ xs) [] = same
compare_bytes (a ∷ xs) (b ∷ ys) =
    let rest = compare_bytes xs ys in if ltb a b then less else if ltb b a then more else rest

-- `bytesCompare`
unfoldable pub bytes_compare : List ℕ → List ℕ → Comparison
bytes_compare a b = compare_bytes (to_16 a) (to_16 b)

abbrev pub at_least : Comparison → Bool
at_least less = false
at_least _ = true

abbrev pub at_most : Comparison → Bool
at_most more = false
at_most _ = true

between : Option (List ℕ) → Option (List ℕ) → List ℕ → Bool
between (some s) (some e) ip = at_least (bytes_compare ip s) && at_most (bytes_compare ip e)
between _ _ ip = false

-- `IPRange.Contains`
unfoldable pub ip_range_contains : IpRange → List ℕ → Bool
unfolding between
ip_range_contains r ip = elim r.network [
  | some net ↦ net_contains net ip
  | none ↦ between r.start r.end ip
]
