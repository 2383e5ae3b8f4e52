-- ===== src/Relay/Balance/Choice.antt =====
-- What the balancer of client/internal/relay/load_balancer.go chooses.
use gki_pass.Base.{
  Bool-cases, List, Memᴰ, [], arith, inl, inr, leb, length, refl, some, suc, sym, true, zero, ℕ,
  ◌<◌, ◌^◌, ◌∷◌, ◌≡◌,
}
use gki_pass.Base.Maps.{nat_eq, string_eq}
use gki_pass.Base.Int.{int_eq}
use gki_pass.Base.Signed.{le_64, sub_64}
use gki_pass.Base.Elements.{All}
use gki_pass.Relay.Balance.{Answer, Backend, at_index, chosen, least, subtract_weights}
use Prim.{tt}
use mathlib.Core.List.Memᴰ

-- A backend of the list that is handed out.
abbrev pub IsChosen : List Backend → Answer → Type 0
IsChosen bs r = (b : Backend) × (r ≡ chosen b) × Memᴰ b bs

pub at_index-IsChosen : (bs : List Backend) (i : ℕ) → i < length bs → IsChosen bs (at_index bs i)
unfolding at_index
at_index-IsChosen [] i h = absurd (omega arith)
at_index-IsChosen (b ∷ bs) zero h = (b, refl, Memᴰ.head refl)
at_index-IsChosen (b ∷ bs) (suc i) h =
    let (c, e, m) = at_index-IsChosen bs i (omega arith) in (c, e, Memᴰ.tail m)

pub subtract_weights-Chosen :
    (bs : List Backend) (r : ℕ) {b : Backend} → subtract_weights bs r ≡ some b → Memᴰ b bs
unfolding subtract_weights
subtract_weights-Chosen [] r e = absurd (ground arith)
subtract_weights-Chosen (b ∷ bs) r e = elim (Bool-cases (leb (2 ^ 63) (sub_64 r b.weight))) [
  | inl f ↦ let same : b ≡ _ = ground (arith, e, f) in Memᴰ.head (sym same)
  | inr f ↦ Memᴰ.tail (subtract_weights-Chosen bs (sub_64 r b.weight) (ground (arith, e, f)))
]

-- Started from a backend, the loop ends at one with the fewest connections, as signed integers.
pub least_lem :
    (bs : List Backend) (s : Backend)
    → (b : Backend) × (least bs s.active_conns (some s) ≡ some b)
      × Memᴰ b (s ∷ bs)
      × All (λ c. le_64 b.active_conns c.active_conns ≡ true) (s ∷ bs)
unfolding least
least_lem [] s = (s, refl, Memᴰ.head refl, (ground arith, tt))
least_lem (c ∷ bs) s = elim (Bool-cases (le_64 s.active_conns c.active_conns)) [
  | inl e ↦
      let (b, eq, m, (le, rest)) = least_lem bs s in
      (b, ground (arith, e, eq), past m, (le, (ground (arith, e, le), rest)))
  | inr e ↦
      let (b, eq, m, (le, rest)) = least_lem bs c in
      (b, ground (arith, e, eq), Memᴰ.tail m, (ground (arith, e, le), (le, rest)))
]
  where
    past : {b : Backend} → Memᴰ b (s ∷ bs) → Memᴰ b (s ∷ c ∷ bs)
    past m = elim (Memᴰ.cases_cons m) [
      | inl same ↦ Memᴰ.head same
      | inr there ↦ Memᴰ.tail (Memᴰ.tail there)
    ]
