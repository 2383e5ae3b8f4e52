-- ===== src/Multiplex/Session/Books.antt =====
-- session.go: the table of streams under the frames that come in.
-- Every stream of the table has its own books in order.
use gki_pass.Base.{
  List, [], arith, length, some, subst, suc, ℕ, ℕ_discrete, ◌<◌, ◌^◌, ◌∷◌, ◌≡◌, ◌≤◌,
}
use gki_pass.Base.Maps.{delete, insert, lookup, nat_eq}
use gki_pass.Multiplex.Stream.{Stream}
use gki_pass.Multiplex.Stream.Receive.{IsStream}
use gki_pass.Multiplex.Session.{Session}

abbrev pub AllSound : List (ℕ × Stream) → Type 0
AllSound [] = Unit
AllSound ((id, s) ∷ rest) = IsStream s × AllSound rest

-- The session's books: its streams are sound and no more than the configured number.
pub record IsSession (s : Session) : Type 0 where
  pub sound : AllSound s.streams
  pub bounded : length s.streams ≤ s.config.max_concurrent_streams
  pub window_small : s.config.initial_window_size < 2 ^ 63

pub AllSound-lookup :
    (id : ℕ) (m : List (ℕ × Stream)) (s : Stream) → AllSound m → lookup id m ≡ some s → IsStream s
unfolding lookup
AllSound-lookup id [] s v e = cc
AllSound-lookup id ((j, t) ∷ m) s v e = elim (ℕ_discrete j id) [
  | yes p ↦ subst IsStream (ground arith) v.0
  | no p ↦ AllSound-lookup id m s v.1 (ground arith)
]

pub AllSound-insert :
    (id : ℕ) (s : Stream) (m : List (ℕ × Stream))
    → IsStream s
    → AllSound m
    → AllSound (insert id s m)
unfolding insert
AllSound-insert id s [] v w = (v, tt)
AllSound-insert id s ((j, t) ∷ m) v w = ground (arith, AllSound-insert id s m v w.1)

pub AllSound-delete : (id : ℕ) (m : List (ℕ × Stream)) → AllSound m → AllSound (delete id m)
unfolding delete
AllSound-delete id [] w = tt
AllSound-delete id ((j, t) ∷ m) w = ground (arith, AllSound-delete id m w.1)

pub length-insert_le :
    (id : ℕ) (s : Stream) (m : List (ℕ × Stream)) → length (insert id s m) ≤ suc (length m)
unfolding insert
length-insert_le id s [] = omega arith
length-insert_le id s ((j, t) ∷ m) = ground (arith, length-insert_le id s m)

pub length-insert_known :
    (id : ℕ) (s t : Stream) (m : List (ℕ × Stream))
    → lookup id m ≡ some t
    → length (insert id s m) ≡ length m
unfolding insert lookup
length-insert_known id s t [] e = cc
length-insert_known id s t ((j, u) ∷ m) e = elim (ℕ_discrete j id) [
  | yes p ↦ ground arith
  | no p ↦ ground (arith, length-insert_known id s t m (ground arith))
]

pub length-delete_le : (id : ℕ) (m : List (ℕ × Stream)) → length (delete id m) ≤ length m
unfolding delete
length-delete_le id [] = omega arith
length-delete_le id ((j, t) ∷ m) = ground (arith, length-delete_le id m)
