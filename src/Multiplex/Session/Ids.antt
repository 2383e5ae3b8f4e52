-- ===== src/Multiplex/Session/Ids.antt =====
-- session.go: the stream ids of the two sides.
-- The counter of `generateStreamID` stays an id of its own side, within the bound.
use gki_pass.Base.{
  Bool, arith, dec_le, false, if◌then◌else◌, not, refl, some, true, ℕ, ◌%◌, ◌+◌, ◌<◌, ◌^◌, ◌≡◌, ◌≤◌,
}
use gki_pass.Multiplex.Frame.{max_stream_id}
use gki_pass.Multiplex.Frame.Wire.{Writer}
use gki_pass.Multiplex.Session.{
  Session, SessionConfig, generate_from, generate_stream_id, is_valid_stream_id, new_session,
}

pub record IsCounter (s : Session) : Type 0 where
  pub in_range : s.next_stream_id ≤ max_stream_id
  pub side : s.next_stream_id % 2 ≡ (if s.is_client then 1 else 0)

pub new-IsCounter :
    (config : SessionConfig) (is_client : Bool) (writer : Writer)
    → IsCounter (new_session config is_client writer)
unfolding new_session
new-IsCounter config true writer = record { in_range = omega arith; side = refl }
new-IsCounter config false writer = record { in_range = omega arith; side = refl }

-- An odd id is the client's, an even one the server's.
abbrev side_of : Bool → ℕ
side_of is_client = if is_client then 1 else 0

valid-peer :
    (is_client : Bool) (id : ℕ)
    → 0 < id
    → id ≤ max_stream_id
    → id % 2 ≡ side_of is_client
    → (is_valid_stream_id (not is_client) id ≡ true) × (is_valid_stream_id is_client id ≡ false)
unfolding is_valid_stream_id
valid-peer true id p h e = (ground arith, ground arith)
valid-peer false id p h e = (ground arith, ground arith)

-- The second round, after the counter is set back.
generate_from-reset :
    (is_client : Bool) (next : ℕ)
    → next ≤ max_stream_id
    → ¬ (next + 2 ≤ max_stream_id)
    → let id = (if is_client then 1 else 2) + 2 in generate_from 2 is_client next ≡ (some id, id)
unfolding generate_from
generate_from-reset true next h p = ground arith
generate_from-reset false next h p = ground arith

generate_from-side :
    (is_client : Bool) (next : ℕ)
    → next ≤ max_stream_id
    → next % 2 ≡ side_of is_client
    → (id : ℕ) × (generate_from 2 is_client next ≡ (some id, id))
      × (0 < id)
      × (id ≤ max_stream_id)
      × (id % 2 ≡ side_of is_client)
unfolding generate_from
generate_from-side is_client next h e = elim (dec_le (next + 2) max_stream_id) [
  | yes p ↦
      let same : (next + 2) % 2 ^ 32 ≡ next + 2 = omega arith in
      (next + 2, rw same (ground arith), omega arith, p, omega (arith, e))
  | no p ↦ (
    (if is_client then 1 else 2) + 2,
    generate_from-reset is_client next h p,
    ground arith,
    ground arith,
    ground arith,
  )
]

-- A counter that is a bounded number of this side's parity always gives an id within the two rounds,
-- which becomes the counter, again bounded and of this side's parity; the other side takes the id as
-- one of its peer's, and this side would not.
pub generate_stream_id-side :
    (s : Session)
    → IsCounter s
    → (id : ℕ) × (generate_stream_id s ≡ (some id, id))
      × IsCounter (record s { next_stream_id = id })
      × (is_valid_stream_id (not s.is_client) id ≡ true)
      × (is_valid_stream_id s.is_client id ≡ false)
unfolding generate_stream_id
generate_stream_id-side s v =
    let (id, e, p, h, side) = generate_from-side s.is_client s.next_stream_id v.in_range v.side in
    let (theirs, ours) = valid-peer s.is_client id p h side in
    (id, e, record { in_range = h; side = side }, theirs, ours)
