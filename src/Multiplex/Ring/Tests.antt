-- ===== src/Multiplex/Ring/Tests.antt =====
-- `RingBuffer`: the theorems at a buffer whose contents wrap around.
use gki_pass.Base.{
  [], arith, drop, false, length, none, refl, some, take, true, ◌++◌, ◌+◌, ◌<◌, ◌∷◌, ◌≡◌, ◌≢◌, ◌≤◌,
  ◌⊎◌,
}
use gki_pass.Multiplex.Ring.{RingBuffer, put_bytes, read_ring, take_bytes, write_ring}
use gki_pass.Multiplex.Ring.Queue.{IsRing, contents}
use gki_pass.Multiplex.Ring.Refine.{read-contents, write-contents}

abbrev wrapped : RingBuffer
wrapped = record { buf = 3 ∷ 0 ∷ 1 ∷ 2 ∷ []; start = 2; end = 1; size = 3 }

wrapped-IsRing : IsRing wrapped
wrapped-IsRing = record {
  has_slots = omega arith;
  start_inside = omega arith;
  end_after = refl;
  size_fits = omega arith;
}

round_trip :
    (write_ring (9 ∷ []) wrapped).0
    ≡ record { buf = 3 ∷ 9 ∷ 1 ∷ 2 ∷ []; start = 2; end = 2; size = 4 }
unfolding write_ring put_bytes
round_trip = refl

read_around : (read_ring 3 wrapped).1 ≡ some (1 ∷ 2 ∷ 3 ∷ [])
unfolding read_ring take_bytes
read_around = refl

write-contents_example :
    let (rb', done) = write_ring (9 ∷ 8 ∷ []) wrapped in
    IsRing rb'
    × (length rb'.buf ≡ 4)
    × (((length (contents wrapped) + 2 ≤ 4)
          × (done ≡ true)
          × (contents rb' ≡ contents wrapped ++ 9 ∷ 8 ∷ []))
        ⊎ ((4 < length (contents wrapped) + 2) × (done ≡ false) × (rb' ≡ wrapped)))
write-contents_example = write-contents (9 ∷ 8 ∷ []) wrapped wrapped-IsRing

read-contents_example :
    let (rb', got) = read_ring 2 wrapped in
    IsRing rb'
    × (rb'.buf ≡ wrapped.buf)
    × (((contents wrapped ≡ []) × (got ≡ none) × (rb' ≡ wrapped))
        ⊎ ((contents wrapped ≢ [])
            × (got ≡ some (take 2 (contents wrapped)))
            × (contents rb' ≡ drop 2 (contents wrapped))))
read-contents_example = read-contents 2 wrapped wrapped-IsRing
