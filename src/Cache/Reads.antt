-- ===== src/Cache/Reads.antt =====
-- cache.go: what `Get` returns after `Set` and after `Delete`.
use gki_pass.Base.{
  List, String, arith, false, if◌then◌else◌, inr, length, none, refl, some, suc, true, ℕ, ◌%◌, ◌+◌,
  ◌<◌, ◌==◌, ◌^◌, ◌≡◌, ◌≢◌,
}
use gki_pass.Base.Maps.{beq_refl, insert, lookup, lookup-delete, lookup-insert, nat_eq, string_eq}
use gki_pass.Base.Int.{int_eq}
use gki_pass.Base.Signed.{le_64}
use gki_pass.Cache.{CacheConfig, CacheEntry, CacheShard, Stats, entry_at, is_expired, on_add}
use gki_pass.Cache.Shard.{
  add_to_front, decompress, done, ensure_capacity, get_entry, make_room, move_to_front,
  remove_from_lru, set_entry, set_link,
}
use gki_pass.Cache.Full.{final_value_lem}

-- A shard with room: a size fits beside what it holds, and an entry can be added.
abbrev pub HasRoom : ℕ → CacheShard → Type 0
HasRoom size s =
    (le_64 size s.max_size ≡ true)
    × (le_64 ((s.current_size + size) % 2 ^ 64) s.max_size ≡ true)
    × (length s.entries < s.max_entries)

-- The head of the list points to an entry, and both are older than the next one to be made.
abbrev pub HasList : CacheShard → Type 0
HasList s =
    (first : ℕ) × (lookup s.lru_head s.next ≡ some first)
    × (s.lru_head < s.next_address)
    × (first < s.next_address)

-- A shard in which the entry is stored, and its list in order.
abbrev pub Holds : String → ℕ → CacheEntry → CacheShard → Type 0
Holds key a entry s =
    (lookup key s.entries ≡ some a)
    × (lookup a s.store ≡ some entry)
    × ((first : ℕ) × (lookup s.lru_head s.next ≡ some a)
        × (lookup a s.next ≡ some first)
        × (lookup a s.prev ≡ some s.lru_head)
        × (s.lru_head ≢ a)
        × (first ≢ a))

-- The shard with an entry put after the head.
abbrev pub fronted : ℕ → ℕ → CacheShard → CacheShard
fronted a first s = record s {
  prev = insert first a (insert a s.lru_head s.prev);
  next = insert s.lru_head a (insert a first s.next);
}

add_to_front-some :
    (a first : ℕ) (s : CacheShard)
    → lookup s.lru_head s.next ≡ some first
    → s.lru_head ≢ a
    → add_to_front a s ≡ some (fronted a first s)
unfolding add_to_front set_link
add_to_front-some a first s front other =
    let again = lookup-insert a s.lru_head first s.next in
    ground (arith, again, nat_eq.beq_iff a s.lru_head)

next-remove_from_lru :
    (a first : ℕ) (s : CacheShard)
    → lookup a s.next ≡ some first
    → lookup a s.prev ≡ some s.lru_head
    → s.lru_head ≢ a
    → lookup s.lru_head (remove_from_lru a s).next ≡ some first
unfolding remove_from_lru set_link
next-remove_from_lru a first s after before other =
    let skip = lookup-insert s.lru_head s.lru_head first s.next in
    let gone = lookup-delete a s.lru_head (insert s.lru_head first s.next) in
    ground (arith, skip, gone, nat_eq.beq_iff a s.lru_head)

move_to_front-some :
    (a first : ℕ) (s : CacheShard)
    → lookup a s.next ≡ some first
    → lookup a s.prev ≡ some s.lru_head
    → s.lru_head ≢ a
    → move_to_front a s ≡ some (fronted a first (remove_from_lru a s))
unfolding move_to_front remove_from_lru
move_to_front-some a first s after before other =
    add_to_front-some a first (remove_from_lru a s)
      (next-remove_from_lru a first s after before other) other

-- Reading an entry that is held and has not expired gives its value.
get_entry-Holds :
    (key : String) (a : ℕ) (entry : CacheEntry) (now : ℕ) (s : CacheShard) (stats : Stats)
    → Holds key a entry s
    → is_expired entry now ≡ false
    → (later : CacheShard × Stats) × (get_entry key now (s, stats) ≡ done (later, inr entry.value))
unfolding get_entry entry_at decompress
get_entry-Holds key a entry now s stats (at, stored, (first, front, after, before, other, older))
      live =
    let read : CacheEntry = record entry {
      accessed_at = now;
      access_count = (entry.access_count + 1) % 2 ^ 64;
    } in
    let next : CacheShard = record s { store = insert a read s.store } in
    let moved = move_to_front-some a first next after before other in
    (
      (fronted a first (remove_from_lru a next), record stats { hits = (stats.hits + 1) % 2 ^ 64 }),
      ground (arith, moved),
    )

-- The entry that `Set` makes.
abbrev pub made : CacheConfig → String → List ℕ → ℕ → ℕ → CacheEntry
made config key value ttl now = record {
  key = key;
  value = value;
  size = length value;
  ttl = if ttl == 0 then config.default_ttl else ttl;
  created_at = now;
  accessed_at = now;
  access_count = 1;
  compressed = false;
}

set_entry-Holds :
    (rounds : ℕ) (drawn : ℕ → ℕ) (config : CacheConfig) (key : String) (value : List ℕ)
    (ttl now : ℕ) (s : CacheShard) (stats : Stats)
    → HasList s
    → HasRoom (length value) s
    → lookup key s.entries ≡ none
    → 0 < length value
    → (state : CacheShard × Stats) × (set_entry
          (suc rounds)
          drawn
          config
          key
          value
          ttl
          now
          (s, stats)
        ≡ done (state, none))
      × (state.1.evictions ≡ stats.evictions)
      × Holds key s.next_address (made config key value ttl now) state.0
unfolding set_entry ensure_capacity make_room
set_entry-Holds rounds drawn config key value ttl now s stats (first, front, low, older)
      (fits, room, few) new some_bytes =
    let a = s.next_address in
    let entry = made config key value ttl now in
    let stored = final_value_lem config value in
    let start : CacheShard = record s { store = insert a entry s.store; next_address = a + 1 } in
    let roomy : ensure_capacity (suc rounds) drawn (length value) (start, stats)
        ≡ some ((start, stats), none) =
      ground arith in
    let added : CacheShard = record start {
      entries = insert key a s.entries;
      current_size = (s.current_size + length value) % 2 ^ 64;
      policy = on_add a s.policy;
    } in
    let linked = add_to_front-some a first added front (omega arith) in
    let key_at : lookup key (insert key a s.entries) ≡ some a =
      ground (arith, lookup-insert key key a s.entries, beq_refl key) in
    let entry_at_a : lookup a (insert a entry s.store) ≡ some entry =
      ground (arith, lookup-insert a a entry s.store) in
    let links = insert a first s.next in
    let head_to : lookup s.lru_head (insert s.lru_head a links) ≡ some a =
      ground (arith, lookup-insert s.lru_head s.lru_head a links) in
    let to_first : lookup a (insert s.lru_head a links) ≡ some first =
      ground (arith, lookup-insert s.lru_head a a links, lookup-insert a a first s.next) in
    let backs = insert a s.lru_head s.prev in
    let back_to : lookup a (insert first a backs) ≡ some s.lru_head =
      ground (arith, lookup-insert first a a backs, lookup-insert a a s.lru_head s.prev) in
    let counted : Stats = record stats {
      current_size = (stats.current_size + length value) % 2 ^ 64;
      current_count = (stats.current_count + 1) % 2 ^ 64;
    } in
    (
      (fronted a first added, counted),
      ground (arith, stored, roomy, linked),
      refl,
      (
        key_at,
        entry_at_a,
        (
          first,
          head_to,
          to_first,
          back_to,
          (λ e. absurd (omega (arith, e))),
          λ e. absurd (omega (arith, e)),
        ),
      ),
    )

-- On a shard with its list in order and with room for the value, `Set` of a new key to a value that
-- is not empty returns without an error, evicting nothing, and `Get` of the key, before the entry expires, returns the value.
pub get_entry-set_entry :
    (rounds : ℕ) (drawn : ℕ → ℕ) (config : CacheConfig) (key : String) (value : List ℕ)
    (ttl now later : ℕ) (s : CacheShard) (stats : Stats)
    → HasList s
    → HasRoom (length value) s
    → lookup key s.entries ≡ none
    → 0 < length value
    → is_expired (made config key value ttl now) later ≡ false
    → (stored read : CacheShard × Stats) × (set_entry
          (suc rounds)
          drawn
          config
          key
          value
          ttl
          now
          (s, stats)
        ≡ done (stored, none))
      × (stored.1.evictions ≡ stats.evictions)
      × (get_entry key later stored ≡ done (read, inr value))
get_entry-set_entry rounds drawn config key value ttl now later s stats list room new some_bytes
      live =
    let (stored, e, kept, holds) =
      set_entry-Holds rounds drawn config key value ttl now s stats list room new some_bytes in
    let (read, f) =
      get_entry-Holds key s.next_address (made config key value ttl now) later stored.0 stored.1
        holds live in
    (stored, read, e, kept, f)
