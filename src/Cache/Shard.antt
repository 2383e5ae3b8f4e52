-- ===== src/Cache/Shard.antt =====
-- cache.go: the operations on a shard, with the cache's statistics.
use mathlib.Core.Option
use gki_pass.Base.{
  Bool, List, Option, String, [], false, if◌then◌else◌, inl, inr, leb, length, ltb, none, not, some,
  suc, true, zero, ℕ, ◌%◌, ◌&&◌, ◌+◌, ◌==◌, ◌^◌, ◌∷◌, ◌⊎◌,
}
use gki_pass.Base.Maps.{delete, insert, lookup, nat_eq, string_eq}
use gki_pass.Base.Int.{int_eq}
use gki_pass.Base.Signed.{le_64, sub_64}
use gki_pass.Cache.{
  CacheConfig, CacheEntry, CacheError, CacheShard, Stats, blank, empty_value, entry_at, expired,
  is_expired, not_found, on_add, on_evict, too_large,
}

-- A write of a pointer.
unfoldable pub set_link : ℕ → Option ℕ → List (ℕ × ℕ) → List (ℕ × ℕ)
set_link a none links = delete a links
set_link a (some b) links = insert a b links

-- `initLRUList`
unfoldable pub init_lru_list : CacheShard → CacheShard
init_lru_list s =
    let head = s.next_address in
    let tail = s.next_address + 1 in
    record s {
      store = insert tail blank (insert head blank s.store);
      prev = insert tail head (delete head s.prev);
      next = insert head tail (delete tail s.next);
      next_address = s.next_address + 2;
      lru_head = head;
      lru_tail = tail;
    }

-- `addToFront`; none is a panic on the nil pointer after the head.
unfoldable pub add_to_front : ℕ → CacheShard → Option CacheShard
add_to_front a s =
    let next = set_link a (lookup s.lru_head s.next) s.next in
    let prev = insert a s.lru_head s.prev in
    elim (lookup s.lru_head next) [
      | none ↦ none
      | some first ↦ some (record s { prev = insert first a prev; next = insert s.lru_head a next })
    ]

-- `removeFromLRU`
unfoldable pub remove_from_lru : ℕ → CacheShard → CacheShard
remove_from_lru a s =
    let next : List (ℕ × ℕ) = elim (lookup a s.prev) [
      | none ↦ s.next
      | some p ↦ set_link p (lookup a s.next) s.next
    ] in
    let prev : List (ℕ × ℕ) = elim (lookup a next) [
      | none ↦ s.prev
      | some n ↦ set_link n (lookup a s.prev) s.prev
    ] in
    record s { prev = delete a prev; next = delete a next }

-- `moveToFront`
unfoldable pub move_to_front : ℕ → CacheShard → Option CacheShard
move_to_front a s = add_to_front a (remove_from_lru a s)

-- `evictEntries` of one entry. The list's tail is never nil, so that it returns no error.
unfoldable pub evict_entry : ℕ → CacheShard × Stats → CacheShard × Stats
evict_entry drawn (s, stats) =
    let (policy, chosen) = on_evict drawn s.policy in
    let a : ℕ = elim chosen [ none ↦ s.lru_tail | some e ↦ e ] in
    let entry = entry_at a s in
    (
      remove_from_lru a (record s {
        policy = policy;
        entries = delete entry.key s.entries;
        current_size = sub_64 s.current_size entry.size;
      }),
      record stats {
        evictions = (stats.evictions + 1) % 2 ^ 64;
        current_size = sub_64 stats.current_size entry.size;
        current_count = sub_64 stats.current_count 1;
      },
    )

-- The loop of `ensureCapacity`, on fuel: `none` says that it did not end within the rounds.
unfoldable pub make_room : ℕ → (ℕ → ℕ) → ℕ → CacheShard × Stats → Option (CacheShard × Stats)
make_room zero drawn size state = none
make_room (suc rounds) drawn size state =
    let later = make_room rounds drawn size (evict_entry (drawn rounds) state) in
    if le_64 ((state.0.current_size + size) % 2 ^ 64) state.0.max_size then some state else later

-- `ensureCapacity`
unfoldable pub ensure_capacity :
    ℕ → (ℕ → ℕ) → ℕ → CacheShard × Stats → Option ((CacheShard × Stats) × Option CacheError)
ensure_capacity rounds drawn size (s, stats) =
    if not (le_64 size s.max_size)
    then some ((s, stats), some too_large)
    else (let start =
          if leb s.max_entries (length s.entries)
          then evict_entry (drawn rounds) (s, stats)
          else (s, stats) in
        Option.map (λ state. (state, none)) (make_room rounds drawn size start))

-- `compress` returns its argument.
unfoldable pub compress : List ℕ → Option (List ℕ)
compress bytes = some bytes

-- `decompress` returns its argument.
unfoldable pub decompress : List ℕ → List ℕ
decompress bytes = bytes

-- The value that `Set` stores, and whether it is compressed.
unfoldable pub final_value : CacheConfig → List ℕ → List ℕ × Bool
final_value config value =
    if config.enable_compression && ltb 1024 (length value)
    then (elim (compress value) [
      | none ↦ (value, false)
      | some shorter ↦
          if ltb (length shorter) (length value) then (shorter, true) else (value, false)
    ])
    else (value, false)

-- How an operation ends: with a result, in a panic, or not within the rounds.
pub data Ended (A : Type 0) : Type 0 where
  done : A → Ended A
  panic : Ended A
  endless : Ended A

-- `Set`, on the shard of the key.
unfoldable pub set_entry :
    ℕ
    → (ℕ → ℕ)
    → CacheConfig
    → String
    → List ℕ
    → ℕ
    → ℕ
    → CacheShard × Stats
    → Ended ((CacheShard × Stats) × Option CacheError)
set_entry rounds drawn config key value ttl now (s, stats) =
    if length value == 0
    then done ((s, stats), some empty_value)
    else (let (final, compressed) = final_value config value in
        let entry : CacheEntry = record {
          key = key;
          value = final;
          size = length final;
          ttl = if ttl == 0 then config.default_ttl else ttl;
          created_at = now;
          accessed_at = now;
          access_count = 1;
          compressed = compressed;
        } in
        let a = s.next_address in
        let allocated = record s { store = insert a entry s.store; next_address = a + 1 } in
        let start : CacheShard = elim (lookup key s.entries) [
          | none ↦ allocated
          | some old ↦
              remove_from_lru old
                (record allocated { current_size = sub_64 s.current_size (entry_at old s).size })
        ] in
        elim (ensure_capacity rounds drawn entry.size (start, stats)) [
          | none ↦ endless
          | some (state, some e) ↦ done (state, some e)
          | some ((roomy, after), none) ↦
              elim (add_to_front a (record roomy {
                entries = insert key a roomy.entries;
                current_size = (roomy.current_size + entry.size) % 2 ^ 64;
                policy = on_add a roomy.policy;
              })) [
                | none ↦ panic
                | some stored ↦ done (
                  (
                    stored,
                    record after {
                      current_size = (after.current_size + entry.size) % 2 ^ 64;
                      current_count = (after.current_count + 1) % 2 ^ 64;
                    },
                  ),
                  none,
                )
              ]
        ])

-- `Delete`, on the shard of the key.
unfoldable pub delete_entry : String → CacheShard × Stats → (CacheShard × Stats) × Option CacheError
delete_entry key (s, stats) = elim (lookup key s.entries) [
  | none ↦ ((s, stats), some not_found)
  | some a ↦
      let entry = entry_at a s in
      (
        (
          remove_from_lru a (record s {
            entries = delete key s.entries;
            current_size = sub_64 s.current_size entry.size;
          }),
          record stats {
            current_size = sub_64 stats.current_size entry.size;
            current_count = sub_64 stats.current_count 1;
          },
        ),
        none,
      )
]

-- `Get`, on the shard of the key, with the time of the read.
unfoldable pub get_entry :
    String → ℕ → CacheShard × Stats → Ended ((CacheShard × Stats) × (CacheError ⊎ List ℕ))
get_entry key now (s, stats) = elim (lookup key s.entries) [
  | none ↦ done ((s, record stats { misses = (stats.misses + 1) % 2 ^ 64 }), inl not_found)
  | some a ↦
      let entry = entry_at a s in
      if is_expired entry now
      then (let ((kept, after), e) = delete_entry key (s, stats) in
          done ((kept, record after { misses = (after.misses + 1) % 2 ^ 64 }), inl expired))
      else (let read = record entry {
        accessed_at = now;
        access_count = (entry.access_count + 1) % 2 ^ 64;
      } in
          elim (move_to_front a (record s { store = insert a read s.store })) [
            | none ↦ panic
            | some moved ↦ done (
              (moved, record stats { hits = (stats.hits + 1) % 2 ^ 64 }),
              inr (if entry.compressed then decompress entry.value else entry.value),
            )
          ])
]

-- `Exists`, on the shard of the key.
unfoldable pub exists_entry : String → ℕ → CacheShard → Bool
exists_entry key now s = elim (lookup key s.entries) [
  | none ↦ false
  | some a ↦ not (is_expired (entry_at a s) now)
]

-- `Clear`, on a shard: the policy keeps its entries.
unfoldable pub clear_shard : CacheShard → CacheShard
clear_shard s = init_lru_list (record s { entries = []; current_size = 0 })

-- The loop of `cleanup` over the keys that have expired, which are keys of the shard.
unfoldable pub clean_keys : List String → CacheShard → CacheShard
clean_keys [] s = s
clean_keys (key ∷ keys) s = elim (lookup key s.entries) [
  | none ↦ s
  | some a ↦ clean_keys keys (
      remove_from_lru a (record s {
        entries = delete key s.entries;
        current_size = sub_64 s.current_size (entry_at a s).size;
      }))
]
