-- ===== src/Cache.antt =====
-- client/internal/cache: the cache (cache.go) and the policies lru, fifo and random (eviction.go).
-- An entry stands in `store` under an address; the pointers of the list of a shard are the maps
-- `prev` and `next`, where a nil pointer has no value. What `hash` gives and the index that
-- `rand.Intn` chooses are arguments, like the clock. Sizes and counters are bit patterns of 64 bits;
-- a time to live that is not positive is 0. The prefetcher is left out.
pub mod Shard
pub mod Full
pub mod Empty
pub mod Reads
pub mod Tests
use gki_pass.Base.{
  Bool, List, Option, String, [], false, get_or, if◌then◌else◌, length, ltb, none, set, some, take,
  ℕ, ◌%◌, ◌++◌, ◌-◌, ◌==◌, ◌∷◌,
}
use gki_pass.Base.Maps.{lookup, nat_eq, string_eq}
use gki_pass.Base.Int.{int_eq}

pub record CacheConfig : Type 0 where
  pub max_size : ℕ
  pub max_entries : ℕ
  pub default_ttl : ℕ
  pub enable_compression : Bool
  pub shard_count : ℕ

pub record CacheEntry : Type 0 where
  pub key : String
  pub value : List ℕ
  pub size : ℕ
  pub ttl : ℕ
  pub created_at : ℕ
  pub accessed_at : ℕ
  pub access_count : ℕ
  pub compressed : Bool

-- `CacheEntry.IsExpired`
unfoldable pub is_expired : CacheEntry → ℕ → Bool
is_expired entry now = if entry.ttl == 0 then false else ltb entry.ttl (now - entry.created_at)

pub data CacheError : Type 0 where
  not_found : CacheError
  expired : CacheError
  too_large : CacheError
  empty_value : CacheError

-- `EvictionPolicy`: `LRUPolicy`, and `FIFOPolicy` and `RandomPolicy` with the entries they hold.
pub data Policy : Type 0 where
  lru : Policy
  fifo : List ℕ → Policy
  random : List ℕ → Policy

-- `OnAdd`
unfoldable pub on_add : ℕ → Policy → Policy
on_add entry lru = lru
on_add entry (fifo queue) = fifo (queue ++ (entry ∷ []))
on_add entry (random entries) = random (entries ++ (entry ∷ []))

-- The last entry takes the place of the one that goes.
unfoldable pub remove_at : ℕ → List ℕ → List ℕ
remove_at i entries =
    take (length entries - 1) (set entries i (get_or entries (length entries - 1) 0))

-- `OnEvict`, with the index that is drawn.
unfoldable pub on_evict : ℕ → Policy → Policy × Option ℕ
on_evict drawn lru = (lru, none)
on_evict drawn (fifo []) = (fifo [], none)
on_evict drawn (fifo (entry ∷ queue)) = (fifo queue, some entry)
on_evict drawn (random []) = (random [], none)
on_evict drawn (random (e ∷ entries)) =
    let i = drawn % length (e ∷ entries) in
    (random (remove_at i (e ∷ entries)), some (get_or (e ∷ entries) i 0))

pub record CacheShard : Type 0 where
  pub entries : List (String × ℕ)
  pub store : List (ℕ × CacheEntry)
  pub prev : List (ℕ × ℕ)
  pub next : List (ℕ × ℕ)
  pub next_address : ℕ
  pub lru_head : ℕ
  pub lru_tail : ℕ
  pub current_size : ℕ
  pub max_size : ℕ
  pub max_entries : ℕ
  pub policy : Policy

pub record Stats : Type 0 where
  pub hits : ℕ
  pub misses : ℕ
  pub evictions : ℕ
  pub current_size : ℕ
  pub current_count : ℕ

-- `&CacheEntry{}`
abbrev pub blank : CacheEntry
blank = record {
  key = "";
  value = [];
  size = 0;
  ttl = 0;
  created_at = 0;
  accessed_at = 0;
  access_count = 0;
  compressed = false;
}

-- What a pointer that is not nil points to.
unfoldable pub entry_at : ℕ → CacheShard → CacheEntry
entry_at a s = elim (lookup a s.store) [ none ↦ blank | some entry ↦ entry ]
