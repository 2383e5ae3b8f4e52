-- ===== src/Cache/Tests.antt =====
-- cache.go: the theorems at concrete inputs.
use gki_pass.Base.{List, [], arith, inr, none, refl, true, ℕ, ◌∷◌, ◌≡◌}
use gki_pass.Base.Maps.{delete, insert, lookup, nat_eq, string_eq}
use gki_pass.Base.Int.{int_eq}
use gki_pass.Cache.{CacheConfig, CacheShard, Stats, blank, entry_at, is_expired, lru}
use gki_pass.Cache.Shard.{done, endless, get_entry, init_lru_list, panic, set_entry}
use gki_pass.Cache.Full.{set_entry-endless}
use gki_pass.Cache.Reads.{get_entry-set_entry}
use gki_pass.Cache.Empty.{set_entry-panic}

abbrev config : CacheConfig
config = record {
  max_size = 160;
  max_entries = 32;
  default_ttl = 50;
  enable_compression = true;
  shard_count = 16;
}

abbrev empty_shard : CacheShard
empty_shard = record {
  entries = [];
  store = (0, blank) ∷ (1, blank) ∷ [];
  prev = (1, 0) ∷ [];
  next = (0, 1) ∷ [];
  next_address = 2;
  lru_head = 0;
  lru_tail = 1;
  current_size = 0;
  max_size = 10;
  max_entries = 2;
  policy = lru;
}

-- The list of a new shard.
empty_shard_list :
    init_lru_list (record empty_shard {
      store = [];
      prev = [];
      next = [];
      next_address = 0;
      lru_head = 9;
      lru_tail = 9;
    })
    ≡ empty_shard
unfolding init_lru_list insert delete
empty_shard_list = refl

abbrev stats : Stats
stats = record { hits = 0; misses = 0; evictions = 0; current_size = 0; current_count = 0 }

abbrev value : List ℕ
value = 7 ∷ 8 ∷ []

-- A shard of which nine bytes are in use.
abbrev full_shard : CacheShard
full_shard = record empty_shard { current_size = 9 }

set_entry-endless_example :
    set_entry 100 (λ n. n) config "k" value 0 5 (full_shard, stats) ≡ endless
unfolding entry_at lookup
set_entry-endless_example =
    set_entry-endless 100 (λ n. n) config "k" value 0 5 full_shard stats refl refl (omega arith)
      refl (omega arith) refl refl

get_entry-set_entry_example :
    (stored read : CacheShard × Stats) × (set_entry 1
        (λ n. n)
        config
        "k"
        value
        0
        5
        (empty_shard, stats)
      ≡ done (stored, none))
    × (stored.1.evictions ≡ 0)
    × (get_entry "k" 9 stored ≡ done (read, inr value))
unfolding is_expired lookup
get_entry-set_entry_example =
    get_entry-set_entry 0 (λ n. n) config "k" value 0 5 9 empty_shard stats
      (1, refl, omega arith, omega arith) (refl, refl, omega arith) refl (omega arith) refl

abbrev closed_shard : CacheShard
closed_shard = record empty_shard { max_entries = 0 }

set_entry-panic_example : set_entry 1 (λ n. n) config "k" value 0 5 (closed_shard, stats) ≡ panic
unfolding entry_at lookup
set_entry-panic_example =
    set_entry-panic 0 (λ n. n) config "k" value 0 5 closed_shard stats refl
      (refl, refl, refl, omega arith) refl (omega arith) refl refl (omega arith) refl refl
