-- ===== src/Cache/Empty.antt =====
-- cache.go: `Set` on a shard that may hold no entry.
use gki_pass.Base.{
  List, String, ap, ap₂, arith, false, if◌then◌else◌, length, none, some, suc, true, ℕ, ◌%◌, ◌+◌,
  ◌<◌, ◌==◌, ◌^◌, ◌∙◌, ◌≡◌,
}
use gki_pass.Base.Maps.{delete, insert, lookup, lookup-delete, lookup-insert, nat_eq, string_eq}
use gki_pass.Base.Int.{int_eq}
use gki_pass.Base.Signed.{le_64}
use gki_pass.Cache.{
  CacheConfig, CacheEntry, CacheShard, Stats, blank, entry_at, lru, on_add, on_evict,
}
use gki_pass.Cache.Shard.{
  add_to_front, ensure_capacity, evict_entry, make_room, panic, remove_from_lru, set_entry,
  set_link,
}
use gki_pass.Cache.Full.{evict_entry-lru, final_value_lem}

-- The list of a shard without entries: the head points to the tail, and nothing follows it.
abbrev pub EmptyList : CacheShard → Type 0
EmptyList s =
    (lookup s.lru_head s.next ≡ some s.lru_tail)
    × (lookup s.lru_tail s.prev ≡ some s.lru_head)
    × (lookup s.lru_tail s.next ≡ none)
    × (s.lru_head < s.next_address)

-- Evicting the tail leaves nothing after the head.
evict_entry-unlinks :
    (drawn : ℕ) (s : CacheShard) (stats : Stats)
    → s.policy ≡ lru
    → EmptyList s
    → lookup (evict_entry drawn (s, stats)).0.lru_head (evict_entry drawn (s, stats)).0.next ≡ none
unfolding evict_entry remove_from_lru set_link on_evict
evict_entry-unlinks drawn s stats p (forth, back, ends, fresh) =
    let gone = lookup-delete s.lru_head s.lru_head s.next in
    let after = lookup-delete s.lru_tail s.lru_head (delete s.lru_head s.next) in
    let both = lookup-delete s.lru_head s.lru_tail s.next in
    let none_chosen : on_evict drawn s.policy ≡ (lru, none) = ap (on_evict drawn) p in
    ground (arith, gone, after, none_chosen, p)

add_to_front-none :
    (a : ℕ) (s : CacheShard) → lookup s.lru_head s.next ≡ none → add_to_front a s ≡ none
unfolding add_to_front set_link
add_to_front-none a s h = let still = lookup-delete a s.lru_head s.next in ground (arith, still)

-- A shard that may hold no entry, as there are fewer entries than shards, evicts the tail of its
-- empty list before the first entry comes: with the policy lru, `Set` of a key that is not there, to
-- a value that is not empty and fits, beside the bytes counted, then follows a nil pointer and
-- panics.
pub set_entry-panic :
    (rounds : ℕ) (drawn : ℕ → ℕ) (config : CacheConfig) (key : String) (value : List ℕ)
    (ttl now : ℕ) (s : CacheShard) (stats : Stats)
    → s.policy ≡ lru
    → EmptyList s
    → entry_at s.lru_tail s ≡ blank
    → s.lru_tail < s.next_address
    → s.max_entries ≡ 0
    → lookup key s.entries ≡ none
    → 0 < length value
    → le_64 (length value) s.max_size ≡ true
    → le_64 ((s.current_size + length value) % 2 ^ 64) s.max_size ≡ true
    → set_entry (suc rounds) drawn config key value ttl now (s, stats) ≡ panic
unfolding set_entry entry_at ensure_capacity make_room
set_entry-panic rounds drawn config key value ttl now s stats p list t fresh full new some_bytes
      fits room =
    let stored = final_value_lem config value in
    let a = s.next_address in
    let entry : CacheEntry = record {
      key = key;
      value = value;
      size = length value;
      ttl = if ttl == 0 then config.default_ttl else ttl;
      created_at = now;
      accessed_at = now;
      access_count = 1;
      compressed = false;
    } in
    let start : CacheShard = record s { store = insert a entry s.store; next_address = a + 1 } in
    let sentinel : entry_at start.lru_tail start ≡ blank =
      ground (arith, lookup-insert a s.lru_tail entry s.store, nat_eq.beq_iff a s.lru_tail) in
    let cut =
      evict_entry-unlinks (drawn (suc rounds)) start stats p
        (list.0, list.1, list.2, omega (arith, list.3)) in
    let after = evict_entry (drawn (suc rounds)) (start, stats) in
    let (policy, tail, kept, limit, same) =
      evict_entry-lru (drawn (suc rounds)) start stats p sentinel in
    let over : (after.0.current_size + length value) % 2 ^ 64
        ≡ (s.current_size + length value) % 2 ^ 64 =
      omega (arith, same) in
    let still : le_64 ((after.0.current_size + length value) % 2 ^ 64) after.0.max_size ≡ true =
      ap₂ le_64 over limit ∙ room in
    let roomy : ensure_capacity (suc rounds) drawn (length value) (start, stats)
        ≡ some (after, none) =
      ground (arith, still) in
    let added : CacheShard = record (after.0) {
      entries = insert key a after.0.entries;
      current_size = (after.0.current_size + length value) % 2 ^ 64;
      policy = on_add a after.0.policy;
    } in
    let nil = add_to_front-none a added cut in ground (arith, stored, roomy, nil)
