-- ===== src/Cache/Full.antt =====
-- cache.go: what `Set` does on a full shard.
use gki_pass.Base.{
  List, String, ap, ap₂, arith, false, if◌then◌else◌, length, none, refl, some, suc, true, zero, ℕ,
  ◌%◌, ◌+◌, ◌<◌, ◌==◌, ◌^◌, ◌∙◌, ◌≡◌,
}
use gki_pass.Base.Maps.{insert, lookup, lookup-insert, nat_eq, string_eq}
use gki_pass.Base.Int.{int_eq}
use gki_pass.Base.Signed.{le_64, sub_64}
use gki_pass.Cache.{CacheConfig, CacheEntry, CacheShard, Stats, blank, entry_at, lru, on_evict}
use gki_pass.Cache.Shard.{
  compress, endless, ensure_capacity, evict_entry, final_value, make_room, remove_from_lru,
  set_entry,
}

-- `compress` shortens nothing, so that no value is ever stored compressed.
pub final_value_lem :
    (config : CacheConfig) (value : List ℕ) → final_value config value ≡ (value, false)
unfolding final_value compress
final_value_lem config value = ground arith

-- The policy lru chooses no entry, and the sentinel at the list's tail is all that goes.
pub evict_entry-lru :
    (drawn : ℕ) (s : CacheShard) (stats : Stats)
    → s.policy ≡ lru
    → entry_at s.lru_tail s ≡ blank
    → let later = (evict_entry drawn (s, stats)).0 in
      (later.policy ≡ lru)
      × (later.lru_tail ≡ s.lru_tail)
      × (entry_at later.lru_tail later ≡ blank)
      × (later.max_size ≡ s.max_size)
      × (later.current_size ≡ sub_64 s.current_size 0)
unfolding evict_entry on_evict remove_from_lru entry_at
evict_entry-lru drawn s stats p t =
    let none_chosen : on_evict drawn s.policy ≡ (lru, none) = ap (on_evict drawn) p in
    let later = (evict_entry drawn (s, stats)).0 in
    let size : later.current_size ≡ sub_64 s.current_size (entry_at s.lru_tail s).size =
      ap
        (λ r. sub_64 s.current_size (entry_at (elim r.1 [ none ↦ s.lru_tail | some e ↦ e ]) s).size)
        none_chosen in
    (ap (λ x. x.0) none_chosen, refl, t, refl, size ∙ ap (λ e. sub_64 s.current_size e.size) t)

make_room-never :
    (rounds : ℕ) (drawn : ℕ → ℕ) (size : ℕ) (s : CacheShard) (stats : Stats)
    → s.policy ≡ lru
    → entry_at s.lru_tail s ≡ blank
    → le_64 ((s.current_size + size) % 2 ^ 64) s.max_size ≡ false
    → make_room rounds drawn size (s, stats) ≡ none
unfolding make_room
make_room-never zero drawn size s stats p t h = refl
make_room-never (suc rounds) drawn size s stats p t h =
    let later = evict_entry (drawn rounds) (s, stats) in
    let (policy, tail, sentinel, limit, same) = evict_entry-lru (drawn rounds) s stats p t in
    let over : (later.0.current_size + size) % 2 ^ 64 ≡ (s.current_size + size) % 2 ^ 64 =
      omega (arith, same) in
    let full : le_64 ((later.0.current_size + size) % 2 ^ 64) later.0.max_size ≡ false =
      ap₂ le_64 over limit ∙ h in
    let rest = make_room-never rounds drawn size later.0 later.1 policy sentinel full in
    ground (arith, rest)

ensure_capacity-never :
    (rounds : ℕ) (drawn : ℕ → ℕ) (size : ℕ) (s : CacheShard) (stats : Stats)
    → s.policy ≡ lru
    → entry_at s.lru_tail s ≡ blank
    → le_64 size s.max_size ≡ true
    → le_64 ((s.current_size + size) % 2 ^ 64) s.max_size ≡ false
    → ensure_capacity rounds drawn size (s, stats) ≡ none
unfolding ensure_capacity
ensure_capacity-never rounds drawn size s stats p t fits h =
    let later = evict_entry (drawn rounds) (s, stats) in
    let (policy, tail, sentinel, limit, same) = evict_entry-lru (drawn rounds) s stats p t in
    let over : (later.0.current_size + size) % 2 ^ 64 ≡ (s.current_size + size) % 2 ^ 64 =
      omega (arith, same) in
    let full : le_64 ((later.0.current_size + size) % 2 ^ 64) later.0.max_size ≡ false =
      ap₂ le_64 over limit ∙ h in
    let at_once = make_room-never rounds drawn size s stats p t h in
    let later_on = make_room-never rounds drawn size later.0 later.1 policy sentinel full in
    ground (arith, at_once, later_on)

-- With the policy lru, a value that is not empty, under a key that is not there, and whose size fits
-- a shard but not beside what the shard holds, makes `Set` evict the empty entry at the list's tail without end: whatever number of rounds is given, it
-- does not return.
pub set_entry-endless :
    (rounds : ℕ) (drawn : ℕ → ℕ) (config : CacheConfig) (key : String) (value : List ℕ)
    (ttl now : ℕ) (s : CacheShard) (stats : Stats)
    → s.policy ≡ lru
    → entry_at s.lru_tail s ≡ blank
    → s.lru_tail < s.next_address
    → lookup key s.entries ≡ none
    → 0 < length value
    → le_64 (length value) s.max_size ≡ true
    → le_64 ((s.current_size + length value) % 2 ^ 64) s.max_size ≡ false
    → set_entry rounds drawn config key value ttl now (s, stats) ≡ endless
unfolding set_entry entry_at
set_entry-endless rounds drawn config key value ttl now s stats p t fresh new some_bytes fits over =
    let stored = final_value_lem config value in
    let a = s.next_address in
    let entry : CacheEntry = record {
      key = key;
      value = value;
      size = length value;
      ttl = if ttl == 0 then config.default_ttl else ttl;
      created_at = now;
      accessed_at = now;
      access_count = 1;
      compressed = false;
    } in
    let start : CacheShard = record s { store = insert a entry s.store; next_address = a + 1 } in
    let sentinel : entry_at start.lru_tail start ≡ blank =
      ground (arith, lookup-insert a s.lru_tail entry s.store, nat_eq.beq_iff a s.lru_tail) in
    let never : ensure_capacity rounds drawn (length value) (start, stats) ≡ none =
      ensure_capacity-never rounds drawn (length value) start stats p sentinel fits over in
    ground (arith, stored, never)
