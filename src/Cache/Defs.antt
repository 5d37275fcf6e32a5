-- ===== src/Cache/Defs.antt =====
-- The state of `SliceCache` (cache.h), its key, and the two bookkeeping helpers of cache.cpp that
-- evict and commit. `map_`'s iterator into `lru_` is the key's place in the list; an `int` expert
-- is its 32-bit pattern; a `none` is undefined behaviour or `abort`.
use Prim.Native.Nat.{bit_xor}
use caedral_notre_engine.Prelude.{
  ℕ, zero, suc, ◌+◌, ◌-◌, ◌*◌, ◌/◌, ◌&&◌, List, [], ◌∷◌, Option, none, some, nat_eq, Bytes, ltb,
  leb, if◌then◌else◌, length, get_last?, reverse,
}
use caedral_notre_engine.Prelude.Words.{add64, sub64, mul64}
use caedral_notre_engine.Prelude.Assoc.{contains, remove, insert, lookup, has, erase}

pub record CacheStats : Type 0 where
  pub hits : ℕ
  pub misses : ℕ
  pub bytes_loaded : ℕ
  pub evictions : ℕ
  pub dedup_requests : ℕ
  pub prefetched : ℕ

pub record Entry : Type 0 where
  pub tensor : Bytes
  pub expert : ℕ
  pub slice_addr : ℕ
  pub bytes : ℕ

-- `memory` is the process's memory, by address: fills write it and evictions clear it.
pub record SliceCache : Type 0 where
  pub hard_cap_bytes : ℕ
  pub stats : CacheStats
  pub map : List (ℕ × Entry)
  pub lru : List ℕ
  pub used : ℕ
  pub shield : List ℕ
  pub verify_remaining : ℕ
  pub memory : ℕ → ℕ

abbrev pub page_size : ℕ
page_size = 4096

abbrev pub shield_entries : ℕ
shield_entries = 2048

abbrev pub no_stats : CacheStats
no_stats = record {
  hits = 0;
  misses = 0;
  bytes_loaded = 0;
  evictions = 0;
  dedup_requests = 0;
  prefetched = 0;
}

unfoldable pub new_cache : ℕ → (ℕ → ℕ) → SliceCache
new_cache cap memory = record {
  hard_cap_bytes = cap;
  stats = no_stats;
  map = [];
  lru = [];
  used = 0;
  shield = [];
  verify_remaining = 0;
  memory = memory;
}

unfoldable pub set_verify_next : SliceCache → ℕ → SliceCache
set_verify_next c n_fills = record c { verify_remaining = n_fills }

-- `a & ~(kPage - 1)`. Addresses of memory that is mapped stay far below the end of a machine word, so
-- the arithmetic on them is that of the numbers.
unfoldable pub page_floor : ℕ → ℕ
page_floor a = a / page_size * page_size

unfoldable pub span_pages : ℕ → ℕ → ℕ
unfolding page_floor
span_pages from bytes = page_floor (from + bytes + page_size - 1) - page_floor from

unfoldable pub fnv1a_from : ℕ → Bytes → ℕ
fnv1a_from h [] = h
fnv1a_from h (c ∷ s) = fnv1a_from (mul64 (bit_xor h c) 1099511628211) s

unfoldable pub fnv1a : Bytes → ℕ
unfolding fnv1a_from mul64
fnv1a s = fnv1a_from 1469598103934665603 s

unfoldable pub key : Bytes → ℕ → ℕ
unfolding fnv1a mul64
key t e = bit_xor (mul64 (fnv1a t) 1000003) e

-- `memcpy`, or a read of the backend, of `bytes` bytes given by their index.
unfoldable pub write_range : (ℕ → ℕ) → ℕ → ℕ → (ℕ → ℕ) → ℕ → ℕ
write_range mem dest bytes content a =
    if leb dest a && ltb a (dest + bytes) then content (a - dest) else mem a

-- `madvise(MADV_DONTNEED)` of anonymous pages: they read as zero afterwards.
unfoldable pub drop_pages : (ℕ → ℕ) → ℕ → ℕ → ℕ → ℕ
unfolding page_floor span_pages write_range
drop_pages mem addr bytes = write_range mem (page_floor addr) (span_pages addr bytes) (λ _. 0)

-- The least recent key outside the shield, from the back of the list.
unfoldable pub find_unshielded : List ℕ → List ℕ → Option ℕ
find_unshielded sh [] = none
find_unshielded sh (k ∷ ks) = elim (find_unshielded sh ks) [
  | some v ↦ some v
  | none ↦ if contains k sh then none else some k
]

unfoldable pub find_victim : SliceCache → Option ℕ
unfolding find_unshielded contains
find_victim c = elim (find_unshielded c.shield c.lru) [ some v ↦ some v | none ↦ get_last? c.lru ]

unfoldable pub evict : SliceCache → ℕ → Entry → SliceCache
unfolding erase remove drop_pages
evict c victim_key e = record c {
  lru = remove victim_key c.lru;
  memory = drop_pages c.memory e.slice_addr e.bytes;
  used = sub64 c.used e.bytes;
  stats = record (c.stats) { evictions = add64 c.stats.evictions 1 };
  map = erase victim_key c.map;
}

-- One round of the loop of `make_room_locked`: `done` leaves it.
pub data Round : Type 0 where
  done : SliceCache → Round
  again : SliceCache → Round
  fault : Round

unfoldable pub make_room_round : SliceCache → ℕ → Round
make_room_round c bytes =
    if ltb c.hard_cap_bytes (add64 c.used bytes)
    then elim (find_victim c) [
      | none ↦ done c
      | some victim_key ↦ elim (lookup victim_key c.map) [
        | none ↦ fault
        | some e ↦ again (evict c victim_key e)
      ]
    ]
    else done c

-- Each round but the last takes a key off `lru_`, so one more than its length is fuel enough.
unfoldable pub make_room_loop : ℕ → SliceCache → ℕ → Option SliceCache
make_room_loop zero c bytes = none
make_room_loop (suc fuel) c bytes = elim (make_room_round c bytes) [
  | done c' ↦ some c'
  | again c' ↦ make_room_loop fuel c' bytes
  | fault ↦ none
]

unfoldable pub make_room_locked : SliceCache → ℕ → Option SliceCache
unfolding make_room_loop make_room_round find_victim evict lookup add64 sub64
make_room_locked c bytes = make_room_loop (suc (length c.lru)) c bytes

-- The loop over `lru_` from the back that drops the older half of the shield.
unfoldable pub trim_shield : List ℕ → List ℕ → List ℕ
trim_shield [] sh = sh
trim_shield (k ∷ ks) sh =
    let rest = trim_shield ks (remove k sh) in
    if ltb (shield_entries / 2) (length sh) then rest else sh

unfoldable pub shield_key : SliceCache → ℕ → SliceCache
unfolding trim_shield insert contains remove
shield_key c k =
    let sh = insert k c.shield in
    record c {
      shield = if ltb shield_entries (length sh) then trim_shield (reverse c.lru) sh else sh;
    }

-- `map_.emplace` leaves an entry that is there already.
unfoldable pub emplace : ℕ → Entry → List (ℕ × Entry) → List (ℕ × Entry)
emplace k e m = if has k m then m else (k, e) ∷ m

unfoldable pub admit : SliceCache → ℕ → Entry → SliceCache
unfolding emplace has
admit c k e = record c { lru = k ∷ c.lru; map = emplace k e c.map; used = add64 c.used e.bytes }

unfoldable pub commit_locked : SliceCache → ℕ → Entry → SliceCache
unfolding admit shield_key add64
commit_locked c k e =
    if leb e.bytes c.hard_cap_bytes then shield_key (admit c k e) k else shield_key c k
