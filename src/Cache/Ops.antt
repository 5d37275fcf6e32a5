-- ===== src/Cache/Ops.antt =====
-- The operations of `SliceCache` in core/src/features/streaming/cache.cpp: the fill of a slice,
-- `touch` and `touch_at`, the batches, and the three phases of the background prefetch. Each
-- runs under the cache's mutex, so it is one function of the state; `none` is an abort.
use caedral_notre_engine.Prelude.{
  ℕ, zero, suc, ◌+◌, ◌-◌, ◌&&◌, Bool, true, false, ◌∷◌, Option, none, some, nat_eq, Bytes, ◌==◌,
  if◌then◌else◌, ◌>>=◌,
}
use caedral_notre_engine.Prelude.Words.{add64}
use caedral_notre_engine.Prelude.Assoc.{contains, remove, insert, has}
use caedral_notre_engine.Cache.Defs.{
  SliceCache, Entry, key, write_range, make_room_locked, commit_locked,
}

-- The backend `Source`: `read(dest, src_offset, bytes)` as the bytes that it puts there, by index,
-- or its failure. `none` is an unset `src_.read`.
abbrev pub Source : Type 0
Source = Option (ℕ → ℕ → Option (ℕ → ℕ))

-- Where a slice's bytes come from: the pointer `src`, read as its bytes by index, or an offset.
pub data Origin : Type 0 where
  pointer : (ℕ → ℕ) → Origin
  offset : ℕ → Origin

-- The comparison of `memcmp(dest, src, bytes)` with 0.
unfoldable pub memcmp_eq : ℕ → (ℕ → ℕ) → (ℕ → ℕ) → Bool
memcmp_eq zero a b = true
memcmp_eq (suc n) a b = (a n == b n) && memcmp_eq n a b

unfoldable pub read_origin : Source → Origin → ℕ → Option (ℕ → ℕ)
read_origin source (pointer content) bytes = some content
read_origin none (offset off) bytes = none
read_origin (some read) (offset off) bytes = read off bytes

unfoldable pub verify_fill : SliceCache → Origin → ℕ → ℕ → Option SliceCache
unfolding memcmp_eq
verify_fill c (offset off) dest bytes = some c
verify_fill c (pointer content) dest bytes =
    if c.verify_remaining == 0
    then some c
    else if memcmp_eq bytes (λ i. c.memory (dest + i)) content
    then some (record c { verify_remaining = c.verify_remaining - 1 })
    else none

-- `fill_slice` with its caller's `abort()` on failure.
unfoldable pub fill_slice : Source → SliceCache → ℕ → Origin → ℕ → Option SliceCache
unfolding read_origin verify_fill write_range
fill_slice source c dest origin bytes = do
  content ← read_origin source origin bytes
  verify_fill (record c { memory = write_range c.memory dest bytes content }) origin dest bytes

unfoldable pub count_hit : SliceCache → SliceCache
unfolding add64
count_hit c = record c { stats = record (c.stats) { hits = add64 c.stats.hits 1 } }

-- The hit branch: refresh recency.
unfoldable pub refresh : SliceCache → ℕ → SliceCache
unfolding remove insert contains count_hit
refresh c k = count_hit (record c { lru = k ∷ remove k c.lru; shield = insert k c.shield })

unfoldable pub count_miss : SliceCache → ℕ → SliceCache
unfolding add64
count_miss c bytes = record c {
  stats = record (c.stats) {
    misses = add64 c.stats.misses 1;
    bytes_loaded = add64 c.stats.bytes_loaded bytes;
  };
}

unfoldable pub entry : Bytes → ℕ → ℕ → ℕ → Entry
entry tensor expert dest bytes = record {
  tensor = tensor;
  expert = expert;
  slice_addr = dest;
  bytes = bytes;
}

unfoldable pub touch_miss : Source → SliceCache → ℕ → Entry → Origin → Option SliceCache
unfolding make_room_locked fill_slice count_miss commit_locked
touch_miss source c k e origin = do
  c₁ ← make_room_locked c e.bytes
  c₂ ← fill_slice source c₁ e.slice_addr origin e.bytes
  some (commit_locked (count_miss c₂ e.bytes) k e)

unfoldable pub touch_locked : Source → SliceCache → ℕ → Entry → Origin → Option (SliceCache × Bool)
unfolding has refresh touch_miss
touch_locked source c k e origin =
    if has k c.map
    then some (refresh c k, true)
    else (touch_miss source c k e origin >>= λ c'. some (c', false))

unfoldable pub touch :
    Source → SliceCache → Bytes → ℕ → ℕ → (ℕ → ℕ) → ℕ → Option (SliceCache × Bool)
unfolding touch_locked entry key
touch source c tensor expert dest src bytes =
    touch_locked source c (key tensor expert) (entry tensor expert dest bytes) (pointer src)

unfoldable pub touch_at : Source → SliceCache → Bytes → ℕ → ℕ → ℕ → ℕ → Option (SliceCache × Bool)
unfolding touch_locked entry key
touch_at source c tensor expert dest src_offset bytes =
    touch_locked source c (key tensor expert) (entry tensor expert dest bytes) (offset src_offset)
