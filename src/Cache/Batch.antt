-- ===== src/Cache/Batch.antt =====
-- The batches of core/src/features/streaming/cache.cpp and the background prefetch. The iteration
-- order of `std::unordered_set<int> uniq` is the library's: `order` rearranges the distinct ids.
use caedral_notre_engine.Prelude.{
  ℕ, suc, ◌+◌, ◌-◌, ◌^◌, ltb, Bool, true, false, List, [], ◌∷◌, Option, none, some, nat_eq, Bytes,
  if◌then◌else◌, ◌>>=◌, length,
}
use caedral_notre_engine.Prelude.Words.{add64, mul64}
use caedral_notre_engine.Prelude.Assoc.{contains, insert, has}
use caedral_notre_engine.Cache.Defs.{
  SliceCache, Entry, key, write_range, make_room_locked, commit_locked,
}
use caedral_notre_engine.Cache.Ops.{
  Source, pointer, offset, touch_locked, entry, refresh, fill_slice, read_origin,
}

-- The ids inserted one by one.
unfoldable pub uniq : List ℕ → List ℕ
unfolding insert contains
uniq [] = []
uniq (e ∷ es) = insert e (uniq es)

unfoldable pub count_dedup : SliceCache → ℕ → SliceCache
unfolding add64
count_dedup c repeats = record c {
  stats = record (c.stats) { dedup_requests = add64 c.stats.dedup_requests repeats };
}

-- A fused tensor's window: where its slices live, and how large each one is.
pub record SliceWindow : Type 0 where
  pub tensor : Bytes
  pub base : ℕ
  pub bytes : ℕ

-- `base + (size_t) e * bytes`: the conversion extends the sign of the `int`.
unfoldable pub slice_start : ℕ → ℕ → ℕ → ℕ
unfolding add64 mul64
slice_start base e bytes =
    add64 base (mul64 (if ltb e (2 ^ 31) then e else e + (2 ^ 64 - 2 ^ 32)) bytes)

unfoldable pub slice_entry : SliceWindow → ℕ → Entry
unfolding entry slice_start
slice_entry w e = entry w.tensor e (slice_start w.base e w.bytes) w.bytes

unfoldable pub slice_key : SliceWindow → ℕ → ℕ
unfolding key
slice_key w e = key w.tensor e

-- The loop of `touch_batch`, with the bytes of each slice's source; returns the misses.
unfoldable pub touch_each :
    Source → SliceWindow → (ℕ → ℕ → ℕ) → SliceCache → List ℕ → Option (SliceCache × ℕ)
unfolding touch_locked slice_entry slice_key
touch_each source w src c [] = some (c, 0)
touch_each source w src c (e ∷ es) = do
  (c₁, hit) ← touch_locked source c (slice_key w e) (slice_entry w e) (pointer (src e))
  (c₂, misses) ← touch_each source w src c₁ es
  some (c₂, if hit then misses else suc misses)

unfoldable pub touch_batch :
    (List ℕ → List ℕ)
    → Source
    → SliceCache
    → SliceWindow
    → List ℕ
    → (ℕ → ℕ → ℕ)
    → Option (SliceCache × ℕ)
unfolding uniq count_dedup touch_each
touch_batch order source c w experts src =
    let ids = uniq experts in
    touch_each source w src (count_dedup c (length experts - length ids)) (order ids)

pub record Miss : Type 0 where
  pub k : ℕ
  pub expert : ℕ
  pub off : ℕ

-- Phase 1 of `touch_batch_at`: classify the hits, make room for each miss.
unfoldable pub classify_batch :
    SliceWindow → ℕ → SliceCache → List ℕ → Option (SliceCache × List Miss)
unfolding refresh slice_key has slice_start
classify_batch w src_base c [] = some (c, [])
classify_batch w src_base c (e ∷ es) =
    let k = slice_key w e in
    elim (has k c.map) [
      | true ↦ classify_batch w src_base (refresh c k) es
      | false ↦ do
        c₁ ← make_room_locked c w.bytes
        (c₂, misses) ← classify_batch w src_base c₁ es
        some (c₂, record { k = k; expert = e; off = slice_start src_base e w.bytes } ∷ misses)
    ]

-- Phase 2: every miss is read into its slice, or the process aborts.
unfoldable pub fill_misses : Source → SliceWindow → SliceCache → List Miss → Option SliceCache
unfolding slice_entry fill_slice
fill_misses source w c [] = some c
fill_misses source w c (m ∷ ms) = do
  c₁ ← fill_slice source c (slice_entry w m.expert).slice_addr (offset m.off) w.bytes
  fill_misses source w c₁ ms

-- Phase 3: commit the bookkeeping.
unfoldable pub commit_misses : SliceWindow → SliceCache → List Miss → SliceCache
unfolding slice_entry commit_locked
commit_misses w c [] = c
commit_misses w c (m ∷ ms) = commit_misses w (commit_locked c m.k (slice_entry w m.expert)) ms

unfoldable pub count_misses : SliceCache → ℕ → ℕ → SliceCache
unfolding add64 mul64
count_misses c n bytes = record c {
  stats = record (c.stats) {
    misses = add64 c.stats.misses n;
    bytes_loaded = add64 c.stats.bytes_loaded (mul64 n bytes);
  };
}

unfoldable pub touch_batch_at :
    (List ℕ → List ℕ) → Source → SliceCache → SliceWindow → List ℕ → ℕ → Option (SliceCache × ℕ)
unfolding uniq count_dedup classify_batch fill_misses commit_misses count_misses
touch_batch_at order source c w experts src_base = do
  let ids = uniq experts
  (c₁, misses) ← classify_batch w src_base (count_dedup c (length experts - length ids)) (order ids)
  c₂ ← fill_misses source w c₁ misses
  some (count_misses (commit_misses w c₂ misses) (length misses) w.bytes, length misses)

-- Phase 1 of `prefetch_batch_at`, under the lock: the ids whose slices are absent.
unfoldable pub prefetch_absent : SliceWindow → SliceCache → List ℕ → List ℕ
unfolding slice_key has
prefetch_absent w c [] = []
prefetch_absent w c (e ∷ es) =
    let rest = prefetch_absent w c es in if has (slice_key w e) c.map then rest else e ∷ rest

-- Phase 2, outside the lock: every job runs; `false` if one of them failed.
unfoldable pub prefetch_fill : Source → SliceWindow → ℕ → SliceCache → List ℕ → SliceCache × Bool
unfolding slice_entry read_origin write_range slice_start
prefetch_fill source w src_base c [] = (c, true)
prefetch_fill source w src_base c (e ∷ es) =
    elim (read_origin source (offset (slice_start src_base e w.bytes)) w.bytes) [
      | none ↦ let (c', ok) = prefetch_fill source w src_base c es in (c', false)
      | some content ↦
          prefetch_fill source w src_base
            (record c {
              memory = write_range c.memory (slice_entry w e).slice_addr w.bytes content;
            })
            es
    ]

unfoldable pub count_prefetched : SliceCache → SliceCache
unfolding add64
count_prefetched c = record c {
  stats = record (c.stats) { prefetched = add64 c.stats.prefetched 1 };
}

-- Phase 3, under the lock again: commit the entries that are still absent.
unfoldable pub prefetch_commit : SliceWindow → SliceCache → List ℕ → Option SliceCache
unfolding slice_key slice_entry has commit_locked count_prefetched
prefetch_commit w c [] = some c
prefetch_commit w c (e ∷ es) = elim (has (slice_key w e) c.map) [
  | true ↦ prefetch_commit w c es
  | false ↦ do
    c₁ ← make_room_locked c w.bytes
    prefetch_commit w (count_prefetched (commit_locked c₁ (slice_key w e) (slice_entry w e))) es
]

-- The three phases with nothing between them: no other thread runs.
unfoldable pub prefetch_batch_at :
    (List ℕ → List ℕ) → Source → SliceCache → SliceWindow → List ℕ → ℕ → Option SliceCache
unfolding uniq prefetch_absent prefetch_fill prefetch_commit
prefetch_batch_at order none c w experts src_base = some c
prefetch_batch_at order (some read) c w experts src_base =
    let absent = prefetch_absent w c (order (uniq experts)) in
    let (c₁, ok) = prefetch_fill (some read) w src_base c absent in
    if ok then prefetch_commit w c₁ absent else some c₁
