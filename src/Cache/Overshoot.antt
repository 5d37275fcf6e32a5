-- ===== src/Cache/Overshoot.antt =====
-- `touch_batch_at` of core/src/features/streaming/cache.cpp: room is made for each miss before any
-- miss of the batch is charged.
use caedral_notre_engine.Prelude.{
  ℕ, ◌+◌, ◌-◌, ◌*◌, ◌≤◌, ◌<◌, ◌≡◌, refl, ◌∙◌, false, List, [], ◌∷◌, some, nat_eq, arith, length,
  All, map,
}
use caedral_notre_engine.Prelude.Words.{u64_mod, add64_exact}
use caedral_notre_engine.Prelude.Assoc.{has}
use caedral_notre_engine.Cache.Defs.{
  SliceCache, make_room_round, make_room_loop, make_room_locked, shield_key, admit, commit_locked,
}
use caedral_notre_engine.Cache.Ops.{Source, offset, read_origin, entry}
use caedral_notre_engine.Cache.Batch.{
  SliceWindow, Miss, uniq, count_dedup, slice_entry, slice_start, slice_key, classify_batch,
  fill_misses, commit_misses, count_misses, touch_batch_at,
}
use caedral_notre_engine.Cache.Touch.{fill_slice_total}

make_room_idle :
    (c : SliceCache) (bytes : ℕ)
    → c.used + bytes ≤ c.hard_cap_bytes
    → c.hard_cap_bytes < u64_mod
    → make_room_locked c bytes ≡ some c
unfolding make_room_locked make_room_loop make_room_round
make_room_idle c bytes h w = ground (arith, add64_exact c.used bytes)

-- The backend serves every offset of a window of slices of this size.
abbrev pub Serves : Source → ℕ → Type 0
Serves source bytes =
    (off : ℕ) → (content : ℕ → ℕ) × (read_origin source (offset off) bytes ≡ some content)

abbrev miss_of : SliceWindow → ℕ → ℕ → Miss
miss_of w src_base e = record {
  k = slice_key w e;
  expert = e;
  off = slice_start src_base e w.bytes;
}

-- None of the ids is resident.
abbrev pub AllAbsent : SliceWindow → SliceCache → List ℕ → Type 0
AllAbsent w c ids = All (λ e. has (slice_key w e) c.map ≡ false) ids

classify_absent :
    (w : SliceWindow) (src_base : ℕ) (c : SliceCache) (ids : List ℕ)
    → AllAbsent w c ids
    → c.used + w.bytes ≤ c.hard_cap_bytes
    → c.hard_cap_bytes < u64_mod
    → classify_batch w src_base c ids ≡ some (c, map (miss_of w src_base) ids)
unfolding classify_batch
classify_absent w src_base c [] a room fits = refl
classify_absent w src_base c (e ∷ es) a room fits =
    rw (a.0, classify_batch)
      (rw (make_room_idle c w.bytes room fits)
        (rw (classify_absent w src_base c es a.1 room fits) refl))

fill_misses_total :
    (source : Source) (w : SliceWindow) (src_base : ℕ) (c : SliceCache) (ids : List ℕ)
    → Serves source w.bytes
    → (c' : SliceCache) × (fill_misses source w c (map (miss_of w src_base) ids) ≡ some c')
      × (c'.used ≡ c.used)
      × (c'.hard_cap_bytes ≡ c.hard_cap_bytes)
unfolding fill_misses
fill_misses_total source w src_base c [] s = (c, refl, refl, refl)
fill_misses_total source w src_base c (e ∷ es) s =
    let (content, reads) = s (slice_start src_base e w.bytes) in
    let (c₁, fills, books, _, _) =
      fill_slice_total source c (slice_entry w e).slice_addr
        (offset (slice_start src_base e w.bytes)) w.bytes content reads in
    let (c', rest, used, cap) = fill_misses_total source w src_base c₁ es s in
    (c', rw fills rest, used ∙ books.used, cap ∙ books.cap)

commit_misses_used :
    (w : SliceWindow) (src_base : ℕ) (c : SliceCache) (ids : List ℕ)
    → w.bytes ≤ c.hard_cap_bytes
    → c.used + length ids * w.bytes < u64_mod
    → (commit_misses w c (map (miss_of w src_base) ids)).used ≡ c.used + length ids * w.bytes
unfolding commit_misses
commit_misses_used w src_base c [] small fits = omega arith
commit_misses_used w src_base c (e ∷ es) small fits =
    let (used, cap) = charged in
    omega (
      arith,
      used,
      cap,
      commit_misses_used w src_base (commit_locked c (slice_key w e) (slice_entry w e)) es
          (omega (arith, cap)) (omega (arith, used)),
    )
  where
    charged :
        ((commit_locked c (slice_key w e) (slice_entry w e)).used ≡ c.used + w.bytes)
        × ((commit_locked c (slice_key w e) (slice_entry w e)).hard_cap_bytes ≡ c.hard_cap_bytes)
    charged = (
      unfold commit_locked shield_key admit slice_entry entry in
          ground (arith, add64_exact c.used w.bytes),
      unfold commit_locked shield_key admit slice_entry entry in ground arith,
    )

-- With a backend that serves every read, a batch whose slices are all absent, on a cache with room
-- for one of them, returns and charges all of them, as long as the sum fits a machine word:
-- `used_` grows by the number of distinct ids times the slice size, whatever the cap.
pub touch_batch_at_overshoots :
    (order : List ℕ → List ℕ) (source : Source) (c : SliceCache) (w : SliceWindow)
    (experts : List ℕ) (src_base : ℕ)
    → Serves source w.bytes
    → AllAbsent w c (order (uniq experts))
    → c.used + w.bytes ≤ c.hard_cap_bytes
    → c.hard_cap_bytes < u64_mod
    → c.used + length (order (uniq experts)) * w.bytes < u64_mod
    → (c' : SliceCache) × (misses : ℕ) × (touch_batch_at order source c w experts src_base
        ≡ some (c', misses))
      × (c'.used ≡ c.used + length (order (uniq experts)) * w.bytes)
unfolding touch_batch_at count_dedup count_misses
touch_batch_at_overshoots order source c w experts src_base s absent room fits word =
    let ids = order (uniq experts) in
    let c₀ = count_dedup c (length experts - length (uniq experts)) in
    let (c₂, fills, used, cap) = fill_misses_total source w src_base c₀ ids s in
    let ms = map (miss_of w src_base) ids in
    (
      count_misses (commit_misses w c₂ ms) (length ms) w.bytes,
      length ms,
      rw (classify_absent w src_base c₀ ids absent room fits) (rw fills refl),
      omega (
        arith,
        used,
        commit_misses_used w src_base c₂ ids (omega (arith, cap)) (omega (arith, used)),
      ),
    )
