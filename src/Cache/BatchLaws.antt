-- ===== src/Cache/BatchLaws.antt =====
-- The batches of core/src/features/streaming/cache.cpp: `touch_batch` and the prefetch keep the
-- cap, and `touch_batch_at` does not.
use caedral_notre_engine.Prelude.{
  ℕ, suc, ◌+◌, ◌-◌, ◌≤◌, ◌<◌, ◌≡◌, refl, ◌∙◌, inl, inr, List, [], ◌∷◌, some, nat_eq, arith,
  if◌then◌else◌, length, Bool-cases,
}
use caedral_notre_engine.Prelude.Words.{u64_mod}
use caedral_notre_engine.Prelude.Assoc.{has}
use caedral_notre_engine.Cache.Defs.{SliceCache, commit_locked}
use caedral_notre_engine.Cache.Ops.{Source, pointer, read_origin, entry}
use caedral_notre_engine.Cache.Batch.{
  SliceWindow, uniq, count_dedup, slice_entry, slice_key, touch_each, touch_batch, prefetch_commit,
  count_prefetched,
}
use caedral_notre_engine.Cache.Room.{has_kept, make_room_locked_total}
use caedral_notre_engine.Cache.Touch.{SameBooks-IsSound}
use caedral_notre_engine.Cache.Outcome.{IsValid, Ready-Touched, touch_locked_total}

bytes-slice_entry : (w : SliceWindow) (e : ℕ) → (slice_entry w e).bytes ≡ w.bytes
unfolding slice_entry entry
bytes-slice_entry w e = refl

touch_each-IsValid :
    (source : Source) (w : SliceWindow) (src : ℕ → ℕ → ℕ) (c : SliceCache) (ids : List ℕ)
    → IsValid c
    → c.hard_cap_bytes + w.bytes < u64_mod
    → (c' : SliceCache) × (misses : ℕ) × (touch_each source w src c ids ≡ some (c', misses))
      × IsValid c'
      × (c'.hard_cap_bytes ≡ c.hard_cap_bytes)
      × (misses ≤ length ids)
unfolding touch_each
touch_each-IsValid source w src c [] v h = (c, 0, refl, v, refl, omega arith)
touch_each-IsValid source w src c (e ∷ es) v h =
    let (c₁, touches, t) =
      touch_locked_total source c (slice_key w e) (slice_entry w e) (pointer (src e)) (src e) v
        (omega (arith, bytes-slice_entry w e)) (λ _. unfold read_origin in refl) in
    let (c₂, misses, rest, v₂, cap, few) =
      touch_each-IsValid source w src c₁ es t.valid (omega (arith, t.cap)) in
    (
      c₂,
      (if has (slice_key w e) c.map then misses else suc misses),
      rw touches (rw rest refl),
      v₂,
      cap ∙ t.cap,
      ground arith,
    )

-- On a valid cache, with slices that do not overflow a machine word together with the cap,
-- `touch_batch` returns, with a valid cache under the same cap and no more misses than distinct
-- ids, in whatever order the distinct ones are served.
pub touch_batch-IsValid :
    (order : List ℕ → List ℕ) (source : Source) (c : SliceCache) (w : SliceWindow)
    (experts : List ℕ) (src : ℕ → ℕ → ℕ)
    → IsValid c
    → c.hard_cap_bytes + w.bytes < u64_mod
    → (c' : SliceCache) × (misses : ℕ) × (touch_batch order source c w experts src
        ≡ some (c', misses))
      × IsValid c'
      × (c'.hard_cap_bytes ≡ c.hard_cap_bytes)
      × (misses ≤ length (order (uniq experts)))
unfolding touch_batch count_dedup
touch_batch-IsValid order source c w experts src v h =
    touch_each-IsValid source w src (count_dedup c (length experts - length (uniq experts)))
      (order (uniq experts))
      (record {
        sound =
            SameBooks-IsSound {c = c} (record { cap = refl; map = refl; lru = refl; used = refl })
              v.sound;
        capped = v.capped;
      })
      h

-- The last phase of the prefetch, from any valid cache, with slices that do not overflow a machine
-- word together with the cap, returns a valid cache under the same cap.
pub prefetch_commit-IsValid :
    (w : SliceWindow) (c : SliceCache) (ids : List ℕ)
    → IsValid c
    → c.hard_cap_bytes + w.bytes < u64_mod
    → (c' : SliceCache) × (prefetch_commit w c ids ≡ some c')
      × IsValid c'
      × (c'.hard_cap_bytes ≡ c.hard_cap_bytes)
unfolding prefetch_commit count_prefetched
prefetch_commit-IsValid w c [] v h = (c, refl, v, refl)
prefetch_commit-IsValid w c (e ∷ es) v h = elim (Bool-cases (has (slice_key w e) c.map)) [
  | inl here ↦
      let (c', rest, v', cap) = prefetch_commit-IsValid w c es v h in
      (c', rw (here, prefetch_commit) rest, v', cap)
  | inr absent ↦
      let k = slice_key w e in
      let f = slice_entry w e in
      let (c₁, makes, room) = make_room_locked_total c w.bytes v.sound (omega (arith, v.capped)) in
      let t = Ready-Touched c k f c₁ v (omega (arith, bytes-slice_entry w e)) absent (record {
        sound = room.sound;
        cap = room.evicts.cap;
        absent = ground (arith, has_kept room.evicts k);
        fits = ground (arith, room.fits, bytes-slice_entry w e);
        within = room.evicts.used;
      }) in
      let committed = commit_locked c₁ k f in
      let (c', rest, v', cap) =
        prefetch_commit-IsValid w (count_prefetched committed) es
          (record {
            sound =
                SameBooks-IsSound {c = committed}
                  (record { cap = refl; map = refl; lru = refl; used = refl }) t.valid.sound;
            capped = t.valid.capped;
          })
          (omega (arith, t.cap)) in
      (c', rw (absent, prefetch_commit) (rw makes rest), v', cap ∙ t.cap)
]
