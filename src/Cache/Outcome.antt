-- ===== src/Cache/Outcome.antt =====
-- The outcome of `touch_locked` of core/src/features/streaming/cache.cpp, hit and miss together.
use caedral_notre_engine.Prelude.{
  ℕ, ◌+◌, ◌≤◌, ◌<◌, ◌≡◌, refl, ◌∙◌, ◌⊎◌, inl, inr, true, false, List, [], ◌∷◌, some, nat_eq, arith,
  leb, Bool-cases,
}
use caedral_notre_engine.Prelude.Words.{u64_mod, add64_exact}
use caedral_notre_engine.Prelude.Assoc.{contains, has}
use caedral_notre_engine.Cache.Defs.{
  SliceCache, Entry, write_range, make_room_locked, shield_key, emplace, admit, commit_locked,
}
use caedral_notre_engine.Cache.Ops.{
  Source, Origin, read_origin, count_hit, refresh, count_miss, touch_miss, touch_locked,
}
use caedral_notre_engine.Cache.Invariant.{IsSound, total}
use caedral_notre_engine.Cache.Room.{Evicts, has_kept, make_room_locked_total}
use caedral_notre_engine.Cache.Touch.{
  SameBooks, SameBooks-IsSound, fill_slice_total, refresh-IsSound, commit-IsSound,
}

-- Sound, and within the hard cap.
pub record IsValid (c : SliceCache) : Type 0 where
  pub sound : IsSound c
  pub capped : c.used ≤ c.hard_cap_bytes

pub record Touched (c : SliceCache) (k : ℕ) (e : Entry) (c' : SliceCache) : Type 0 where
  pub valid : IsValid c'
  pub cap : c'.hard_cap_bytes ≡ c.hard_cap_bytes
  pub resident :
      (has k c.map ≡ true) ⊎ (e.bytes ≤ c.hard_cap_bytes)
      → (rest : List ℕ) × (c'.lru ≡ k ∷ rest) × (has k c'.map ≡ true)
  pub oversized : has k c.map ≡ false → c.hard_cap_bytes < e.bytes → c'.lru ≡ []

-- An empty list and the map's keys: nothing is charged.
used_of_empty : (c : SliceCache) → IsSound c → c.lru ≡ [] → c.used ≡ 0
unfolding contains has total
used_of_empty c s h = s.counted ∙ nothing c.map (λ k. ground (arith, s.same k))
  where
    nothing : (m : List (ℕ × Entry)) → ((k : ℕ) → has k m ≡ false) → total m ≡ 0
    nothing [] p = refl
    nothing ((k, e) ∷ m) p = absurd (ground (arith, p k))

refresh-Touched :
    (c : SliceCache) (k : ℕ) (e : Entry)
    → IsValid c
    → has k c.map ≡ true
    → Touched c k e (refresh c k)
unfolding refresh count_hit
refresh-Touched c k e v here = record {
  valid = record { sound = refresh-IsSound c v.sound k here; capped = v.capped };
  cap = refl;
  resident = λ h. (_, refl, here);
  oversized = λ absent. cc;
}

-- What `commit_locked` leaves behind, in the two cases of its test.
module _ (c : SliceCache) (k : ℕ) (e : Entry) where
  commit_small :
      e.bytes ≤ c.hard_cap_bytes
      → c.used + e.bytes < u64_mod
      → ((commit_locked c k e).used ≡ c.used + e.bytes)
        × ((commit_locked c k e).hard_cap_bytes ≡ c.hard_cap_bytes)
        × ((commit_locked c k e).lru ≡ k ∷ c.lru)
        × (has k (commit_locked c k e).map ≡ true)
  unfolding commit_locked shield_key admit emplace has
  commit_small h w =
      (ground (arith, add64_exact c.used e.bytes), ground arith, ground arith, ground arith)

  commit_large :
      c.hard_cap_bytes < e.bytes
      → ((commit_locked c k e).used ≡ c.used)
        × ((commit_locked c k e).hard_cap_bytes ≡ c.hard_cap_bytes)
        × ((commit_locked c k e).lru ≡ c.lru)
  unfolding commit_locked shield_key
  commit_large h = (ground arith, ground arith, ground arith)

-- The state that a miss commits into: room was made, and the slice's bytes were written.
pub record Ready (c : SliceCache) (k : ℕ) (e : Entry) (c' : SliceCache) : Type 0 where
  pub sound : IsSound c'
  pub cap : c'.hard_cap_bytes ≡ c.hard_cap_bytes
  pub absent : has k c'.map ≡ false
  pub fits : (c'.used + e.bytes ≤ c'.hard_cap_bytes) ⊎ (c'.lru ≡ [])
  pub within : c'.used ≤ c.used

pub Ready-Touched :
    (c : SliceCache) (k : ℕ) (e : Entry) (c' : SliceCache)
    → IsValid c
    → c.hard_cap_bytes + e.bytes < u64_mod
    → has k c.map ≡ false
    → Ready c k e c'
    → Touched c k e (commit_locked c' k e)
Ready-Touched c k e c' v w absent r = elim (Bool-cases (leb e.bytes c'.hard_cap_bytes)) [
  | inl small ↦
      let (used, cap, lru, here) =
        commit_small c' k e (ground arith) (omega (arith, r.within, v.capped)) in
      record {
        valid = record { sound = sound; capped = ground (arith, used_of_empty c' r.sound, r.fits) };
        cap = cap ∙ r.cap;
        resident = λ h. (c'.lru, lru, here);
        oversized = λ p q. absurd (ground (arith, r.cap));
      }
  | inr large ↦
      let (used, cap, lru) = commit_large c' k e (ground arith) in
      record {
        valid = record {
          sound = sound;
          capped = omega (arith, used, cap, r.within, v.capped, r.cap);
        };
        cap = cap ∙ r.cap;
        resident = λ h. absurd (ground (arith, r.cap));
        oversized = λ p q. lru ∙ ground (arith, r.fits);
      }
]
  where
    sound : IsSound (commit_locked c' k e)
    sound = commit-IsSound c' k e r.sound r.absent (omega (arith, r.within, v.capped))

-- A miss up to the commit.
pub touch_miss-Ready :
    (source : Source) (c : SliceCache) (k : ℕ) (e : Entry) (origin : Origin) (content : ℕ → ℕ)
    → IsValid c
    → c.hard_cap_bytes + e.bytes < u64_mod
    → has k c.map ≡ false
    → read_origin source origin e.bytes ≡ some content
    → (c₁ : SliceCache) × (c₂ : SliceCache) × (touch_miss source c k e origin
        ≡ some (commit_locked (count_miss c₂ e.bytes) k e))
      × (make_room_locked c e.bytes ≡ some c₁)
      × Evicts c c₁
      × SameBooks c₁ c₂
      × (c₂.memory ≡ write_range c₁.memory e.slice_addr e.bytes content)
      × Ready c k e (count_miss c₂ e.bytes)
unfolding touch_miss count_miss
touch_miss-Ready source c k e origin content v w absent reads =
    let (c₁, makes, room) = make_room_locked_total c e.bytes v.sound (omega (arith, v.capped)) in
    let (c₂, fills, books, shield, memory) =
      fill_slice_total source c₁ e.slice_addr origin e.bytes content reads in
    (
      c₁,
      c₂,
      ground arith,
      makes,
      room.evicts,
      books,
      memory,
      record {
        sound =
            SameBooks-IsSound
              (record { cap = books.cap; map = books.map; lru = books.lru; used = books.used })
              room.sound;
        cap = books.cap ∙ room.evicts.cap;
        absent = ground (arith, books.map, has_kept room.evicts k);
        fits = ground (arith, books.cap, books.lru, books.used, room.fits);
        within = omega (arith, books.used, room.evicts.used);
      },
    )

-- On a valid cache, with a slice that does not overflow a machine word together with the cap,
-- `touch_locked` returns whenever the read of a miss succeeds. It reports a hit exactly when the
-- key was in the map. Afterwards the cache is valid: map, list and counter agree and `used_` is
-- within the hard cap, which is the same. The key is resident and most recently used if it was a
-- hit or the slice is not larger than the cap; a miss of a larger slice leaves the cache empty.
pub touch_locked_total :
    (source : Source) (c : SliceCache) (k : ℕ) (e : Entry) (origin : Origin) (content : ℕ → ℕ)
    → IsValid c
    → c.hard_cap_bytes + e.bytes < u64_mod
    → (has k c.map ≡ false → read_origin source origin e.bytes ≡ some content)
    → (c' : SliceCache) × (touch_locked source c k e origin ≡ some (c', has k c.map))
      × Touched c k e c'
unfolding touch_locked
touch_locked_total source c k e origin content v w reads = elim (Bool-cases (has k c.map)) [
  | inl here ↦ (refresh c k, ground arith, refresh-Touched c k e v here)
  | inr absent ↦
      let (c₁, c₂, misses, _, _, _, _, ready) =
        touch_miss-Ready source c k e origin content v w absent (reads absent) in
      (
        commit_locked (count_miss c₂ e.bytes) k e,
        ground arith,
        Ready-Touched c k e (count_miss c₂ e.bytes) v w absent ready,
      )
]
