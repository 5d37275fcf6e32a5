-- ===== src/Tests/CacheRuns.antt =====
-- The theorems on core/src/features/streaming/cache.cpp at small caches.
use caedral_notre_engine.Prelude.{
  ℕ, ◌+◌, ◌*◌, ◌≤◌, ◌<◌, ◌≡◌, refl, [], ◌∷◌, none, some, nat_eq, arith, codes, length,
}
use caedral_notre_engine.Prelude.Assoc.{contains, lookup, has}
use caedral_notre_engine.Cache.Defs.{SliceCache, Entry, new_cache, evict, no_stats}
use caedral_notre_engine.Cache.Ops.{Source, pointer, read_origin, touch_locked}
use caedral_notre_engine.Cache.Batch.{
  SliceWindow, uniq, touch_batch, touch_batch_at, prefetch_commit,
}
use caedral_notre_engine.Cache.Invariant.{IsSound, total}
use caedral_notre_engine.Cache.Outcome.{IsValid, Touched, touch_locked_total}
use caedral_notre_engine.Cache.Memory.{Layout, Holds, evict_clobbers, touch_locked_serves}
use caedral_notre_engine.Cache.BatchLaws.{touch_batch-IsValid, prefetch_commit-IsValid}
use caedral_notre_engine.Cache.Overshoot.{touch_batch_at_overshoots}

abbrev blank : ℕ → ℕ
blank a = 0

abbrev page_of : ℕ → ℕ → ℕ
page_of k i = k + 1

abbrev two_pages : SliceCache
two_pages = new_cache 8192 blank

abbrev slice : ℕ → Entry
slice k = record {
  tensor = codes "blk.0.ffn_gate_exps";
  expert = k;
  slice_addr = k * 4096;
  bytes = 4096;
}

-- One slice, number 3, is resident and fills the cache.
abbrev full : SliceCache
full = record {
  hard_cap_bytes = 4096;
  stats = no_stats;
  map = (3, slice 3) ∷ [];
  lru = 3 ∷ [];
  used = 4096;
  shield = [];
  verify_remaining = 0;
  memory = blank;
}

abbrev window : SliceWindow
window = record { tensor = codes "blk.0.ffn_up_exps"; base = 65536; bytes = 4096 }

two_pages-IsValid : IsValid two_pages
unfolding new_cache contains has total
two_pages-IsValid = record {
  sound = record {
    distinct_lru = tt;
    distinct_map = tt;
    same = λ k. refl;
    counted = refl;
    word = omega arith;
  };
  capped = omega arith;
}

full-IsSound : IsSound full
unfolding contains has total
full-IsSound = record {
  distinct_lru = (refl, tt);
  distinct_map = (refl, tt);
  same = λ k. refl;
  counted = refl;
  word = omega arith;
}

full-IsValid : IsValid full
full-IsValid = record { sound = full-IsSound; capped = omega arith }

touch_locked_total_example :
    (c' : SliceCache) × (touch_locked none full 5 (slice 5) (pointer (page_of 5))
      ≡ some (c', has 5 full.map))
    × Touched full 5 (slice 5) c'
touch_locked_total_example =
    touch_locked_total none full 5 (slice 5) (pointer (page_of 5)) (page_of 5) full-IsValid
      (omega arith) (λ absent. unfold read_origin in refl)

page_places : Layout (λ k. k * 4096) (λ k. 4096)
page_places = record {
  aligned = λ k. (omega arith, omega arith);
  disjoint = λ j k ne. ground arith;
}

two_pages-Holds : Holds (λ k. k * 4096) (λ k. 4096) page_of two_pages
unfolding new_cache has lookup
two_pages-Holds = record {
  placed = λ k e h. absurd (ground arith);
  bytes = λ k i h. absurd (ground arith);
}

touch_locked_serves_example :
    (c' : SliceCache) × (touch_locked none two_pages 5 (slice 5) (pointer (page_of 5))
      ≡ some (c', has 5 two_pages.map))
    × Holds (λ k. k * 4096) (λ k. 4096) page_of c'
    × ((i : ℕ) → i < 4096 → c'.memory (5 * 4096 + i) ≡ page_of 5 i)
touch_locked_serves_example =
    touch_locked_serves (λ k. k * 4096) (λ k. 4096) page_of page_places none two_pages 5 (slice 5)
      (pointer (page_of 5)) (page_of 5) two_pages-IsValid (unfold new_cache in omega arith) refl
      refl (λ absent. unfold read_origin in refl) (λ i l. refl) two_pages-Holds

-- Two slices of 100 bytes side by side, the second one in the middle of a page.
abbrev half : ℕ → Entry
half a = record { tensor = codes "blk.0.ffn_gate_exps"; expert = 0; slice_addr = a; bytes = 100 }

abbrev side_by_side : SliceCache
side_by_side = record {
  hard_cap_bytes = 200;
  stats = no_stats;
  map = (1, half 8192) ∷ (2, half 8292) ∷ [];
  lru = 2 ∷ 1 ∷ [];
  used = 200;
  shield = [];
  verify_remaining = 0;
  memory = λ a. 7;
}

evict_clobbers_example :
    (lookup 2 (evict side_by_side 1 (half 8192)).map ≡ some (half 8292))
    × ((evict side_by_side 1 (half 8192)).memory 8292 ≡ 0)
evict_clobbers_example =
    evict_clobbers side_by_side 1 2 (half 8192) (half 8292) (omega arith) (unfold lookup in refl)
      refl (omega arith)

touch_batch-IsValid_example :
    (c' : SliceCache) × (misses : ℕ) × (touch_batch
        (λ ids. ids)
        none
        full
        window
        (4 ∷ 5 ∷ 4 ∷ [])
        page_of
      ≡ some (c', misses))
    × IsValid c'
    × (c'.hard_cap_bytes ≡ full.hard_cap_bytes)
    × (misses ≤ length (uniq (4 ∷ 5 ∷ 4 ∷ [])))
touch_batch-IsValid_example =
    touch_batch-IsValid (λ ids. ids) none full window (4 ∷ 5 ∷ 4 ∷ []) page_of full-IsValid
      (omega arith)

prefetch_commit-IsValid_example :
    (c' : SliceCache) × (prefetch_commit window full (4 ∷ 5 ∷ []) ≡ some c')
    × IsValid c'
    × (c'.hard_cap_bytes ≡ full.hard_cap_bytes)
prefetch_commit-IsValid_example =
    prefetch_commit-IsValid window full (4 ∷ 5 ∷ []) full-IsValid (omega arith)

abbrev disk : Source
disk = some (λ off bytes. some blank)

-- A cap of one slice, and a batch of three.
abbrev one_page : SliceCache
one_page = new_cache 4096 blank

touch_batch_at_overshoots_example :
    (c' : SliceCache) × (misses : ℕ) × (touch_batch_at
        (λ ids. ids)
        disk
        one_page
        window
        (4 ∷ 5 ∷ 6 ∷ [])
        0
      ≡ some (c', misses))
    × (c'.used ≡ one_page.used + length (uniq (4 ∷ 5 ∷ 6 ∷ [])) * 4096)
touch_batch_at_overshoots_example =
    touch_batch_at_overshoots (λ ids. ids) disk one_page window (4 ∷ 5 ∷ 6 ∷ []) 0
      (λ off. (blank, unfold read_origin in refl))
      (unfold uniq new_cache has in (refl, (refl, (refl, tt)))) (unfold new_cache in omega arith)
      (unfold new_cache in omega arith) (unfold new_cache uniq contains in omega arith)
