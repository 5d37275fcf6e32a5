-- ===== src/Cache/Touch.antt =====
-- `touch_locked`, which `touch` and `touch_at` of core/src/features/streaming/cache.cpp call with
-- the key of the slice: it is total where the fill succeeds, and keeps the cache under its cap.
use caedral_notre_engine.Prelude.{
  ℕ, zero, suc, ◌+◌, ◌-◌, ◌≤◌, ◌<◌, ◌≡◌, refl, ap, inl, inr, true, false, some, nat_eq, arith, leb,
  ◌==◌, Bool-cases,
}
use caedral_notre_engine.Prelude.Words.{u64_mod, add64_exact}
use caedral_notre_engine.Prelude.Assoc.{contains, has, contains-remove, remove-Distinct}
use caedral_notre_engine.Cache.Defs.{
  SliceCache, Entry, write_range, shield_key, emplace, admit, commit_locked,
}
use caedral_notre_engine.Cache.Ops.{
  Source, Origin, pointer, offset, memcmp_eq, read_origin, verify_fill, fill_slice, count_hit,
  refresh,
}
use caedral_notre_engine.Cache.Invariant.{IsSound, total}

-- The parts of the state that the map and the list are.
pub record SameBooks (c c' : SliceCache) : Type 0 where
  pub cap : c'.hard_cap_bytes ≡ c.hard_cap_bytes
  pub map : c'.map ≡ c.map
  pub lru : c'.lru ≡ c.lru
  pub used : c'.used ≡ c.used

pub SameBooks-IsSound : {c c' : SliceCache} → SameBooks c c' → IsSound c → IsSound c'
SameBooks-IsSound {c} {c'} b s = record {
  distinct_lru = rw b.lru s.distinct_lru;
  distinct_map = rw b.map s.distinct_map;
  same = λ k. rw (b.lru, b.map) (s.same k);
  counted = rw (b.used, b.map) s.counted;
  word = rw b.used s.word;
}

memcmp-write_range :
    (n bytes dest : ℕ) (mem content : ℕ → ℕ)
    → n ≤ bytes
    → memcmp_eq n (λ i. write_range mem dest bytes content (dest + i)) content ≡ true
unfolding memcmp_eq
memcmp-write_range zero bytes dest mem content h = refl
memcmp-write_range (suc n) bytes dest mem content h =
    ground (arith, written, memcmp-write_range n bytes dest mem content)
  where
    back : dest + n - dest ≡ n
    back = omega arith

    written : write_range mem dest bytes content (dest + n) ≡ content n
    written = unfold write_range in ground (arith, ap content back)

-- A fill writes the slice's bytes and nothing else, and its own check of them never fails.
pub fill_slice_total :
    (source : Source) (c : SliceCache) (dest : ℕ) (origin : Origin) (bytes : ℕ) (content : ℕ → ℕ)
    → read_origin source origin bytes ≡ some content
    → (c' : SliceCache) × (fill_slice source c dest origin bytes ≡ some c')
      × SameBooks c c'
      × (c'.shield ≡ c.shield)
      × (c'.memory ≡ write_range c.memory dest bytes content)
unfolding fill_slice read_origin verify_fill
fill_slice_total source c dest (offset off) bytes content h = (
  record c { memory = write_range c.memory dest bytes content },
  rw h refl,
  record { cap = refl; map = refl; lru = refl; used = refl },
  refl,
  refl,
)
fill_slice_total source c dest (pointer src) bytes content h =
    elim (Bool-cases (c.verify_remaining == 0)) [
      | inl off ↦ (
        record c { memory = written },
        ground arith,
        record { cap = refl; map = refl; lru = refl; used = refl },
        refl,
        ground arith,
      )
      | inr on ↦ (
        record c { memory = written; verify_remaining = c.verify_remaining - 1 },
        ground (arith, memcmp-write_range bytes bytes dest c.memory src (omega arith)),
        record { cap = refl; map = refl; lru = refl; used = refl },
        refl,
        ground arith,
      )
    ]
  where
    written : ℕ → ℕ
    written = write_range c.memory dest bytes src

module _ (c : SliceCache) (s : IsSound c) (k : ℕ) where
  admit-IsSound :
      (e : Entry) → has k c.map ≡ false → c.used + e.bytes < u64_mod → IsSound (admit c k e)
  unfolding admit emplace contains has total
  admit-IsSound e absent w = record {
    distinct_lru = ground (arith, s.same k, s.distinct_lru);
    distinct_map = ground (arith, s.distinct_map);
    same = λ j. ground (arith, s.same j);
    counted = ground (arith, add64_exact c.used e.bytes, s.counted);
    word = ground (arith, add64_exact c.used e.bytes);
  }

  pub refresh-IsSound : has k c.map ≡ true → IsSound (refresh c k)
  unfolding refresh contains count_hit
  refresh-IsSound here = record {
    distinct_lru =
        (ground (arith, contains-remove k k c.lru), remove-Distinct k c.lru s.distinct_lru);
    distinct_map = s.distinct_map;
    same = λ j. ground (arith, contains-remove j k c.lru, s.same j);
    counted = s.counted;
    word = s.word;
  }

shield_key-SameBooks : (c : SliceCache) (k : ℕ) → SameBooks c (shield_key c k)
unfolding shield_key
shield_key-SameBooks c k = record { cap = refl; map = refl; lru = refl; used = refl }

pub commit-IsSound :
    (c : SliceCache) (k : ℕ) (e : Entry)
    → IsSound c
    → has k c.map ≡ false
    → c.used + e.bytes < u64_mod
    → IsSound (commit_locked c k e)
unfolding commit_locked
commit-IsSound c k e s absent w = elim (Bool-cases (leb e.bytes c.hard_cap_bytes)) [
  | inl small ↦
      rw small
        (SameBooks-IsSound (shield_key-SameBooks (admit c k e) k) (admit-IsSound c s k e absent w))
  | inr large ↦ rw large (SameBooks-IsSound (shield_key-SameBooks c k) s)
]
