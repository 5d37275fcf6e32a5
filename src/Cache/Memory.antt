-- ===== src/Cache/Memory.antt =====
-- The bytes that the slice cache of core/src/features/streaming/cache.cpp serves. Slices lie in
-- windows, at an address and with a size that the key decides, and evictions hand whole pages back.
use caedral_notre_engine.Prelude.{
  ℕ, ◌+◌, ◌-◌, ◌%◌, ◌≤◌, ◌<◌, ◌≡◌, ◌∙◌, ap, ◌≢◌, ◌⊎◌, inl, inr, true, false, some, nat_eq, arith,
  ◌==◌, Bool-cases, ==_iff,
}
use caedral_notre_engine.Prelude.Words.{u64_mod}
use caedral_notre_engine.Prelude.Assoc.{lookup, has, has-erase, lookup-erase}
use caedral_notre_engine.Cache.Defs.{
  SliceCache, Entry, page_size, page_floor, span_pages, write_range, drop_pages, evict,
  make_room_locked, shield_key, emplace, admit, commit_locked, find_victim,
}
use caedral_notre_engine.Cache.Ops.{
  Source, Origin, read_origin, count_hit, refresh, count_miss, touch_locked,
}
use caedral_notre_engine.Cache.Invariant.{IsSound}
use caedral_notre_engine.Cache.Room.{make_room_keeps}
use caedral_notre_engine.Cache.Outcome.{IsValid, touch_miss-Ready}

drop_pages_in :
    (mem : ℕ → ℕ) (addr bytes a : ℕ)
    → page_floor addr ≤ a
    → a < page_floor addr + span_pages addr bytes
    → drop_pages mem addr bytes a ≡ 0
unfolding drop_pages
drop_pages_in mem addr bytes a h k = unfold write_range in ground arith

-- On whole pages an eviction clears the slice and nothing else.
drop_pages_aligned :
    (mem : ℕ → ℕ) (addr bytes a : ℕ)
    → addr % page_size ≡ 0
    → bytes % page_size ≡ 0
    → (a < addr) ⊎ (addr + bytes ≤ a)
    → drop_pages mem addr bytes a ≡ mem a
unfolding drop_pages page_floor span_pages write_range
drop_pages_aligned mem addr bytes a h k out = ground arith

pub write_range_in :
    (mem content : ℕ → ℕ) (dest bytes i : ℕ)
    → i < bytes
    → write_range mem dest bytes content (dest + i) ≡ content i
unfolding write_range
write_range_in mem content dest bytes i h =
    let back : dest + i - dest ≡ i = omega arith in ground (arith, ap content back)

pub write_range_out :
    (mem content : ℕ → ℕ) (dest bytes a : ℕ)
    → (a < dest) ⊎ (dest + bytes ≤ a)
    → write_range mem dest bytes content a ≡ mem a
unfolding write_range
write_range_out mem content dest bytes a h = ground arith

-- When a slice is evicted behind which another resident slice begins inside a page, that one stays
-- resident, and the first byte of its memory is cleared.
pub evict_clobbers :
    (c : SliceCache) (v w : ℕ) (e f : Entry)
    → v ≢ w
    → lookup w c.map ≡ some f
    → f.slice_addr ≡ e.slice_addr + e.bytes
    → f.slice_addr % page_size ≢ 0
    → (lookup w (evict c v e).map ≡ some f) × ((evict c v e).memory f.slice_addr ≡ 0)
unfolding evict
evict_clobbers c v w e f ne found next bad = (
  ground (arith, lookup-erase w v c.map),
  drop_pages_in c.memory e.slice_addr e.bytes f.slice_addr (unfold page_floor in omega arith)
      (unfold page_floor span_pages in omega arith),
)

-- Where the slices lie.
pub record Layout (addr size : ℕ → ℕ) : Type 0 where
  pub aligned : (k : ℕ) → (addr k % page_size ≡ 0) × (size k % page_size ≡ 0)
  pub disjoint : (j k : ℕ) → j ≢ k → (addr j + size j ≤ addr k) ⊎ (addr k + size k ≤ addr j)

module _ (addr size : ℕ → ℕ) (content : ℕ → ℕ → ℕ) where
  -- Every resident slice lies at its place and holds its bytes.
  pub record Holds (c : SliceCache) : Type 0 where
    pub placed :
        (k : ℕ) (e : Entry) → lookup k c.map ≡ some e → (e.slice_addr ≡ addr k) × (e.bytes ≡ size k)
    pub bytes : (k i : ℕ) → has k c.map ≡ true → i < size k → c.memory (addr k + i) ≡ content k i

  module _ (lay : Layout addr size) where
    outside :
        (j k i : ℕ) → j ≢ k → i < size k → (addr k + i < addr j) ⊎ (addr j + size j ≤ addr k + i)
    outside j k i ne h = ground (arith, lay.disjoint j k ne)

    evict-Holds :
        (c : SliceCache) (v : ℕ) (e : Entry)
        → IsSound c
        → find_victim c ≡ some v
        → lookup v c.map ≡ some e
        → Holds c
        → Holds (evict c v e)
    unfolding evict
    evict-Holds c v e s victim found h = record {
      placed = λ k f p. h.placed k f (ground (arith, lookup-erase k v c.map));
      bytes = λ k i here lt.
          let ne : v ≢ k = λ same. ground (arith, has-erase k v c.map) in
          let old : has k c.map ≡ true = ground (arith, has-erase k v c.map) in
          let (at_addr, of_size) = h.placed v e found in
          rw (at_addr, of_size)
            (drop_pages_aligned c.memory (addr v) (size v) (addr k + i) (lay.aligned v).0
                (lay.aligned v).1 (outside v k i ne lt)
              ∙ h.bytes k i old lt);
    }

    make_room-Holds :
        (c : SliceCache) (bytes : ℕ) (c' : SliceCache)
        → IsSound c
        → c.used + bytes < u64_mod
        → Holds c
        → make_room_locked c bytes ≡ some c'
        → Holds c'
    make_room-Holds = make_room_keeps Holds evict-Holds

    -- The state after a commit, in what `Holds` reads.
    commit_reads :
        (c : SliceCache) (k j : ℕ) (e : Entry)
        → has k c.map ≡ false
        → ((commit_locked c k e).memory ≡ c.memory)
          × ((f : Entry)
              → lookup j (commit_locked c k e).map ≡ some f
              → (lookup j c.map ≡ some f) ⊎ ((k ≡ j) × (f ≡ e)))
          × (has j (commit_locked c k e).map ≡ true → (has j c.map ≡ true) ⊎ (k ≡ j))
    unfolding commit_locked shield_key admit emplace has lookup
    commit_reads c k j e absent = (ground arith, λ f h. ground arith, λ h. ground arith)

    -- Writing slice `k` and committing it, over a cache that holds the other slices.
    commit-Holds :
        (c : SliceCache) (mem : ℕ → ℕ) (k : ℕ) (e : Entry) (src : ℕ → ℕ)
        → has k c.map ≡ false
        → e.slice_addr ≡ addr k
        → e.bytes ≡ size k
        → ((i : ℕ) → i < size k → src i ≡ content k i)
        → c.memory ≡ write_range mem e.slice_addr e.bytes src
        → Holds (record c { memory = mem })
        → Holds (commit_locked c k e)
          × ((i : ℕ) → i < size k → (commit_locked c k e).memory (addr k + i) ≡ content k i)
    commit-Holds c mem k e src absent ha hb same written h = (
      record {
        placed = λ j f p. ground (arith, (commit_reads c k j e absent).1 f p, h.placed j f);
        bytes = λ j i here lt. elim ((commit_reads c k j e absent).2 here) [
          | inr eq ↦ rw (← eq) (own i (rw eq lt))
          | inl old ↦ elim (Bool-cases (k == j)) [
            | inl eq ↦ let e' : k ≡ j = (==_iff k j).0 eq in rw (← e') (own i (rw e' lt))
            | inr ne ↦ other j i old (λ eq. ground arith) lt
          ]
        ];
      },
      own,
    )
      where
        reads : (a : ℕ) → (commit_locked c k e).memory a ≡ write_range mem (addr k) (size k) src a
        reads a = ground (arith, (commit_reads c k k e absent).0)

        own : (i : ℕ) → i < size k → (commit_locked c k e).memory (addr k + i) ≡ content k i
        own i lt = reads (addr k + i) ∙ write_range_in mem src (addr k) (size k) i lt ∙ same i lt

        other :
            (j i : ℕ)
            → has j c.map ≡ true
            → k ≢ j
            → i < size j
            → (commit_locked c k e).memory (addr j + i) ≡ content j i
        other j i old ne lt =
            reads (addr j + i)
            ∙ write_range_out mem src (addr k) (size k) (addr j + i) (outside k j i ne lt)
            ∙ h.bytes j i old lt

    -- With page-aligned, disjoint slices, each at its place and of its size, on a valid cache that
    -- holds the bytes of its slices, with a slice that does not overflow a machine word together
    -- with the cap, and a read of a miss that gives the slice its bytes: after `touch_locked`, hit
    -- or miss, the place of the slice in memory holds its bytes, and so does the place of every
    -- slice that is still resident.
    pub touch_locked_serves :
        (source : Source) (c : SliceCache) (k : ℕ) (e : Entry) (origin : Origin) (src : ℕ → ℕ)
        → IsValid c
        → c.hard_cap_bytes + e.bytes < u64_mod
        → e.slice_addr ≡ addr k
        → e.bytes ≡ size k
        → (has k c.map ≡ false → read_origin source origin e.bytes ≡ some src)
        → ((i : ℕ) → i < size k → src i ≡ content k i)
        → Holds c
        → (c' : SliceCache) × (touch_locked source c k e origin ≡ some (c', has k c.map))
          × Holds c'
          × ((i : ℕ) → i < size k → c'.memory (addr k + i) ≡ content k i)
    unfolding touch_locked
    touch_locked_serves source c k e origin src v w ha hb reads same h =
        elim (Bool-cases (has k c.map)) [
          | inl here ↦ (
            refresh c k,
            ground arith,
            record {
              placed = unfold refresh count_hit in h.placed;
              bytes = unfold refresh count_hit in h.bytes;
            },
            unfold refresh count_hit in λ i lt. h.bytes k i here lt,
          )
          | inr absent ↦
              let (c₁, c₂, misses, makes, _, books, memory, ready) =
                touch_miss-Ready source c k e origin src v w absent (reads absent) in
              let h₁ = make_room-Holds c e.bytes c₁ v.sound (omega (arith, v.capped)) h makes in
              let (held, own) =
                commit-Holds (count_miss c₂ e.bytes) c₁.memory k e src ready.absent ha hb same
                  (unfold count_miss in memory)
                  (record {
                    placed = unfold count_miss in rw books.map h₁.placed;
                    bytes = unfold count_miss in rw books.map h₁.bytes;
                  }) in
              (commit_locked (count_miss c₂ e.bytes) k e, ground arith, held, own)
        ]
