-- ===== src/Io/DirectLaws.antt =====
-- What `DirectFile::read_aligned` puts into memory.
use caedral_notre_engine.Prelude.{
  ℕ, zero, suc, ◌+◌, ◌-◌, ◌≤◌, ◌<◌, ◌≡◌, ◌≢◌, ◌⊎◌, refl, Bool, true, false, not, ◌||◌, arith, ltb,
  ap, ◌∙◌, ltb→lt, lt→ltb, ◌==◌, if◌then◌else◌, Bool-cases, inl, inr,
}
use caedral_notre_engine.Cache.Defs.{write_range}
use caedral_notre_engine.Cache.Memory.{write_range_in, write_range_out}
use caedral_notre_engine.Io.Direct.{
  Pread, interrupted, failed, got, Preads, aligned, ReadEnd, served, rejected, unfinished,
  read_loop, read_aligned,
}

-- What `pread` documents, for a file with the given bytes: it gives at most the bytes asked for,
-- they are the file's, none lies behind its end, and only the first `patience` calls are interrupted.
pub record Honest (content : ℕ → ℕ) (size patience : ℕ) (pread : Preads) : Type 0 where
  pub at_most :
      (call asked off n : ℕ) (bytes : ℕ → ℕ) → pread call asked off ≡ got n bytes → n ≤ asked
  pub file_bytes :
      (call asked off n i : ℕ) (bytes : ℕ → ℕ)
      → pread call asked off ≡ got n bytes
      → i < n
      → bytes i ≡ content (off + i)
  pub in_file :
      (call asked off n : ℕ) (bytes : ℕ → ℕ)
      → pread call asked off ≡ got (suc n) bytes
      → off + suc n ≤ size
  pub settles : (call asked off : ℕ) → patience ≤ call → pread call asked off ≢ interrupted

-- Besides: inside the file no call fails, and none gives nothing.
abbrev pub Reliable : ℕ → Preads → Type 0
Reliable size pread =
    (call asked off : ℕ)
    → 0 < asked
    → off + asked ≤ size
    → (pread call asked off ≡ interrupted)
      ⊎ ((n : ℕ) × ((bytes : ℕ → ℕ) × (pread call asked off ≡ got (suc n) bytes)))

-- Two memories agree outside the destination.
abbrev pub SameOutside : ℕ → ℕ → (ℕ → ℕ) → (ℕ → ℕ) → Type 0
SameOutside dest bytes m₀ m = (a : ℕ) → (a < dest) ⊎ (dest + bytes ≤ a) → m a ≡ m₀ a

-- The end of a read of `bytes` bytes at `offset` into `dest`, from the memory `m₀`.
abbrev pub IsRight : (ℕ → ℕ) → ℕ → ℕ → ℕ → ℕ → (ℕ → ℕ) → ReadEnd → Type 0
IsRight content size dest bytes offset m₀ (served m) =
    ((i : ℕ) → i < bytes → m (dest + i) ≡ content (offset + i))
    × (SameOutside dest bytes m₀ m × (0 < bytes → offset + bytes ≤ size))
IsRight content size dest bytes offset m₀ (rejected m) = SameOutside dest bytes m₀ m
IsRight content size dest bytes offset m₀ unfinished = true ≡ false

module _ (content : ℕ → ℕ) (size patience : ℕ) (pread : Preads)
    (law : Honest content size patience pread) where
  record Progress (dest bytes offset : ℕ) (m₀ m : ℕ → ℕ) (done_bytes : ℕ) : Type 0 where
    at_most_all : done_bytes ≤ bytes
    there : (i : ℕ) → i < done_bytes → m (dest + i) ≡ content (offset + i)
    outside : SameOutside dest bytes m₀ m
    readable : 0 < done_bytes → offset + done_bytes ≤ size

  arrived :
      (dest offset : ℕ) (m data_bytes : ℕ → ℕ) (d n i : ℕ)
      → ((j : ℕ) → j < d → m (dest + j) ≡ content (offset + j))
      → ((j : ℕ) → j < n → data_bytes j ≡ content ((offset + d) + j))
      → i < d + n
      → write_range m (dest + d) n data_bytes (dest + i) ≡ content (offset + i)
  arrived dest offset m data_bytes d n i old new l = elim (Bool-cases (ltb i d)) [
    | inl y ↦
        write_range_out m data_bytes (dest + d) n (dest + i) (inl (ground arith))
        ∙ old i (ground arith)
    | inr y ↦
        let at : dest + i ≡ (dest + d) + (i - d) = ground arith in
        let from : (offset + d) + (i - d) ≡ offset + i = ground arith in
        ap (write_range m (dest + d) n data_bytes) at
        ∙ (write_range_in m data_bytes (dest + d) n (i - d) (ground arith)
            ∙ (new (i - d) (ground arith) ∙ ap content from))
  ]

  advance :
      (dest bytes offset : ℕ) (m₀ m data_bytes : ℕ → ℕ) (d call n : ℕ)
      → pread call (bytes - d) (offset + d) ≡ got (suc n) data_bytes
      → d < bytes
      → Progress dest bytes offset m₀ m d
      → Progress dest bytes offset m₀ (write_range m (dest + d) (suc n) data_bytes) (d + suc n)
  advance dest bytes offset m₀ m data_bytes d call n e l p =
      let few = law.at_most call (bytes - d) (offset + d) (suc n) data_bytes e in
      record {
        at_most_all = omega (arith, p.at_most_all);
        there = λ i y.
            arrived dest offset m data_bytes d (suc n) i p.there
              (λ j z. law.file_bytes call (bytes - d) (offset + d) (suc n) j data_bytes e z) y;
        outside = λ a o.
            write_range_out m data_bytes (dest + d) (suc n) a (ground (arith, p.at_most_all))
            ∙ p.outside a o;
        readable = λ y. omega (arith, law.in_file call (bytes - d) (offset + d) n data_bytes e);
      }

  -- What the loop does with the end of a call.
  pub after_call : (fuel call dest bytes offset d : ℕ) (m : ℕ → ℕ) → Pread → ReadEnd
  unfolding read_loop write_range
  after_call fuel call dest bytes offset d m r = elim r [
    | interrupted ↦ read_loop pread fuel (suc call) dest bytes offset d m
    | failed ↦ rejected m
    | got zero data_bytes ↦ rejected m
    | got (suc n) data_bytes ↦
        read_loop pread fuel (suc call) dest bytes offset (d + suc n)
          (write_range m (dest + d) (suc n) data_bytes)
  ]

  loop_call :
      (fuel call dest bytes offset d : ℕ) (m : ℕ → ℕ)
      → d < bytes
      → read_loop pread (suc fuel) call dest bytes offset d m
        ≡ after_call fuel call dest bytes offset d m (pread call (bytes - d) (offset + d))
  unfolding read_loop after_call
  loop_call fuel call dest bytes offset d m l = rw (lt→ltb d bytes l, read_loop) refl

  loop_end :
      (fuel call dest bytes offset d : ℕ) (m : ℕ → ℕ)
      → ltb d bytes ≡ false
      → read_loop pread (suc fuel) call dest bytes offset d m ≡ served m
  unfolding read_loop
  loop_end fuel call dest bytes offset d m n = rw (n, read_loop) refl

  -- The loop with this fuel ends right from every state that it may be in.
  LoopRight : ℕ → ℕ → ℕ → ℕ → (ℕ → ℕ) → Type 0
  LoopRight fuel dest bytes offset m₀ =
      (call d : ℕ) (m : ℕ → ℕ)
      → (patience - call) + (bytes - d) < fuel
      → Progress dest bytes offset m₀ m d
      → IsRight content size dest bytes offset m₀ (read_loop pread fuel call dest bytes offset d m)

  after_call-IsRight :
      (fuel call dest bytes offset d : ℕ) (m₀ m : ℕ → ℕ) (r : Pread)
      → pread call (bytes - d) (offset + d) ≡ r
      → LoopRight fuel dest bytes offset m₀
      → d < bytes
      → (patience - call) + (bytes - d) < suc fuel
      → Progress dest bytes offset m₀ m d
      → IsRight content size dest bytes offset m₀ (after_call fuel call dest bytes offset d m r)
  unfolding after_call LoopRight
  after_call-IsRight fuel call dest bytes offset d m₀ m interrupted e ih l f p =
      ih (suc call) d m (ground (arith, law.settles call (bytes - d) (offset + d))) p
  after_call-IsRight fuel call dest bytes offset d m₀ m failed e ih l f p = p.outside
  after_call-IsRight fuel call dest bytes offset d m₀ m (got zero data_bytes) e ih l f p = p.outside
  after_call-IsRight fuel call dest bytes offset d m₀ m (got (suc n) data_bytes) e ih l f p =
      ih (suc call) (d + suc n) (write_range m (dest + d) (suc n) data_bytes) (omega arith)
        (advance dest bytes offset m₀ m data_bytes d call n e l p)

  read-LoopRight : (fuel dest bytes offset : ℕ) (m₀ : ℕ → ℕ) → LoopRight fuel dest bytes offset m₀
  unfolding LoopRight read_loop
  read-LoopRight zero dest bytes offset m₀ call d m f p = absurd (omega arith)
  read-LoopRight (suc fuel) dest bytes offset m₀ call d m f p = elim (Bool-cases (ltb d bytes)) [
    | inl y ↦ rw (loop_call fuel call dest bytes offset d m (ltb→lt d bytes y)) (
        after_call-IsRight fuel call dest bytes offset d m₀ m (pread call (bytes - d) (offset + d))
          refl (read-LoopRight fuel dest bytes offset m₀) (ltb→lt d bytes y) f p)
    | inr n ↦ rw (loop_end fuel call dest bytes offset d m n) (
      λ i l. p.there i (ground arith),
      (p.outside, λ l. ground (arith, p.readable, p.at_most_all)),
    )
  ]

  either-IsRight :
      (b c : Bool) (dest bytes offset : ℕ) (m : ℕ → ℕ) (r : ReadEnd)
      → IsRight content size dest bytes offset m r
      → IsRight content size dest bytes offset m
          (if b then rejected m else if c then rejected m else r)
  either-IsRight true c dest bytes offset m r h = λ a o. refl
  either-IsRight false true dest bytes offset m r h = λ a o. refl
  either-IsRight false false dest bytes offset m r h = h

  begun : (dest bytes offset : ℕ) (m : ℕ → ℕ) → Progress dest bytes offset m m 0
  begun dest bytes offset m = record {
    at_most_all = omega arith;
    there = λ i y. absurd (omega arith);
    outside = λ a o. refl;
    readable = λ y. absurd (omega arith);
  }

  -- For a file whose `pread` keeps to what it documents, and with fuel for the interruptions, the
  -- bytes and one round more, `read_aligned` ends: if it returns true, the destination holds the
  -- file's bytes at the offset, which all lie inside the file; and whether it does or not, no other
  -- byte of memory has changed.
  pub read_aligned-IsRight :
      (fuel dest bytes offset : ℕ) (is_open : Bool) (m : ℕ → ℕ)
      → patience + bytes < fuel
      → IsRight content size dest bytes offset m
          (read_aligned pread fuel is_open dest bytes offset m)
  unfolding read_aligned LoopRight
  read_aligned-IsRight fuel dest bytes offset is_open m f =
      either-IsRight (not is_open || dest == 0)
        (not (aligned offset) || (not (aligned bytes) || not (aligned dest))) dest bytes offset m
        (read_loop pread fuel 0 dest bytes offset 0 m)
        (read-LoopRight fuel dest bytes offset m 0 0 m (omega arith) (begun dest bytes offset m))

  read_loop_served :
      Reliable size pread
      → (fuel call dest bytes offset d : ℕ) (m : ℕ → ℕ) → (patience - call) + (bytes - d) < fuel
      → d ≤ bytes
      → offset + bytes ≤ size
      → (m' : ℕ → ℕ) × (read_loop pread fuel call dest bytes offset d m ≡ served m')
  unfolding after_call
  read_loop_served rel zero call dest bytes offset d m f l z = absurd (omega arith)
  read_loop_served rel (suc fuel) call dest bytes offset d m f l z =
      elim (Bool-cases (ltb d bytes)) [
        | inr n ↦ (m, loop_end fuel call dest bytes offset d m n)
        | inl y ↦ elim (rel call (bytes - d) (offset + d) (ground arith) (ground arith)) [
          | inl e ↦
              rw (loop_call fuel call dest bytes offset d m (ltb→lt d bytes y), e)
                (read_loop_served rel fuel (suc call) dest bytes offset d m
                  (ground (arith, law.settles call (bytes - d) (offset + d))) l z)
          | inr (n, (data_bytes, e)) ↦
              let few = law.at_most call (bytes - d) (offset + d) (suc n) data_bytes e in
              rw (loop_call fuel call dest bytes offset d m (ltb→lt d bytes y), e)
                (read_loop_served rel fuel (suc call) dest bytes offset (d + suc n)
                  (write_range m (dest + d) (suc n) data_bytes) (omega arith) (omega arith) z)
        ]
      ]

  -- For a file whose `pread` keeps to what it documents and, inside the file, neither fails nor gives
  -- nothing, and with fuel for the interruptions, the bytes and one round more: an aligned read of an
  -- open file into memory, of bytes that lie inside the file, returns true.
  pub read_aligned_served :
      Reliable size pread
      → (fuel dest bytes offset : ℕ) (m : ℕ → ℕ) → patience + bytes < fuel
      → dest ≢ 0
      → aligned offset ≡ true
      → aligned bytes ≡ true
      → aligned dest ≡ true
      → offset + bytes ≤ size
      → (m' : ℕ → ℕ) × (read_aligned pread fuel true dest bytes offset m ≡ served m')
  unfolding read_aligned
  read_aligned_served rel fuel dest bytes offset m f z ao ab ad l =
      let there : (dest == 0) ≡ false = ground arith in
      rw (there, ao, ab, ad)
        (read_loop_served rel fuel 0 dest bytes offset 0 m (omega arith) (omega arith) l)
