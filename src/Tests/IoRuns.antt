-- ===== src/Tests/IoRuns.antt =====
-- The theorems on io_scheduler.cpp and direct_io.cpp at a concrete batch and a concrete file.
use caedral_notre_engine.Prelude.{
  ℕ, zero, suc, ◌+◌, ◌-◌, ◌*◌, ◌≤◌, ◌<◌, ◌≡◌, ◌⊎◌, ◌↔◌, refl, true, false, Bool, Option, none, some,
  arith, nat_eq, inl, inr, if◌then◌else◌, ltb, leb→le, ap, sym, ◌∙◌, leb, min, Bool-cases,
}
use caedral_notre_engine.Prelude.Assoc.{contains, Distinct, remove}
use caedral_notre_engine.Io.Scheduler.{
  IoScheduler, new_scheduler, submit, run_result, can_claim, claim, complete, claims, completes,
  Steps, start, then_step,
}
use caedral_notre_engine.Io.SchedulerInvariant.{all_ok}
use caedral_notre_engine.Io.SchedulerLaws.{IsIdle, run_total, run_result_sound}
use caedral_notre_engine.Io.Direct.{Pread, interrupted, got, Preads, aligned, served, read_aligned}
use caedral_notre_engine.Io.DirectLaws.{
  Honest, Reliable, IsRight, read_aligned-IsRight, read_aligned_served,
}

abbrev two_lanes : IoScheduler
two_lanes = new_scheduler 2

-- Job 1 throws.
abbrev jobs : ℕ → Option Bool
jobs i = if ltb i 1 then some true else none

two_lanes-IsIdle : IsIdle two_lanes
unfolding new_scheduler
two_lanes-IsIdle = (omega arith, (refl, refl))

-- Both jobs are claimed, and the second one ends first.
both_run :
    Steps
      (submit two_lanes 2 jobs)
      4
      (complete (complete (claim (claim (submit two_lanes 2 jobs))) 1) 0)
unfolding submit new_scheduler can_claim claim complete contains remove
both_run =
    then_step
      (then_step (then_step (then_step start (claims refl)) (claims refl)) (completes 1 refl))
      (completes 0 refl)

run_total_example :
    (4 ≤ 2 * 2)
    × ((u : IoScheduler) × (Steps
            (complete (complete (claim (claim (submit two_lanes 2 jobs))) 1) 0)
            (2 * 2 - 4)
            u
          × (run_result u ≡ some (all_ok jobs 2))))
run_total_example =
    run_total two_lanes (complete (complete (claim (claim (submit two_lanes 2 jobs))) 1) 0) 2 4 jobs
      (omega arith) (omega arith) two_lanes-IsIdle both_run

run_result_sound_example :
    (run_result (complete (complete (claim (claim (submit two_lanes 2 jobs))) 1) 0)
      ≡ some (all_ok jobs 2))
    × (Distinct (complete (complete (claim (claim (submit two_lanes 2 jobs))) 1) 0).finished
        × (((j : ℕ)
              → (contains j
                    (complete (complete (claim (claim (submit two_lanes 2 jobs))) 1) 0).finished
                  ≡ true)
                ↔ (j < 2))
            × IsIdle (complete (complete (claim (claim (submit two_lanes 2 jobs))) 1) 0)))
run_result_sound_example =
    run_result_sound two_lanes (complete (complete (claim (claim (submit two_lanes 2 jobs))) 1) 0) 2
      4 jobs (omega arith) (omega arith) two_lanes-IsIdle both_run
      (unfold complete claim submit new_scheduler in refl)

-- A file of three pages, each of its bytes 9; the first call is interrupted, and a call gives at
-- most 1000 bytes.
abbrev nines : ℕ → ℕ
nines i = 9

short_reads : Preads
short_reads zero asked off = interrupted
short_reads (suc call) asked off =
    if leb (off + min 1000 asked) 12288 then got (min 1000 asked) nines else got 0 nines

is_interrupted : Pread → Bool
is_interrupted interrupted = true
is_interrupted r = false

count_of : Pread → ℕ
count_of (got n bytes) = n
count_of r = 0

byte_of : Pread → ℕ → ℕ
byte_of (got n bytes) i = bytes i
byte_of r i = 9

count_bound :
    (call asked off : ℕ)
    → (count_of (short_reads call asked off) ≤ asked)
      × (count_of (short_reads call asked off) ≡ 0
          ⊎ (off + count_of (short_reads call asked off) ≤ 12288))
unfolding short_reads count_of
count_bound zero asked off = (omega arith, inl refl)
count_bound (suc call) asked off = elim (Bool-cases (leb (off + min 1000 asked) 12288)) [
  | inl y ↦ rw y (omega arith, inr (leb→le (off + min 1000 asked) 12288 y))
  | inr n ↦ rw n (omega arith, inl refl)
]

byte_nine : (call asked off i : ℕ) → byte_of (short_reads call asked off) i ≡ 9
unfolding short_reads byte_of
byte_nine zero asked off i = refl
byte_nine (suc call) asked off i = elim (Bool-cases (leb (off + min 1000 asked) 12288)) [
  | inl y ↦ rw y refl
  | inr n ↦ rw n refl
]

settled : (call asked off : ℕ) → 1 ≤ call → is_interrupted (short_reads call asked off) ≡ false
unfolding short_reads is_interrupted
settled zero asked off h = absurd (omega arith)
settled (suc call) asked off h = elim (Bool-cases (leb (off + min 1000 asked) 12288)) [
  | inl y ↦ rw y refl
  | inr n ↦ rw n refl
]

short_reads-Honest : Honest nines 12288 1 short_reads
unfolding count_of byte_of is_interrupted
short_reads-Honest = record {
  at_most =
      λ call asked off n bytes e. omega (arith, ap count_of e, (count_bound call asked off).0);
  file_bytes =
      λ call asked off n i bytes e l. ap (λ r. byte_of r i) (sym e) ∙ byte_nine call asked off i;
  in_file =
      λ call asked off n bytes e. omega (arith, ap count_of e, (count_bound call asked off).1);
  settles =
      λ call asked off l e. absurd (ground (arith, settled call asked off l, ap is_interrupted e));
}

short_reads-Reliable : Reliable 12288 short_reads
unfolding short_reads
short_reads-Reliable zero asked off h l = inl refl
short_reads-Reliable (suc call) asked off h l =
    let inside : leb (off + min 1000 asked) 12288 ≡ true = ground arith in
    let some_bytes : suc (min 1000 asked - 1) ≡ min 1000 asked = omega arith in
    inr (min 1000 asked - 1, (nines, rw (inside, some_bytes) refl))

abbrev memory : ℕ → ℕ
memory a = 0

read_aligned-IsRight_example :
    IsRight nines 12288 4096 8192 4096 memory
      (read_aligned short_reads 8200 true 4096 8192 4096 memory)
read_aligned-IsRight_example =
    read_aligned-IsRight nines 12288 1 short_reads short_reads-Honest 8200 4096 8192 4096 true
      memory (omega arith)

read_aligned_served_example :
    (m' : ℕ → ℕ) × (read_aligned short_reads 8200 true 4096 8192 4096 memory ≡ served m')
read_aligned_served_example =
    read_aligned_served nines 12288 1 short_reads short_reads-Honest short_reads-Reliable 8200 4096
      8192 4096 memory (omega arith) (omega arith) (unfold aligned in refl) (unfold aligned in refl)
      (unfold aligned in refl) (omega arith)
