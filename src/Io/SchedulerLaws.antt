-- ===== src/Io/SchedulerLaws.antt =====
-- A batch of `IoScheduler::run`: it ends under every interleaving of the workers, and with the
-- answer that running the jobs one by one has.
use caedral_notre_engine.Prelude.{
  ℕ, zero, suc, ◌+◌, ◌-◌, ◌*◌, ◌^◌, ◌≤◌, ◌<◌, ◌≡◌, refl, Bool, true, false, not, List, [], ◌∷◌, ◌⊎◌,
  ◌↔◌, ap, Option, some, arith, ==_iff, length, nat_eq, Bool-cases, inl, inr,
}
use caedral_notre_engine.Prelude.Assoc.{contains, Distinct}
use caedral_notre_engine.Io.Scheduler.{
  IoScheduler, submit, run_result, can_claim, claim, job_ok, complete, Step, claims, completes,
  Steps, start, then_step,
}
use caedral_notre_engine.Io.SchedulerInvariant.{
  all_ok, some_failed, IsRunning, length-remove_once, submit-IsRunning, Steps-IsRunning,
}

-- What is still to do: two steps for a job not claimed, one for a job that runs.
to_do : IoScheduler → ℕ
to_do s = 2 * (s.count - s.next) + length s.running

Step-to_do :
    (n : ℕ) (fn : ℕ → Option Bool) (s t : IoScheduler)
    → IsRunning n fn s
    → Step s t
    → suc (to_do t) ≡ to_do s
unfolding to_do claim complete can_claim
Step-to_do n fn s t v (claims c) = ground arith
Step-to_do n fn s t v (completes i c) = ground (arith, length-remove_once i s.running c v.single)

some_running : (l : List ℕ) → (l ≡ []) ⊎ ((i : ℕ) × (contains i l ≡ true))
unfolding contains
some_running [] = inl refl
some_running (i ∷ l) = inr (i, rw ((==_iff i i).1 refl) refl)

-- No deadlock: as long as `run` is blocked, some thread can take a step.
progress :
    (n : ℕ) (fn : ℕ → Option Bool) (s : IoScheduler)
    → IsRunning n fn s
    → 0 < s.pending
    → (t : IoScheduler) × Step s t
unfolding can_claim
progress n fn s v p = elim (some_running s.running) [
  | inl none_run ↦ (
    claim s,
    claims (
        ground (
          arith,
          none_run,
          ap length none_run,
          v.left,
          v.claimed,
          v.counted,
          v.has_lane,
          v.no_shutdown,
        )),
  )
  | inr (i, c) ↦ (complete s i, completes i c)
]

job_of_none :
    (fn : ℕ → Option Bool) (i : ℕ) (l : List ℕ)
    → some_failed fn l ≡ false
    → contains i l ≡ true
    → job_ok (fn i) ≡ true
unfolding some_failed contains
job_of_none fn i [] h c = absurd (ground arith)
job_of_none fn i (j ∷ l) h c = ground (arith, job_of_none fn i l, ==_iff j i)

all_ok_of_none :
    (fn : ℕ → Option Bool) (l : List ℕ) (n : ℕ)
    → some_failed fn l ≡ false
    → ((i : ℕ) → i < n → contains i l ≡ true)
    → all_ok fn n ≡ true
unfolding all_ok
all_ok_of_none fn l zero h c = refl
all_ok_of_none fn l (suc n) h c =
    rw
      (job_of_none fn n l h (c n (omega arith)), all_ok_of_none fn l n h (λ i y. c i (omega arith)))
      refl

not-all_ok_at :
    (fn : ℕ → Option Bool) (i n : ℕ) → i < n → job_ok (fn i) ≡ false → all_ok fn n ≡ false
unfolding all_ok
not-all_ok_at fn i zero y h = absurd (omega arith)
not-all_ok_at fn i (suc n) y h = ground (arith, not-all_ok_at fn i n)

not-all_ok :
    (fn : ℕ → Option Bool) (l : List ℕ) (n : ℕ)
    → some_failed fn l ≡ true
    → ((i : ℕ) → contains i l ≡ true → i < n)
    → all_ok fn n ≡ false
unfolding some_failed contains
not-all_ok fn [] n h c = absurd (ground arith)
not-all_ok fn (i ∷ l) n h c = elim (Bool-cases (job_ok (fn i))) [
  | inl y ↦ not-all_ok fn l n (ground arith) (λ j z. ground (arith, c j))
  | inr f ↦ not-all_ok_at fn i n (ground (arith, c i)) f
]

nothing : (l : List ℕ) → length l ≡ 0 → l ≡ []
nothing [] h = refl
nothing (j ∷ l) h = absurd (omega arith)

contains_nothing : (i : ℕ) (l : List ℕ) → length l ≡ 0 → contains i l ≡ false
unfolding contains
contains_nothing i [] h = refl
contains_nothing i (j ∷ l) h = absurd (omega arith)

covers :
    (n : ℕ) (fn : ℕ → Option Bool) (s : IoScheduler)
    → IsRunning n fn s
    → s.pending ≡ 0
    → (i : ℕ) → i < n
    → contains i s.finished ≡ true
covers n fn s v p i z =
    ground (arith, v.either i, v.left, v.claimed, v.below, contains_nothing i s.running)

answer :
    (n : ℕ) (fn : ℕ → Option Bool) (s : IoScheduler)
    → IsRunning n fn s
    → s.pending ≡ 0
    → not s.failed ≡ all_ok fn n
answer n fn s v p = elim (Bool-cases s.failed) [
  | inl y ↦
      rw
        (
          y,
          not-all_ok fn s.finished n (ground (arith, v.failing))
              (λ i z. ground (arith, v.ends i, v.below)),
        )
        refl
  | inr f ↦
      rw
        (
          f,
          all_ok_of_none fn s.finished n (ground (arith, v.failing)) (λ i z. covers n fn s v p i z),
        )
        refl
]

prepend : {s t u : IoScheduler} {k : ℕ} → Step s t → Steps t k u → Steps s (suc k) u
prepend st start = then_step start st
prepend st (then_step r q) = then_step (prepend st r) q

result :
    (n : ℕ) (fn : ℕ → Option Bool) (s : IoScheduler)
    → IsRunning n fn s
    → s.pending ≡ 0
    → run_result s ≡ some (all_ok fn n)
unfolding run_result
result n fn s v p = rw ((==_iff s.pending 0).1 p, answer n fn s v p) refl

Step-IsRunning :
    (n : ℕ) (fn : ℕ → Option Bool) (s t : IoScheduler)
    → n < 2 ^ 32
    → Step s t
    → IsRunning n fn s
    → IsRunning n fn t
Step-IsRunning n fn s t h st v = Steps-IsRunning n fn s t 1 h (then_step start st) v

finishes :
    (k n : ℕ) (fn : ℕ → Option Bool) (s : IoScheduler)
    → n < 2 ^ 32
    → IsRunning n fn s
    → to_do s ≡ k
    → (t : IoScheduler) × (Steps s k t × (run_result t ≡ some (all_ok fn n)))
unfolding to_do
finishes zero n fn s h v e =
    (s, (start, result n fn s v (ground (arith, v.left, v.claimed, v.counted, v.below))))
finishes (suc k) n fn s h v e =
    let (t, st) = progress n fn s v (ground (arith, v.left, v.claimed, v.counted, v.below)) in
    let (u, (r, q)) =
      finishes k n fn t h (Step-IsRunning n fn s t h st v)
        (omega (arith, Step-to_do n fn s t v st)) in
    (u, (prepend st r, q))

Steps-to_do :
    (n : ℕ) (fn : ℕ → Option Bool) (s t : IoScheduler) (k : ℕ)
    → n < 2 ^ 32
    → IsRunning n fn s
    → Steps s k t
    → k + to_do t ≡ to_do s
Steps-to_do n fn s t k h v start = omega arith
Steps-to_do n fn s t k h v (then_step r st) =
    omega (
      arith,
      Steps-to_do n fn s _ _ h v r,
      Step-to_do n fn _ t (Steps-IsRunning n fn s _ _ h r v) st,
    )

-- A scheduler between two calls of `run`: it has a lane, is not shut down, and no job runs.
abbrev pub IsIdle : IoScheduler → Type 0
IsIdle s = (0 < s.lanes) × ((s.shutdown ≡ false) × (s.running ≡ []))

begun :
    (s : IoScheduler) (n : ℕ) (fn : ℕ → Option Bool)
    → n < 2 ^ 32
    → IsIdle s
    → IsRunning n fn (submit s n fn) × (to_do (submit s n fn) ≡ 2 * n)
unfolding to_do submit
begun s n fn h i = (submit-IsRunning s n fn h i.0 i.1.0 i.1.1, ground (arith, ap length i.1.1))

-- From an idle scheduler with a batch of at least one and fewer than 2^32 jobs submitted, after any number of steps
-- in any order of the workers: at most two steps a job have been taken, and the rest of the two
-- steps a job leads to a state in which `run` returns, with whether every job returned true.
pub run_total :
    (s t : IoScheduler) (n k : ℕ) (fn : ℕ → Option Bool)
    → 0 < n
    → n < 2 ^ 32
    → IsIdle s
    → Steps (submit s n fn) k t
    → (k ≤ 2 * n)
      × ((u : IoScheduler) × (Steps t (2 * n - k) u × (run_result u ≡ some (all_ok fn n))))
run_total s t n k fn z h i r =
    let (v, e) = begun s n fn h i in
    let spent = Steps-to_do n fn (submit s n fn) t k h v r in
    (
      omega arith,
      finishes (2 * n - k) n fn t h (Steps-IsRunning n fn (submit s n fn) t k h r v) (omega arith),
    )

-- For an idle scheduler and a batch of at least one and fewer than 2^32 jobs: whenever `run` can
-- return, in any order of the workers' steps, every job of the batch has run
-- exactly once, nothing is left running, and the answer is whether every job returned true.
pub run_result_sound :
    (s t : IoScheduler) (n k : ℕ) (fn : ℕ → Option Bool)
    → 0 < n
    → n < 2 ^ 32
    → IsIdle s
    → Steps (submit s n fn) k t
    → t.pending ≡ 0
    → (run_result t ≡ some (all_ok fn n))
      × (Distinct t.finished × (((j : ℕ) → (contains j t.finished ≡ true) ↔ (j < n)) × IsIdle t))
run_result_sound s t n k fn z h i r p =
    let v = Steps-IsRunning n fn (submit s n fn) t k h r (begun s n fn h i).0 in
    (
      result n fn t v p,
      (
        v.once,
        (
          λ j. (λ c. ground (arith, v.ends j c, v.below), covers n fn t v p j),
          (
            v.has_lane,
            (v.no_shutdown, nothing t.running (ground (arith, v.left, v.claimed, v.below))),
          ),
        ),
      ),
    )
