-- ===== src/Io/Scheduler.antt =====
-- `IoScheduler` of core/src/features/streaming/io_scheduler.cpp as a step relation: a step is what
-- one thread does between two points where it gives up the mutex, and the order of the threads is
-- the order of the steps.
use caedral_notre_engine.Prelude.{
  ℕ, suc, ◌+◌, ◌%◌, ◌^◌, ◌≡◌, Bool, true, false, not, ◌&&◌, List, [], ◌∷◌, Option, none, some, ltb,
  ◌==◌, if◌then◌else◌, length, nat_eq,
}
use caedral_notre_engine.Prelude.Assoc.{contains, remove}

-- `running` holds the jobs that workers have claimed and not finished; `finished` is kept for the
-- proofs only: the jobs that have run, the last one first. `pending` is a 32-bit counter.
pub record IoScheduler : Type 0 where
  pub lanes : ℕ
  pub fn : ℕ → Option Bool
  pub count : ℕ
  pub next : ℕ
  pub pending : ℕ
  pub failed : Bool
  pub shutdown : Bool
  pub running : List ℕ
  pub finished : List ℕ

unfoldable pub new_scheduler : ℕ → IoScheduler
new_scheduler lanes = record {
  lanes = if ltb lanes 1 then 1 else lanes;
  fn = λ i. some false;
  count = 0;
  next = 0;
  pending = 0;
  failed = false;
  shutdown = false;
  running = [];
  finished = [];
}

-- The part of `run` before it waits, for a batch that is not empty: an empty one returns true at
-- once and changes nothing.
unfoldable pub submit : IoScheduler → ℕ → (ℕ → Option Bool) → IoScheduler
submit s n fn = record s {
  fn = fn;
  count = n;
  next = 0;
  pending = n % 2 ^ 32;
  failed = false;
  finished = [];
}

-- What `run` returns, once it is no longer blocked.
unfoldable pub run_result : IoScheduler → Option Bool
run_result s = if s.pending == 0 then some (not s.failed) else none

-- A worker is free, and its wait is over with a job to claim.
unfoldable pub can_claim : IoScheduler → Bool
can_claim s = ltb (length s.running) s.lanes && (not s.shutdown && ltb s.next s.count)

unfoldable pub claim : IoScheduler → IoScheduler
claim s = record s { next = s.next + 1; running = s.next ∷ s.running }

-- A job that throws has failed.
unfoldable pub job_ok : Option Bool → Bool
job_ok none = false
job_ok (some ok) = ok

-- A worker takes the mutex again after its job `i`.
unfoldable pub complete : IoScheduler → ℕ → IoScheduler
unfolding job_ok remove
complete s i = record s {
  failed = if not (job_ok (s.fn i)) then true else s.failed;
  pending = (s.pending + 4294967295) % 2 ^ 32;
  running = remove i s.running;
  finished = i ∷ s.finished;
}

pub data Step (s : IoScheduler) : IoScheduler → Type 0 where
  claims : can_claim s ≡ true → Step s (claim s)
  completes : (i : ℕ) → contains i s.running ≡ true → Step s (complete s i)

pub data Steps (s : IoScheduler) : ℕ → IoScheduler → Type 0 where
  start : Steps s 0 s
  then_step : {k : ℕ} {t u : IoScheduler} → Steps s k t → Step t u → Steps s (suc k) u
