-- ===== src/Io/SchedulerInvariant.antt =====
-- What holds of `IoScheduler` while a batch of `run` is under way, whatever the order of the steps.
use caedral_notre_engine.Prelude.{
  ℕ, zero, suc, ◌+◌, ◌^◌, ◌≤◌, ◌<◌, ◌≡◌, refl, Bool, true, false, not, ◌&&◌, List, [], ◌∷◌, Option,
  arith, ==_iff, if◌then◌else◌, length, nat_eq,
}
use caedral_notre_engine.Prelude.Assoc.{
  contains, remove, Distinct, contains-remove, remove-Distinct, remove_absent,
}
use caedral_notre_engine.Io.Scheduler.{
  IoScheduler, submit, can_claim, claim, job_ok, complete, claims, completes, Steps, start,
  then_step,
}

-- The jobs one after the other: all of them return true.
unfoldable pub all_ok : (ℕ → Option Bool) → ℕ → Bool
unfolding job_ok
all_ok fn zero = true
all_ok fn (suc n) = job_ok (fn n) && all_ok fn n

-- Some job of the list failed.
unfoldable pub some_failed : (ℕ → Option Bool) → List ℕ → Bool
some_failed fn [] = false
some_failed fn (i ∷ l) = if not (job_ok (fn i)) then true else some_failed fn l

pub record IsRunning (n : ℕ) (fn : ℕ → Option Bool) (s : IoScheduler) : Type 0 where
  pub jobs : s.fn ≡ fn
  pub has_lane : 0 < s.lanes
  pub no_shutdown : s.shutdown ≡ false
  pub counted : s.count ≡ n
  pub below : s.next ≤ n
  pub left : s.pending + length s.finished ≡ n
  pub claimed : length s.running + length s.finished ≡ s.next
  pub single : Distinct s.running
  pub runs : (i : ℕ) → contains i s.running ≡ true → i < s.next
  pub either : (i : ℕ) → i < s.next → contains i s.finished ≡ not (contains i s.running)
  pub ends : (i : ℕ) → contains i s.finished ≡ true → i < s.next
  pub once : Distinct s.finished
  pub failing : s.failed ≡ some_failed fn s.finished

pub length-remove_once :
    (a : ℕ) (xs : List ℕ)
    → contains a xs ≡ true
    → Distinct xs
    → suc (length (remove a xs)) ≡ length xs
unfolding contains remove
length-remove_once a [] h d = absurd (ground arith)
length-remove_once a (x ∷ xs) h d =
    ground (arith, length-remove_once a xs, remove_absent a xs, ==_iff x a)

pub submit-IsRunning :
    (s : IoScheduler) (n : ℕ) (fn : ℕ → Option Bool)
    → n < 2 ^ 32
    → 0 < s.lanes
    → s.shutdown ≡ false
    → s.running ≡ []
    → IsRunning n fn (submit s n fn)
unfolding submit some_failed contains
submit-IsRunning s n fn h l d r = record {
  jobs = refl;
  has_lane = l;
  no_shutdown = d;
  counted = refl;
  below = omega arith;
  left = omega arith;
  claimed = rw r refl;
  single = rw r tt;
  runs = λ i y. absurd (ground arith);
  either = λ i y. absurd (omega arith);
  ends = λ i y. absurd (ground arith);
  once = tt;
  failing = refl;
}

claim-IsRunning :
    (n : ℕ) (fn : ℕ → Option Bool) (s : IoScheduler)
    → can_claim s ≡ true
    → IsRunning n fn s
    → IsRunning n fn (claim s)
unfolding can_claim claim contains
claim-IsRunning n fn s c v = record {
  jobs = v.jobs;
  has_lane = v.has_lane;
  no_shutdown = v.no_shutdown;
  counted = v.counted;
  below = ground (arith, v.below, v.counted);
  left = v.left;
  claimed = ground (arith, v.claimed);
  single = (ground (arith, v.runs s.next), v.single);
  runs = λ i y. ground (arith, v.runs i);
  either = λ i y. ground (arith, v.either i, v.ends s.next, v.runs s.next);
  ends = λ i y. ground (arith, v.ends i);
  once = v.once;
  failing = v.failing;
}

complete-IsRunning :
    (n : ℕ) (fn : ℕ → Option Bool) (s : IoScheduler) (i : ℕ)
    → n < 2 ^ 32
    → contains i s.running ≡ true
    → IsRunning n fn s
    → IsRunning n fn (complete s i)
unfolding complete contains some_failed
complete-IsRunning n fn s i h c v = record {
  jobs = v.jobs;
  has_lane = v.has_lane;
  no_shutdown = v.no_shutdown;
  counted = v.counted;
  below = v.below;
  left = ground (arith, v.left, v.claimed, v.below, length-remove_once i s.running c v.single);
  claimed = ground (arith, v.claimed, length-remove_once i s.running c v.single);
  single = remove-Distinct i s.running v.single;
  runs = λ j y. ground (arith, v.runs j, contains-remove j i s.running);
  either = λ j y. ground (arith, v.either j, contains-remove j i s.running);
  ends = λ j y. ground (arith, v.ends j, v.runs i c);
  once = (ground (arith, v.either i, v.runs i c), v.once);
  failing = rw (v.jobs, v.failing) refl;
}

pub Steps-IsRunning :
    (n : ℕ) (fn : ℕ → Option Bool) (s t : IoScheduler) (k : ℕ)
    → n < 2 ^ 32
    → Steps s k t
    → IsRunning n fn s
    → IsRunning n fn t
Steps-IsRunning n fn s t k h start v = v
Steps-IsRunning n fn s t k h (then_step r (claims c)) v =
    claim-IsRunning n fn _ c (Steps-IsRunning n fn s _ _ h r v)
Steps-IsRunning n fn s t k h (then_step r (completes i c)) v =
    complete-IsRunning n fn _ i h c (Steps-IsRunning n fn s _ _ h r v)
