-- ===== src/Runtime/ContextLaws.antt =====
-- The bounds of the context that runtime/cne_runtime.cpp asks for.
use caedral_notre_engine.Prelude.{
  ℕ, ◌≤◌, ◌≡◌, ◌≢◌, refl, List, [], Option, none, some, Bytes, codes, ltb, if◌then◌else◌, arith,
  Bool-cases, inl, inr,
}
use caedral_notre_engine.Config.Env.{cne_key}
use caedral_notre_engine.Config.EnvLaws.{Agrees}
use caedral_notre_engine.Config.Knob.{ℤ, pos, negsuc, at_least, or_else, is_knob}
use caedral_notre_engine.Config.KnobLaws.{int_knob_total}
use caedral_notre_engine.Runtime.Context.{
  RuntimeSettings, ContextPlan, above_one, read_once, context_of, plan_context,
}

at_least-le : (b : ℕ) (x : ℤ) → b ≤ at_least b x
at_least-le b (pos n) = ground arith
at_least-le b (negsuc n) = omega arith

above_one-le : (o : Option ℤ) → 1 ≤ above_one 1 o
above_one-le none = omega arith
above_one-le (some (pos n)) = ground arith
above_one-le (some (negsuc n)) = omega arith

-- The bounds of a plan.
abbrev pub IsServable : ContextPlan → Type 0
IsServable p =
    (64 ≤ p.n_ctx)
    × (64 ≤ p.n_batch)
    × (p.n_batch ≤ p.n_ctx)
    × (p.n_batch ≤ 512)
    × (1 ≤ p.n_threads)
    × (1 ≤ p.n_seq_max)

batch_bounds :
    (n : ℕ)
    → 64 ≤ n
    → (64 ≤ (if ltb n 512 then n else 512))
      × ((if ltb n 512 then n else 512) ≤ n)
      × ((if ltb n 512 then n else 512) ≤ 512)
batch_bounds n h = elim (Bool-cases (ltb n 512)) [
  | inl y ↦ rw y (h, omega arith, ground (arith, y))
  | inr x ↦ rw x (omega arith, ground (arith, x), omega arith)
]

module _ (getenv : Bytes → Option Bytes) (atoi : Bytes → ℤ) where
  context_of-IsServable :
      (s : RuntimeSettings) (mtp ctx threads : Option ℤ) (m : List (Bytes × Bytes))
      → IsServable (context_of getenv atoi s mtp ctx threads m).0
  unfolding context_of
  context_of-IsServable s mtp ctx threads m =
      let n = at_least-le 64 (or_else ctx s.n_ctx) in
      let (b₁, b₂, b₃) = batch_bounds (at_least 64 (or_else ctx s.n_ctx)) n in
      let q8 = is_knob getenv atoi (codes "KV_Q8") m in
      let fa = is_knob getenv atoi (codes "FA") q8.1 in
      let lanes = read_once getenv atoi (codes "SESSION_MAX") fa.1 in
      (n, b₁, b₂, b₃, at_least-le 1 (or_else threads s.n_threads), above_one-le lanes.0)

  -- With a map of looked-up knobs that holds values of the environment, and where the knobs MTP, CTX
  -- and THREADS are not set to the empty string, a context is planned,
  -- whatever numbers they hold: of at least 64 tokens, in batches of 64 to 512 tokens that fit the
  -- context, with at least one thread and one sequence.
  pub plan_context_bounds :
      (s : RuntimeSettings) (m : List (Bytes × Bytes))
      → Agrees getenv m
      → getenv (cne_key (codes "MTP")) ≢ some []
      → getenv (cne_key (codes "CTX")) ≢ some []
      → getenv (cne_key (codes "THREADS")) ≢ some []
      → (p : ContextPlan) × (m' : List (Bytes × Bytes)) × (plan_context getenv atoi s m
          ≡ some (p, m'))
        × IsServable p
  unfolding plan_context
  plan_context_bounds s m h mtp ctx threads =
      let (v₁, m₁, e₁, h₁) = int_knob_total getenv atoi (codes "MTP") m h mtp in
      let (v₂, m₂, e₂, h₂) = int_knob_total getenv atoi (codes "CTX") m₁ h₁ ctx in
      let (v₃, m₃, e₃, h₃) = int_knob_total getenv atoi (codes "THREADS") m₂ h₂ threads in
      let r = context_of getenv atoi s v₁ v₂ v₃ m₃ in
      (r.0, r.1, rw (plan_context, e₁, e₂, e₃) refl, context_of-IsServable s v₁ v₂ v₃ m₃)
