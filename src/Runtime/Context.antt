-- ===== src/Runtime/Context.antt =====
-- The context that `runtime_load_llama` of runtime/cne_runtime.cpp asks llama.cpp for, and the check of
-- its KV cache against the memory.
use caedral_notre_engine.Prelude.{
  ℕ, zero, suc, ◌/◌, Bool, not, List, Option, none, some, Bytes, codes, ltb, if◌then◌else◌,
}
use caedral_notre_engine.Memory.Budget.{MemoryBudget, classify}
use caedral_notre_engine.Memory.Kv.{
  ServingKvEstimate, default_kv_bytes_per_token, is_resident, serving_kv_exceeds_headroom,
}
use caedral_notre_engine.Config.Env.{env}
use caedral_notre_engine.Config.Knob.{ℤ, pos, negsuc, at_least, or_else, is_knob, int_knob}

pub record RuntimeSettings : Type 0 where
  pub n_ctx : ℤ
  pub n_threads : ℤ

pub record ContextPlan : Type 0 where
  pub mtp_k : ℕ
  pub n_ctx : ℕ
  pub n_batch : ℕ
  pub n_ubatch : ℕ
  pub n_threads : ℕ
  pub kv_q8 : Bool
  pub flash_attn : Bool
  pub n_seq_max : ℕ
  pub kv_unified : Bool

-- A number above 1, or the default.
abbrev pub above_one : ℕ → Option ℤ → ℕ
above_one d none = d
above_one d (some (pos n)) = if ltb 1 n then n else d
above_one d (some (negsuc n)) = d

abbrev pub above_zero : ℕ → Option ℤ → ℕ
above_zero d none = d
above_zero d (some (pos zero)) = d
above_zero d (some (pos (suc n))) = suc n
above_zero d (some (negsuc n)) = d

module _ (getenv : Bytes → Option Bytes) (atoi : Bytes → ℤ) where
  -- A knob that is read with one call of `env`.
  unfoldable pub read_once : Bytes → List (Bytes × Bytes) → Option ℤ × List (Bytes × Bytes)
  unfolding env
  read_once name m =
      let (a, m') = env getenv m name in (elim a [ none ↦ none | some v ↦ some (atoi v) ], m')

  -- The plan behind the knobs MTP, CTX and THREADS.
  unfoldable pub context_of :
      RuntimeSettings
      → Option ℤ
      → Option ℤ
      → Option ℤ
      → List (Bytes × Bytes)
      → ContextPlan × List (Bytes × Bytes)
  unfolding is_knob read_once
  context_of s mtp ctx threads m =
      let n_ctx = at_least 64 (or_else ctx s.n_ctx) in
      let q8 = is_knob getenv atoi (codes "KV_Q8") m in
      let fa = is_knob getenv atoi (codes "FA") q8.1 in
      let sm = read_once (codes "SESSION_MAX") fa.1 in
      (
        record {
          mtp_k = at_least 0 (or_else mtp (pos 0));
          n_ctx = n_ctx;
          n_batch = if ltb n_ctx 512 then n_ctx else 512;
          n_ubatch = 64;
          n_threads = at_least 1 (or_else threads s.n_threads);
          kv_q8 = q8.0;
          flash_attn = fa.0;
          n_seq_max = above_one 1 sm.0;
          kv_unified = not (ltb 1 (above_one 1 sm.0));
        },
        sm.1,
      )

  -- `none` is a null pointer that was handed to `atoi`.
  unfoldable pub plan_context :
      RuntimeSettings → List (Bytes × Bytes) → Option (ContextPlan × List (Bytes × Bytes))
  unfolding int_knob context_of
  plan_context s m = elim (int_knob getenv atoi (codes "MTP") m) [
    | none ↦ none
    | some (mtp, m₁) ↦ elim (int_knob getenv atoi (codes "CTX") m₁) [
      | none ↦ none
      | some (ctx, m₂) ↦ elim (int_knob getenv atoi (codes "THREADS") m₂) [
        | none ↦ none
        | some (threads, m₃) ↦ some (context_of s mtp ctx threads m₃)
      ]
    ]
  ]

  -- The estimate of the KV cache, with the knob KV_BPT.
  unfoldable pub kv_plan :
      ContextPlan → List (Bytes × Bytes) → ServingKvEstimate × List (Bytes × Bytes)
  unfolding read_once
  kv_plan p m =
      let (bpt, m') = read_once (codes "KV_BPT") m in
      (
        record {
          n_ctx = p.n_ctx;
          n_seq_max = p.n_seq_max;
          n_ctx_per_seq = if ltb 0 p.n_seq_max then p.n_ctx / p.n_seq_max else p.n_ctx;
          bytes_per_token = above_zero default_kv_bytes_per_token bpt;
        },
        m',
      )

-- Whether the warning about the KV cache is printed.
unfoldable pub kv_warns : (ℕ → ℕ) → (ℕ → ℕ) → ServingKvEstimate → MemoryBudget → ℕ → Bool
unfolding classify serving_kv_exceeds_headroom
kv_warns margin most kv b file_size =
    serving_kv_exceeds_headroom margin most kv b
      (if is_resident (classify file_size b.mem_available) then file_size else 0)
