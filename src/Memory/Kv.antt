-- ===== src/Memory/Kv.antt =====
-- core/include/cne/kv_budget.h and core/src/memory/kv_budget.cpp. `margin` is as in the memory
-- budget, and `most` stands for `(size_t)(budget.mem_available * 0.85)`.
use caedral_notre_engine.Prelude.{
  ℕ, zero, suc, ◌*◌, ◌/◌, Bool, true, false, ◌&&◌, Option, none, some, ltb, if◌then◌else◌, max,
}
use caedral_notre_engine.Prelude.Words.{add64, mul64}
use caedral_notre_engine.Memory.Budget.{
  Regime, r0_resident, r1_near_limit, r2_above_ram, r3_far_above, r4_extreme_edge, MemoryBudget,
  mib, gib, fixed_anon, minus_or_zero,
}

abbrev pub default_kv_bytes_per_token : ℕ
default_kv_bytes_per_token = 20480

pub record ServingKvEstimate : Type 0 where
  pub n_ctx : ℕ
  pub n_seq_max : ℕ
  pub n_ctx_per_seq : ℕ
  pub bytes_per_token : ℕ

unfoldable pub kv_bytes : ServingKvEstimate → ℕ
unfolding mul64
kv_bytes e = mul64 e.n_ctx e.bytes_per_token

abbrev pub is_resident : Regime → Bool
is_resident r0_resident = true
is_resident r1_near_limit = false
is_resident r2_above_ram = false
is_resident r3_far_above = false
is_resident r4_extreme_edge = false

-- The estimate of a context of `per_seq` tokens for each of `n_seq` sequences.
abbrev pub estimate : ℕ → ℕ → ServingKvEstimate
estimate n_seq per_seq = record {
  n_ctx = per_seq * n_seq;
  n_seq_max = n_seq;
  n_ctx_per_seq = per_seq;
  bytes_per_token = default_kv_bytes_per_token;
}

-- The `while` of `suggest_serving_kv`; `none` is a loop that still runs after so many rounds.
unfoldable pub shrink : ℕ → ℕ → ℕ → ℕ → Option ServingKvEstimate
unfolding kv_bytes
shrink zero headroom n_seq per_seq = none
shrink (suc fuel) headroom n_seq per_seq =
    let rest = shrink fuel headroom n_seq (max 512 (per_seq / 2)) in
    if ltb 512 (per_seq * n_seq) && ltb headroom (kv_bytes (estimate n_seq per_seq))
    then rest
    else some (estimate n_seq per_seq)

module _ (margin most : ℕ → ℕ) where
  unfoldable pub anon_headroom : MemoryBudget → ℕ → ℕ
  unfolding minus_or_zero add64
  anon_headroom b model_resident =
      let avail = minus_or_zero b.mem_available (margin b.mem_available) in
      minus_or_zero (minus_or_zero avail b.base_reserve)
        (add64 (add64 (fixed_anon b) model_resident) (512 * mib))

  unfoldable pub suggest_seqs : MemoryBudget → ℕ → Regime → ℕ
  unfolding add64
  suggest_seqs b model_bytes regime =
      if ltb (most b.mem_available) model_bytes
      then 1
      else if is_resident regime && ltb (add64 model_bytes (2 * gib)) b.mem_available
      then 3
      else 2

  unfoldable pub suggest_serving_kv :
      ℕ → MemoryBudget → ℕ → Regime → Bool → Option ServingKvEstimate
  unfolding shrink anon_headroom suggest_seqs
  suggest_serving_kv fuel b model_bytes regime mtp_enabled =
      if mtp_enabled
      then some (estimate 1 1024)
      else shrink fuel (anon_headroom b (if is_resident regime then model_bytes else 0))
          (suggest_seqs b model_bytes regime) 2048

  unfoldable pub serving_kv_exceeds_headroom : ServingKvEstimate → MemoryBudget → ℕ → Bool
  unfolding kv_bytes anon_headroom
  serving_kv_exceeds_headroom est b model_resident_bytes =
      ltb (anon_headroom b model_resident_bytes) (kv_bytes est)
