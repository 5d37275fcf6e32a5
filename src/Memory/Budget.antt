-- ===== src/Memory/Budget.antt =====
-- core/include/cne/memory_budget.h and core/src/memory/memory_budget.cpp. `margin` stands for the
-- product `(uint64_t)((double)mem_available * safety_margin_frac)`; the ratio that `classify`
-- compares is exact for sizes below 2^51 bytes, so the tests are written without the division.
use caedral_notre_engine.Prelude.{ℕ, ◌-◌, ◌*◌, Bool, Bytes, codes, ltb, leb, ◌==◌, if◌then◌else◌}
use caedral_notre_engine.Prelude.Words.{add64}

pub data Regime : Type 0 where
  r0_resident r1_near_limit r2_above_ram r3_far_above r4_extreme_edge : Regime

pub record MemoryBudget : Type 0 where
  pub mem_total : ℕ
  pub mem_available : ℕ
  pub base_reserve : ℕ
  pub expert_cache : ℕ
  pub shared_experts : ℕ
  pub kv : ℕ
  pub staging : ℕ
  pub runtime_base : ℕ

abbrev pub mib : ℕ
mib = 1048576

abbrev pub gib : ℕ
gib = 1073741824

-- A budget as `detect` leaves it.
abbrev pub detected : ℕ → ℕ → MemoryBudget
detected total available = record {
  mem_total = total;
  mem_available = available;
  base_reserve = 2048 * mib;
  expert_cache = 0;
  shared_experts = 0;
  kv = 0;
  staging = 0;
  runtime_base = 0;
}

unfoldable pub fixed_anon : MemoryBudget → ℕ
unfolding add64
fixed_anon b = add64 (add64 (add64 b.shared_experts b.kv) b.staging) b.runtime_base

-- `a > b ? a - b : 0`, as the source writes each of its subtractions.
unfoldable pub minus_or_zero : ℕ → ℕ → ℕ
minus_or_zero a b = if ltb b a then a - b else 0

module _ (margin : ℕ → ℕ) where
  unfoldable pub cache_headroom : MemoryBudget → ℕ
  unfolding minus_or_zero
  cache_headroom b =
      let avail = minus_or_zero b.mem_available (margin b.mem_available) in
      minus_or_zero (minus_or_zero avail b.base_reserve) (fixed_anon b)

  unfoldable pub clamp_cache_cap : MemoryBudget → ℕ → ℕ
  clamp_cache_cap b requested =
      if ltb requested (cache_headroom b) then requested else cache_headroom b

  unfoldable pub fits : MemoryBudget → Bool
  unfolding add64
  fits b = leb (add64 b.expert_cache (fixed_anon b)) (cache_headroom b)

unfoldable pub classify : ℕ → ℕ → Regime
classify model_bytes ram_available =
    if ram_available == 0
    then r4_extreme_edge
    else if ltb model_bytes ram_available
    then r0_resident
    else if ltb (2 * model_bytes) (3 * ram_available)
    then r1_near_limit
    else if ltb model_bytes (4 * ram_available)
    then r2_above_ram
    else if ltb model_bytes (8 * ram_available)
    then r3_far_above
    else r4_extreme_edge

unfoldable pub regime_name : Regime → Bytes
regime_name r0_resident = codes "R0_RESIDENT"
regime_name r1_near_limit = codes "R1_NEAR_LIMIT"
regime_name r2_above_ram = codes "R2_ABOVE_RAM"
regime_name r3_far_above = codes "R3_FAR_ABOVE"
regime_name r4_extreme_edge = codes "R4_EXTREME_EDGE"
