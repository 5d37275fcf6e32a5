-- ===== src/Memory/BudgetLaws.antt =====
-- What the budget of core/src/memory/memory_budget.cpp promises.
use caedral_notre_engine.Prelude.{ℕ, ◌+◌, ◌-◌, ◌*◌, ◌≤◌, ◌<◌, ◌≡◌, refl, ◌↔◌, false, arith, min}
use caedral_notre_engine.Prelude.Words.{u64_mod, add64, add64_exact}
use caedral_notre_engine.Memory.Budget.{
  r0_resident, r1_near_limit, r2_above_ram, r3_far_above, r4_extreme_edge, MemoryBudget, fixed_anon,
  minus_or_zero, cache_headroom, clamp_cache_cap, fits, classify,
}

minus_or_zero_lem : (a b : ℕ) → minus_or_zero a b ≡ a - b
unfolding minus_or_zero
minus_or_zero_lem a b = ground arith

-- What is pinned besides the cache, in exact arithmetic.
abbrev pub pinned : MemoryBudget → ℕ
pinned b = b.shared_experts + b.kv + b.staging + b.runtime_base

fixed_anon-pinned : (b : MemoryBudget) → pinned b < u64_mod → fixed_anon b ≡ pinned b
unfolding fixed_anon
fixed_anon-pinned b h = omega (
  arith,
  add64_exact b.shared_experts b.kv,
  add64_exact (add64 b.shared_experts b.kv) b.staging,
  add64_exact (add64 (add64 b.shared_experts b.kv) b.staging) b.runtime_base,
)

module _ (margin : ℕ → ℕ) (b : MemoryBudget) (no_wrap : pinned b < u64_mod) where
  headroom_exact :
      cache_headroom margin b ≡ b.mem_available - margin b.mem_available - b.base_reserve - pinned b
  unfolding cache_headroom
  headroom_exact =
      let avail = minus_or_zero b.mem_available (margin b.mem_available) in
      omega (
        arith,
        fixed_anon-pinned b no_wrap,
        minus_or_zero_lem b.mem_available (margin b.mem_available),
        minus_or_zero_lem avail b.base_reserve,
        minus_or_zero_lem (minus_or_zero avail b.base_reserve) (fixed_anon b),
      )

  -- Where the pinned bytes do not overflow a machine word, `clamp_cache_cap` grants the smaller of
  -- the request and what is left of the available memory after the margin, the reserve and the
  -- pinned bytes; so a granted cache with all of these stays within the available memory.
  pub clamp_cache_cap_safe :
      (requested : ℕ)
      → (clamp_cache_cap margin b requested
          ≡ min requested (b.mem_available - margin b.mem_available - b.base_reserve - pinned b))
        × (0 < clamp_cache_cap margin b requested
            → clamp_cache_cap margin b requested
                + pinned b
                + b.base_reserve
                + margin b.mem_available
              ≤ b.mem_available)
  unfolding clamp_cache_cap
  clamp_cache_cap_safe requested =
      (ground (arith, headroom_exact), λ h. ground (arith, headroom_exact))

  headroom_alone :
      (n : ℕ) → cache_headroom margin (record b { expert_cache = n }) ≡ cache_headroom margin b
  unfolding cache_headroom fixed_anon
  headroom_alone n = refl

  fixed_alone : (n : ℕ) → fixed_anon (record b { expert_cache = n }) ≡ fixed_anon b
  unfolding fixed_anon
  fixed_alone n = refl

  -- Where the pinned bytes and the available memory do not overflow a machine word, some bytes are
  -- pinned, and some headroom is left, but no more than the request: the budget with the cache
  -- that the clamp grants does not pass `fits`.
  pub clamped_does_not_fit :
      (requested : ℕ)
      → 0 < pinned b
      → cache_headroom margin b ≤ requested
      → 0 < cache_headroom margin b
      → b.mem_available < u64_mod
      → fits margin (record b { expert_cache = clamp_cache_cap margin b requested }) ≡ false
  unfolding fits clamp_cache_cap
  clamped_does_not_fit requested p large left word =
      let cap = cache_headroom margin b in
      ground (
        arith,
        headroom_exact,
        headroom_alone cap,
        headroom_alone requested,
        fixed_alone cap,
        fixed_alone requested,
        fixed_anon-pinned b no_wrap,
        add64_exact cap (fixed_anon b),
        add64_exact requested (fixed_anon b),
      )

-- The bounds of the regimes, as the header states them: below the available memory, up to one and
-- a half times, four times and eight times as much, and beyond.
classify_bounds :
    (model_bytes ram : ℕ)
    → ((classify model_bytes ram ≡ r0_resident) ↔ (model_bytes < ram))
      × ((classify model_bytes ram ≡ r1_near_limit)
          ↔ ((0 < ram) × (ram ≤ model_bytes) × (2 * model_bytes < 3 * ram)))
      × ((classify model_bytes ram ≡ r2_above_ram)
          ↔ ((0 < ram) × (3 * ram ≤ 2 * model_bytes) × (model_bytes < 4 * ram)))
      × ((classify model_bytes ram ≡ r3_far_above)
          ↔ ((4 * ram ≤ model_bytes) × (model_bytes < 8 * ram)))
      × ((classify model_bytes ram ≡ r4_extreme_edge) ↔ (8 * ram ≤ model_bytes))
unfolding classify
classify_bounds model_bytes ram = ground arith
