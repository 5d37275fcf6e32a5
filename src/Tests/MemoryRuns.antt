-- ===== src/Tests/MemoryRuns.antt =====
-- The theorems on core/src/memory at concrete budgets. The margin is the default 12 %.
use caedral_notre_engine.Prelude.{
  ℕ, ◌+◌, ◌-◌, ◌*◌, ◌/◌, ◌≤◌, ◌<◌, ◌≡◌, false, none, some, arith, min, inr,
}
use caedral_notre_engine.Prelude.Words.{add64}
use caedral_notre_engine.Memory.Budget.{
  r0_resident, MemoryBudget, mib, gib, fixed_anon, detected, cache_headroom, clamp_cache_cap, fits,
  minus_or_zero,
}
use caedral_notre_engine.Memory.Kv.{
  ServingKvEstimate, anon_headroom, suggest_seqs, suggest_serving_kv,
}
use caedral_notre_engine.Memory.BudgetLaws.{pinned, clamp_cache_cap_safe, clamped_does_not_fit}
use caedral_notre_engine.Memory.KvLaws.{
  Suggests, suggest_serving_kv_diverges, suggest_serving_kv_total,
}

abbrev twelve_percent : ℕ → ℕ
twelve_percent a = a * 12 / 100

abbrev pinned_budget : MemoryBudget
pinned_budget = record (detected (16 * gib) (14 * gib)) { runtime_base = 512 * mib }

clamp_cache_cap_safe_example :
    (clamp_cache_cap twelve_percent pinned_budget (4 * gib)
      ≡ min (4 * gib) (
          pinned_budget.mem_available
          - twelve_percent pinned_budget.mem_available
          - pinned_budget.base_reserve
          - pinned pinned_budget))
    × (0 < clamp_cache_cap twelve_percent pinned_budget (4 * gib)
        → clamp_cache_cap twelve_percent pinned_budget (4 * gib)
            + pinned pinned_budget
            + pinned_budget.base_reserve
            + twelve_percent pinned_budget.mem_available
          ≤ pinned_budget.mem_available)
clamp_cache_cap_safe_example =
    clamp_cache_cap_safe twelve_percent pinned_budget (omega arith) (4 * gib)

clamped_does_not_fit_example :
    fits twelve_percent (record pinned_budget {
      expert_cache = clamp_cache_cap twelve_percent pinned_budget (64 * gib);
    })
    ≡ false
clamped_does_not_fit_example =
    clamped_does_not_fit twelve_percent pinned_budget (omega arith) (64 * gib) (omega arith)
      (unfold cache_headroom fixed_anon minus_or_zero add64 in omega arith)
      (unfold cache_headroom fixed_anon minus_or_zero add64 in omega arith) (omega arith)

abbrev roomy : MemoryBudget
roomy = detected (64 * gib) (60 * gib)

-- Where a model counts as large: 85 %.
abbrev most_of : ℕ → ℕ
most_of a = a * 85 / 100

suggest_serving_kv_total_example :
    (e : ServingKvEstimate) × (suggest_serving_kv twelve_percent most_of 1537 roomy
        (20 * gib)
        r0_resident
        false
      ≡ some e)
    × Suggests
        (anon_headroom twelve_percent most_of roomy (20 * gib))
        (suggest_seqs twelve_percent most_of roomy (20 * gib) r0_resident)
        e
suggest_serving_kv_total_example =
    suggest_serving_kv_total twelve_percent most_of 1537 roomy (20 * gib) r0_resident (omega arith)
      (inr (unfold suggest_seqs anon_headroom fixed_anon minus_or_zero add64 in ground arith))

-- 2.5 GiB available: less the margin and the reserve of 2 GiB, nothing is left.
abbrev tight : MemoryBudget
tight = detected (4 * gib) (2560 * mib)

suggest_serving_kv_diverges_example :
    suggest_serving_kv twelve_percent most_of 1000000 tight (2 * gib) r0_resident false ≡ none
suggest_serving_kv_diverges_example =
    suggest_serving_kv_diverges twelve_percent most_of 1000000 tight (2 * gib) r0_resident
      (unfold suggest_seqs add64 in omega arith)
      (unfold suggest_seqs anon_headroom fixed_anon minus_or_zero add64 in ground arith)
