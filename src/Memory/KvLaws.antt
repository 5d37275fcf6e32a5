-- ===== src/Memory/KvLaws.antt =====
-- When `suggest_serving_kv` of core/src/memory/kv_budget.cpp ends, and what it suggests.
use caedral_notre_engine.Prelude.{
  ℕ, zero, suc, ◌+◌, ◌*◌, ◌/◌, ◌≤◌, ◌<◌, ◌≡◌, refl, ◌⊎◌, inl, inr, false, ◌&&◌, none, some, arith,
  ltb, if◌then◌else◌, max, Bool-cases,
}
use caedral_notre_engine.Prelude.Words.{mul64}
use caedral_notre_engine.Memory.Budget.{Regime, MemoryBudget}
use caedral_notre_engine.Memory.Kv.{
  ServingKvEstimate, kv_bytes, is_resident, estimate, shrink, anon_headroom, suggest_seqs,
  suggest_serving_kv, default_kv_bytes_per_token,
}

-- The least context of the loop for so many sequences, in bytes.
abbrev pub floor_bytes : ℕ → ℕ
floor_bytes n_seq = 512 * n_seq * default_kv_bytes_per_token

suggest_seqs_bounds :
    (margin most : ℕ → ℕ) (b : MemoryBudget) (m : ℕ) (r : Regime)
    → (1 ≤ suggest_seqs margin most b m r) × (suggest_seqs margin most b m r ≤ 3)
unfolding suggest_seqs
suggest_seqs_bounds margin most b m r = ground arith

tokens_bounds :
    (n_seq per_seq : ℕ)
    → 512 ≤ per_seq
    → per_seq ≤ 2048
    → n_seq ≤ 3
    → (512 * n_seq ≤ per_seq * n_seq) × (per_seq * n_seq ≤ 6144)
tokens_bounds n_seq per_seq small large hi = (grind arith, grind arith)

kv_bytes_exact :
    (n_seq per_seq : ℕ)
    → per_seq * n_seq ≤ 6144
    → kv_bytes (estimate n_seq per_seq) ≡ per_seq * n_seq * default_kv_bytes_per_token
unfolding kv_bytes mul64
kv_bytes_exact n_seq per_seq h = omega arith

shrink_diverges :
    (fuel headroom n_seq per_seq : ℕ)
    → 2 ≤ n_seq
    → n_seq ≤ 3
    → 512 ≤ per_seq
    → per_seq ≤ 2048
    → headroom < floor_bytes n_seq
    → shrink fuel headroom n_seq per_seq ≡ none
unfolding shrink
shrink_diverges zero headroom n_seq per_seq lo hi small large h = refl
shrink_diverges (suc fuel) headroom n_seq per_seq lo hi small large h =
    let (least, most) = tokens_bounds n_seq per_seq small large hi in
    ground (
      arith,
      kv_bytes_exact n_seq per_seq most,
      shrink_diverges fuel headroom n_seq (max 512 (per_seq / 2)) lo hi (omega arith) (omega arith)
          h,
    )

-- Without MTP, for two or three sequences and a headroom below the bytes of 512 tokens for each,
-- `suggest_serving_kv` does not return within any number of rounds.
pub suggest_serving_kv_diverges :
    (margin most : ℕ → ℕ) (fuel : ℕ) (b : MemoryBudget) (model_bytes : ℕ) (r : Regime)
    → 2 ≤ suggest_seqs margin most b model_bytes r
    → anon_headroom margin most b (if is_resident r then model_bytes else 0)
      < floor_bytes (suggest_seqs margin most b model_bytes r)
    → suggest_serving_kv margin most fuel b model_bytes r false ≡ none
unfolding suggest_serving_kv
suggest_serving_kv_diverges margin most fuel b model_bytes r two h =
    shrink_diverges fuel _ _ 2048 two (suggest_seqs_bounds margin most b model_bytes r).1
      (omega arith) (omega arith) h

-- What a returned estimate satisfies.
pub record Suggests (headroom n_seq : ℕ) (e : ServingKvEstimate) : Type 0 where
  pub seqs : e.n_seq_max ≡ n_seq
  pub lanes : e.n_ctx ≡ e.n_ctx_per_seq * e.n_seq_max
  pub least : 512 ≤ e.n_ctx_per_seq
  pub fits : (kv_bytes e ≤ headroom) ⊎ (e.n_ctx ≤ 512)

estimate-Suggests :
    (headroom n_seq per_seq : ℕ)
    → 512 ≤ per_seq
    → (kv_bytes (estimate n_seq per_seq) ≤ headroom) ⊎ (per_seq * n_seq ≤ 512)
    → Suggests headroom n_seq (estimate n_seq per_seq)
estimate-Suggests headroom n_seq per_seq small f = record {
  seqs = refl;
  lanes = refl;
  least = small;
  fits = f;
}

shrink_ends :
    (fuel headroom n_seq per_seq : ℕ)
    → n_seq ≤ 3
    → 512 ≤ per_seq
    → per_seq ≤ 2048
    → per_seq < 512 + fuel
    → (n_seq ≤ 1) ⊎ (floor_bytes n_seq ≤ headroom)
    → (e : ServingKvEstimate) × (shrink fuel headroom n_seq per_seq ≡ some e)
      × Suggests headroom n_seq e
unfolding shrink
shrink_ends zero headroom n_seq per_seq hi small large f enough = absurd (omega arith)
shrink_ends (suc fuel) headroom n_seq per_seq hi small large f enough =
    elim (Bool-cases
      (ltb 512 (per_seq * n_seq) && ltb headroom (kv_bytes (estimate n_seq per_seq)))) [
        | inr stop ↦ (
          estimate n_seq per_seq,
          rw stop refl,
          estimate-Suggests headroom n_seq per_seq small (ground arith),
        )
        | inl on ↦
            let bounds = tokens_bounds n_seq per_seq small large hi in
            let more : 512 < per_seq =
              ground (arith, kv_bytes_exact n_seq per_seq bounds.1, at_least n_seq per_seq) in
            let (e, ends, good) =
              shrink_ends fuel headroom n_seq (max 512 (per_seq / 2)) hi (omega arith) (omega arith)
                (omega arith) enough in
            (e, rw on ends, good)
      ]
  where
    at_least : (n p : ℕ) → p ≤ 512 → p * n ≤ 512 * n
    at_least n p h = grind arith

-- With MTP off, one sequence or a headroom for 512 tokens of each sequence, and fuel for 1537
-- rounds, `suggest_serving_kv` returns: the context is an equal share of at least 512 tokens for
-- each of the suggested sequences, and its bytes fit the headroom, or it is the smallest, of 512
-- tokens in all.
pub suggest_serving_kv_total :
    (margin most : ℕ → ℕ) (fuel : ℕ) (b : MemoryBudget) (model_bytes : ℕ) (r : Regime)
    → 1537 ≤ fuel
    → (suggest_seqs margin most b model_bytes r ≤ 1)
      ⊎ (floor_bytes (suggest_seqs margin most b model_bytes r)
          ≤ anon_headroom margin most b (if is_resident r then model_bytes else 0))
    → (e : ServingKvEstimate) × (suggest_serving_kv margin most fuel b model_bytes r false ≡ some e)
      × Suggests
          (anon_headroom margin most b (if is_resident r then model_bytes else 0))
          (suggest_seqs margin most b model_bytes r)
          e
unfolding suggest_serving_kv
suggest_serving_kv_total margin most fuel b model_bytes r f enough =
    shrink_ends fuel _ _ 2048 (suggest_seqs_bounds margin most b model_bytes r).1 (omega arith)
      (omega arith) (omega arith) enough
