-- ===== src/Runtime/Policy.antt =====
-- What `runtime_prepare` of runtime/cne_runtime.cpp decides: the policy for the dense weights, the cap
-- of the cache, the prefetch mode, and what the warm pass reads. `margin` is as in the memory budget.
use caedral_notre_engine.Prelude.{
  ℕ, ◌*◌, Bool, true, false, not, ◌&&◌, ◌||◌, List, [], ◌∷◌, Bytes, codes, bytes_beq, ltb,
  if◌then◌else◌,
}
use caedral_notre_engine.Prelude.Words.{add64, mul64}
use caedral_notre_engine.Gguf.Classify.{routed_expert}
use caedral_notre_engine.Gguf.Registry.{TensorInfo}
use caedral_notre_engine.Memory.Budget.{
  Regime, MemoryBudget, classify, regime_name, clamp_cache_cap, mib,
}
use caedral_notre_engine.Memory.Kv.{is_resident}
use caedral_notre_engine.Streaming.Lookahead.{PfMode, off, full, lookahead}

pub data DensePolicy : Type 0 where
  mmap warm anon : DensePolicy

abbrev pub is_anon : DensePolicy → Bool
is_anon anon = true
is_anon p = false

abbrev pub routed : TensorInfo → Bool
routed t = elim t.kind [ routed_expert ↦ true | k ↦ false ]

-- The loop adds what is not a routed expert to `acc`.
unfoldable pub add_dense : ℕ → List TensorInfo → ℕ
unfolding add64
add_dense acc [] = acc
add_dense acc (t ∷ ts) = add_dense (if routed t then acc else add64 acc t.bytes_total) ts

-- `DENSE`, where an unset knob is the empty string.
unfoldable pub dense_policy : Bytes → Regime → ℕ → ℕ → DensePolicy
unfolding mul64 bytes_beq
dense_policy d rg available dense_bytes =
    if bytes_beq d []
    then (if not (is_resident rg) && ltb (mul64 dense_bytes 2) available then anon else mmap)
    else if bytes_beq d (codes "warm")
    then warm
    else if bytes_beq d (codes "anon")
    then anon
    else mmap

abbrev pub policy_name : DensePolicy → Bytes
policy_name anon = codes "anon"
policy_name warm = codes "warm"
policy_name mmap = codes "mmap"

-- The budget that clamps the cache, from a detected one.
unfoldable pub boot_budget : MemoryBudget → DensePolicy → List TensorInfo → MemoryBudget
unfolding add_dense
boot_budget b dense ts = record b {
  kv = 64 * mib;
  staging = 64 * mib;
  runtime_base = if is_anon dense then add_dense (512 * mib) ts else 512 * mib;
}

-- `s.cap_gib << 30`.
unfoldable pub requested_cap : ℕ → ℕ
unfolding mul64
requested_cap cap_gib = mul64 cap_gib 1073741824

unfoldable pub prefetch_mode : Bytes → PfMode
unfolding bytes_beq
prefetch_mode pfs =
    if bytes_beq pfs (codes "1") || bytes_beq pfs (codes "lookahead")
    then lookahead
    else if bytes_beq pfs (codes "full")
    then full
    else off

pub record Prepared : Type 0 where
  pub regime_str : Bytes
  pub dense : DensePolicy
  pub budget : MemoryBudget
  pub cache_cap : ℕ
  pub pf_mode : PfMode

-- The decisions, for what the two detections found and the strings of the knobs DENSE and PREFETCH.
unfoldable pub prepare :
    (ℕ → ℕ) → MemoryBudget → MemoryBudget → ℕ → List TensorInfo → Bytes → Bytes → ℕ → Prepared
unfolding classify regime_name add_dense dense_policy boot_budget clamp_cache_cap requested_cap
    prefetch_mode
prepare margin pre now file_size ts d pfs cap_gib =
    let rg = classify file_size pre.mem_available in
    let dense = dense_policy d rg pre.mem_available (add_dense 0 ts) in
    record {
      regime_str = regime_name rg;
      dense = dense;
      budget = boot_budget now dense ts;
      cache_cap = clamp_cache_cap margin (boot_budget now dense ts) (requested_cap cap_gib);
      pf_mode = prefetch_mode pfs;
    }
