-- ===== src/Gguf/Build.antt =====
-- The header checks of `ModelRegistry::build` in core/src/gguf/model_registry.cpp, its counters, and
-- the whole of it.
use caedral_notre_engine.Prelude.{
  ℕ, ◌%◌, Bool, true, false, not, ◌&&◌, List, [], ◌++◌, none, some, Bytes, codes, leb, ◌==◌,
  if◌then◌else◌, length, filter,
}
use caedral_notre_engine.Gguf.Classify.{routed_expert, shared_expert}
use caedral_notre_engine.Gguf.Registry.{
  Reader, TensorInfo, Build, built, refused, int_of, positive, sort_tensors, tensor_infos,
  check_spans,
}

-- Layers and experts are the patterns of an `int`.
pub record ModelManifest : Type 0 where
  pub architecture : Bytes
  pub n_layers : ℕ
  pub n_experts : ℕ
  pub n_experts_used : ℕ
  pub tensors : List TensorInfo
  pub routed_expert_tensors : ℕ
  pub shared_expert_tensors : ℕ
  pub misaligned_for_odirect : ℕ
  pub all_slices_aligned : ℕ
  pub uniform_misalignment : ℕ
  pub scattered_alignment : ℕ

abbrev pub is_shared : TensorInfo → Bool
is_shared t = elim t.kind [ shared_expert ↦ true | _ ↦ false ]

abbrev pub is_routed : TensorInfo → Bool
is_routed t = elim t.kind [ routed_expert ↦ true | _ ↦ false ]

abbrev pub starts_aligned : TensorInfo → Bool
starts_aligned t = t.abs_offset % 4096 == 0

-- Each expert's bytes are whole pages.
abbrev pub slices_whole : TensorInfo → Bool
slices_whole t = elim t.experts [ none ↦ true | some e ↦ e.bytes_per_expert % 4096 == 0 ]

unfoldable pub manifest_of : Bytes → ℕ → ℕ → ℕ → List TensorInfo → ModelManifest
manifest_of arch layers experts used ts = record {
  architecture = arch;
  n_layers = int_of layers;
  n_experts = int_of experts;
  n_experts_used = int_of used;
  tensors = ts;
  routed_expert_tensors = length (filter is_routed ts);
  shared_expert_tensors = length (filter is_shared ts);
  misaligned_for_odirect = length (filter (λ t. is_routed t && not (starts_aligned t)) ts);
  all_slices_aligned =
      length (filter (λ t. is_routed t && (slices_whole t && starts_aligned t)) ts);
  uniform_misalignment =
      length (filter (λ t. is_routed t && (slices_whole t && not (starts_aligned t))) ts);
  scattered_alignment = length (filter (λ t. is_routed t && not (slices_whole t)) ts);
}

-- The experts of the header: their number and how many are used, both 0 without the key.
unfoldable pub expert_config : Reader → Bytes → Build (ℕ × ℕ)
expert_config r arch = if not r.has_experts then built (0, 0) else elim r.expert_count [
  | none ↦ refused (codes "gguf: bad " ++ (arch ++ codes ".expert_count"))
  | some n ↦
      if not (positive n)
      then refused (codes "gguf: non-positive expert_count")
      else elim r.expert_used_count [
        | none ↦ refused (codes "gguf: missing " ++ (arch ++ codes ".expert_used_count"))
        | some used ↦ built (n, used)
      ]
]

-- Behind the loop over the tensors.
unfoldable pub finish_build : Reader → Bytes → ℕ → ℕ → ℕ → List TensorInfo → Build ModelManifest
unfolding check_spans manifest_of
finish_build r arch layers n used ts = elim (check_spans r [] ts) [
  | some e ↦ refused e
  | none ↦
      if r.has_experts && leb (length (filter is_routed ts)) 0
      then refused (codes "gguf: arch declares experts but none found")
      else built (manifest_of arch layers n used ts)
]

unfoldable pub build : Reader → Build ModelManifest
unfolding expert_config tensor_infos sort_tensors finish_build
build r = elim r.architecture [
  | none ↦ refused (codes "gguf: missing general.architecture")
  | some arch ↦ elim r.block_count [
    | none ↦ refused (codes "gguf: missing " ++ (arch ++ codes ".block_count"))
    | some layers ↦ elim (expert_config r arch) [
      | refused e ↦ refused e
      | built (n, used) ↦ elim (tensor_infos r arch n (sort_tensors r.raw_tensors)) [
        | refused e ↦ refused e
        | built ts ↦ finish_build r arch layers n used ts
      ]
    ]
  ]
]
