-- ===== src/Gguf/SpanLaws.antt =====
-- What the bounds checks of `ModelRegistry::build` establish.
use caedral_notre_engine.Prelude.{
  ℕ, ◌+◌, ◌≤◌, ◌<◌, ◌≡◌, refl, sym, true, false, ◌&&◌, List, [], ◌∷◌, Option, none, some, Bytes,
  arith, leb, length, nat_eq, Bool-cases, Option-cases, ◌⊎◌, inl, inr, filter,
}
use mathlib.Core.Path.{subst}
use caedral_notre_engine.Prelude.Words.{u64_mod, add64, sub64}
use caedral_notre_engine.Prelude.Assoc.{contains}
use caedral_notre_engine.Gguf.Registry.{
  RawTensor, Reader, TensorInfo, Build, built, refused, in_bounds, check_spans, tensor_info,
  span_bytes, tensor_infos, sort_tensors, ExpertLayout,
}
use caedral_notre_engine.Gguf.Build.{
  ModelManifest, finish_build, build, expert_config, manifest_of, is_routed,
}

-- Every tensor starts in the data section, its span ends inside the file as 64-bit arithmetic has
-- it, and no two tensors start at the same offset, nor at one seen before.
abbrev pub Bounded : Reader → List ℕ → List TensorInfo → Type 0
Bounded r seen [] = Unit
Bounded r seen (t ∷ ts) =
    (r.data_offset ≤ t.abs_offset)
    × ((add64 t.abs_offset t.bytes_total ≤ r.file_size)
        × ((contains t.abs_offset seen ≡ false) × Bounded r (t.abs_offset ∷ seen) ts))

check_spans-Bounded :
    (r : Reader) (seen : List ℕ) (ts : List TensorInfo)
    → check_spans r seen ts ≡ none
    → Bounded r seen ts
unfolding check_spans in_bounds
check_spans-Bounded r seen [] h = tt
check_spans-Bounded r seen (t ∷ ts) h =
    ground (arith, check_spans-Bounded r (t.abs_offset ∷ seen) ts)

-- A manifest that was built lists what the loop made of the sorted tensors, and passed the checks.
pub record IsBuilt (r : Reader) (m : ModelManifest) : Type 0 where
  pub arch : Bytes
  pub n : ℕ
  pub infos : tensor_infos r arch n (sort_tensors r.raw_tensors) ≡ built m.tensors
  pub bounded : Bounded r [] m.tensors

IfBuilt : Reader → Build ModelManifest → Type 0
IfBuilt r (refused e) = Unit
IfBuilt r (built m) = IsBuilt r m

finish_build-IfBuilt :
    (r : Reader) (arch : Bytes) (layers n used : ℕ) (ts : List TensorInfo)
    → tensor_infos r arch n (sort_tensors r.raw_tensors) ≡ built ts
    → IfBuilt r (finish_build r arch layers n used ts)
unfolding IfBuilt finish_build manifest_of
finish_build-IfBuilt r arch layers n used ts et = elim (Option-cases (check_spans r [] ts)) [
  | inr (e, found) ↦ rw (found, finish_build) tt
  | inl sound ↦ elim (Bool-cases (r.has_experts && leb (length (filter is_routed ts)) 0)) [
    | inl y ↦ rw (sound, y, finish_build) tt
    | inr y ↦
        rw (sound, y, finish_build)
          (record { arch = arch; n = n; infos = et; bounded = check_spans-Bounded r [] ts sound })
  ]
]

pub Build-cases :
    {A : Type 0} (x : Build A) → ((e : Bytes) × (x ≡ refused e)) ⊎ ((a : A) × (x ≡ built a))
Build-cases (refused e) = inl (e, refl)
Build-cases (built a) = inr (a, refl)

build_runs :
    (r : Reader) (arch : Bytes) (layers n used : ℕ) (ts : List TensorInfo)
    → r.architecture ≡ some arch
    → r.block_count ≡ some layers
    → expert_config r arch ≡ built (n, used)
    → tensor_infos r arch n (sort_tensors r.raw_tensors) ≡ built ts
    → build r ≡ finish_build r arch layers n used ts
unfolding build
build_runs r arch layers n used ts ea el ec et = rw (ea, el, ec, et, build) refl

build-IfBuilt : (r : Reader) → IfBuilt r (build r)
unfolding build IfBuilt
build-IfBuilt r = elim (Option-cases r.architecture) [
  | inl none_there ↦ rw (none_there, build) tt
  | inr (arch, ea) ↦ elim (Option-cases r.block_count) [
    | inl none_there ↦ rw (ea, none_there, build) tt
    | inr (layers, el) ↦ elim (Build-cases (expert_config r arch)) [
      | inl (e, bad) ↦ rw (ea, el, bad, build) tt
      | inr ((n, used), ec) ↦
          elim (Build-cases (tensor_infos r arch n (sort_tensors r.raw_tensors))) [
            | inl (e, bad) ↦ rw (ea, el, ec, bad, build) tt
            | inr (ts, et) ↦
                subst (IfBuilt r) (sym (build_runs r arch layers n used ts ea el ec et))
                  (finish_build-IfBuilt r arch layers n used ts et)
          ]
    ]
  ]
]

pub build-IsBuilt : (r : Reader) (m : ModelManifest) → build r ≡ built m → IsBuilt r m
unfolding IfBuilt
build-IsBuilt r m e = subst (λ y. IfBuilt r y) e (build-IfBuilt r)

-- A tensor that is the last one of the file passes the bounds check, even if it starts behind the
-- end of the file, where neither the size of the file nor the start of the tensor overflows a
-- machine word.
pub last_in_bounds :
    (r : Reader) (arch : Bytes) (t : RawTensor) (experts : Option ExpertLayout)
    → r.file_size < u64_mod
    → r.data_offset + t.rel_offset < u64_mod
    → in_bounds r (tensor_info r arch t [] experts) ≡ true
unfolding in_bounds tensor_info span_bytes add64 sub64
last_in_bounds r arch t experts f w = ground arith
