-- ===== src/Gguf/TileLaws.antt =====
-- The spans that `ModelRegistry::build` of core/src/gguf/model_registry.cpp works out from the sorted
-- offsets.
use mathlib.Core.List.{Perm}
use mathlib.Core.List.Perm
use mathlib.Core.Path.{subst}
use caedral_notre_engine.Prelude.{
  ℕ, ◌+◌, ◌≤◌, ◌<◌, ◌≡◌, ◌≢◌, Option, refl, ap, false, List, [], ◌∷◌, map, Bytes, arith, leb, All,
  Bool-cases, ◌⊎◌, inl, inr, nat_eq,
}
use caedral_notre_engine.Prelude.Words.{u64_mod, add64, sub64}
use caedral_notre_engine.Prelude.Assoc.{contains}
use caedral_notre_engine.Gguf.Classify.{classify_tensor}
use caedral_notre_engine.Gguf.Registry.{
  RawTensor, Reader, TensorInfo, Build, built, refused, tensor_info, span_bytes, tensor_infos,
  sort_tensors, insert_tensor, experts_of, ExpertLayout,
}
use caedral_notre_engine.Gguf.Build.{ModelManifest, build}
use caedral_notre_engine.Gguf.SpanLaws.{Bounded, IsBuilt, build-IsBuilt, Build-cases}

insert_tensor-perm : (t : RawTensor) (us : List RawTensor) → Perm (insert_tensor t us) (t ∷ us)
unfolding insert_tensor
insert_tensor-perm t [] = Perm.refl (t ∷ [])
insert_tensor-perm t (u ∷ us) = elim (Bool-cases (leb t.rel_offset u.rel_offset)) [
  | inl y ↦ rw (y, insert_tensor) (Perm.refl (t ∷ u ∷ us))
  | inr n ↦
      rw (n, insert_tensor) (Perm.trans (Perm.cons u (insert_tensor-perm t us)) (Perm.swap t u us))
]

sort_tensors-perm : (ts : List RawTensor) → Perm (sort_tensors ts) ts
unfolding sort_tensors
sort_tensors-perm [] = Perm.refl []
sort_tensors-perm (t ∷ ts) =
    Perm.trans (insert_tensor-perm t (sort_tensors ts)) (Perm.cons t (sort_tensors-perm ts))

abbrev IsAscending : List RawTensor → Type 0
IsAscending [] = Unit
IsAscending (t ∷ []) = Unit
IsAscending (t ∷ u ∷ us) = (t.rel_offset ≤ u.rel_offset) × IsAscending (u ∷ us)

insert_behind :
    (u t : RawTensor) (us : List RawTensor)
    → u.rel_offset ≤ t.rel_offset
    → IsAscending (u ∷ us)
    → IsAscending (u ∷ insert_tensor t us)
unfolding insert_tensor
insert_behind u t [] h s = (h, tt)
insert_behind u t (v ∷ vs) h s = elim (Bool-cases (leb t.rel_offset v.rel_offset)) [
  | inl y ↦ rw (y, insert_tensor) (h, (ground (arith, y), s.1))
  | inr n ↦ rw (n, insert_tensor) (s.0, insert_behind v t vs (ground (arith, n)) s.1)
]

insert_tensor-IsAscending :
    (t : RawTensor) (us : List RawTensor) → IsAscending us → IsAscending (insert_tensor t us)
unfolding insert_tensor
insert_tensor-IsAscending t [] s = tt
insert_tensor-IsAscending t (u ∷ us) s = elim (Bool-cases (leb t.rel_offset u.rel_offset)) [
  | inl y ↦ rw (y, insert_tensor) (ground (arith, y), s)
  | inr n ↦ rw (n, insert_tensor) (insert_behind u t us (ground (arith, n)) s)
]

sort_tensors-IsAscending : (ts : List RawTensor) → IsAscending (sort_tensors ts)
unfolding sort_tensors
sort_tensors-IsAscending [] = tt
sort_tensors-IsAscending (t ∷ ts) =
    insert_tensor-IsAscending t (sort_tensors ts) (sort_tensors-IsAscending ts)

-- The start of each tensor fits a machine word.
abbrev pub StartsFit : Reader → List RawTensor → Type 0
StartsFit r ts = All (λ t. r.data_offset + t.rel_offset < u64_mod) ts

insert_tensor-StartsFit :
    (r : Reader) (t : RawTensor) (us : List RawTensor)
    → r.data_offset + t.rel_offset < u64_mod
    → StartsFit r us
    → StartsFit r (insert_tensor t us)
unfolding insert_tensor
insert_tensor-StartsFit r t [] h f = (h, tt)
insert_tensor-StartsFit r t (u ∷ us) h f = elim (Bool-cases (leb t.rel_offset u.rel_offset)) [
  | inl y ↦ rw (y, insert_tensor) (h, f)
  | inr n ↦ rw (n, insert_tensor) (f.0, insert_tensor-StartsFit r t us h f.1)
]

sort_tensors-StartsFit :
    (r : Reader) (ts : List RawTensor) → StartsFit r ts → StartsFit r (sort_tensors ts)
unfolding sort_tensors
sort_tensors-StartsFit r [] f = tt
sort_tensors-StartsFit r (t ∷ ts) f =
    insert_tensor-StartsFit r t (sort_tensors ts) f.0 (sort_tensors-StartsFit r ts f.1)

-- The tensors of a manifest, against the raw tensors that the loop took them from.
abbrev Describes : Reader → List RawTensor → List TensorInfo → Type 0
Describes r [] [] = Unit
Describes r (s ∷ ss) (t ∷ ts) =
    (t.name ≡ s.name)
    × (t.abs_offset ≡ add64 r.data_offset s.rel_offset)
    × (t.bytes_total ≡ span_bytes r s ss)
    × Describes r ss ts
Describes r [] (t ∷ ts) = ⊥
Describes r (s ∷ ss) [] = ⊥

IfDescribes : Reader → List RawTensor → Build (List TensorInfo) → Type 0
IfDescribes r ss (refused e) = Unit
IfDescribes r ss (built ts) = Describes r ss ts

tensor_info-Describes :
    (r : Reader) (arch : Bytes) (s : RawTensor) (ss : List RawTensor) (e : Option ExpertLayout)
    (ts : List TensorInfo)
    → Describes r ss ts
    → Describes r (s ∷ ss) (tensor_info r arch s ss e ∷ ts)
unfolding tensor_info
tensor_info-Describes r arch s ss e ts d = (refl, refl, refl, d)

tensor_infos-IfDescribes :
    (r : Reader) (arch : Bytes) (n : ℕ) (ss : List RawTensor)
    → IfDescribes r ss (tensor_infos r arch n ss)
unfolding IfDescribes tensor_infos
tensor_infos-IfDescribes r arch n [] = tt
tensor_infos-IfDescribes r arch n (s ∷ ss) =
    elim (Build-cases (experts_of n (classify_tensor arch s.name) (span_bytes r s ss) s)) [
      | inl (e, bad) ↦ rw (bad, tensor_infos) tt
      | inr (experts, ok) ↦ elim (Build-cases (tensor_infos r arch n ss)) [
        | inl (e, bad) ↦ rw (ok, tensor_infos, bad) tt
        | inr (ts, et) ↦
            let rest : Describes r ss ts =
              subst (IfDescribes r ss) et (tensor_infos-IfDescribes r arch n ss) in
            rw (ok, tensor_infos, et) (tensor_info-Describes r arch s ss experts ts rest)
      ]
    ]

-- Each tensor starts behind the one before and inside the file, and its bytes reach from its start
-- exactly to the next one's; those of the last one reach to the end of the file, unless it starts
-- behind the end.
abbrev pub IsTiling : Reader → List TensorInfo → Type 0
IsTiling r [] = Unit
IsTiling r (t ∷ []) = (r.file_size < t.abs_offset) ⊎ (t.abs_offset + t.bytes_total ≡ r.file_size)
IsTiling r (t ∷ u ∷ us) =
    (t.abs_offset < u.abs_offset)
    × (t.abs_offset + t.bytes_total ≡ u.abs_offset)
    × (u.abs_offset ≤ r.file_size)
    × IsTiling r (u ∷ us)

not_seen : (a : ℕ) (seen : List ℕ) (b : ℕ) → contains b (a ∷ seen) ≡ false → a ≢ b
unfolding contains
not_seen a seen b h e = ground (arith, h)

-- The last tensor's bytes.
last_span :
    (r : Reader) (s : RawTensor) (t : TensorInfo)
    → t.abs_offset ≡ add64 r.data_offset s.rel_offset
    → t.bytes_total ≡ span_bytes r s []
    → r.data_offset + s.rel_offset < u64_mod
    → r.file_size < u64_mod
    → (r.file_size < t.abs_offset) ⊎ (t.abs_offset + t.bytes_total ≡ r.file_size)
unfolding span_bytes add64 sub64
last_span r s t a b f z = ground (arith, a, b)

-- The bytes of a tensor before another one.
inner_span :
    (r : Reader) (s s' : RawTensor) (ss : List RawTensor) (t u : TensorInfo)
    → t.abs_offset ≡ add64 r.data_offset s.rel_offset
    → t.bytes_total ≡ span_bytes r s (s' ∷ ss)
    → u.abs_offset ≡ add64 r.data_offset s'.rel_offset
    → r.data_offset + s'.rel_offset < u64_mod
    → s.rel_offset ≤ s'.rel_offset
    → (t.abs_offset ≤ u.abs_offset)
      × (t.abs_offset + t.bytes_total ≡ u.abs_offset)
      × (add64 t.abs_offset t.bytes_total ≡ u.abs_offset)
unfolding span_bytes add64 sub64
inner_span r s s' ss t u a b c f h =
    (omega (arith, a, c), omega (arith, a, b, c), omega (arith, a, b, c))

Describes-IsTiling :
    (r : Reader) (ss : List RawTensor) (ts : List TensorInfo) (seen : List ℕ)
    → Describes r ss ts
    → IsAscending ss
    → StartsFit r ss
    → r.file_size < u64_mod
    → Bounded r seen ts
    → IsTiling r ts
Describes-IsTiling r [] [] seen d s f z b = tt
Describes-IsTiling r (s ∷ []) (t ∷ []) seen d o f z b = last_span r s t d.1 d.2 f.0 z
Describes-IsTiling r (s ∷ s' ∷ ss) (t ∷ u ∷ us) seen d o f z b =
    let (le, exact, end) = inner_span r s s' ss t u d.1 d.2 d.3.1 f.1.0 o.0 in
    let other = not_seen t.abs_offset seen u.abs_offset b.1.1.1.1.1.0 in
    (
      ground (arith, le, other),
      exact,
      omega (arith, b.1.0, end),
      Describes-IsTiling r (s' ∷ ss) (u ∷ us) (t.abs_offset ∷ seen) d.3 o.1 f.1 z b.1.1.1,
    )
Describes-IsTiling r [] (t ∷ ts) seen d o f z b = absurd d
Describes-IsTiling r (s ∷ ss) [] seen d o f z b = absurd d
Describes-IsTiling r (s ∷ []) (t ∷ u ∷ us) seen d o f z b = absurd d.3
Describes-IsTiling r (s ∷ s' ∷ ss) (t ∷ []) seen d o f z b = absurd d.3

-- A tensor's name and where it starts, in the manifest and in the directory of the file.
abbrev pub start_in_manifest : TensorInfo → Bytes × ℕ
start_in_manifest t = (t.name, t.abs_offset)

abbrev pub start_in_file : Reader → RawTensor → Bytes × ℕ
start_in_file r t = (t.name, add64 r.data_offset t.rel_offset)

Describes-map :
    (r : Reader) (ss : List RawTensor) (ts : List TensorInfo)
    → Describes r ss ts
    → map start_in_manifest ts ≡ map (start_in_file r) ss
Describes-map r [] [] d = refl
Describes-map r (s ∷ ss) (t ∷ ts) d =
    let rest = Describes-map r ss ts d.3 in rw (d.0, d.1) (ap (◌∷◌ (start_in_file r s)) rest)
Describes-map r [] (t ∷ ts) d = absurd d
Describes-map r (s ∷ ss) [] d = absurd d

-- If the registry builds a manifest, from a file whose size and whose tensors' starts fit 64 bits,
-- the manifest has the names and the starts of exactly the file's tensors, in the order of the
-- starts, which all differ. Each tensor's bytes reach to the start of the next one, which lies inside
-- the file, and those of the last one to the end of the file, unless it is behind the end.
pub build-IsTiling :
    (r : Reader) (m : ModelManifest)
    → build r ≡ built m
    → r.file_size < u64_mod
    → StartsFit r r.raw_tensors
    → IsTiling r m.tensors
      × Perm (map start_in_manifest m.tensors) (map (start_in_file r) r.raw_tensors)
build-IsTiling r m e z f = (
  Describes-IsTiling r ss m.tensors [] described (sort_tensors-IsAscending r.raw_tensors)
      (sort_tensors-StartsFit r r.raw_tensors f) z b.bounded,
  rw (Describes-map r ss m.tensors described)
      (Perm.map (start_in_file r) (sort_tensors-perm r.raw_tensors)),
)
  where
    b : IsBuilt r m
    b = build-IsBuilt r m e

    ss : List RawTensor
    ss = sort_tensors r.raw_tensors

    described : Describes r ss m.tensors
    described =
        unfold IfDescribes in
        subst (IfDescribes r ss) b.infos (tensor_infos-IfDescribes r b.arch b.n ss)
