-- ===== src/Gguf/Registry.antt =====
-- `ModelRegistry::build` of core/src/gguf/model_registry.cpp, over what the reader has read. Tensors
-- with the same offset are sorted in an order that the source leaves open; here the earlier one
-- comes first.
use caedral_notre_engine.Prelude.{
  ℕ, suc, ◌/◌, ◌%◌, ◌^◌, Bool, not, ◌&&◌, ◌||◌, List, [], ◌∷◌, ◌++◌, Option, none, some, Bytes,
  codes, ltb, leb, ◌==◌, if◌then◌else◌, length, nat_eq,
}
use caedral_notre_engine.Prelude.Words.{add64, sub64}
use caedral_notre_engine.Prelude.Assoc.{contains}
use caedral_notre_engine.Gguf.Classify.{
  TensorKind, routed_expert, parse_layer_index, classify_tensor,
}
use caedral_notre_engine.Gguf.Types.{ggml_type_name}

pub record RawTensor : Type 0 where
  pub name : Bytes
  pub dims : List ℕ
  pub ggml_type : ℕ
  pub rel_offset : ℕ
  pub offset_field_pos : ℕ

-- What `GgufReader` answers; `none` is a missing or mistyped key.
pub record Reader : Type 0 where
  pub architecture : Option Bytes
  pub block_count : Option ℕ
  pub has_experts : Bool
  pub expert_count : Option ℕ
  pub expert_used_count : Option ℕ
  pub data_offset : ℕ
  pub file_size : ℕ
  pub raw_tensors : List RawTensor

-- An expert tensor's share: the number of experts, the axis, whether it is the last one, the bytes.
pub record ExpertLayout : Type 0 where
  pub expert_count : ℕ
  pub expert_axis : ℕ
  pub expert_contiguous : Bool
  pub bytes_per_expert : ℕ

pub record TensorInfo : Type 0 where
  pub name : Bytes
  pub kind : TensorKind
  pub layer : Option ℕ
  pub abs_offset : ℕ
  pub bytes_total : ℕ
  pub experts : Option ExpertLayout
  pub quant_type : Bytes

pub data Build (A : Type 0) : Type 0 where
  built : A → Build A
  refused : Bytes → Build A

-- `(int)v` as its 32-bit pattern, and whether it is positive.
abbrev pub int_of : ℕ → ℕ
int_of v = v % 2 ^ 32

abbrev pub positive : ℕ → Bool
positive v = ltb 0 (int_of v) && ltb (int_of v) (2 ^ 31)

unfoldable pub insert_tensor : RawTensor → List RawTensor → List RawTensor
insert_tensor t [] = t ∷ []
insert_tensor t (u ∷ us) =
    let rest = insert_tensor t us in if leb t.rel_offset u.rel_offset then t ∷ u ∷ us else u ∷ rest

unfoldable pub sort_tensors : List RawTensor → List RawTensor
unfolding insert_tensor
sort_tensors [] = []
sort_tensors (t ∷ ts) = insert_tensor t (sort_tensors ts)

-- `bytes_total`: up to the next tensor, or to the end of the file.
unfoldable pub span_bytes : Reader → RawTensor → List RawTensor → ℕ
unfolding sub64 add64
span_bytes r t [] = sub64 r.file_size (add64 r.data_offset t.rel_offset)
span_bytes r t (u ∷ us) = sub64 u.rel_offset t.rel_offset

-- The first axis as long as there are experts.
unfoldable pub find_axis : ℕ → ℕ → List ℕ → Option ℕ
find_axis n d [] = none
find_axis n d (x ∷ xs) =
    let rest = find_axis n (suc d) xs in if int_of x == int_of n then some d else rest

unfoldable pub expert_layout : ℕ → ℕ → List ℕ → Option ExpertLayout
unfolding find_axis
expert_layout n bytes dims = elim (find_axis n 0 dims) [
  | none ↦ none
  | some axis ↦
      if bytes == 0
      then none
      else some (record {
        expert_count = int_of n;
        expert_axis = axis;
        expert_contiguous = suc axis == length dims;
        bytes_per_expert = bytes / int_of n;
      })
]

abbrev no_axis : RawTensor → Bytes
no_axis t = codes "gguf: expert axis not found in tensor: " ++ t.name

-- The expert part of a tensor; a kind other than a routed expert has none.
unfoldable pub experts_of : ℕ → TensorKind → ℕ → RawTensor → Build (Option ExpertLayout)
unfolding expert_layout
experts_of n routed_expert bytes t =
    if not (positive n)
    then refused (codes "gguf: routed expert tensor but no expert_count: " ++ t.name)
    else elim (expert_layout n bytes t.dims) [
      | none ↦ refused (no_axis t)
      | some e ↦ built (some e)
    ]
experts_of n k bytes t = built none

unfoldable pub tensor_info :
    Reader → Bytes → RawTensor → List RawTensor → Option ExpertLayout → TensorInfo
unfolding span_bytes add64 classify_tensor parse_layer_index ggml_type_name
tensor_info r arch t ts experts = record {
  name = t.name;
  kind = classify_tensor arch t.name;
  layer = parse_layer_index t.name;
  abs_offset = add64 r.data_offset t.rel_offset;
  bytes_total = span_bytes r t ts;
  experts = experts;
  quant_type = ggml_type_name t.ggml_type;
}

-- The loop over the sorted tensors.
unfoldable pub tensor_infos : Reader → Bytes → ℕ → List RawTensor → Build (List TensorInfo)
unfolding tensor_info experts_of span_bytes classify_tensor
tensor_infos r arch n [] = built []
tensor_infos r arch n (t ∷ ts) =
    elim (experts_of n (classify_tensor arch t.name) (span_bytes r t ts) t) [
      | refused e ↦ refused e
      | built experts ↦ elim (tensor_infos r arch n ts) [
        | refused e ↦ refused e
        | built infos ↦ built (tensor_info r arch t ts experts ∷ infos)
      ]
    ]

unfoldable pub in_bounds : Reader → TensorInfo → Bool
unfolding add64
in_bounds r t =
    not (ltb t.abs_offset r.data_offset || ltb r.file_size (add64 t.abs_offset t.bytes_total))

-- The structural checks, with the offsets seen.
unfoldable pub check_spans : Reader → List ℕ → List TensorInfo → Option Bytes
unfolding in_bounds contains
check_spans r seen [] = none
check_spans r seen (t ∷ ts) =
    let rest = check_spans r (t.abs_offset ∷ seen) ts in
    if not (in_bounds r t)
    then some (codes "gguf: tensor span out of file bounds: " ++ t.name)
    else if contains t.abs_offset seen
    then some (codes "gguf: duplicate tensor offset: " ++ t.name)
    else rest
