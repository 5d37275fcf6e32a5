-- ===== src/Tests/GgufRuns.antt =====
-- The theorems on core/src/gguf/classify.cpp at concrete tensor names.
use caedral_notre_engine.Prelude.{
  false, some, arith, ◌≡◌, refl, true, ◌∷◌, [], none, some, codes, starts_with, find?, bytes_beq, ℕ,
  List, Bytes, ◌^◌, ◌-◌, ◌<◌, inr, bytes_eq, nat_eq,
}
use caedral_notre_engine.Gguf.Stream.{parsed}
use caedral_notre_engine.Gguf.Format.{
  KvValue, scalar, text, scalars, texts, u8, u32, i32, GgufFile, put_file, at,
}
use caedral_notre_engine.Gguf.Reader.{KvMaps, no_kvs, kv_i64, open_gguf, parse_kv}
use caedral_notre_engine.Gguf.OpenSound.{IsOpen, open_gguf_total}
use caedral_notre_engine.Gguf.SkipLaws.{Ends}
use caedral_notre_engine.Gguf.KvLaws.{put_negative, kv_i64_loses_sign}
use caedral_notre_engine.Gguf.Classify.{classify_tensor, has_part, has_suffix}
use caedral_notre_engine.Prelude.Words.{add64, sub64}
use caedral_notre_engine.Prelude.Assoc.{contains}
use caedral_notre_engine.Gguf.Registry.{
  RawTensor, Reader, built, in_bounds, tensor_info, sort_tensors, insert_tensor, tensor_infos,
  experts_of, span_bytes, check_spans,
}
use caedral_notre_engine.Gguf.Build.{ModelManifest, build, manifest_of, expert_config, finish_build}
use caedral_notre_engine.Gguf.SpanLaws.{last_in_bounds}
use caedral_notre_engine.Gguf.TileLaws.{IsTiling, start_in_manifest, start_in_file, build-IsTiling}
use mathlib.Core.List.{Perm, map}

-- A file of 4096 bytes, with its data from byte 1024 on.
abbrev weights : RawTensor
weights = record {
  name = codes "output.weight";
  dims = 16 ∷ [];
  ggml_type = 0;
  rel_offset = 0;
  offset_field_pos = 900;
}

abbrev far_off : RawTensor
far_off = record {
  name = codes "blk.0.x";
  dims = 16 ∷ [];
  ggml_type = 0;
  rel_offset = 8192;
  offset_field_pos = 900;
}

abbrev small_file : Reader
small_file = record {
  architecture = some (codes "a");
  block_count = some 1;
  has_experts = false;
  expert_count = none;
  expert_used_count = none;
  data_offset = 1024;
  file_size = 4096;
  raw_tensors = weights ∷ [];
}

-- Two tensors that the directory lists in the other order of their offsets.
abbrev later_weights : RawTensor
later_weights = record {
  name = codes "output.weight";
  dims = 16 ∷ [];
  ggml_type = 12;
  rel_offset = 512;
  offset_field_pos = 900;
}

abbrev first_norm : RawTensor
first_norm = record {
  name = codes "output_norm.weight";
  dims = 16 ∷ [];
  ggml_type = 0;
  rel_offset = 0;
  offset_field_pos = 940;
}

abbrev two_file : Reader
two_file = record small_file { raw_tensors = later_weights ∷ first_norm ∷ [] }

abbrev two_manifest : ModelManifest
two_manifest = manifest_of (codes "a") 1 0 0 (
    tensor_info two_file (codes "a") first_norm (later_weights ∷ []) none
    ∷ tensor_info two_file (codes "a") later_weights [] none
    ∷ [])

two_build : build two_file ≡ built two_manifest
unfolding build expert_config sort_tensors insert_tensor tensor_infos experts_of tensor_info
    span_bytes add64 sub64 finish_build check_spans in_bounds contains classify_tensor has_part
    has_suffix starts_with find? bytes_beq manifest_of
two_build = refl

build-IsTiling_example :
    IsTiling two_file two_manifest.tensors
    × Perm
        (map start_in_manifest two_manifest.tensors)
        (map (start_in_file two_file) two_file.raw_tensors)
build-IsTiling_example =
    build-IsTiling two_file two_manifest two_build (omega arith) (omega arith, (omega arith, tt))

last_in_bounds_example :
    in_bounds small_file (tensor_info small_file (codes "a") far_off [] none) ≡ true
last_in_bounds_example =
    last_in_bounds small_file (codes "a") far_off none (omega arith) (omega arith)

-- A file with one value of each kind and one tensor.
abbrev tiny_kvs : List (Bytes × KvValue)
tiny_kvs =
    (codes "general.alignment", scalar u32 64)
    ∷ (codes "general.architecture", text (codes "a"))
    ∷ (codes "a.block_count", scalar i32 (256 ^ 4 - 3))
    ∷ (codes "a.sizes", scalars u8 (1 ∷ 2 ∷ []))
    ∷ (codes "a.words", texts (codes "x" ∷ codes "yz" ∷ []))
    ∷ []

abbrev tiny_file : GgufFile
tiny_file = record {
  version = 3;
  kvs = tiny_kvs;
  dir =
      record { name = codes "output.weight"; dims = 16 ∷ 2 ∷ []; ggml_type = 12; rel_offset = 0 }
      ∷ [];
  content = 7 ∷ 8 ∷ [];
}

open_gguf_total_example : Ends (IsOpen 1000) (open_gguf 1000 (put_file tiny_file))
open_gguf_total_example = open_gguf_total 1000 (put_file tiny_file)

kv_i64_loses_sign_example :
    (o : KvMaps) × (q : ℕ) × (parse_kv no_kvs (at (put_negative i32 (codes "a.bias") 3 []) 24)
      ≡ parsed (o, at [] q))
    × (kv_i64 (codes "a.bias") o ≡ some (256 ^ 4 - 3))
    × (256 ^ 4 - 3 < 2 ^ 63)
kv_i64_loses_sign_example =
    kv_i64_loses_sign i32 (codes "a.bias") 3 no_kvs [] 24 (inr (inr refl)) (omega arith)
      (omega arith) (omega arith)
