-- ===== src/Tests/ToolsRuns.antt =====
-- The theorem on tools/cne-prepare.cpp for a file of two tensors that begin at no multiple of 4096.
use caedral_notre_engine.Prelude.{
  ◌≡◌, refl, ◌⊎◌, ◌<◌, List, [], ◌∷◌, Bytes, codes, length, take, drop, replicate, arith, true,
}
use caedral_notre_engine.Prelude.Words.{add64, sub64, mul64}
use caedral_notre_engine.Prelude.Assoc.{lookup}
use caedral_notre_engine.Gguf.Stream.{le_value, align_up}
use caedral_notre_engine.Gguf.Registry.{RawTensor}
use caedral_notre_engine.Gguf.Reader.{GgufReader, no_kvs, kv_scalar_value_pos}
use caedral_notre_engine.Tools.Prepare.{
  prepare_file, prepared_meta, set_alignment, patch_offsets, poke, layout, span_of, in_order,
  refused, smaller_layout, no_space,
}
use caedral_notre_engine.Tools.PrepareLaws.{new_meta, new_size, IsPrepared, prepare_file_total}

abbrev two_tensors : List RawTensor
two_tensors =
    record { name = codes "a"; dims = 3 ∷ []; ggml_type = 0; rel_offset = 0; offset_field_pos = 24 }
    ∷ record {
      name = codes "b";
      dims = 5 ∷ [];
      ggml_type = 0;
      rel_offset = 3;
      offset_field_pos = 32;
    }
    ∷ []

abbrev two_reader : GgufReader
two_reader = record {
  version = 3;
  kvs = no_kvs;
  kv_end = 24;
  alignment = 32;
  tensors = two_tensors;
  meta_end = 40;
  data_offset = 64;
}

abbrev two_file : Bytes
two_file = replicate 72 7

two_meta : length (new_meta two_reader two_file) ≡ 73
unfolding prepared_meta set_alignment patch_offsets poke layout span_of kv_scalar_value_pos lookup
    le_value add64 sub64 mul64 align_up
two_meta = refl

-- The offset fields have moved by the new entry and hold the new places.
two_fields :
    (le_value (take 8 (drop 57 (new_meta two_reader two_file))) ≡ 0)
    × (le_value (take 8 (drop 65 (new_meta two_reader two_file))) ≡ 4096)
unfolding prepared_meta set_alignment patch_offsets poke layout span_of kv_scalar_value_pos lookup
    le_value add64 sub64 mul64 align_up
two_fields = (refl, refl)

two_in_order : in_order two_tensors ≡ true
unfolding in_order
two_in_order = refl

prepare_file_total_example :
    ((new_size two_reader two_file < length two_file)
      × (prepare_file 100000 two_reader two_file ≡ refused smaller_layout))
    ⊎ (((100000 < new_size two_reader two_file)
          × (prepare_file 100000 two_reader two_file ≡ refused no_space))
        ⊎ IsPrepared 100000 two_reader two_file)
prepare_file_total_example =
    prepare_file_total 100000 two_reader two_file two_in_order (omega arith, (omega arith, tt))
      (omega arith) (omega (arith, two_meta))
