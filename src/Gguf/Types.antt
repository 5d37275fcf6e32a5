-- ===== src/Gguf/Types.antt =====
-- `GgufReader::ggml_type_name` of core/src/gguf/gguf.cpp.
use caedral_notre_engine.Prelude.{ℕ, List, [], ◌∷◌, Bytes, codes, map, none, some, get_elem?}

abbrev type_names : List Bytes
type_names = map codes (
    "f32" ∷ "f16" ∷ "q4_0" ∷ "q4_1" ∷ "?4" ∷ "?5" ∷ "q5_0" ∷ "q5_1" ∷ "q8_0" ∷ "q8_1" ∷ "q2_k"
    ∷ "q3_k" ∷ "q4_k" ∷ "q5_k" ∷ "q6_k" ∷ "q8_k" ∷ "iq2_xxs" ∷ "iq2_xs" ∷ "iq3_xxs" ∷ "iq1_s"
    ∷ "iq4_nl" ∷ "iq3_s" ∷ "iq2_s" ∷ "iq4_xs" ∷ "i8" ∷ "i16" ∷ "i32" ∷ "i64" ∷ "f64" ∷ "iq1_m"
    ∷ "bf16" ∷ "?31" ∷ "?32" ∷ "?33" ∷ "tq1_0" ∷ "tq2_0" ∷ "?36" ∷ "?37" ∷ "?38" ∷ "mxfp4" ∷ "nvfp4"
    ∷ "q1_0" ∷ "q2_0" ∷ [])

unfoldable pub ggml_type_name : ℕ → Bytes
ggml_type_name id = elim (get_elem? type_names id) [ none ↦ codes "unknown" | some s ↦ s ]
