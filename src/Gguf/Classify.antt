-- ===== src/Gguf/Classify.antt =====
-- `parse_layer_index` and `classify_tensor` of core/src/gguf/classify.cpp.
use caedral_notre_engine.Prelude.{
  ℕ, ◌+◌, ◌-◌, ◌*◌, Bool, true, false, ◌&&◌, ◌||◌, [], ◌∷◌, Option, none, some, Bytes, codes,
  bytes_beq, leb, ◌==◌, if◌then◌else◌, length, drop, starts_with, find?,
}

pub data TensorKind : Type 0 where
  other : TensorKind
  routed_expert : TensorKind
  shared_expert : TensorKind
  attention : TensorKind
  recurrent : TensorKind
  embedding : TensorKind
  output : TensorKind
  norm : TensorKind
  scale : TensorKind

unfoldable pub has_suffix : Bytes → Bytes → Bool
has_suffix s suf = leb (length suf) (length s) && bytes_beq (drop (length s - length suf) s) suf

-- `name.find(part) != npos`.
unfoldable pub has_part : Bytes → Bytes → Bool
unfolding find?
has_part name part = elim (find? part name) [ none ↦ false | some i ↦ true ]

abbrev pub is_digit : ℕ → Bool
is_digit c = leb b'0' c && leb c b'9'

unfoldable pub all_digits : Bytes → Bool
all_digits [] = true
all_digits (c ∷ s) = is_digit c && all_digits s

-- What stands before the first dot; `none` if there is no dot.
unfoldable pub until_dot : Bytes → Option Bytes
until_dot [] = none
until_dot (c ∷ s) = elim (c == b'.') [
  | true ↦ some []
  | false ↦ elim (until_dot s) [ none ↦ none | some d ↦ some (c ∷ d) ]
]

-- `atoi` of digits, for a value that an `int` can hold.
unfoldable pub atoi : ℕ → Bytes → ℕ
atoi n [] = n
atoi n (c ∷ s) = atoi (n * 10 + (c - b'0')) s

abbrev pub marker : Bytes
marker = codes "blk."

unfoldable pub layer_at : Bytes → Option ℕ
unfolding until_dot all_digits atoi
layer_at s = elim (until_dot s) [
  | none ↦ none
  | some [] ↦ none
  | some (c ∷ d) ↦ if all_digits (c ∷ d) then some (atoi 0 (c ∷ d)) else none
]

-- `none` is -1.
unfoldable pub parse_layer_index : Bytes → Option ℕ
unfolding find? layer_at
parse_layer_index name = elim (find? marker name) [
  | none ↦ none
  | some p ↦ layer_at (drop (p + length marker) name)
]

unfoldable pub classify_tensor : Bytes → Bytes → TensorKind
unfolding has_suffix has_part starts_with
classify_tensor arch name =
    if has_suffix name (codes ".scale") || has_suffix name (codes ".input_scale")
    then scale
    else if has_part name (codes "_exps")
    then routed_expert
    else if has_part name (codes "shexp")
    then shared_expert
    else if starts_with (codes "ssm.") name
        || (has_part name (codes "ssm_") || starts_with (codes "conv.") name)
    then recurrent
    else if starts_with (codes "attn.") name || has_part name (codes "attn_")
    then attention
    else if starts_with (codes "token_embd.") name
    then embedding
    else if starts_with (codes "output.") name
    then output
    else if has_part name (codes "output_norm") || has_part name (codes ".attn_norm")
    then norm
    else other
