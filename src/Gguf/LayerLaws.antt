-- ===== src/Gguf/LayerLaws.antt =====
-- Which names `parse_layer_index` reads a layer from.
use caedral_notre_engine.Prelude.{
  ℕ, ◌≡◌, refl, Bool, true, false, ◌||◌, [], ◌∷◌, ◌++◌, none, some, Bytes, codes, ◌==◌,
  if◌then◌else◌, starts_with, find?, arith, ◌≢◌, ap, Bool-cases, Option-cases, inl, inr,
}
use caedral_notre_engine.Gguf.Classify.{
  all_digits, until_dot, atoi, marker, layer_at, parse_layer_index, has_part, classify_tensor,
  TensorKind, norm, other, scale, routed_expert, shared_expert, recurrent, attention, embedding,
  output, has_suffix,
}

until_dot-append : (d rest : Bytes) → all_digits d ≡ true → until_dot (d ++ b'.' ∷ rest) ≡ some d
unfolding until_dot all_digits
until_dot-append [] rest h = refl
until_dot-append (c ∷ d) rest h =
    let ih : until_dot (d ++ b'.' ∷ rest) ≡ some d = until_dot-append d rest (ground arith) in
    let no_dot : (c == b'.') ≡ false = ground arith in rw (until_dot, no_dot, ih) refl

layer_at-append :
    (c : ℕ) (d rest : Bytes)
    → all_digits (c ∷ d) ≡ true
    → layer_at ((c ∷ d) ++ b'.' ∷ rest) ≡ some (atoi 0 (c ∷ d))
unfolding layer_at
layer_at-append c d rest h = rw (layer_at, until_dot-append (c ∷ d) rest h, h) refl

-- A name that starts with `blk.`, at least one digit, and a dot has the layer that the digits spell.
pub parse_layer_index_reads :
    (c : ℕ) (d rest : Bytes)
    → all_digits (c ∷ d) ≡ true
    → parse_layer_index (marker ++ (c ∷ d) ++ b'.' ∷ rest) ≡ some (atoi 0 (c ∷ d))
unfolding parse_layer_index find? starts_with
parse_layer_index_reads c d rest h = layer_at-append c d rest h

find_digits : (d : Bytes) → all_digits d ≡ true → find? marker d ≡ none
unfolding find? starts_with all_digits
find_digits [] h = refl
find_digits (c ∷ d) h = ground (arith, find_digits d)

-- The routing nodes, which are named `ffn_moe_argsort-` and the digits of their layer, have no layer
-- for `parse_layer_index`.
pub parse_layer_index_router :
    (d : Bytes) → all_digits d ≡ true → parse_layer_index (codes "ffn_moe_argsort-" ++ d) ≡ none
unfolding parse_layer_index find? starts_with
parse_layer_index_router d h = rw (find_digits d h) refl

starts_with_shorter : (p q s : Bytes) → starts_with (p ++ q) s ≡ true → starts_with p s ≡ true
unfolding starts_with
starts_with_shorter [] q s h = refl
starts_with_shorter (x ∷ p) q [] h = absurd (ground arith)
starts_with_shorter (x ∷ p) q (c ∷ s) h = ground (arith, starts_with_shorter p q s)

pub has_part-cons :
    (c : ℕ) (s p : Bytes) → has_part (c ∷ s) p ≡ (starts_with p (c ∷ s) || has_part s p)
unfolding has_part find?
has_part-cons c s p = elim (Bool-cases (starts_with p (c ∷ s))) [
  | inl y ↦ rw (y, has_part, find?) refl
  | inr n ↦ elim (Option-cases (find? p s)) [
    | inl e ↦ rw (n, e, has_part, find?) refl
    | inr (i, e) ↦ rw (n, e, has_part, find?) refl
  ]
]

part_of_prefix : (s p : Bytes) → starts_with p s ≡ true → has_part s p ≡ true
unfolding has_part find?
part_of_prefix [] p h = ground arith
part_of_prefix (c ∷ s) p h = ground arith

no_part : has_part [] (codes ".attn_norm") ≢ true
unfolding has_part find? starts_with
no_part h = ground arith

or_true : (b : Bool) → (b || true) ≡ true
or_true b = ground arith

attn_norm_attn :
    (name : Bytes)
    → has_part name (codes ".attn_norm") ≡ true
    → has_part name (codes "attn_") ≡ true
unfolding starts_with
attn_norm_attn [] h = absurd (no_part h)
attn_norm_attn (c ∷ s) h = elim (Bool-cases (has_part s (codes ".attn_norm"))) [
  | inl y ↦ rw (has_part-cons c s (codes "attn_"), attn_norm_attn s y, or_true _) refl
  | inr n ↦
      let front : starts_with (codes ".attn_norm") (c ∷ s) ≡ true =
        ground (arith, has_part-cons c s (codes ".attn_norm")) in
      let next : starts_with (codes "attn_norm") s ≡ true = ground arith in
      let here =
        part_of_prefix s (codes "attn_")
          (starts_with_shorter (codes "attn_") (codes "norm") s next) in
      rw (has_part-cons c s (codes "attn_"), here, or_true _) refl
]

is_norm : TensorKind → Bool
is_norm norm = true
is_norm k = false

last_test :
    (b c d e f g i p r : Bool)
    → is_norm (
        if b
        then scale
        else if c
        then routed_expert
        else if d
        then shared_expert
        else if e
        then recurrent
        else if f || g
        then attention
        else if i
        then embedding
        else if p
        then output
        else if r
        then norm
        else other)
      ≡ true
    → (g ≡ false) × (r ≡ true)
unfolding is_norm
last_test true c d e f g i p r h = absurd (ground arith)
last_test false true d e f g i p r h = absurd (ground arith)
last_test false false true e f g i p r h = absurd (ground arith)
last_test false false false true f g i p r h = absurd (ground arith)
last_test false false false false true g i p r h = absurd (ground arith)
last_test false false false false false true i p r h = absurd (ground arith)
last_test false false false false false false true p r h = absurd (ground arith)
last_test false false false false false false false true r h = absurd (ground arith)
last_test false false false false false false false false true h = (refl, refl)
last_test false false false false false false false false false h = absurd (ground arith)

norm_test : (p q r : Bool) → (q ≡ true → r ≡ true) → r ≡ false → (p || q) ≡ true → p ≡ true
norm_test true q r h n e = refl
norm_test false q r h n e = absurd (ground arith)

-- Only a name with `output_norm` in it is classified as a norm: the test for `.attn_norm` comes
-- behind the one for `attn_`, which holds of every such name.
classify_tensor_norm :
    (arch name : Bytes)
    → classify_tensor arch name ≡ norm
    → has_part name (codes "output_norm") ≡ true
unfolding classify_tensor is_norm
classify_tensor_norm arch name h =
    let t =
      last_test (has_suffix name (codes ".scale") || has_suffix name (codes ".input_scale"))
        (has_part name (codes "_exps")) (has_part name (codes "shexp"))
        (starts_with (codes "ssm.") name
          || (has_part name (codes "ssm_") || starts_with (codes "conv.") name))
        (starts_with (codes "attn.") name) (has_part name (codes "attn_"))
        (starts_with (codes "token_embd.") name) (starts_with (codes "output.") name)
        (has_part name (codes "output_norm") || has_part name (codes ".attn_norm"))
        (ap is_norm h) in
    norm_test (has_part name (codes "output_norm")) (has_part name (codes ".attn_norm"))
      (has_part name (codes "attn_")) (attn_norm_attn name) (t.0) (t.1)
