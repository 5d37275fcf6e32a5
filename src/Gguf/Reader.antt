-- ===== src/Gguf/Reader.antt =====
-- `GgufReader` of core/src/gguf/gguf.cpp: the key-value section, the tensor directory, `open` and the
-- lookups. Values are kept as their patterns; a float and a double are told apart by their widths.
use caedral_notre_engine.Prelude.{
  ℕ, zero, suc, ◌-◌, Bool, not, ◌&&◌, ◌||◌, List, [], ◌∷◌, Option, none, some, Bytes, codes, ltb,
  ◌==◌, if◌then◌else◌, length, bytes_eq,
}
use caedral_notre_engine.Prelude.Assoc.{lookup, has, assign}
use caedral_notre_engine.Gguf.Registry.{RawTensor}
use caedral_notre_engine.Gguf.Stream.{
  Parsed, parsed, failed, threw, ◌>>=◌, or_fail, Cursor, read_uint, read_string, v_string, v_array,
  is_unsigned, is_signed, scalar_size, skip_value, align_up, eof_in_kv_key, eof_in_kv_type,
  unknown_kv_value_type, eof_in_kv_uvalue, eof_in_kv_ivalue, eof_in_kv_fvalue, eof_in_tensor_name,
  eof_in_tensor_ndims, tensor_ndims_gt_4, eof_in_tensor_dim, eof_in_tensor_type,
  eof_in_tensor_offset, eof_at_magic, bad_magic, eof_at_version, unsupported_version, eof_at_counts,
  invalid_alignment,
}
use Prim.Native.Nat.{bit_and}

pub data Floating : Type 0 where
  float : ℕ → Floating
  double : ℕ → Floating

-- The maps of the reader; nothing writes `kv_b`.
pub record KvMaps : Type 0 where
  pub kv_u : List (Bytes × ℕ)
  pub kv_i : List (Bytes × ℕ)
  pub kv_f : List (Bytes × Floating)
  pub kv_s : List (Bytes × Bytes)
  pub kv_b : List (Bytes × Bool)
  pub kv_pos : List (Bytes × ℕ)

abbrev pub no_kvs : KvMaps
no_kvs = record { kv_u = []; kv_i = []; kv_f = []; kv_s = []; kv_b = []; kv_pos = [] }

unfoldable pub put_unsigned : Bytes → ℕ → ℕ → KvMaps → KvMaps
unfolding assign
put_unsigned key v vpos m = record m {
  kv_u = assign key v m.kv_u;
  kv_pos = assign key vpos m.kv_pos;
}

-- `v` is an `int64_t` that was 0 and whose low bytes were read.
unfoldable pub put_signed : Bytes → ℕ → ℕ → KvMaps → KvMaps
unfolding assign
put_signed key v vpos m = record m { kv_i = assign key v m.kv_i; kv_pos = assign key vpos m.kv_pos }

unfoldable pub put_floating : Bytes → Floating → KvMaps → KvMaps
unfolding assign
put_floating key x m = record m { kv_f = assign key x m.kv_f }

unfoldable pub put_string : Bytes → Bytes → KvMaps → KvMaps
unfolding assign
put_string key s m = record m { kv_s = assign key s m.kv_s }

-- The branches of `parse_kvs` on the type of the value.
unfoldable pub parse_kv_value : KvMaps → Bytes → ℕ → Cursor → Parsed (KvMaps × Cursor)
unfolding read_uint read_string scalar_size skip_value put_unsigned put_signed put_floating
    put_string
parse_kv_value m key t c =
    if is_unsigned t
    then (read_uint (scalar_size t) eof_in_kv_uvalue c >>= λ (v, d).
        parsed (put_unsigned key v c.pos m, d))
    else if is_signed t
    then (read_uint (scalar_size t) eof_in_kv_ivalue c >>= λ (v, d).
        parsed (put_signed key v c.pos m, d))
    else if t == 6
    then (read_uint 4 eof_in_kv_fvalue c >>= λ (v, d). parsed (put_floating key (float v) m, d))
    else if t == 12
    then (read_uint 8 eof_in_kv_fvalue c >>= λ (v, d). parsed (put_floating key (double v) m, d))
    else if t == v_string
    then (read_string c >>= λ (s, d). parsed (put_string key s m, d))
    else (skip_value (suc (suc (length c.rest))) v_array c >>= λ d. parsed (m, d))

-- One round of `parse_kvs`.
unfoldable pub parse_kv : KvMaps → Cursor → Parsed (KvMaps × Cursor)
unfolding read_string read_uint scalar_size parse_kv_value
parse_kv m c = or_fail (read_string c) eof_in_kv_key >>= λ (key, d).
    read_uint 4 eof_in_kv_type d >>= λ (t, e).
    if not (t == v_string) && (not (t == v_array) && scalar_size t == 0)
    then failed unknown_kv_value_type
    else parse_kv_value m key t e

unfoldable pub parse_kvs : ℕ → KvMaps → Cursor → Parsed (KvMaps × Cursor)
unfolding parse_kv
parse_kvs zero m c = parsed (m, c)
parse_kvs (suc n) m c = parse_kv m c >>= λ (o, d). parse_kvs n o d

-- The loop over `t.dims`.
unfoldable pub read_dims : ℕ → Cursor → Parsed (List ℕ × Cursor)
unfolding read_uint
read_dims zero c = parsed ([], c)
read_dims (suc n) c =
    read_uint 8 eof_in_tensor_dim c >>= λ (x, d). read_dims n d >>= λ (xs, e). parsed (x ∷ xs, e)

-- One round of `parse_tensor_dir`.
unfoldable pub parse_tensor : Cursor → Parsed (RawTensor × Cursor)
unfolding read_string read_uint read_dims
parse_tensor c = or_fail (read_string c) eof_in_tensor_name >>= λ (name, c1).
    read_uint 4 eof_in_tensor_ndims c1 >>= λ (n_dims, c2).
    (if ltb 4 n_dims then failed tensor_ndims_gt_4 else read_dims n_dims c2) >>= λ (dims, c3).
    read_uint 4 eof_in_tensor_type c3 >>= λ (ty, c4).
    read_uint 8 eof_in_tensor_offset c4 >>= λ (off, c5). parsed (
      record {
        name = name;
        dims = dims;
        ggml_type = ty;
        rel_offset = off;
        offset_field_pos = c4.pos;
      },
      c5,
    )

unfoldable pub parse_tensors : ℕ → Cursor → Parsed (List RawTensor × Cursor)
unfolding parse_tensor
parse_tensors zero c = parsed ([], c)
parse_tensors (suc n) c =
    parse_tensor c >>= λ (t, d). parse_tensors n d >>= λ (ts, e). parsed (t ∷ ts, e)

-- `tensors_.reserve(count)` throws for more tensors than memory holds, `capacity`.
unfoldable pub parse_tensor_dir : ℕ → ℕ → Cursor → Parsed (List RawTensor × Cursor)
unfolding parse_tensors
parse_tensor_dir capacity count c = if ltb capacity count then threw else parse_tensors count c

pub record GgufReader : Type 0 where
  pub version : ℕ
  pub kvs : KvMaps
  pub kv_end : ℕ
  pub alignment : ℕ
  pub tensors : List RawTensor
  pub meta_end : ℕ
  pub data_offset : ℕ

abbrev pub gguf_magic : ℕ
gguf_magic = 1179993927

unfoldable pub kv_u64 : Bytes → KvMaps → Option ℕ
unfolding lookup
kv_u64 key m = lookup key m.kv_u

-- The pattern of the `int64_t`.
unfoldable pub kv_i64 : Bytes → KvMaps → Option ℕ
unfolding lookup
kv_i64 key m = lookup key m.kv_i

unfoldable pub kv_f64 : Bytes → KvMaps → Option Floating
unfolding lookup
kv_f64 key m = lookup key m.kv_f

unfoldable pub kv_str : Bytes → KvMaps → Option Bytes
unfolding lookup
kv_str key m = lookup key m.kv_s

unfoldable pub kv_bool : Bytes → KvMaps → Option Bool
unfolding lookup
kv_bool key m = elim (lookup key m.kv_b) [
  | some b ↦ some b
  | none ↦ elim (lookup key m.kv_u) [ none ↦ none | some v ↦ some (not (v == 0)) ]
]

unfoldable pub has_kv : Bytes → KvMaps → Bool
unfolding has
has_kv key m =
    has key m.kv_u || (has key m.kv_i || (has key m.kv_f || (has key m.kv_s || has key m.kv_b)))

unfoldable pub kv_scalar_value_pos : Bytes → KvMaps → Option ℕ
unfolding lookup
kv_scalar_value_pos key m = lookup key m.kv_pos

-- `general.alignment`, 32 without the key.
unfoldable pub alignment_of : KvMaps → ℕ
unfolding kv_u64
alignment_of m = elim (kv_u64 (codes "general.alignment") m) [ none ↦ 32 | some a ↦ a ]

unfoldable pub bad_alignment : ℕ → Bool
bad_alignment a = a == 0 || not (bit_and a (a - 1) == 0)

-- `open` behind the counts.
unfoldable pub open_body : ℕ → ℕ → ℕ → ℕ → Cursor → Parsed GgufReader
unfolding parse_kvs alignment_of bad_alignment parse_tensor_dir align_up
open_body capacity version n_tensors n_kv c = parse_kvs n_kv no_kvs c >>= λ (m, d).
    if bad_alignment (alignment_of m)
    then failed invalid_alignment
    else (parse_tensor_dir capacity n_tensors d >>= λ (ts, e). parsed (record {
      version = version;
      kvs = m;
      kv_end = d.pos;
      alignment = alignment_of m;
      tensors = ts;
      meta_end = e.pos;
      data_offset = align_up e.pos (alignment_of m);
    }))

-- `open` of a file with these bytes.
unfoldable pub open_gguf : ℕ → Bytes → Parsed GgufReader
unfolding read_uint open_body
open_gguf capacity file =
    read_uint 4 eof_at_magic (record { rest = file; pos = 0 }) >>= λ (magic, c1).
    if not (magic == gguf_magic)
    then failed bad_magic
    else (read_uint 4 eof_at_version c1 >>= λ (version, c2).
        if ltb version 2 || ltb 3 version
        then failed unsupported_version
        else (read_uint 8 eof_at_counts c2 >>= λ (n_tensors, c3).
            read_uint 8 eof_at_counts c3 >>= λ (n_kv, c4).
            open_body capacity version n_tensors n_kv c4))
