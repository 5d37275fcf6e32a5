-- ===== src/Gguf/Stream.antt =====
-- The reads of core/src/gguf/gguf.cpp: `read_exact`, `read_string`, `skip_value`, over a file given as
-- its bytes. A failed read closes the file, so nothing of the cursor is left behind it.
use caedral_notre_engine.Prelude.{
  ℕ, zero, suc, ◌+◌, ◌*◌, ◌/◌, Bool, ◌||◌, [], ◌∷◌, Bytes, ltb, leb, ◌==◌, if◌then◌else◌, length,
  take, drop,
}
use caedral_notre_engine.Prelude.Words.{add64, sub64, mul64}

-- The messages of `fail`.
pub data ReadError : Type 0 where
  eof_in_string_length string_too_long eof_in_string_body : ReadError
  eof_in_array_header unknown_kv_value_type : ReadError
  eof_in_kv_key eof_in_kv_type eof_in_kv_uvalue eof_in_kv_ivalue eof_in_kv_fvalue : ReadError
  eof_in_tensor_name eof_in_tensor_ndims tensor_ndims_gt_4 eof_in_tensor_dim : ReadError
  eof_in_tensor_type eof_in_tensor_offset : ReadError
  eof_at_magic bad_magic eof_at_version unsupported_version eof_at_counts : ReadError
  invalid_alignment : ReadError

-- `threw` is an exception of the standard library, `out_of_fuel` no outcome of the source.
pub data Parsed {ℓ} (A : Type ℓ) : Type ℓ where
  parsed : A → Parsed A
  failed : ReadError → Parsed A
  threw : Parsed A
  out_of_fuel : Parsed A

infixl 5 ◌>>=◌
abbrev pub ◌>>=◌ {ℓ κ} : {A : Type ℓ} {B : Type κ} → Parsed A → (A → Parsed B) → Parsed B
parsed a >>= f = f a
failed e >>= f = failed e
threw >>= f = threw
out_of_fuel >>= f = out_of_fuel

-- `if (!r) return fail(e)`: the later message stays.
abbrev pub or_fail {ℓ} : {A : Type ℓ} → Parsed A → ReadError → Parsed A
or_fail (failed d) e = failed e
or_fail r e = r

-- What is left of the file, and the answer of `ftell`.
pub record Cursor : Type 0 where
  pub rest : Bytes
  pub pos : ℕ

-- `fseek(f_, n, SEEK_CUR)`, which may go behind the end of the file; places beyond the
-- largest `long`, where it fails, are not modelled.
abbrev pub seek : ℕ → Cursor → Cursor
seek n c = record { rest = drop n c.rest; pos = c.pos + n }

unfoldable pub read_exact : ℕ → ReadError → Cursor → Parsed (Bytes × Cursor)
read_exact n e c = if leb n (length c.rest) then parsed (take n c.rest, seek n c) else failed e

-- A number as the machine has it in memory, the lowest byte first.
unfoldable pub le_value : Bytes → ℕ
le_value [] = 0
le_value (b ∷ bs) = b + 256 * le_value bs

-- `read_exact(&v, n)` into a number that was 0.
unfoldable pub read_uint : ℕ → ReadError → Cursor → Parsed (ℕ × Cursor)
unfolding read_exact le_value
read_uint n e c = read_exact n e c >>= λ (bs, d). parsed (le_value bs, d)

abbrev pub max_name_len : ℕ
max_name_len = 1048576

unfoldable pub read_string : Cursor → Parsed (Bytes × Cursor)
unfolding read_uint read_exact
read_string c = read_uint 8 eof_in_string_length c >>= λ (len, d).
    if ltb max_name_len len then failed string_too_long else read_exact len eof_in_string_body d

-- `ValueType`.
abbrev pub v_string : ℕ
v_string = 8

abbrev pub v_array : ℕ
v_array = 9

-- V_UINT8, V_UINT16, V_UINT32, V_UINT64 and V_BOOL.
abbrev pub is_unsigned : ℕ → Bool
is_unsigned t = t == 0 || (t == 2 || (t == 4 || (t == 10 || t == 7)))

-- V_INT8, V_INT16, V_INT32 and V_INT64.
abbrev pub is_signed : ℕ → Bool
is_signed t = t == 1 || (t == 3 || (t == 5 || t == 11))

-- 0 for a type that is unknown or has no fixed length.
unfoldable pub scalar_size : ℕ → ℕ
scalar_size t =
    if t == 0 || (t == 1 || t == 7)
    then 1
    else if t == 2 || t == 3
    then 2
    else if t == 4 || (t == 5 || t == 6)
    then 4
    else if t == 10 || (t == 11 || t == 12)
    then 8
    else 0

-- `count` times the same step.
unfoldable pub skip_each : (Cursor → Parsed Cursor) → ℕ → Cursor → Parsed Cursor
skip_each skip zero c = parsed c
skip_each skip (suc n) c = skip c >>= λ d. skip_each skip n d

unfoldable pub read_array_header : Cursor → Parsed (ℕ × ℕ × Cursor)
unfolding read_uint
read_array_header c = read_uint 4 eof_in_array_header c >>= λ (elem, d).
    read_uint 8 eof_in_array_header d >>= λ (count, e). parsed (elem, count, e)

-- The fuel bounds how deep arrays stand in each other. `fseek` with SEEK_CUR succeeds.
unfoldable pub skip_value : ℕ → ℕ → Cursor → Parsed Cursor
unfolding skip_each read_array_header read_string scalar_size
skip_value zero t c = out_of_fuel
skip_value (suc depth) t c =
    if t == v_string
    then (read_string c >>= λ (s, d). parsed d)
    else if t == v_array
    then (read_array_header c >>= λ (elem, count, d). skip_each (skip_value depth elem) count d)
    else if scalar_size t == 0
    then failed unknown_kv_value_type
    else parsed (seek (scalar_size t) c)

unfoldable pub align_up : ℕ → ℕ → ℕ
unfolding add64 sub64 mul64
align_up v a = if a == 0 then v else mul64 (sub64 (add64 v a) 1 / a) a
