-- ===== src/Gguf/ReadBack.antt =====
-- The reader of core/src/gguf/gguf.cpp on what was written in the layout of Gguf.Format.
use caedral_notre_engine.Prelude.{
  ℕ, suc, ◌+◌, ◌*◌, ◌^◌, ◌<◌, ◌≡◌, refl, List, [], ◌∷◌, Bytes, length, arith, All, ap, ◌∙◌,
}
use caedral_notre_engine.Prelude.Words.{u64_mod}
use caedral_notre_engine.Gguf.Stream.{
  parsed, Cursor, seek, eof_in_array_header, skip_value, skip_each, read_array_header, v_array,
  eof_in_kv_uvalue, eof_in_kv_ivalue, eof_in_kv_fvalue,
}
use caedral_notre_engine.Gguf.Format.{
  at, put_uint, put_text, read_uint-put_uint, drop-put_uint, read_string-put_text, Scalar, u8, i8,
  u16, i16, u32, i32, f32, boolean, u64, i64, f64, scalar_tag, size, KvValue, scalar, text, scalars,
  texts, value_tag, put_value, IsValue, IsShort, put_texts, put_uints, value_size, texts_size,
}
use caedral_notre_engine.Gguf.Reader.{
  KvMaps, put_unsigned, put_signed, put_floating, put_string, parse_kv_value, float, double,
}

-- What an entry leaves in the maps; `p` is where its value stands in the file.
abbrev pub store_scalar : Scalar → Bytes → ℕ → ℕ → KvMaps → KvMaps
store_scalar u8 k v p m = put_unsigned k v p m
store_scalar i8 k v p m = put_signed k v p m
store_scalar u16 k v p m = put_unsigned k v p m
store_scalar i16 k v p m = put_signed k v p m
store_scalar u32 k v p m = put_unsigned k v p m
store_scalar i32 k v p m = put_signed k v p m
store_scalar f32 k v p m = put_floating k (float v) m
store_scalar boolean k v p m = put_unsigned k v p m
store_scalar u64 k v p m = put_unsigned k v p m
store_scalar i64 k v p m = put_signed k v p m
store_scalar f64 k v p m = put_floating k (double v) m

abbrev pub store_value : KvValue → Bytes → ℕ → KvMaps → KvMaps
store_value (scalar t v) k p m = store_scalar t k v p m
store_value (text s) k p m = put_string k s m
store_value (scalars t vs) k p m = m
store_value (texts ss) k p m = m

parse_scalar :
    (t : Scalar) (v : ℕ) (m : KvMaps) (k rest : Bytes) (p : ℕ)
    → v < 256 ^ size t
    → parse_kv_value m k (scalar_tag t) (at (put_uint (size t) v rest) p)
      ≡ parsed (store_scalar t k v p m, at rest (p + size t))
unfolding parse_kv_value
parse_scalar u8 v m k rest p h = rw (read_uint-put_uint 1 v rest eof_in_kv_uvalue p h) refl
parse_scalar i8 v m k rest p h = rw (read_uint-put_uint 1 v rest eof_in_kv_ivalue p h) refl
parse_scalar u16 v m k rest p h = rw (read_uint-put_uint 2 v rest eof_in_kv_uvalue p h) refl
parse_scalar i16 v m k rest p h = rw (read_uint-put_uint 2 v rest eof_in_kv_ivalue p h) refl
parse_scalar u32 v m k rest p h = rw (read_uint-put_uint 4 v rest eof_in_kv_uvalue p h) refl
parse_scalar i32 v m k rest p h = rw (read_uint-put_uint 4 v rest eof_in_kv_ivalue p h) refl
parse_scalar f32 v m k rest p h = rw (read_uint-put_uint 4 v rest eof_in_kv_fvalue p h) refl
parse_scalar boolean v m k rest p h = rw (read_uint-put_uint 1 v rest eof_in_kv_uvalue p h) refl
parse_scalar u64 v m k rest p h = rw (read_uint-put_uint 8 v rest eof_in_kv_uvalue p h) refl
parse_scalar i64 v m k rest p h = rw (read_uint-put_uint 8 v rest eof_in_kv_ivalue p h) refl
parse_scalar f64 v m k rest p h = rw (read_uint-put_uint 8 v rest eof_in_kv_fvalue p h) refl

skip_scalar :
    (d : ℕ) (t : Scalar) (c : Cursor)
    → skip_value (suc d) (scalar_tag t) c ≡ parsed (seek (size t) c)
unfolding skip_value
skip_scalar d u8 c = refl
skip_scalar d i8 c = refl
skip_scalar d u16 c = refl
skip_scalar d i16 c = refl
skip_scalar d u32 c = refl
skip_scalar d i32 c = refl
skip_scalar d f32 c = refl
skip_scalar d boolean c = refl
skip_scalar d u64 c = refl
skip_scalar d i64 c = refl
skip_scalar d f64 c = refl

skip_uints :
    (d : ℕ) (t : Scalar) (vs : List ℕ) (rest : Bytes) (p : ℕ)
    → skip_each (skip_value (suc d) (scalar_tag t)) (length vs) (at (put_uints (size t) vs rest) p)
      ≡ parsed (at rest (p + size t * length vs))
unfolding skip_each
skip_uints d t [] rest p = ap (λ n. parsed (at rest n)) (omega arith)
skip_uints d t (v ∷ vs) rest p =
    rw (skip_scalar d t, drop-put_uint (size t) v (put_uints (size t) vs rest))
      (skip_uints d t vs rest (p + size t) ∙ ap (λ n. parsed (at rest n)) (omega arith))

skip_text :
    (d : ℕ) (s rest : Bytes) (p : ℕ)
    → IsShort s
    → skip_value (suc d) 8 (at (put_text s rest) p) ≡ parsed (at rest (p + 8 + length s))
unfolding skip_value
skip_text d s rest p h = rw (read_string-put_text s rest p h) refl

skip_texts :
    (d : ℕ) (ss : List Bytes) (rest : Bytes) (p : ℕ)
    → All IsShort ss
    → skip_each (skip_value (suc d) 8) (length ss) (at (put_texts ss rest) p)
      ≡ parsed (at rest (p + texts_size ss))
unfolding skip_each
skip_texts d [] rest p h = ap (λ n. parsed (at rest n)) (omega arith)
skip_texts d (s ∷ ss) rest p (h, hs) =
    rw (skip_text d s (put_texts ss rest) p h)
      (skip_texts d ss rest (p + 8 + length s) hs ∙ ap (λ n. parsed (at rest n)) (omega arith))

array_header :
    (t n : ℕ) (rest : Bytes) (p : ℕ)
    → t < 256 ^ 4
    → n < 256 ^ 8
    → read_array_header (at (put_uint 4 t (put_uint 8 n rest)) p)
      ≡ parsed (t, n, at rest (p + 4 + 8))
unfolding read_array_header
array_header t n rest p ht hn =
    rw
      (
        read_uint-put_uint 4 t (put_uint 8 n rest) eof_in_array_header p ht,
        read_uint-put_uint 8 n rest eof_in_array_header (p + 4) hn,
      )
      refl

pub tag_bound : (t : Scalar) → scalar_tag t < 256 ^ 4
tag_bound u8 = omega arith
tag_bound i8 = omega arith
tag_bound u16 = omega arith
tag_bound i16 = omega arith
tag_bound u32 = omega arith
tag_bound i32 = omega arith
tag_bound f32 = omega arith
tag_bound boolean = omega arith
tag_bound u64 = omega arith
tag_bound i64 = omega arith
tag_bound f64 = omega arith

skip_scalars :
    (d : ℕ) (t : Scalar) (vs : List ℕ) (rest : Bytes) (p : ℕ)
    → length vs < u64_mod
    → skip_value (suc (suc d)) v_array (at (put_value (scalars t vs) rest) p)
      ≡ parsed (at rest (p + value_size (scalars t vs)))
unfolding skip_value
skip_scalars d t vs rest p h =
    rw (array_header (scalar_tag t) (length vs) (put_uints (size t) vs rest) p (tag_bound t) h)
      (skip_uints d t vs rest (p + 4 + 8) ∙ ap (λ n. parsed (at rest n)) (omega arith))

skip_array_texts :
    (d : ℕ) (ss : List Bytes) (rest : Bytes) (p : ℕ)
    → All IsShort ss
    → length ss < u64_mod
    → skip_value (suc (suc d)) v_array (at (put_value (texts ss) rest) p)
      ≡ parsed (at rest (p + value_size (texts ss)))
unfolding skip_value
skip_array_texts d ss rest p hs h =
    rw (array_header 8 (length ss) (put_texts ss rest) p (omega arith) h)
      (skip_texts d ss rest (p + 4 + 8) hs ∙ ap (λ n. parsed (at rest n)) (omega arith))

pub parse_value :
    (v : KvValue) (m : KvMaps) (k rest : Bytes) (p : ℕ)
    → IsValue v
    → parse_kv_value m k (value_tag v) (at (put_value v rest) p)
      ≡ parsed (store_value v k p m, at rest (p + value_size v))
unfolding parse_kv_value
parse_value (scalar t v) m k rest p h = parse_scalar t v m k rest p h
parse_value (text s) m k rest p h = rw (read_string-put_text s rest p h) (ground arith)
parse_value (scalars t vs) m k rest p h = rw (skip_scalars _ t vs rest p h) refl
parse_value (texts ss) m k rest p (hs, h) = rw (skip_array_texts _ ss rest p hs h) refl
