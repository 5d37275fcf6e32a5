-- ===== src/Gguf/Format.antt =====
-- The layout of a GGUF file as its writers have it, to hold the reader of core/src/gguf/gguf.cpp
-- against: each `put` writes a part in front of the bytes that follow it.
use caedral_notre_engine.Prelude.{
  ℕ, zero, suc, ◌+◌, ◌*◌, ◌/◌, ◌%◌, ◌^◌, ◌≤◌, ◌<◌, ◌≡◌, refl, List, [], ◌∷◌, ◌++◌, Bytes, length,
  take, drop, take_append, drop_append, length-append, arith, ltb, false, All, ◌⊎◌,
}
use caedral_notre_engine.Prelude.Words.{u64_mod}
use caedral_notre_engine.Gguf.Stream.{
  parsed, Cursor, ReadError, read_exact, read_uint, le_value, read_string, max_name_len,
  eof_in_string_length,
}

abbrev pub at : Bytes → ℕ → Cursor
at bs p = record { rest = bs; pos = p }

abbrev pub put_uint : ℕ → ℕ → Bytes → Bytes
put_uint zero v rest = rest
put_uint (suc n) v rest = v % 256 ∷ put_uint n (v / 256) rest

abbrev pub put_text : Bytes → Bytes → Bytes
put_text s rest = put_uint 8 (length s) (s ++ rest)

pub length-put_uint : (n v : ℕ) (rest : Bytes) → length (put_uint n v rest) ≡ n + length rest
length-put_uint zero v rest = omega arith
length-put_uint (suc n) v rest = omega (arith, length-put_uint n (v / 256) rest)

pub drop-put_uint : (n v : ℕ) (rest : Bytes) → drop n (put_uint n v rest) ≡ rest
drop-put_uint zero v rest = refl
drop-put_uint (suc n) v rest = drop-put_uint n (v / 256) rest

le_value-put_uint :
    (n v : ℕ) (rest : Bytes) → v < 256 ^ n → le_value (take n (put_uint n v rest)) ≡ v
unfolding le_value
le_value-put_uint zero v rest h = omega arith
le_value-put_uint (suc n) v rest h = omega (arith, le_value-put_uint n (v / 256) rest (omega arith))

pub read_uint-put_uint :
    (n v : ℕ) (rest : Bytes) (e : ReadError) (p : ℕ)
    → v < 256 ^ n
    → read_uint n e (at (put_uint n v rest) p) ≡ parsed (v, at rest (p + n))
unfolding read_uint read_exact
read_uint-put_uint n v rest e p h =
    ground (arith, length-put_uint n v rest, drop-put_uint n v rest, le_value-put_uint n v rest h)

pub read_exact_append :
    (s rest : Bytes) (e : ReadError) (p : ℕ)
    → read_exact (length s) e (at (s ++ rest) p) ≡ parsed (s, at rest (p + length s))
unfolding read_exact
read_exact_append s rest e p =
    ground (arith, length-append s rest, take_append s rest, drop_append s rest)

pub read_string-put_text :
    (s rest : Bytes) (p : ℕ)
    → length s ≤ max_name_len
    → read_string (at (put_text s rest) p) ≡ parsed (s, at rest (p + 8 + length s))
unfolding read_string
read_string-put_text s rest p h =
    rw (read_uint-put_uint 8 (length s) (s ++ rest) eof_in_string_length p (omega arith), short)
      (read_exact_append s rest _ (p + 8))
  where
    short : ltb max_name_len (length s) ≡ false
    short = ground (arith, h)

-- The types of a value of fixed size, their numbers in a file and their sizes.
pub data Scalar : Type 0 where
  u8 i8 u16 i16 u32 i32 f32 boolean u64 i64 f64 : Scalar

abbrev pub scalar_tag : Scalar → ℕ
scalar_tag u8 = 0
scalar_tag i8 = 1
scalar_tag u16 = 2
scalar_tag i16 = 3
scalar_tag u32 = 4
scalar_tag i32 = 5
scalar_tag f32 = 6
scalar_tag boolean = 7
scalar_tag u64 = 10
scalar_tag i64 = 11
scalar_tag f64 = 12

abbrev pub size : Scalar → ℕ
size u8 = 1
size i8 = 1
size u16 = 2
size i16 = 2
size u32 = 4
size i32 = 4
size f32 = 4
size boolean = 1
size u64 = 8
size i64 = 8
size f64 = 8

pub data KvValue : Type 0 where
  -- A value as its pattern.
  scalar : Scalar → ℕ → KvValue
  text : Bytes → KvValue
  -- An array of scalars of one type, and one of strings.
  scalars : Scalar → List ℕ → KvValue
  texts : List Bytes → KvValue

abbrev pub value_tag : KvValue → ℕ
value_tag (scalar t v) = scalar_tag t
value_tag (text s) = 8
value_tag (scalars t vs) = 9
value_tag (texts ss) = 9

abbrev pub put_uints : ℕ → List ℕ → Bytes → Bytes
put_uints n [] rest = rest
put_uints n (v ∷ vs) rest = put_uint n v (put_uints n vs rest)

abbrev pub put_texts : List Bytes → Bytes → Bytes
put_texts [] rest = rest
put_texts (s ∷ ss) rest = put_text s (put_texts ss rest)

abbrev pub put_value : KvValue → Bytes → Bytes
put_value (scalar t v) rest = put_uint (size t) v rest
put_value (text s) rest = put_text s rest
put_value (scalars t vs) rest =
    put_uint 4 (scalar_tag t) (put_uint 8 (length vs) (put_uints (size t) vs rest))
put_value (texts ss) rest = put_uint 4 8 (put_uint 8 (length ss) (put_texts ss rest))

abbrev pub texts_size : List Bytes → ℕ
texts_size [] = 0
texts_size (s ∷ ss) = 8 + length s + texts_size ss

abbrev pub value_size : KvValue → ℕ
value_size (scalar t v) = size t
value_size (text s) = 8 + length s
value_size (scalars t vs) = 12 + size t * length vs
value_size (texts ss) = 12 + texts_size ss

abbrev pub IsShort : Bytes → Type 0
IsShort s = length s ≤ max_name_len

abbrev pub IsValue : KvValue → Type 0
IsValue (scalar t v) = v < 256 ^ size t
IsValue (text s) = IsShort s
IsValue (scalars t vs) = length vs < u64_mod
IsValue (texts ss) = All IsShort ss × (length ss < u64_mod)

abbrev pub put_kvs : List (Bytes × KvValue) → Bytes → Bytes
put_kvs [] rest = rest
put_kvs ((k, v) ∷ kvs) rest = put_text k (put_uint 4 (value_tag v) (put_value v (put_kvs kvs rest)))

abbrev pub IsEntry : Bytes × KvValue → Type 0
IsEntry (k, v) = IsShort k × IsValue v

-- An entry of the tensor directory.
pub record DirEntry : Type 0 where
  pub name : Bytes
  pub dims : List ℕ
  pub ggml_type : ℕ
  pub rel_offset : ℕ

abbrev pub put_entry : DirEntry → Bytes → Bytes
put_entry t rest = put_text t.name (
    put_uint 4 (length t.dims)
      (put_uints 8 t.dims (put_uint 4 t.ggml_type (put_uint 8 t.rel_offset rest))))

abbrev pub put_dir : List DirEntry → Bytes → Bytes
put_dir [] rest = rest
put_dir (t ∷ ts) rest = put_entry t (put_dir ts rest)

abbrev pub IsDirEntry : DirEntry → Type 0
IsDirEntry t =
    IsShort t.name
    × (length t.dims ≤ 4)
    × All (λ n. n < u64_mod) t.dims
    × (t.ggml_type < 256 ^ 4)
    × (t.rel_offset < u64_mod)

-- A file; `content` is what stands behind the directory.
pub record GgufFile : Type 0 where
  pub version : ℕ
  pub kvs : List (Bytes × KvValue)
  pub dir : List DirEntry
  pub content : Bytes

abbrev pub put_file : GgufFile → Bytes
put_file f = put_uint 4 1179993927 (
    put_uint 4 f.version (
      put_uint 8 (length f.dir)
        (put_uint 8 (length f.kvs) (put_kvs f.kvs (put_dir f.dir f.content)))))

abbrev pub IsGgufFile : GgufFile → Type 0
IsGgufFile f =
    ((f.version ≡ 2) ⊎ (f.version ≡ 3))
    × All IsEntry f.kvs
    × All IsDirEntry f.dir
    × (length f.kvs < u64_mod)
    × (length f.dir < u64_mod)
