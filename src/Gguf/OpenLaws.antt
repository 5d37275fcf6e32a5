-- ===== src/Gguf/OpenLaws.antt =====
-- `GgufReader::open` of core/src/gguf/gguf.cpp on a whole file in the layout of Gguf.Format.
use caedral_notre_engine.Prelude.{
  ℕ, suc, ◌+◌, ◌*◌, ◌^◌, ◌<◌, ◌≡◌, refl, ap, ◌∙◌, List, [], ◌∷◌, Bytes, length, arith, false, not,
  ◌&&◌, All, ltb, ◌==◌, Bool,
}
use caedral_notre_engine.Prelude.Words.{u64_mod}
use caedral_notre_engine.Gguf.Stream.{
  parsed, scalar_size, eof_in_kv_type, v_string, v_array, eof_in_tensor_ndims, eof_in_tensor_dim,
  eof_in_tensor_type, eof_in_tensor_offset, align_up,
}
use caedral_notre_engine.Gguf.Registry.{RawTensor}
use caedral_notre_engine.Gguf.Format.{
  at, put_uint, put_text, read_uint-put_uint, read_string-put_text, Scalar, u8, i8, u16, i16, u32,
  i32, f32, boolean, u64, i64, f64, KvValue, scalar, text, scalars, texts, value_tag, put_value,
  put_kvs, IsEntry, value_size, scalar_tag, put_uints, DirEntry, put_entry, put_dir, IsDirEntry,
  GgufFile,
}
use caedral_notre_engine.Gguf.Reader.{
  KvMaps, no_kvs, parse_kv, parse_kvs, parse_tensor, parse_tensors, read_dims, GgufReader,
  alignment_of,
}
use caedral_notre_engine.Gguf.ReadBack.{store_value, parse_value, tag_bound}

-- What the entries leave in the maps, the first one at `p` in the file.
abbrev pub store_kvs : List (Bytes × KvValue) → ℕ → KvMaps → KvMaps
store_kvs [] p m = m
store_kvs ((k, v) ∷ kvs) p m =
    store_kvs kvs (p + 12 + length k + value_size v) (store_value v k (p + 12 + length k) m)

abbrev pub kvs_size : List (Bytes × KvValue) → ℕ
kvs_size [] = 0
kvs_size ((k, v) ∷ kvs) = 12 + length k + value_size v + kvs_size kvs

value_tag_bound : (v : KvValue) → value_tag v < 256 ^ 4
value_tag_bound (scalar t v) = tag_bound t
value_tag_bound (text s) = omega arith
value_tag_bound (scalars t vs) = omega arith
value_tag_bound (texts ss) = omega arith

abbrev unknown : ℕ → Bool
unknown t = not (t == v_string) && (not (t == v_array) && scalar_size t == 0)

known_scalar : (t : Scalar) → unknown (scalar_tag t) ≡ false
unfolding scalar_size
known_scalar u8 = refl
known_scalar i8 = refl
known_scalar u16 = refl
known_scalar i16 = refl
known_scalar u32 = refl
known_scalar i32 = refl
known_scalar f32 = refl
known_scalar boolean = refl
known_scalar u64 = refl
known_scalar i64 = refl
known_scalar f64 = refl

known_value : (v : KvValue) → unknown (value_tag v) ≡ false
known_value (scalar t v) = known_scalar t
known_value (text s) = refl
known_value (scalars t vs) = refl
known_value (texts ss) = refl

pub parse_kv_reads :
    (k : Bytes) (v : KvValue) (m : KvMaps) (rest : Bytes) (p : ℕ)
    → IsEntry (k, v)
    → parse_kv m (at (put_text k (put_uint 4 (value_tag v) (put_value v rest))) p)
      ≡ parsed (store_value v k (p + 12 + length k) m, at rest (p + 12 + length k + value_size v))
unfolding parse_kv
parse_kv_reads k v m rest p (hk, hv) =
    rw
      (
        read_string-put_text k (put_uint 4 (value_tag v) (put_value v rest)) p hk,
        read_uint-put_uint 4 (value_tag v) (put_value v rest) eof_in_kv_type (p + 8 + length k)
            (value_tag_bound v),
        known_value v,
        parse_value v m k rest (p + 8 + length k + 4) hv,
        shift,
      )
      refl
  where
    shift : p + 8 + length k + 4 ≡ p + 12 + length k
    shift = omega arith

pub parse_kvs_reads :
    (kvs : List (Bytes × KvValue)) (m : KvMaps) (rest : Bytes) (p : ℕ)
    → All IsEntry kvs
    → parse_kvs (length kvs) m (at (put_kvs kvs rest) p)
      ≡ parsed (store_kvs kvs p m, at rest (p + kvs_size kvs))
unfolding parse_kvs
parse_kvs_reads [] m rest p h = ground arith
parse_kvs_reads ((k, v) ∷ kvs) m rest p (h, hs) = rw (parse_kv_reads k v m (put_kvs kvs rest) p h) (
    parse_kvs_reads kvs (store_value v k (p + 12 + length k) m) rest
      (p + 12 + length k + value_size v) hs
    ∙ ap (λ n. parsed (store_kvs ((k, v) ∷ kvs) p m, at rest n)) (omega arith))

read_dims_reads :
    (ns : List ℕ) (rest : Bytes) (p : ℕ)
    → All (λ n. n < u64_mod) ns
    → read_dims (length ns) (at (put_uints 8 ns rest) p) ≡ parsed (ns, at rest (p + 8 * length ns))
unfolding read_dims
read_dims_reads [] rest p h = ground arith
read_dims_reads (n ∷ ns) rest p (h, hs) =
    rw
      (
        read_uint-put_uint 8 n (put_uints 8 ns rest) eof_in_tensor_dim p h,
        read_dims_reads ns rest (p + 8) hs,
        shift,
      )
      refl
  where
    shift : p + 8 + 8 * length ns ≡ p + 8 * suc (length ns)
    shift = omega arith

-- Where the offset of an entry stands, and what the entry takes.
abbrev pub offset_at : DirEntry → ℕ
offset_at t = 16 + length t.name + 8 * length t.dims

abbrev pub entry_size : DirEntry → ℕ
entry_size t = 24 + length t.name + 8 * length t.dims

abbrev pub raw_tensor : DirEntry → ℕ → RawTensor
raw_tensor t p = record {
  name = t.name;
  dims = t.dims;
  ggml_type = t.ggml_type;
  rel_offset = t.rel_offset;
  offset_field_pos = p + offset_at t;
}

abbrev pub raw_tensors : List DirEntry → ℕ → List RawTensor
raw_tensors [] p = []
raw_tensors (t ∷ ts) p = raw_tensor t p ∷ raw_tensors ts (p + entry_size t)

abbrev pub dir_size : List DirEntry → ℕ
dir_size [] = 0
dir_size (t ∷ ts) = entry_size t + dir_size ts

abbrev type_at : DirEntry → ℕ → ℕ
type_at t p = p + 8 + length t.name + 4 + 8 * length t.dims

pub parse_tensor_reads :
    (t : DirEntry) (rest : Bytes) (p : ℕ)
    → IsDirEntry t
    → parse_tensor (at (put_entry t rest) p) ≡ parsed (raw_tensor t p, at rest (p + entry_size t))
unfolding parse_tensor
parse_tensor_reads t rest p (hn, hd, hs, ht, ho) =
    rw
      (
        read_string-put_text t.name _ p hn,
        read_uint-put_uint 4 (length t.dims) _ eof_in_tensor_ndims (p + 8 + length t.name)
            (omega arith),
        few,
        read_dims_reads t.dims _ (p + 8 + length t.name + 4) hs,
        read_uint-put_uint 4 t.ggml_type _ eof_in_tensor_type (type_at t p) ht,
        read_uint-put_uint 8 t.rel_offset rest eof_in_tensor_offset (type_at t p + 4) ho,
        field,
        behind,
      )
      refl
  where
    few : ltb 4 (length t.dims) ≡ false
    few = ground (arith, hd)

    field : type_at t p + 4 ≡ p + offset_at t
    field = omega arith

    behind : p + offset_at t + 8 ≡ p + entry_size t
    behind = omega arith

pub parse_tensors_reads :
    (ts : List DirEntry) (rest : Bytes) (p : ℕ)
    → All IsDirEntry ts
    → parse_tensors (length ts) (at (put_dir ts rest) p)
      ≡ parsed (raw_tensors ts p, at rest (p + dir_size ts))
unfolding parse_tensors
parse_tensors_reads [] rest p h = ground arith
parse_tensors_reads (t ∷ ts) rest p (h, hs) =
    rw
      (
        parse_tensor_reads t (put_dir ts rest) p h,
        parse_tensors_reads ts rest (p + entry_size t) hs,
        shift,
      )
      refl
  where
    shift : p + entry_size t + dir_size ts ≡ p + dir_size (t ∷ ts)
    shift = omega arith

-- Where the directory of a file starts, and where it ends.
abbrev pub dir_start : GgufFile → ℕ
dir_start f = 24 + kvs_size f.kvs

abbrev pub dir_end : GgufFile → ℕ
dir_end f = dir_start f + dir_size f.dir

abbrev pub file_kvs : GgufFile → KvMaps
file_kvs f = store_kvs f.kvs 24 no_kvs

-- The reader that belongs to a file.
abbrev pub reader_of : GgufFile → GgufReader
reader_of f = record {
  version = f.version;
  kvs = file_kvs f;
  kv_end = dir_start f;
  alignment = alignment_of (file_kvs f);
  tensors = raw_tensors f.dir (dir_start f);
  meta_end = dir_end f;
  data_offset = align_up (dir_end f) (alignment_of (file_kvs f));
}
