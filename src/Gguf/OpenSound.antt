-- ===== src/Gguf/OpenSound.antt =====
-- What holds of a reader that `GgufReader::open` of core/src/gguf/gguf.cpp gives, whatever the file.
use caedral_notre_engine.Prelude.{
  ℕ, zero, suc, ◌+◌, ◌-◌, ◌*◌, ◌/◌, ◌%◌, ◌≤◌, ◌<◌, ◌≡◌, ◌⊎◌, refl, List, Bytes, length, arith,
  false, not, ◌&&◌, ◌||◌, ltb, ◌==◌, if◌then◌else◌, All,
}
use native.Mathlib.Nat.{div-mul-le_self, lt-div-mul-add, mul-mod_left}
use caedral_notre_engine.Prelude.Words.{u64_mod, add64, sub64, mul64}
use caedral_notre_engine.Gguf.Stream.{
  Parsed, failed, ◌>>=◌, or_fail, Cursor, read_uint, read_string, skip_value, scalar_size,
  is_unsigned, is_signed, v_string, v_array, align_up, eof_in_kv_uvalue, eof_in_kv_ivalue,
  eof_in_kv_fvalue, eof_in_kv_key, eof_in_kv_type, eof_in_tensor_dim, eof_in_tensor_name,
  eof_in_tensor_ndims, eof_in_tensor_type, eof_in_tensor_offset, eof_at_magic, eof_at_version,
  eof_at_counts, tensor_ndims_gt_4, threw,
}
use caedral_notre_engine.Gguf.Registry.{RawTensor}
use caedral_notre_engine.Gguf.Reader.{
  KvMaps, no_kvs, parse_kv_value, parse_kv, parse_kvs, read_dims, parse_tensor, parse_tensors,
  parse_tensor_dir, GgufReader, gguf_magic, alignment_of, bad_alignment, open_body, open_gguf,
}
use caedral_notre_engine.Gguf.SkipLaws.{
  Ends, Ends-bind, Ends-map, Ends-or_fail, Ends-if, Reads, Onward, Onwards, read_uint-Ends,
  read_string-Ends, skip_value-Ends,
}

-- A read of `n` bytes and an answer made of it.
uint_step {ℓ} :
    {B : Type ℓ} (n : ℕ) (c : Cursor) (e : _) (f : ℕ → B)
    → Ends (Onwards c) (read_uint n e c >>= λ (v, d). Parsed.parsed (f v, d))
uint_step n c e f =
    Ends-bind (Reads n c) (Onwards c) (read_uint n e c) _ (read_uint-Ends n e c)
      (λ a h. (omega arith, omega arith))

parse_kv_value-Ends :
    (m : KvMaps) (k : Bytes) (t : ℕ) (c : Cursor) → Ends (Onwards c) (parse_kv_value m k t c)
unfolding parse_kv_value
parse_kv_value-Ends m k t c =
    Ends-if (Onwards c) (is_unsigned t) _ _ (λ y. uint_step (scalar_size t) c eof_in_kv_uvalue _)
      (λ x.
        Ends-if (Onwards c) (is_signed t) _ _ (λ y. uint_step (scalar_size t) c eof_in_kv_ivalue _)
          (λ z.
            Ends-if (Onwards c) (t == 6) _ _ (λ y. uint_step 4 c eof_in_kv_fvalue _)
              (λ w.
                Ends-if (Onwards c) (t == 12) _ _ (λ y. uint_step 8 c eof_in_kv_fvalue _)
                  (λ u.
                    Ends-if (Onwards c) (t == v_string) _ _
                      (λ y.
                        Ends-bind (Onwards c) (Onwards c) (read_string c) _ (read_string-Ends c)
                          (λ a h. h))
                      (λ r.
                        Ends-bind (Onward c) (Onwards c)
                          (skip_value (suc (suc (length c.rest))) v_array c) _
                          (skip_value-Ends (suc (suc (length c.rest))) v_array c (omega arith))
                          (λ a h. h))))))

parse_kv-Ends : (m : KvMaps) (c : Cursor) → Ends (Onwards c) (parse_kv m c)
unfolding parse_kv
parse_kv-Ends m c =
    Ends-bind (Onwards c) (Onwards c) (or_fail (read_string c) eof_in_kv_key) _
      (Ends-or_fail (Onwards c) (read_string c) eof_in_kv_key (read_string-Ends c))
      (λ a h.
        Ends-bind (Reads 4 a.1) (Onwards c) (read_uint 4 eof_in_kv_type a.1) _
          (read_uint-Ends 4 eof_in_kv_type a.1)
          (λ b g.
            Ends-if (Onwards c)
              (not (b.0 == v_string) && (not (b.0 == v_array) && scalar_size b.0 == 0)) _ _
              (λ y. tt)
              (λ x.
                Ends-map (Onwards b.1) (Onwards c) (parse_kv_value m a.0 b.0 b.1)
                  (parse_kv_value-Ends m a.0 b.0 b.1) (λ o i. (omega arith, omega arith)))))

parse_kvs-Ends : (n : ℕ) (m : KvMaps) (c : Cursor) → Ends (Onwards c) (parse_kvs n m c)
unfolding parse_kvs
parse_kvs-Ends zero m c = (omega arith, omega arith)
parse_kvs-Ends (suc n) m c =
    Ends-bind (Onwards c) (Onwards c) (parse_kv m c) _ (parse_kv-Ends m c) (λ a h.
      Ends-map (Onwards a.1) (Onwards c) (parse_kvs n a.0 a.1) (parse_kvs-Ends n a.0 a.1)
        (λ o i. (omega arith, omega arith)))

abbrev Dims : ℕ → Cursor → List ℕ × Cursor → Type 0
Dims n c (ds, d) = (length ds ≡ n) × Onward c d

read_dims-Ends : (n : ℕ) (c : Cursor) → Ends (Dims n c) (read_dims n c)
unfolding read_dims
read_dims-Ends zero c = (refl, (omega arith, omega arith))
read_dims-Ends (suc n) c =
    Ends-bind (Reads 8 c) (Dims (suc n) c) (read_uint 8 eof_in_tensor_dim c) _
      (read_uint-Ends 8 eof_in_tensor_dim c)
      (λ a h.
        Ends-bind (Dims n a.1) (Dims (suc n) c) (read_dims n a.1) _ (read_dims-Ends n a.1)
          (λ b i. (omega arith, (omega arith, omega arith))))

abbrev pub FewDims : RawTensor → Type 0
FewDims t = length t.dims ≤ 4

abbrev TensorRead : Cursor → RawTensor × Cursor → Type 0
TensorRead c (t, d) = FewDims t × Onward c d

parse_tensor-Ends : (c : Cursor) → Ends (TensorRead c) (parse_tensor c)
unfolding parse_tensor
parse_tensor-Ends c =
    Ends-bind (Onwards c) (TensorRead c) (or_fail (read_string c) eof_in_tensor_name) _
      (Ends-or_fail (Onwards c) (read_string c) eof_in_tensor_name (read_string-Ends c))
      (λ a h.
        Ends-bind (Reads 4 a.1) (TensorRead c) (read_uint 4 eof_in_tensor_ndims a.1) _
          (read_uint-Ends 4 eof_in_tensor_ndims a.1)
          (λ b g. Ends-bind (Few b.1) (TensorRead c) _ _ (few_dims b.0 b.1) (λ d i.
            Ends-bind (Reads 4 d.1) (TensorRead c) (read_uint 4 eof_in_tensor_type d.1) _
              (read_uint-Ends 4 eof_in_tensor_type d.1)
              (λ e j.
                Ends-bind (Reads 8 e.1) (TensorRead c) (read_uint 8 eof_in_tensor_offset e.1) _
                  (read_uint-Ends 8 eof_in_tensor_offset e.1)
                  (λ f k. (i.0, (omega arith, omega arith)))))))
  where
    Few : Cursor → List ℕ × Cursor → Type 0
    Few d (ds, e) = (length ds ≤ 4) × Onward d e

    few_dims :
        (n : ℕ) (d : Cursor)
        → Ends (Few d) (if ltb 4 n then failed tensor_ndims_gt_4 else read_dims n d)
    few_dims n d =
        Ends-if (Few d) (ltb 4 n) _ _ (λ y. tt)
          (λ x.
            Ends-map (Dims n d) (Few d) (read_dims n d) (read_dims-Ends n d)
              (λ o i. (ground (arith, x, i.0), i.1)))

abbrev Tensors : ℕ → Cursor → List RawTensor × Cursor → Type 0
Tensors n c (ts, d) = (length ts ≡ n) × All FewDims ts × Onward c d

parse_tensors-Ends : (n : ℕ) (c : Cursor) → Ends (Tensors n c) (parse_tensors n c)
unfolding parse_tensors
parse_tensors-Ends zero c = (refl, tt, (omega arith, omega arith))
parse_tensors-Ends (suc n) c =
    Ends-bind (TensorRead c) (Tensors (suc n) c) (parse_tensor c) _ (parse_tensor-Ends c) (λ a h.
      Ends-bind (Tensors n a.1) (Tensors (suc n) c) (parse_tensors n a.1) _
        (parse_tensors-Ends n a.1) (λ b i. (omega arith, (h.0, i.1), (omega arith, omega arith))))

-- A reader that `open` may give.
abbrev pub IsOpen : ℕ → GgufReader → Type 0
IsOpen capacity r =
    ((r.version ≡ 2) ⊎ (r.version ≡ 3))
    × (bad_alignment r.alignment ≡ false)
    × (length r.tensors ≤ capacity)
    × All FewDims r.tensors
    × (24 ≤ r.kv_end)
    × (r.kv_end ≤ r.meta_end)
    × (r.data_offset ≡ align_up r.meta_end r.alignment)

open_body-Ends :
    (capacity version n_tensors n_kv : ℕ) (c : Cursor)
    → (version ≡ 2) ⊎ (version ≡ 3)
    → 24 ≤ c.pos
    → Ends (IsOpen capacity) (open_body capacity version n_tensors n_kv c)
unfolding open_body parse_tensor_dir
open_body-Ends capacity version n_tensors n_kv c hv hp =
    Ends-bind (Onwards c) (IsOpen capacity) (parse_kvs n_kv no_kvs c) _
      (parse_kvs-Ends n_kv no_kvs c)
      (λ a h.
        Ends-if (IsOpen capacity) (bad_alignment (alignment_of a.0)) _ _ (λ y. tt)
          (λ x.
            Ends-bind (Room a.1) (IsOpen capacity) _ _ (dir a.1)
              (λ b i. (hv, x, i.0, i.1, omega arith, i.2.1, refl))))
  where
    Room : Cursor → List RawTensor × Cursor → Type 0
    Room d (ts, e) = (length ts ≤ capacity) × All FewDims ts × Onward d e

    dir :
        (d : Cursor)
        → Ends (Room d) (if ltb capacity n_tensors then threw else parse_tensors n_tensors d)
    dir d =
        Ends-if (Room d) (ltb capacity n_tensors) _ _ (λ y. tt)
          (λ x.
            Ends-map (Tensors n_tensors d) (Room d) (parse_tensors n_tensors d)
              (parse_tensors-Ends n_tensors d) (λ o i. (ground (arith, x, i.0), i.1, i.2)))

-- `open` ends on every file, however its arrays are nested. A reader it gives has version 2 or 3, an
-- alignment that passes the check, no more tensors than memory holds, each of at most four
-- dimensions, a key-value section behind the header that ends before the directory does, and its data
-- at the end of the directory, aligned.
pub open_gguf_total :
    (capacity : ℕ) (file : Bytes) → Ends (IsOpen capacity) (open_gguf capacity file)
unfolding open_gguf
open_gguf_total capacity file =
    Ends-bind (Reads 4 c) (IsOpen capacity) (read_uint 4 eof_at_magic c) _
      (read_uint-Ends 4 eof_at_magic c)
      (λ a h.
        Ends-if (IsOpen capacity) (not (a.0 == gguf_magic)) _ _ (λ y. tt)
          (λ x.
            Ends-bind (Reads 4 a.1) (IsOpen capacity) (read_uint 4 eof_at_version a.1) _
              (read_uint-Ends 4 eof_at_version a.1)
              (λ b g.
                Ends-if (IsOpen capacity) (ltb b.0 2 || ltb 3 b.0) _ _ (λ y. tt)
                  (λ z.
                    Ends-bind (Reads 8 b.1) (IsOpen capacity) (read_uint 8 eof_at_counts b.1) _
                      (read_uint-Ends 8 eof_at_counts b.1)
                      (λ d i.
                        Ends-bind (Reads 8 d.1) (IsOpen capacity) (read_uint 8 eof_at_counts d.1) _
                          (read_uint-Ends 8 eof_at_counts d.1)
                          (λ e j.
                            open_body-Ends capacity b.0 d.0 e.0 e.1 (two_or_three b.0 z)
                              (omega arith)))))))
  where
    c : Cursor
    c = record { rest = file; pos = 0 }

    two_or_three : (v : ℕ) → (ltb v 2 || ltb 3 v) ≡ false → (v ≡ 2) ⊎ (v ≡ 3)
    two_or_three v h = ground arith

word_sum : (v a : ℕ) → 0 < a → v + a ≤ u64_mod → v < u64_mod → sub64 (add64 v a) 1 ≡ v + a - 1
unfolding add64 sub64
word_sum v a ha hv hu = omega arith

align_up_eq : (v a : ℕ) → 0 < a → v + a ≤ u64_mod → v < u64_mod → align_up v a ≡ (v + a - 1) / a * a
unfolding align_up mul64
align_up_eq v a ha hv hu =
    rw (nonzero, word_sum v a ha hv hu) (omega (arith, div-mul-le_self (v + a - 1) a))
  where
    nonzero : (a == 0) ≡ false
    nonzero = ground (arith, ha)

-- With no overflow, `align_up` gives the first multiple of a non-zero alignment from a number on.
pub align_up_first :
    (v a : ℕ)
    → 0 < a
    → v + a ≤ u64_mod
    → v < u64_mod
    → (v ≤ align_up v a) × (align_up v a < v + a) × (align_up v a % a ≡ 0)
align_up_first v a ha hv hu = rw (align_up_eq v a ha hv hu) (
  omega (arith, lt-div-mul-add {a = v + a - 1} ha),
  omega (arith, div-mul-le_self (v + a - 1) a),
  mul-mod_left _ _,
)
