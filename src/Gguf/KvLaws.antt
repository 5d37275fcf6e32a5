-- ===== src/Gguf/KvLaws.antt =====
-- The lookups of core/src/gguf/gguf.cpp behind `parse_kvs`.
use caedral_notre_engine.Prelude.{
  ℕ, ◌+◌, ◌-◌, ◌*◌, ◌^◌, ◌≤◌, ◌<◌, ◌≡◌, ◌⊎◌, refl, inl, inr, some, Bytes, length, arith,
  bytes_beq_refl, bytes_eq,
}
use caedral_notre_engine.Prelude.Assoc.{lookup-assign}
use caedral_notre_engine.Gguf.Stream.{parsed}
use caedral_notre_engine.Gguf.Reader.{KvMaps, parse_kv, kv_i64, put_signed}
use caedral_notre_engine.Gguf.Format.{
  at, put_uint, put_text, Scalar, i8, i16, i32, size, KvValue, scalar, value_tag, IsShort,
}
use caedral_notre_engine.Gguf.ReadBack.{store_value}
use caedral_notre_engine.Gguf.OpenLaws.{parse_kv_reads}

-- The signed types narrower than `int64_t`.
abbrev pub IsNarrow : Scalar → Type 0
IsNarrow t = (t ≡ i8) ⊎ ((t ≡ i16) ⊎ (t ≡ i32))

kv_i64-put_signed : (k : Bytes) (v p : ℕ) (m : KvMaps) → kv_i64 k (put_signed k v p m) ≡ some v
unfolding kv_i64 put_signed
kv_i64-put_signed k v p m = rw (lookup-assign k k v m.kv_i, bytes_beq_refl k) refl

store_narrow :
    (t : Scalar) (k : Bytes) (v p : ℕ) (m : KvMaps)
    → IsNarrow t
    → kv_i64 k (store_value (scalar t v) k p m) ≡ some v
store_narrow t k v p m (inl e) = rw e (kv_i64-put_signed k v p m)
store_narrow t k v p m (inr (inl e)) = rw e (kv_i64-put_signed k v p m)
store_narrow t k v p m (inr (inr e)) = rw e (kv_i64-put_signed k v p m)

narrow_bound : (t : Scalar) → IsNarrow t → 256 ^ size t ≤ 256 ^ 4
narrow_bound t (inl e) = rw e (omega arith)
narrow_bound t (inr (inl e)) = rw e (omega arith)
narrow_bound t (inr (inr e)) = rw e (omega arith)

-- The entry of a key and a negative number, by its two's complement.
abbrev pub put_negative : Scalar → Bytes → ℕ → Bytes → Bytes
put_negative t k n rest =
    put_text k (put_uint 4 (value_tag (scalar t 0)) (put_uint (size t) (256 ^ size t - n) rest))

-- A negative INT8, INT16 or INT32 value `-n` is read without its sign: behind the round of
-- `parse_kvs` for a key of at most 2^20 bytes, `kv_i64` answers the non-negative 256^size - n.
pub kv_i64_loses_sign :
    (t : Scalar) (k : Bytes) (n : ℕ) (m : KvMaps) (rest : Bytes) (p : ℕ)
    → IsNarrow t
    → IsShort k
    → 0 < n
    → 2 * n ≤ 256 ^ size t
    → (o : KvMaps) × (q : ℕ) × (parse_kv m (at (put_negative t k n rest) p) ≡ parsed (o, at rest q))
      × (kv_i64 k o ≡ some (256 ^ size t - n))
      × (256 ^ size t - n < 2 ^ 63)
kv_i64_loses_sign t k n m rest p ht hk h0 hn = (
  store_value v k (p + 12 + length k) m,
  p + 12 + length k + size t,
  parse_kv_reads k v m rest p (hk, omega arith),
  store_narrow t k (256 ^ size t - n) (p + 12 + length k) m ht,
  omega (arith, narrow_bound t ht),
)
  where
    v : KvValue
    v = scalar t (256 ^ size t - n)
