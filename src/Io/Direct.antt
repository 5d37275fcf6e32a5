-- ===== src/Io/Direct.antt =====
-- `DirectFile` of core/src/features/streaming/direct_io.cpp. The system's `pread` is a parameter.
use caedral_notre_engine.Prelude.{
  ℕ, zero, suc, ◌+◌, ◌-◌, ◌%◌, Bool, true, false, not, ◌||◌, ltb, ◌==◌, if◌then◌else◌,
}
use caedral_notre_engine.Cache.Defs.{write_range}

-- What a call of `pread` does: it is interrupted (EINTR), fails in another way, or gives a number of
-- bytes, by index.
pub data Pread : Type 0 where
  interrupted : Pread
  failed : Pread
  got : ℕ → (ℕ → ℕ) → Pread

-- `pread` by the number of the call, the bytes asked for and the offset.
abbrev pub Preads : Type 0
Preads = ℕ → ℕ → ℕ → Pread

abbrev pub k_align : ℕ
k_align = 4096

unfoldable pub aligned : ℕ → Bool
aligned v = v % k_align == 0

-- How a read ends: with the memory after it. `unfinished` is a loop out of fuel.
pub data ReadEnd : Type 0 where
  served : (ℕ → ℕ) → ReadEnd
  rejected : (ℕ → ℕ) → ReadEnd
  unfinished : ReadEnd

-- The loop, with the number of the next call and the bytes that are there.
unfoldable pub read_loop : Preads → ℕ → ℕ → ℕ → ℕ → ℕ → ℕ → (ℕ → ℕ) → ReadEnd
unfolding write_range
read_loop pread zero call dest bytes offset done_bytes memory = unfinished
read_loop pread (suc fuel) call dest bytes offset done_bytes memory = elim (ltb done_bytes bytes) [
  | false ↦ served memory
  | true ↦ elim (pread call (bytes - done_bytes) (offset + done_bytes)) [
    | interrupted ↦ read_loop pread fuel (suc call) dest bytes offset done_bytes memory
    | failed ↦ rejected memory
    | got zero content ↦ rejected memory
    | got (suc n) content ↦
        read_loop pread fuel (suc call) dest bytes offset (done_bytes + suc n)
          (write_range memory (dest + done_bytes) (suc n) content)
  ]
]

-- `read_aligned`, on an open or a closed file; a destination of 0 is the null pointer.
unfoldable pub read_aligned : Preads → ℕ → Bool → ℕ → ℕ → ℕ → (ℕ → ℕ) → ReadEnd
unfolding read_loop aligned
read_aligned pread fuel is_open dest bytes offset memory =
    if not is_open || dest == 0
    then rejected memory
    else if not (aligned offset) || (not (aligned bytes) || not (aligned dest))
    then rejected memory
    else read_loop pread fuel 0 dest bytes offset 0 memory
