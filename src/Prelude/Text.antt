-- ===== src/Prelude/Text.antt =====
-- `std::string` as the list of its bytes.
use Prim.Native.Nat.{ℕ, suc}
use Prim.Native.Char.{code}
use Prim.Native.String.{String}
use mathlib.Core.Path.{◌≡◌, refl}
use mathlib.Core.Logic.{◌↔◌}
use mathlib.Core.Bool.{Bool, true, false, ◌&&◌}
use mathlib.Core.List.{List, [], ◌∷◌, ◌++◌}
use mathlib.Core.Option.{Option, none, some}
use native.Mathlib.Omega.{arith}
use caedral_notre_engine.Prelude.Tests.{Eq, ◌==◌, if◌then◌else◌}

abbrev pub Bytes : Type 0
Bytes = List ℕ

-- A literal's bytes, for ASCII text.
abbrev pub codes : String → Bytes
codes String.[] = []
codes (String.◌∷◌ c s) = code c ∷ codes s

unfoldable pub bytes_beq : Bytes → Bytes → Bool
bytes_beq [] [] = true
bytes_beq [] (y ∷ ys) = false
bytes_beq (x ∷ xs) [] = false
bytes_beq (x ∷ xs) (y ∷ ys) = (x == y) && bytes_beq xs ys

pub bytes_beq_refl : (xs : Bytes) → bytes_beq xs xs ≡ true
unfolding bytes_beq
bytes_beq_refl [] = refl
bytes_beq_refl (x ∷ xs) = ground (arith, bytes_beq_refl xs)

eq_of_bytes_beq : (xs ys : Bytes) → bytes_beq xs ys ≡ true → xs ≡ ys
unfolding bytes_beq
eq_of_bytes_beq [] [] h = refl
eq_of_bytes_beq [] (y ∷ ys) h = cc
eq_of_bytes_beq (x ∷ xs) [] h = cc
eq_of_bytes_beq (x ∷ xs) (y ∷ ys) h = ground (arith, eq_of_bytes_beq xs ys)

bytes_beq_of_eq : (xs ys : Bytes) → xs ≡ ys → bytes_beq xs ys ≡ true
bytes_beq_of_eq xs ys h = rw h (bytes_beq_refl ys)

pub bytes_beq_iff : (xs ys : Bytes) → (bytes_beq xs ys ≡ true) ↔ (xs ≡ ys)
bytes_beq_iff xs ys = (eq_of_bytes_beq xs ys, bytes_beq_of_eq xs ys)

instance abbrev pub bytes_eq : Eq Bytes
bytes_eq = record { beq = bytes_beq; beq_iff = bytes_beq_iff }

-- `s.compare(0, p.size(), p) == 0`: `p` is a prefix of `s`.
unfoldable pub starts_with : Bytes → Bytes → Bool
starts_with [] s = true
starts_with (p ∷ ps) [] = false
starts_with (p ∷ ps) (c ∷ s) = (p == c) && starts_with ps s

-- `s.find(p)`, counted from the head of `s`; `none` is npos.
unfoldable pub find? : Bytes → Bytes → Option ℕ
find? p [] = if starts_with p [] then some 0 else none
find? p (c ∷ s) = elim (starts_with p (c ∷ s)) [
  | true ↦ some 0
  | false ↦ elim (find? p s) [ none ↦ none | some i ↦ some (suc i) ]
]

pub starts_with-append : (p s : Bytes) → starts_with p (p ++ s) ≡ true
unfolding starts_with
starts_with-append [] s = refl
starts_with-append (x ∷ p) s = ground (arith, starts_with-append p s)
