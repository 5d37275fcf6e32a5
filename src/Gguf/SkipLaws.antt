-- ===== src/Gguf/SkipLaws.antt =====
-- The reads of core/src/gguf/gguf.cpp end on every file: the arrays in arrays that `skip_value`
-- goes into are each twelve bytes further in the file.
use caedral_notre_engine.Prelude.{
  ℕ, zero, suc, ◌+◌, ◌≤◌, ◌<◌, ◌≡◌, refl, length, arith, true, false, Bool, ltb, leb, ◌==◌,
  if◌then◌else◌, length-drop,
}
use caedral_notre_engine.Gguf.Stream.{
  Parsed, parsed, failed, threw, out_of_fuel, ◌>>=◌, or_fail, Cursor, ReadError, read_exact,
  read_uint, read_string, read_array_header, skip_each, skip_value, scalar_size, v_string, v_array,
  eof_in_array_header, max_name_len, eof_in_string_length, eof_in_string_body,
}

-- The outcome is no lack of fuel, and an answer has the property.
abbrev pub Ends {ℓ} : {A : Type ℓ} → (A → Type 0) → Parsed A → Type 0
Ends P (parsed a) = P a
Ends P (failed e) = Unit {0}
Ends P threw = Unit {0}
Ends P out_of_fuel = ⊥

pub Ends-bind {ℓ κ} :
    {A : Type ℓ} {B : Type κ} (P : A → Type 0) (Q : B → Type 0) (r : Parsed A) (f : A → Parsed B)
    → Ends P r
    → ((a : A) → P a → Ends Q (f a))
    → Ends Q (r >>= f)
Ends-bind P Q (parsed a) f w h = h a w
Ends-bind P Q (failed e) f w h = tt
Ends-bind P Q threw f w h = tt
Ends-bind P Q out_of_fuel f w h = absurd w

pub Ends-map {ℓ} :
    {A : Type ℓ} (P Q : A → Type 0) (r : Parsed A) → Ends P r → ((a : A) → P a → Q a) → Ends Q r
Ends-map P Q (parsed a) w h = h a w
Ends-map P Q (failed e) w h = tt
Ends-map P Q threw w h = tt
Ends-map P Q out_of_fuel w h = w

pub Ends-or_fail {ℓ} :
    {A : Type ℓ} (P : A → Type 0) (r : Parsed A) (e : ReadError) → Ends P r → Ends P (or_fail r e)
Ends-or_fail P (parsed a) e w = w
Ends-or_fail P (failed d) e w = tt
Ends-or_fail P threw e w = tt
Ends-or_fail P out_of_fuel e w = w

-- A test that ends the read, and the branch behind it.
pub Ends-if {ℓ} :
    {A : Type ℓ} (P : A → Type 0) (b : Bool) (r s : Parsed A)
    → (b ≡ true → Ends P r)
    → (b ≡ false → Ends P s)
    → Ends P (if b then r else s)
Ends-if P true r s h k = h refl
Ends-if P false r s h k = k refl

-- `n` bytes of `c` are read.
abbrev pub Reads {ℓ} : {A : Type ℓ} → ℕ → Cursor → A × Cursor → Type 0
Reads n c (a, d) = (length d.rest + n ≡ length c.rest) × (d.pos ≡ c.pos + n)

-- The cursor only goes on.
abbrev pub Onward : Cursor → Cursor → Type 0
Onward c d = (length d.rest ≤ length c.rest) × (c.pos ≤ d.pos)

abbrev pub Onwards {ℓ} : {A : Type ℓ} → Cursor → A × Cursor → Type 0
Onwards c (a, d) = Onward c d

pub read_exact-Ends : (n : ℕ) (e : ReadError) (c : Cursor) → Ends (Reads n c) (read_exact n e c)
unfolding read_exact
read_exact-Ends n e c =
    Ends-if (Reads n c) (leb n (length c.rest)) _ _
      (λ y. (ground (arith, y, length-drop n c.rest), refl)) (λ x. tt)

pub read_uint-Ends : (n : ℕ) (e : ReadError) (c : Cursor) → Ends (Reads n c) (read_uint n e c)
unfolding read_uint
read_uint-Ends n e c =
    Ends-bind (Reads n c) (Reads n c) (read_exact n e c) _ (read_exact-Ends n e c) (λ a h. h)

pub read_string-Ends : (c : Cursor) → Ends (Onwards c) (read_string c)
unfolding read_string
read_string-Ends c =
    Ends-bind (Reads 8 c) (Onwards c) (read_uint 8 eof_in_string_length c) _
      (read_uint-Ends 8 eof_in_string_length c)
      (λ a h.
        Ends-if (Onwards c) (ltb max_name_len a.0) _ _ (λ y. tt)
          (λ x.
            Ends-map (Reads a.0 a.1) (Onwards c) (read_exact a.0 eof_in_string_body a.1)
              (read_exact-Ends a.0 eof_in_string_body a.1) (λ b k. (omega arith, omega arith))))

-- The header of an array takes twelve bytes.
abbrev Header : Cursor → ℕ × ℕ × Cursor → Type 0
Header c (elem, count, d) = (length d.rest + 12 ≡ length c.rest) × (d.pos ≡ c.pos + 12)

read_array_header-Ends : (c : Cursor) → Ends (Header c) (read_array_header c)
unfolding read_array_header
read_array_header-Ends c =
    Ends-bind (Reads 4 c) (Header c) (read_uint 4 eof_in_array_header c) _
      (read_uint-Ends 4 eof_in_array_header c)
      (λ a h.
        Ends-bind (Reads 8 a.1) (Header c) (read_uint 8 eof_in_array_header a.1) _
          (read_uint-Ends 8 eof_in_array_header a.1) (λ b k. (omega arith, omega arith)))

skip_each-Ends :
    (skip : Cursor → Parsed Cursor) (k : ℕ)
    → ((c : Cursor) → length c.rest < k → Ends (Onward c) (skip c))
    → (n : ℕ) (c : Cursor) → length c.rest < k
    → Ends (Onward c) (skip_each skip n c)
unfolding skip_each
skip_each-Ends skip k h zero c b = (omega arith, omega arith)
skip_each-Ends skip k h (suc n) c b = Ends-bind (Onward c) (Onward c) (skip c) _ (h c b) (λ d g.
    Ends-map (Onward d) (Onward c) (skip_each skip n d) (skip_each-Ends skip k h n d (omega arith))
      (λ e i. (omega arith, omega arith)))

skip_array :
    (depth elem count : ℕ) (d c : Cursor)
    → Header c (elem, count, d)
    → ((e : Cursor) → length e.rest < depth → Ends (Onward e) (skip_value depth elem e))
    → length d.rest < depth
    → Ends (Onward c) (skip_each (skip_value depth elem) count d)
skip_array depth elem count d c g h b =
    Ends-map (Onward d) (Onward c) (skip_each (skip_value depth elem) count d)
      (skip_each-Ends (skip_value depth elem) depth h count d b) (λ e i. (omega arith, omega arith))

pub skip_value-Ends :
    (depth t : ℕ) (c : Cursor) → length c.rest < depth → Ends (Onward c) (skip_value depth t c)
unfolding skip_value
skip_value-Ends zero t c h = absurd (omega arith)
skip_value-Ends (suc depth) t c h =
    Ends-if (Onward c) (t == v_string) _ _
      (λ y. Ends-bind (Onwards c) (Onward c) (read_string c) _ (read_string-Ends c) (λ a k. k))
      (λ x.
        Ends-if (Onward c) (t == v_array) _ _
          (λ y.
            Ends-bind (Header c) (Onward c) (read_array_header c) _ (read_array_header-Ends c)
              (λ a g.
                skip_array depth a.0 a.1 a.2 c g (skip_value-Ends depth a.0) (omega (arith, h))))
          (λ z.
            Ends-if (Onward c) (scalar_size t == 0) _ _ (λ y. tt)
              (λ w. (omega (arith, length-drop (scalar_size t) c.rest), omega arith))))
