-- ===== src/Config/Knob.antt =====
-- The ways in which runtime/cne_runtime.cpp reads a knob through `env`. `atoi` is the library's; a
-- result of `none` is its call with a null pointer.
use caedral_notre_engine.Prelude.{
  ℕ, Bool, true, false, List, Option, none, some, Bytes, ltb, if◌then◌else◌,
}
use caedral_notre_engine.Config.Env.{env}

-- `int`: `negsuc n` is -(n + 1).
pub data ℤ : Type 0 where
  pos : ℕ → ℤ
  negsuc : ℕ → ℤ

-- The larger of a number and a bound that is not negative: `if (x < b) x = b`.
abbrev pub at_least : ℕ → ℤ → ℕ
at_least b (pos n) = if ltb n b then b else n
at_least b (negsuc n) = b

abbrev pub or_else : Option ℤ → ℤ → ℤ
or_else none d = d
or_else (some x) d = x

module _ (getenv : Bytes → Option Bytes) (atoi : Bytes → ℤ) where
  -- Whether the pointer is not null.
  unfoldable pub is_knob : Bytes → List (Bytes × Bytes) → Bool × List (Bytes × Bytes)
  unfolding env
  is_knob name m = let (a, m') = env getenv m name in (elim a [ none ↦ false | some v ↦ true ], m')

  abbrev pub second_read :
      Option Bytes × List (Bytes × Bytes) → Option (Option ℤ × List (Bytes × Bytes))
  second_read (none, m) = none
  second_read (some v, m) = some (some (atoi v), m)

  -- `env(name) ? atoi(env(name)) : d`; the inner `none` is the default.
  abbrev pub first_read :
      Bytes → Option Bytes × List (Bytes × Bytes) → Option (Option ℤ × List (Bytes × Bytes))
  first_read name (none, m) = some (none, m)
  first_read name (some v, m) = second_read (env getenv m name)

  unfoldable pub int_knob : Bytes → List (Bytes × Bytes) → Option (Option ℤ × List (Bytes × Bytes))
  unfolding env
  int_knob name m = first_read name (env getenv m name)
