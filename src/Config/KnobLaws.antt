-- ===== src/Config/KnobLaws.antt =====
-- When the two reads of a knob in runtime/cne_runtime.cpp agree.
use caedral_notre_engine.Prelude.{
  ◌≡◌, ◌≢◌, refl, ap, ◌∙◌, List, [], Option, none, some, Bytes, Option-cases, inl, inr, bytes_eq,
}
use caedral_notre_engine.Prelude.Assoc.{lookup}
use caedral_notre_engine.Config.Env.{cne_key, env}
use caedral_notre_engine.Config.EnvLaws.{Agrees, resolve, env-resolve, env_empty}
use caedral_notre_engine.Config.Knob.{ℤ, int_knob, first_read, second_read}

module _ (getenv : Bytes → Option Bytes) (atoi : Bytes → ℤ) where
  by_parts :
      (r : Option Bytes × List (Bytes × Bytes)) (a : Option Bytes) (m : List (Bytes × Bytes))
      → r.0 ≡ a
      → r.1 ≡ m
      → r ≡ (a, m)
  by_parts (a, m) b n e f = rw (e, f) refl

  -- A knob that is read with two calls of `env` gives a number or its default, and never a null
  -- pointer to `atoi`, unless it is set to the empty string.
  pub int_knob_total :
      (name : Bytes) (m : List (Bytes × Bytes))
      → Agrees getenv m
      → getenv (cne_key name) ≢ some []
      → (v : Option ℤ) × (m' : List (Bytes × Bytes)) × (int_knob getenv atoi name m ≡ some (v, m'))
        × Agrees getenv m'
  unfolding int_knob
  int_knob_total name m h full =
      let (first, agrees) = env-resolve getenv m name h full in
      let m₁ = (env getenv m name).1 in
      let (second, agrees') = env-resolve getenv m₁ name agrees full in
      elim (Option-cases (resolve getenv name)) [
        | inl e ↦ (
          none,
          m₁,
          ap (first_read getenv atoi name) (by_parts (env getenv m name) none m₁ (first ∙ e) refl),
          agrees,
        )
        | inr (v, e) ↦ (
          some (atoi v),
          (env getenv m₁ name).1,
          ap (first_read getenv atoi name)
                (by_parts (env getenv m name) (some v) m₁ (first ∙ e) refl)
              ∙ ap (second_read getenv atoi)
                  (by_parts (env getenv m₁ name) (some v) (env getenv m₁ name).1 (second ∙ e) refl),
          agrees',
        )
      ]

  -- A knob that is set to the empty string and was not looked up before gives `atoi` a null pointer.
  pub int_knob_crashes :
      (name : Bytes) (m : List (Bytes × Bytes))
      → lookup (cne_key name) m ≡ none
      → getenv (cne_key name) ≡ some []
      → int_knob getenv atoi name m ≡ none
  unfolding int_knob
  int_knob_crashes name m e g =
      let (first, second) = env_empty getenv m name e g in
      let m₁ = (env getenv m name).1 in
      ap (first_read getenv atoi name) (by_parts (env getenv m name) (some []) m₁ first refl)
      ∙ ap (second_read getenv atoi)
          (by_parts (env getenv m₁ name) none (env getenv m₁ name).1 second refl)
