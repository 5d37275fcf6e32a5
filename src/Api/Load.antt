-- ===== src/Api/Load.antt =====
-- `load_settings` of runtime/cne_api.cpp. `atoi` is the library's; `none` is a null pointer that is read
-- through.
use caedral_notre_engine.Prelude.{
  ℕ, Bool, true, false, not, List, [], ◌∷◌, Option, none, some, Bytes, codes, ◌==◌,
}
use caedral_notre_engine.Config.Env.{env}
use caedral_notre_engine.Config.Knob.{ℤ, pos, negsuc}
use caedral_notre_engine.Api.Auth.{Settings}

abbrev default_settings : Settings
default_settings = record {
  enabled = false;
  rpm_per_user = 60;
  session_max_per_user = 2;
  require_chat_id = false;
}

-- `v[0] != '0'`; the empty string has a zero byte there.
abbrev pub is_on : Bytes → Bool
is_on [] = true
is_on (c ∷ s) = not (c == b'0')

-- A number that is not negative replaces the default.
abbrev pub non_negative : ℕ → ℤ → ℕ
non_negative d (pos n) = n
non_negative d (negsuc n) = d

module _ (getenv : Bytes → Option Bytes) (atoi : Bytes → ℤ) where
  abbrev second_flag : Option Bytes × List (Bytes × Bytes) → Option (Bool × List (Bytes × Bytes))
  second_flag (none, m) = none
  second_flag (some v, m) = some (is_on v, m)

  abbrev first_flag :
      Bytes → Bool → Option Bytes × List (Bytes × Bytes) → Option (Bool × List (Bytes × Bytes))
  first_flag name d (none, m) = some (d, m)
  first_flag name d (some v, m) = second_flag (env getenv m name)

  -- A flag, which is looked up twice where it is set.
  unfoldable pub flag_knob :
      Bytes → Bool → List (Bytes × Bytes) → Option (Bool × List (Bytes × Bytes))
  unfolding env
  flag_knob name d m = first_flag name d (env getenv m name)

  -- A number that is looked up once.
  unfoldable pub count_knob : Bytes → ℕ → List (Bytes × Bytes) → ℕ × List (Bytes × Bytes)
  unfolding env
  count_knob name d m =
      let (a, m') = env getenv m name in
      (elim a [ none ↦ d | some v ↦ non_negative d (atoi v) ], m')

  unfoldable pub load_settings : List (Bytes × Bytes) → Option (Settings × List (Bytes × Bytes))
  unfolding flag_knob count_knob
  load_settings m =
      let d = default_settings in
      elim (flag_knob (codes "API_MODE") d.enabled m) [
        | none ↦ none
        | some (enabled, m₁) ↦
            let (rpm, m₂) = count_knob (codes "API_RPM") d.rpm_per_user m₁ in
            let (most, m₃) = count_knob (codes "SESSION_MAX_PER_USER") d.session_max_per_user m₂ in
            elim (flag_knob (codes "API_REQUIRE_CHAT_ID") d.require_chat_id m₃) [
              | none ↦ none
              | some (chat, m₄) ↦ some (
                record {
                  enabled = enabled;
                  rpm_per_user = rpm;
                  session_max_per_user = most;
                  require_chat_id = chat;
                },
                m₄,
              )
            ]
      ]
