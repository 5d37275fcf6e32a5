-- ===== src/Config/Env.antt =====
-- `env` of core/src/config.cpp. The environment of the process, `getenv`, is a parameter; the static
-- map of resolved values is the state.
use caedral_notre_engine.Prelude.{List, [], ◌∷◌, ◌++◌, Option, none, some, Bytes, codes, bytes_eq}
use caedral_notre_engine.Prelude.Assoc.{lookup, assign}

abbrev pub cne_key : Bytes → Bytes
cne_key name = codes "CNE_" ++ name

abbrev pub legacy_key : Bytes → Bytes
legacy_key name = codes "SOE_" ++ name

-- `it->second.empty() ? nullptr : it->second.c_str()`.
abbrev pub resolved_answer : Bytes → Option Bytes
resolved_answer [] = none
resolved_answer (c ∷ v) = some (c ∷ v)

-- The answer, `none` for a null pointer, and the map behind the call.
unfoldable pub env :
    (Bytes → Option Bytes) → List (Bytes × Bytes) → Bytes → Option Bytes × List (Bytes × Bytes)
unfolding lookup assign
env getenv resolved name = elim (lookup (cne_key name) resolved) [
  | some v ↦ (resolved_answer v, resolved)
  | none ↦ elim (getenv (cne_key name)) [
    | some v ↦ (some v, assign (cne_key name) v resolved)
    | none ↦ elim (getenv (legacy_key name)) [
      | none ↦ (none, resolved)
      | some v ↦ (some v, assign (legacy_key name) v resolved)
    ]
  ]
]
