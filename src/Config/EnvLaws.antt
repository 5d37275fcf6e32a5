-- ===== src/Config/EnvLaws.antt =====
-- What `env` of core/src/config.cpp answers, whatever was looked up before.
use caedral_notre_engine.Prelude.{
  ◌≡◌, ◌≢◌, refl, sym, ◌∙◌, ◌⊎◌, Bool-cases, Option-cases, inl, inr, List, [], ◌∷◌, Option, none,
  some, Bytes, bytes_eq, bytes_beq, bytes_beq_refl, bytes_beq_iff,
}
use caedral_notre_engine.Prelude.Assoc.{lookup, assign, lookup-assign}
use caedral_notre_engine.Config.Env.{cne_key, legacy_key, env}

-- The map holds values of the environment.
abbrev pub Agrees : (Bytes → Option Bytes) → List (Bytes × Bytes) → Type 0
Agrees getenv resolved = (k v : Bytes) → lookup k resolved ≡ some v → getenv k ≡ some v

abbrev pub first_set : Option Bytes → Option Bytes → Option Bytes
first_set (some v) o = some v
first_set none o = o

-- The lookup without a map: the knob, else its legacy spelling.
abbrev pub resolve : (Bytes → Option Bytes) → Bytes → Option Bytes
resolve getenv name = first_set (getenv (cne_key name)) (getenv (legacy_key name))

assign-Agrees :
    (getenv : Bytes → Option Bytes) (m : List (Bytes × Bytes)) (k v : Bytes)
    → Agrees getenv m
    → getenv k ≡ some v
    → Agrees getenv (assign k v m)
assign-Agrees getenv m k v h e j w l = elim (Bool-cases (bytes_beq k j)) [
  | inl y ↦
      let same : some v ≡ some w = sym (rw y at (lookup-assign j k v m)) ∙ l in
      rw (sym ((bytes_beq_iff k j).0 y)) (e ∙ same)
  | inr n ↦ h j w (sym (rw n at (lookup-assign j k v m)) ∙ l)
]

-- The right answer, but for a knob that the map holds as the empty string: that is a null pointer.
abbrev pub IsAnswer : (Bytes → Option Bytes) → List (Bytes × Bytes) → Bytes → Option Bytes → Type 0
IsAnswer getenv m name a =
    ((lookup (cne_key name) m ≢ some []) × (a ≡ resolve getenv name))
    ⊎ ((lookup (cne_key name) m ≡ some []) × (getenv (cne_key name) ≡ some []) × (a ≡ none))

-- With a map that holds values of the environment, `env` leaves such a map, and answers the knob's
-- value, or its legacy spelling's if the knob is not set, with one exception: for a knob that is set
-- to the empty string and was looked up before, it answers a null pointer.
pub env-IsAnswer :
    (getenv : Bytes → Option Bytes) (m : List (Bytes × Bytes)) (name : Bytes)
    → Agrees getenv m
    → IsAnswer getenv m name (env getenv m name).0 × Agrees getenv (env getenv m name).1
unfolding env
env-IsAnswer getenv m name h = elim (Option-cases (lookup (cne_key name) m)) [
  | inr (v, e) ↦ known v e
  | inl e ↦ elim (Option-cases (getenv (cne_key name))) [
    | inr (v, g) ↦ rw (env, e, g) (inl (λ x. cc, refl), assign-Agrees getenv m (cne_key name) v h g)
    | inl g ↦ elim (Option-cases (getenv (legacy_key name))) [
      | inl g' ↦ rw (env, e, g, g') (inl (λ x. cc, refl), h)
      | inr (v, g') ↦
          rw (env, e, g, g') (inl (λ x. cc, refl), assign-Agrees getenv m (legacy_key name) v h g')
    ]
  ]
]
  where
    known :
        (v : Bytes)
        → lookup (cne_key name) m ≡ some v
        → IsAnswer getenv m name (env getenv m name).0 × Agrees getenv (env getenv m name).1
    known [] e = rw (env, e) (inr (refl, h (cne_key name) [] e, refl), h)
    known (c ∷ v) e = rw (env, e, h (cne_key name) (c ∷ v) e) (inl (λ x. cc, refl), h)

pub env-resolve :
    (getenv : Bytes → Option Bytes) (m : List (Bytes × Bytes)) (name : Bytes)
    → Agrees getenv m
    → getenv (cne_key name) ≢ some []
    → ((env getenv m name).0 ≡ resolve getenv name) × Agrees getenv (env getenv m name).1
env-resolve getenv m name h full =
    let (a, h') = env-IsAnswer getenv m name h in
    elim a [ inl (_, e) ↦ (e, h') | inr (_, g, _) ↦ absurd (full g) ]

-- A knob that is set to the empty string is a string for the first lookup and a null pointer for the
-- next one.
pub env_empty :
    (getenv : Bytes → Option Bytes) (m : List (Bytes × Bytes)) (name : Bytes)
    → lookup (cne_key name) m ≡ none
    → getenv (cne_key name) ≡ some []
    → ((env getenv m name).0 ≡ some []) × ((env getenv (env getenv m name).1 name).0 ≡ none)
unfolding env
env_empty getenv m name e g = rw first (refl, again)
  where
    first : env getenv m name ≡ (some [], assign (cne_key name) [] m)
    first = rw (env, e, g) refl

    stored : lookup (cne_key name) (assign (cne_key name) [] m) ≡ some []
    stored =
        rw (bytes_beq_refl (cne_key name)) at (lookup-assign (cne_key name) (cne_key name) [] m)

    again : (env getenv (assign (cne_key name) [] m) name).0 ≡ none
    again = rw (env, stored) refl
