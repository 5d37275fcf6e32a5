-- ===== src/Api/AuthLaws.antt =====
-- Who `authenticate` lets in.
use caedral_notre_engine.Prelude.{
  ◌≡◌, ◌≢◌, refl, Bool, true, false, not, List, [], ◌∷◌, Option, none, some, Bytes, codes, arith,
  bytes_beq, bytes_beq_iff, bytes_eq, leb, if◌then◌else◌, length, drop, starts_with, Bool-cases,
  inl, inr,
}
use caedral_notre_engine.Prelude.Assoc.{contains, lookup}
use caedral_notre_engine.Api.Parse.{trim_ws, Keys}
use caedral_notre_engine.Api.Auth.{
  Settings, AuthResult, denied, header_get, bearer, is_blank, admit_user, resolve_user,
  authenticate,
}

-- The token that a request carries.
abbrev pub token_of : List (Bytes × Bytes) → Bytes
token_of headers = trim_ws (drop (length bearer) (header_get headers (codes "Authorization")))

-- A user that a key may speak for: the one the key is mapped to, or anyone for a key without one.
abbrev pub MaySpeak : Option Bytes → Bytes → Type 0
MaySpeak none user = Unit
MaySpeak (some mapped) user = user ≡ mapped

-- What must hold of a request that was let in.
abbrev pub Admitted : List (Bytes × Bytes) → Keys → Bytes → Type 0
Admitted headers ks user =
    (starts_with bearer (header_get headers (codes "Authorization")) ≡ true)
    × ((contains (token_of headers) ks.keys ≡ true)
        × ((is_blank user ≡ false) × MaySpeak (lookup (token_of headers) ks.key_to_user) user))

admit_user-ok :
    (user : Bytes) → (admit_user user).ok ≡ true → is_blank (admit_user user).user_id ≡ false
unfolding admit_user
admit_user-ok [] h = absurd (ground arith)
admit_user-ok (c ∷ user) h = refl

admit_user-user_id : (user : Bytes) → (admit_user user).user_id ≡ user
unfolding admit_user
admit_user-user_id [] = refl
admit_user-user_id (c ∷ user) = refl

denied_ok :
    (b : Bool) (x r : AuthResult) → b ≡ false → x.ok ≡ false → (if not b then x else r).ok ≢ true
denied_ok b x r e d h = ground arith

resolve_user-ok :
    (user : Bytes) (m : Option Bytes)
    → (resolve_user user m).ok ≡ true
    → (is_blank (resolve_user user m).user_id ≡ false) × MaySpeak m (resolve_user user m).user_id
unfolding resolve_user
resolve_user-ok user none h = (admit_user-ok user h, tt)
resolve_user-ok [] (some mapped) h = (admit_user-ok mapped h, admit_user-user_id mapped)
resolve_user-ok (c ∷ user) (some mapped) h = elim (Bool-cases (bytes_beq (c ∷ user) mapped)) [
  | inl y ↦ rw y (unfold admit_user in (refl, (bytes_beq_iff (c ∷ user) mapped).0 y))
  | inr n ↦ absurd (denied_ok (bytes_beq (c ∷ user) mapped) _ _ n refl h)
]

-- A chain of checks that each turn away has let through only what passed all of them.
checks :
    (b₁ b₂ b₃ b₄ : Bool) (x₁ x₂ x₃ x₄ r : AuthResult)
    → x₁.ok ≡ false
    → x₂.ok ≡ false
    → x₃.ok ≡ false
    → x₄.ok ≡ false
    → (if b₁ then x₁ else if b₂ then x₂ else if not b₃ then x₃ else if not b₄ then x₄ else r).ok
      ≡ true
    → (b₃ ≡ true)
      × ((b₄ ≡ true)
          × ((if b₁ then x₁ else if b₂ then x₂ else if not b₃ then x₃ else if not b₄ then x₄ else r)
              ≡ r))
checks true b₂ b₃ b₄ x₁ x₂ x₃ x₄ r d e f g h = absurd (ground arith)
checks false true b₃ b₄ x₁ x₂ x₃ x₄ r d e f g h = absurd (ground arith)
checks false false false b₄ x₁ x₂ x₃ x₄ r d e f g h = absurd (ground arith)
checks false false true false x₁ x₂ x₃ x₄ r d e f g h = absurd (ground arith)
checks false false true true x₁ x₂ x₃ x₄ r d e f g h = (refl, (refl, refl))

AdmittedAs : List (Bytes × Bytes) → Keys → AuthResult → Type 0
AdmittedAs headers ks r = (r.ok ≡ true) → Admitted headers ks r.user_id

passed :
    (headers : List (Bytes × Bytes)) (ks : Keys) (b₁ b₂ : Bool) (x₁ x₂ x₃ x₄ : AuthResult)
    → x₁.ok ≡ false
    → x₂.ok ≡ false
    → x₃.ok ≡ false
    → x₄.ok ≡ false
    → AdmittedAs headers ks (
        if b₁
        then x₁
        else if b₂
        then x₂
        else if not (starts_with bearer (header_get headers (codes "Authorization")))
        then x₃
        else if not (contains (token_of headers) ks.keys)
        then x₄
        else resolve_user
            (trim_ws (header_get headers (codes "X-User-Id")))
            (lookup (token_of headers) ks.key_to_user))
unfolding AdmittedAs
passed headers ks b₁ b₂ x₁ x₂ x₃ x₄ d e f g h =
    let user = trim_ws (header_get headers (codes "X-User-Id")) in
    let m = lookup (token_of headers) ks.key_to_user in
    let c =
      checks b₁ b₂ (starts_with bearer (header_get headers (codes "Authorization")))
        (contains (token_of headers) ks.keys) x₁ x₂ x₃ x₄ (resolve_user user m) d e f g h in
    (c.0, (c.1.0, rw (c.1.1) (resolve_user-ok user m (rw (← c.1.1) h))))

-- A request that is let in while API mode is on carries, behind `Bearer `, a configured key, and the
-- user it is let in as has a name and, if the key is mapped to a user, is that user.
pub authenticate_sound :
    (headers : List (Bytes × Bytes)) (settings : Settings) (ks : Keys)
    → settings.enabled ≡ true
    → (authenticate headers settings ks).ok ≡ true
    → Admitted headers ks (authenticate headers settings ks).user_id
unfolding authenticate AdmittedAs
authenticate_sound headers settings ks e = rw e (
    passed headers ks (leb (length ks.keys) 0)
      (leb (length (header_get headers (codes "Authorization"))) (length bearer))
      (denied 503 (codes "API mode enabled but no API keys configured"))
      (denied 401 (codes "missing or invalid Authorization header (Bearer token required)"))
      (denied 401 (codes "missing or invalid Authorization header (Bearer token required)"))
      (denied 401 (codes "invalid API key")) refl refl refl refl)
