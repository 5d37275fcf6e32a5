-- ===== src/Api/Auth.antt =====
-- `header_get` and `authenticate` of runtime/cne_api.cpp.
use caedral_notre_engine.Prelude.{
  ℕ, Bool, true, false, not, ◌&&◌, List, [], ◌∷◌, Option, none, some, Bytes, codes, bytes_beq,
  bytes_eq, leb, if◌then◌else◌, length, drop, starts_with,
}
use caedral_notre_engine.Prelude.Assoc.{contains, lookup}
use caedral_notre_engine.Api.Parse.{lower, trim_ws, Keys}

pub record Settings : Type 0 where
  pub enabled : Bool
  pub rpm_per_user : ℕ
  pub session_max_per_user : ℕ
  pub require_chat_id : Bool

-- `AuthResult`: let in as a user, or turned away with a status and a message.
pub record AuthResult : Type 0 where
  pub ok : Bool
  pub http_status : ℕ
  pub user_id : Bytes
  pub error : Bytes

-- The headers in the order in which the map is walked.
unfoldable pub header_get : List (Bytes × Bytes) → Bytes → Bytes
unfolding lower
header_get [] name = []
header_get ((k, v) ∷ hs) name = if bytes_beq (lower k) (lower name) then v else header_get hs name

abbrev pub bearer : Bytes
bearer = codes "Bearer "

abbrev pub denied : ℕ → Bytes → AuthResult
denied status error = record { ok = false; http_status = status; user_id = []; error = error }

abbrev pub is_blank : Bytes → Bool
is_blank [] = true
is_blank (c ∷ s) = false

unfoldable pub admit_user : Bytes → AuthResult
admit_user [] = denied 400 (codes "X-User-Id header required in API mode")
admit_user (c ∷ user) = record { ok = true; http_status = 401; user_id = c ∷ user; error = [] }

-- The part of `authenticate` behind the key check: which user the request speaks for.
unfoldable pub resolve_user : Bytes → Option Bytes → AuthResult
unfolding admit_user
resolve_user user none = admit_user user
resolve_user user (some mapped) =
    if not (is_blank user) && not (bytes_beq user mapped)
    then denied 403 (codes "X-User-Id does not match API key")
    else admit_user (if is_blank user then mapped else user)

unfoldable pub authenticate : List (Bytes × Bytes) → Settings → Keys → AuthResult
unfolding header_get starts_with contains lookup resolve_user trim_ws
authenticate headers settings ks =
    if not settings.enabled
    then record { ok = true; http_status = 401; user_id = []; error = [] }
    else if leb (length ks.keys) 0
    then denied 503 (codes "API mode enabled but no API keys configured")
    else (let auth = header_get headers (codes "Authorization") in
        let token = trim_ws (drop (length bearer) auth) in
        if leb (length auth) (length bearer)
        then denied 401 (codes "missing or invalid Authorization header (Bearer token required)")
        else if not (starts_with bearer auth)
        then denied 401 (codes "missing or invalid Authorization header (Bearer token required)")
        else if not (contains token ks.keys)
        then denied 401 (codes "invalid API key")
        else resolve_user (trim_ws (header_get headers (codes "X-User-Id")))
            (lookup token ks.key_to_user))
