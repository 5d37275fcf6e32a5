-- ===== src/Server/RequestLaws.antt =====
-- Whose conversation a request gets, and which messages are left, in server/cne-server.cpp.
use caedral_notre_engine.Prelude.{
  ℕ, suc, ◌+◌, ◌≤◌, ◌≡◌, ◌⊎◌, refl, Bool, true, false, not, List, [], ◌∷◌, Option, none, some,
  Bytes, codes, if◌then◌else◌, length, drop, filter, Bool-cases, inl, inr,
}
use mathlib.Core.Path.{subst}
use caedral_notre_engine.Api.Conversation.{conversation_owned_by, named, owns_own}
use caedral_notre_engine.Server.Request.{
  RequestIds, Resolved, granted, refused, given, resolve_api, resolve_conversation_id, Message,
  is_system, trim_loop,
}

module _ (user : Bytes) (named_user : named user ≡ true) where
  -- A conversation that is granted is none or the user's.
  abbrev Owned : Resolved → Type 0
  Owned (refused e status) = Unit {0}
  Owned (granted []) = Unit {0}
  Owned (granted (c ∷ s)) = conversation_owned_by (c ∷ s) user ≡ true

  Owned-granted : (s : Bytes) → conversation_owned_by s user ≡ true → Owned (granted s)
  Owned-granted [] h = tt
  Owned-granted (c ∷ s) h = h

  abbrev others_conversation : Resolved
  others_conversation = refused (codes "conversation_id does not belong to authenticated user") 403

  own_conversation :
      (s : Bytes)
      → Owned (if not (conversation_owned_by s user) then others_conversation else granted s)
  own_conversation s = elim (Bool-cases (conversation_owned_by s user)) [
    | inl y ↦ rw y (Owned-granted s y)
    | inr n ↦ rw n tt
  ]

  resolve_api-Owned :
      (require : Bool) (chat conv : Bytes) → Owned (resolve_api user require chat conv)
  unfolding resolve_api
  resolve_api-Owned require (c ∷ s) (d ∷ v) = tt
  resolve_api-Owned require (c ∷ s) [] = Owned-granted _ (owns_own user c s named_user)
  resolve_api-Owned require [] (d ∷ v) = own_conversation (d ∷ v)
  resolve_api-Owned true [] [] = tt
  resolve_api-Owned false [] [] = tt

-- In API mode and for a user with a name, the conversation that a request is granted is none or one
-- that belongs to the user, whatever ids the body and the header have.
pub resolve_conversation_id_owned :
    (r : RequestIds) (user conv : Bytes) (require : Bool)
    → named user ≡ true
    → resolve_conversation_id r user true require ≡ granted conv
    → (conv ≡ []) ⊎ (conversation_owned_by conv user ≡ true)
unfolding resolve_conversation_id
resolve_conversation_id_owned r user conv require n e = split conv (
    subst (Owned user n) e
      (resolve_api-Owned user n require (given r.chat_id []) (given r.conversation_id r.conv_hdr)))
  where
    split :
        (s : Bytes) → Owned user n (granted s) → (s ≡ []) ⊎ (conversation_owned_by s user ≡ true)
    split [] h = inl refl
    split (c ∷ s) h = inr h

-- The messages that are not the system's.
abbrev pub others : List Message → List Message
others ms = filter (λ m. not (is_system m)) ms

-- What erasing the oldest message leaves.
abbrev Erased : List Message → Option (List Message) → Type 0
Erased ms none = others ms ≡ []
Erased ms (some r) =
    (filter is_system r ≡ filter is_system ms)
    × (others r ≡ drop 1 (others ms))
    × (suc (length r) ≡ length ms)

-- `k` messages that are not the system's are gone, the oldest ones; what is left is empty, cannot be
-- counted, fits the limit, or is the system's.
pub record Trimmed (count : List Message → ℕ) (limit : ℕ) (ms : List Message) (out : List Message)
    (k : ℕ) : Type 0 where
  pub systems : filter is_system out ≡ filter is_system ms
  pub oldest : others out ≡ drop k (others ms)
  pub enough : (count out ≡ 0) ⊎ ((count out ≤ limit) ⊎ (others out ≡ []))

module _ (count : List Message → ℕ) (limit : ℕ) where
  abbrev Trims : ℕ → List Message → ℕ → Type 0
  Trims fuel ms dropped =
      (out : List Message) × (k : ℕ) × (trim_loop count limit fuel ms dropped
        ≡ some (out, dropped + k))
      × Trimmed count limit ms out k
