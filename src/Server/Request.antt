-- ===== src/Server/Request.antt =====
-- How server/cne-server.cpp finds the conversation of a request and shortens its messages. What a
-- JSON body has is an argument; `none` is a key that is missing or no string.
use caedral_notre_engine.Prelude.{
  ℕ, zero, suc, Bool, true, false, not, ◌&&◌, List, [], ◌∷◌, Option, none, some, Bytes, codes,
  bytes_beq, leb, ◌==◌, if◌then◌else◌, length,
}
use caedral_notre_engine.Api.Conversation.{make_conversation_id, conversation_owned_by}

pub record RequestIds : Type 0 where
  pub chat_id : Option Bytes
  pub conversation_id : Option Bytes
  pub conv_hdr : Bytes

-- `conv_out`, or `err` with the HTTP status.
pub data Resolved : Type 0 where
  granted : Bytes → Resolved
  refused : Bytes → ℕ → Resolved

abbrev pub is_set : Bytes → Bool
is_set [] = false
is_set (c ∷ s) = true

abbrev pub given : Option Bytes → Bytes → Bytes
given none other = other
given (some s) other = s

-- The checks of API mode on the chat id and the conversation id.
unfoldable pub resolve_api : Bytes → Bool → Bytes → Bytes → Resolved
unfolding make_conversation_id conversation_owned_by
resolve_api api_user require_chat_id chat_id conv_id =
    if is_set chat_id && is_set conv_id
    then refused (codes "send either chat_id or conversation_id, not both") 400
    else if is_set chat_id
    then granted (make_conversation_id api_user chat_id)
    else if is_set conv_id
    then (if not (conversation_owned_by conv_id api_user)
        then refused (codes "conversation_id does not belong to authenticated user") 403
        else granted conv_id)
    else if require_chat_id
    then refused (codes "chat_id required in API mode for session reuse") 400
    else granted []

unfoldable pub resolve_conversation_id : RequestIds → Bytes → Bool → Bool → Resolved
unfolding resolve_api
resolve_conversation_id r api_user api_mode require_chat_id =
    let conv_id = given r.conversation_id r.conv_hdr in
    if not api_mode
    then granted conv_id
    else resolve_api api_user require_chat_id (given r.chat_id []) conv_id

pub record Message : Type 0 where
  pub role : Bytes
  pub content : Bytes

abbrev pub is_system : Message → Bool
is_system m = bytes_beq m.role (codes "system")

-- The messages without the first one that is not the system's, if there is one.
unfoldable pub erase_oldest : List Message → Option (List Message)
unfolding bytes_beq
erase_oldest [] = none
erase_oldest (m ∷ ms) =
    let rest = erase_oldest ms in
    if is_system m then elim rest [ none ↦ none | some r ↦ some (m ∷ r) ] else some ms

-- `none` is out of fuel. A count that is not positive is 0.
unfoldable pub trim_loop : (List Message → ℕ) → ℕ → ℕ → List Message → ℕ → Option (List Message × ℕ)
unfolding erase_oldest
trim_loop count limit zero ms dropped = none
trim_loop count limit (suc fuel) [] dropped = some ([], dropped)
trim_loop count limit (suc fuel) (m ∷ ms) dropped =
    if count (m ∷ ms) == 0
    then some (m ∷ ms, dropped)
    else if leb (count (m ∷ ms)) limit
    then some (m ∷ ms, dropped)
    else elim (erase_oldest (m ∷ ms)) [
      | none ↦ some (m ∷ ms, dropped)
      | some rest ↦ trim_loop count limit fuel rest (suc dropped)
    ]

-- Each round erases a message.
unfoldable pub trim_messages_for_context :
    (List Message → ℕ) → ℕ → List Message → Option (List Message × ℕ)
unfolding trim_loop
trim_messages_for_context count limit ms = trim_loop count limit (suc (length ms)) ms 0
