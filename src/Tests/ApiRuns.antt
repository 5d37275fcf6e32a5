-- ===== src/Tests/ApiRuns.antt =====
-- The theorems on runtime/cne_api.cpp at concrete requests.
use caedral_notre_engine.Prelude.{
  ℕ, ◌≤◌, ◌≡◌, ◌↔◌, refl, true, List, ◌∷◌, [], ◌++◌, codes, Bytes, arith, bytes_beq, starts_with,
}
use caedral_notre_engine.Prelude.Assoc.{contains, lookup}
use caedral_notre_engine.Api.Parse.{Keys, lower, trim_ws, trim_front, is_space}
use caedral_notre_engine.Api.Auth.{Settings, authenticate, header_get, resolve_user, admit_user}
use caedral_notre_engine.Api.AuthLaws.{Admitted, authenticate_sound}
use caedral_notre_engine.Api.Conversation.{
  make_conversation_id, conversation_owned_by, conversation_owner, conversation_prefix_owner, colon,
}
use caedral_notre_engine.Api.LimitLaws.{
  Ordered, Before, recent, sliding, let_through, times_of, allow-sliding, allow-recent,
}

abbrev request : List (Bytes × Bytes)
request = (codes "authorization", codes "Bearer k1 ") ∷ (codes "X-User-Id", codes "ann") ∷ []

abbrev settings : Settings
settings = record {
  enabled = true;
  rpm_per_user = 60;
  session_max_per_user = 4;
  require_chat_id = true;
}

abbrev ann_keys : Keys
ann_keys = record { keys = codes "k1" ∷ []; key_to_user = (codes "k1", codes "ann") ∷ [] }

authenticate_sound_example :
    Admitted request ann_keys (authenticate request settings ann_keys).user_id
authenticate_sound_example = authenticate_sound request settings ann_keys refl (
    unfold authenticate header_get lower trim_ws trim_front is_space starts_with contains lookup
      resolve_user admit_user bytes_beq in
    refl)

conversation_owner_example :
    (conversation_owned_by (make_conversation_id (codes "ann") (codes "c1")) (codes "bob") ≡ true)
    ↔ (codes "ann" ≡ codes "bob")
conversation_owner_example =
    conversation_owner (codes "ann") (codes "bob") b'c' (codes "1") refl (unfold contains in refl)
      (unfold contains in refl)

conversation_prefix_owner_example :
    conversation_owned_by
      (make_conversation_id (codes "ann" ++ colon ∷ codes "work") (codes "c1"))
      (codes "ann")
    ≡ true
conversation_prefix_owner_example =
    conversation_prefix_owner (codes "ann") (codes "work") b'c' (codes "1") refl

-- Three calls within a second, by two users.
abbrev calls : List (Bytes × ℕ)
calls =
    (codes "ann", 1000000000)
    ∷ (codes "bob", 1100000000)
    ∷ (codes "ann", 1200000000)
    ∷ (codes "ann", 1300000000)
    ∷ []

allow-sliding_example :
    let_through (record { rpm = 2; hits = [] }) (codes "ann") calls []
    ≡ sliding 2 (times_of (codes "ann") calls) []
allow-sliding_example =
    allow-sliding 2 (codes "ann") calls refl
      (unfold times_of bytes_beq Ordered in (omega arith, (omega arith, (omega arith, tt))))

allow-recent_example :
    recent 1500000000 (let_through (record { rpm = 2; hits = [] }) (codes "ann") calls []) ≤ 2
allow-recent_example =
    allow-recent 2 1500000000 (codes "ann") calls refl
      (unfold times_of bytes_beq Ordered in (omega arith, (omega arith, (omega arith, tt))))
      (unfold times_of bytes_beq Before in (omega arith, (omega arith, (omega arith, tt))))
