-- ===== src/Api/Conversation.antt =====
-- The conversation ids of runtime/cne_api.cpp, and whose they are.
use caedral_notre_engine.Prelude.{
  ℕ, ◌<◌, ◌≡◌, ◌↔◌, refl, Bool, true, false, ◌&&◌, [], ◌∷◌, ◌++◌, Bytes, arith, ltb, length,
  length-append, starts_with, starts_with-append, nat_eq,
}
use mathlib.Core.List.{append_assoc}
use caedral_notre_engine.Prelude.Assoc.{contains}

abbrev pub colon : ℕ
colon = 58

unfoldable pub make_conversation_id : Bytes → Bytes → Bytes
make_conversation_id user_id chat_id = user_id ++ colon ∷ chat_id

abbrev pub named : Bytes → Bool
named [] = false
named (c ∷ s) = true

unfoldable pub conversation_owned_by : Bytes → Bytes → Bool
unfolding starts_with
conversation_owned_by conversation_id user_id =
    let prefix = user_id ++ colon ∷ [] in
    named user_id
    && (ltb (length prefix) (length conversation_id) && starts_with prefix conversation_id)

-- The prefix test over ids without the separator decides equality.
starts_with_user :
    (u v chat : Bytes)
    → contains colon u ≡ false
    → contains colon v ≡ false
    → starts_with (v ++ colon ∷ []) (u ++ colon ∷ chat) ≡ true
    → u ≡ v
unfolding starts_with contains
starts_with_user [] [] chat h k e = refl
starts_with_user [] (y ∷ v) chat h k e = ground arith
starts_with_user (x ∷ u) [] chat h k e = ground arith
starts_with_user (x ∷ u) (y ∷ v) chat h k e = ground (arith, starts_with_user u v chat)

shifted : (v chat : Bytes) → (v ++ colon ∷ []) ++ chat ≡ v ++ colon ∷ chat
shifted v chat = append_assoc v (colon ∷ []) chat

pub owns_own :
    (v : Bytes) (c : ℕ) (chat : Bytes)
    → named v ≡ true
    → conversation_owned_by (make_conversation_id v (c ∷ chat)) v ≡ true
unfolding conversation_owned_by make_conversation_id
owns_own v c chat h = ground (
  arith,
  length-append {0} v (colon ∷ []),
  length-append {0} v (colon ∷ c ∷ chat),
  shifted v (c ∷ chat),
  starts_with-append (v ++ colon ∷ []) (c ∷ chat),
)

-- Among named users whose ids hold no colon, the id of a conversation with a chat id belongs to the
-- user that it was made for, and to nobody else.
pub conversation_owner :
    (u v : Bytes) (c : ℕ) (chat : Bytes)
    → named v ≡ true
    → contains colon u ≡ false
    → contains colon v ≡ false
    → (conversation_owned_by (make_conversation_id u (c ∷ chat)) v ≡ true) ↔ (u ≡ v)
conversation_owner u v c chat n h k = (
  λ e.
      starts_with_user u v (c ∷ chat) h k
        (unfold conversation_owned_by make_conversation_id in ground arith),
  λ e. rw e (owns_own v c chat n),
)

prefixed : (u w chat : Bytes) → (u ++ colon ∷ w) ++ colon ∷ chat ≡ u ++ colon ∷ (w ++ colon ∷ chat)
prefixed u w chat = append_assoc u (colon ∷ w) (colon ∷ chat)

append-nonempty : (w : Bytes) (c : ℕ) (chat : Bytes) → 0 < length (w ++ colon ∷ c ∷ chat)
append-nonempty w c chat = ground (arith, length-append {0} w (colon ∷ c ∷ chat))

owns_rest :
    (u r : Bytes) → named u ≡ true → 0 < length r → conversation_owned_by (u ++ colon ∷ r) u ≡ true
unfolding conversation_owned_by
owns_rest u r n h = ground (
  arith,
  length-append {0} u (colon ∷ []),
  length-append {0} u (colon ∷ r),
  shifted u r,
  starts_with-append (u ++ colon ∷ []) r,
)

-- A conversation of a user whose id is another named user's id, a colon and more is owned by that
-- other user too.
pub conversation_prefix_owner :
    (u w : Bytes) (c : ℕ) (chat : Bytes)
    → named u ≡ true
    → conversation_owned_by (make_conversation_id (u ++ colon ∷ w) (c ∷ chat)) u ≡ true
unfolding make_conversation_id
conversation_prefix_owner u w c chat n =
    rw (prefixed u w (c ∷ chat)) (owns_rest u (w ++ colon ∷ c ∷ chat) n (append-nonempty w c chat))
