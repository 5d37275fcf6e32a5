-- ===== src/Session/Store.antt =====
-- `SessionStore::get_or_create`, `remove` and `clear` of runtime/cne_session.cpp, with the
-- evictions. The store's state is threaded with the llama context whose sequences it clears.
use caedral_notre_engine.Prelude.{
  ℕ, zero, suc, ◌+◌, Bool, true, false, not, ◌&&◌, List, [], ◌∷◌, Option, none, some, Bytes,
  bytes_beq, bytes_eq, ltb, leb, if◌then◌else◌, length, ◌>>=◌,
}
use caedral_notre_engine.Prelude.Assoc.{lookup, erase, assign}
use caedral_notre_engine.Session.Llama.{Llama}
use caedral_notre_engine.Session.Defs.{
  SessionSlot, SessionStore, is_empty, alloc_seq, free_seq, count_for_owner, oldest, owned_by,
}

pub data SessionErr : Type 0 where
  owner_mismatch : SessionErr

-- The pointer that `get_or_create` returns, by the slot's id, or null with the error.
pub data Handle : Type 0 where
  slot : Bytes → Handle
  null : SessionErr → Handle

-- The new slot.
unfoldable pub create : SessionStore → Bytes → Bytes → Option ℕ → SessionStore
unfolding assign
create st id owner seq = record st {
  tick = st.tick + 1;
  slots =
      assign id
        (record { id = id; owner = owner; kv_tokens = []; seq_id = seq; last_tick = st.tick + 1 })
        st.slots;
}

-- The test for another user's slot.
unfoldable pub refuses : Bytes → SessionSlot → Bool
refuses owner s = not (is_empty owner) && not (is_empty s.owner) && not (bytes_beq s.owner owner)

-- The branch of `get_or_create` for a known id.
unfoldable pub reopen : SessionStore → Bytes → Bytes → SessionSlot → SessionStore × Handle
unfolding assign refuses
reopen st id owner s = if refuses owner s then (st, null owner_mismatch) else (
  record st {
    tick = st.tick + 1;
    slots =
        assign id
          (record s {
            owner = if is_empty s.owner then owner else s.owner;
            last_tick = st.tick + 1;
          })
          st.slots;
  },
  slot id,
)

module _ (L : Llama) where
  open L use {Ctx, has_memory, seq_rm}

  unfoldable pub session_clear_seq : Ctx → Option ℕ → Ctx
  session_clear_seq ctx none = ctx
  session_clear_seq ctx (some s) = if has_memory ctx then (seq_rm ctx s 0).0 else ctx

  -- The slot's lane is cleared, and its ledger.
  unfoldable pub session_reset_kv : Ctx → SessionSlot → Ctx × SessionSlot
  unfolding session_clear_seq
  session_reset_kv ctx s = (session_clear_seq ctx s.seq_id, record s { kv_tokens = [] })

  -- Both evictions end so: erase the doomed slot, clear its lane, and free it.
  unfoldable pub doom : SessionStore → Ctx → Bytes × SessionSlot → SessionStore × Ctx
  unfolding session_reset_kv free_seq erase
  doom st ctx (k, s) =
      (free_seq (record st { slots = erase k st.slots }) s.seq_id, (session_reset_kv ctx s).0)

  unfoldable pub evict_lru : SessionStore → Ctx → SessionStore × Ctx
  unfolding oldest doom
  evict_lru st ctx = elim (oldest st.slots) [ none ↦ (st, ctx) | some x ↦ doom st ctx x ]

  unfoldable pub evict_lru_for_owner : SessionStore → Ctx → Bytes → SessionStore × Ctx
  unfolding oldest owned_by doom evict_lru
  evict_lru_for_owner st ctx owner = elim (oldest (owned_by owner st.slots)) [
    | none ↦ evict_lru st ctx
    | some x ↦ doom st ctx x
  ]

  -- The first loop of `get_or_create`. Each round takes a slot off; `none` is out of fuel.
  unfoldable pub evict_user_loop : ℕ → SessionStore → Ctx → Bytes → Option (SessionStore × Ctx)
  evict_user_loop zero st ctx owner = none
  evict_user_loop (suc fuel) st ctx owner =
      elim (leb st.max_slots_per_user (count_for_owner st owner)) [
        | true ↦
            let (st', ctx') = evict_lru_for_owner st ctx owner in
            evict_user_loop fuel st' ctx' owner
        | false ↦ some (st, ctx)
      ]

  -- The second loop.
  unfoldable pub evict_store_loop : ℕ → SessionStore → Ctx → Option (SessionStore × Ctx)
  evict_store_loop zero st ctx = none
  evict_store_loop (suc fuel) st ctx = elim (leb st.max_slots (length st.slots)) [
    | true ↦ let (st', ctx') = evict_lru st ctx in evict_store_loop fuel st' ctx'
    | false ↦ some (st, ctx)
  ]

  -- A lane, after one more eviction if there is none.
  unfoldable pub take_lane : SessionStore → Ctx → (SessionStore × Option ℕ) × Ctx
  unfolding alloc_seq evict_lru
  take_lane st ctx =
      let (st', lane) = alloc_seq st in
      elim lane [
        | some i ↦ ((st', some i), ctx)
        | none ↦ let (st'', ctx') = evict_lru st' ctx in (alloc_seq st'', ctx')
      ]

  unfoldable pub evict_user : SessionStore → Ctx → Bytes → Option (SessionStore × Ctx)
  unfolding evict_user_loop
  evict_user st ctx owner =
      if not (is_empty owner) && ltb 0 st.max_slots_per_user
      then evict_user_loop (suc (length st.slots)) st ctx owner
      else some (st, ctx)

  unfoldable pub get_or_create :
      SessionStore → Ctx → Bytes → Bytes → Option (SessionStore × Ctx × Handle)
  unfolding lookup reopen evict_user evict_store_loop take_lane create
  get_or_create st ctx id owner = elim (lookup id st.slots) [
    | some s ↦ let (st', h) = reopen st id owner s in some (st', ctx, h)
    | none ↦ do
      (st₁, ctx₁) ← evict_user st ctx owner
      (st₂, ctx₂) ← evict_store_loop (suc (length st₁.slots)) st₁ ctx₁
      let ((st₃, seq), ctx₃) = take_lane st₂ ctx₂
      some (create st₃ id owner seq, ctx₃, slot id)
  ]

  unfoldable pub remove_session : SessionStore → Ctx → Bytes → SessionStore × Ctx
  unfolding lookup doom
  remove_session st ctx id = elim (lookup id st.slots) [
    | none ↦ (st, ctx)
    | some s ↦ doom st ctx (id, s)
  ]

  unfoldable pub reset_all : Ctx → List (Bytes × SessionSlot) → Ctx
  unfolding session_reset_kv
  reset_all ctx [] = ctx
  reset_all ctx ((k, s) ∷ m) = reset_all (session_reset_kv ctx s).0 m

  unfoldable pub clear_sessions : SessionStore → Ctx → SessionStore × Ctx
  unfolding reset_all
  clear_sessions st ctx = (record st { slots = []; seq_free = λ _. true }, reset_all ctx st.slots)
