-- ===== src/Session/Access.antt =====
-- What `get_or_create` and `remove` of runtime/cne_session.cpp promise.
use caedral_notre_engine.Prelude.{
  ℕ, suc, ◌≤◌, ◌<◌, ◌≡◌, refl, false, not, ◌&&◌, Option, none, some, Bytes, bytes_eq, arith, ltb,
  length, Bool-cases, Option-cases, inl, inr,
}
use caedral_notre_engine.Prelude.Assoc.{lookup, lookup_absent}
use caedral_notre_engine.Session.Llama.{Llama}
use caedral_notre_engine.Session.Defs.{SessionSlot, SessionStore, is_empty, count_owner}
use caedral_notre_engine.Session.Store.{
  Handle, slot, take_lane, create, evict_user, reopen, get_or_create, remove_session,
}
use caedral_notre_engine.Session.Invariant.{IsValid}
use caedral_notre_engine.Session.Evict.{Shrinks, Shrinks-refl, Shrinks-trans, doom-Shrinks}
use caedral_notre_engine.Session.Open.{
  evict_user_loop_total, evict_store_loop_total, Lane, take_lane_total,
}
use caedral_notre_engine.Session.Answer.{
  Outcome, reopen-Outcome, still_new, create-count, create-Outcome,
}

module _ (L : Llama) where
  evict_user_total :
      (st : SessionStore) (ctx : L.Ctx) (o : Bytes)
      → IsValid st
      → (st' : SessionStore) × (ctx' : L.Ctx) × (evict_user L st ctx o ≡ some (st', ctx'))
        × Shrinks st st'
        × (is_empty o ≡ false
            → 0 < st.max_slots_per_user
            → count_owner o st'.slots < st'.max_slots_per_user)
  unfolding evict_user
  evict_user_total st ctx o v =
      elim (Bool-cases (not (is_empty o) && ltb 0 st.max_slots_per_user)) [
        | inl y ↦
            let (st', ctx', runs, shrinks, under) =
              evict_user_loop_total L (suc (length st.slots)) st ctx o v (ground arith)
                (ground arith) (omega arith) in
            (st', ctx', ground arith, shrinks, λ _ _. under)
        | inr n ↦ (st, ctx, ground arith, Shrinks-refl st v, λ e p. absurd (ground arith))
      ]

  -- The store that the new slot of a new id is written into.
  prepared :
      (st : SessionStore) (ctx : L.Ctx) (id owner : Bytes)
      → IsValid st
      → lookup id st.slots ≡ none
      → (mid st' : SessionStore) × (seq : Option ℕ) × (ctx' : L.Ctx) × (get_or_create L st ctx id
            owner
          ≡ some (create st' id owner seq, ctx', slot id))
        × Shrinks st mid
        × (length mid.slots < mid.max_slots)
        × Lane mid st' seq
        × (is_empty owner ≡ false
            → 0 < st.max_slots_per_user
            → count_owner owner mid.slots < mid.max_slots_per_user)
  unfolding get_or_create
  prepared st ctx id owner v absent =
      let (st₁, ctx₁, runs₁, w₁, under) = evict_user_total st ctx owner v in
      let (st₂, ctx₂, runs₂, w₂, space) =
        evict_store_loop_total L (suc (length st₁.slots)) st₁ ctx₁ w₁.valid (omega arith) in
      let (mid, w₃, l) = take_lane_total L st₂ ctx₂ w₂.valid in
      let x = take_lane L st₂ ctx₂ in
      (
        mid,
        x.0.0,
        x.0.1,
        x.1,
        rw (absent, get_or_create) (rw runs₁ (rw runs₂ refl)),
        Shrinks-trans (Shrinks-trans w₁ w₂) w₃,
        omega (arith, w₃.fewer, w₃.max_slots, space),
        l,
        λ e p. omega (arith, under e p, w₂.counts owner, w₃.counts owner, w₂.per_user, w₃.per_user),
      )

  -- On a valid store `get_or_create` always answers, and the store stays valid: no two slots share
  -- a sequence lane, every slot has one, and there are at most `max_slots_` of them. If the id has a
  -- slot of another named user and the caller is named, it refuses, and the store is as it was. If
  -- the id has any other slot, that slot keeps its ledger, its lane and its owner, or gets the
  -- caller as its owner if it had none, and no other slot changes. If the id has no slot, it gets
  -- one that the caller owns, with a lane and an empty ledger. A slot that it gives has the next tick,
  -- and the other slots that remain are unchanged.
  pub get_or_create_total :
      (st : SessionStore) (ctx : L.Ctx) (id owner : Bytes)
      → IsValid st
      → (st' : SessionStore) × (ctx' : L.Ctx) × (h : Handle) × (get_or_create L st ctx id owner
          ≡ some (st', ctx', h))
        × Outcome st st' id owner h
  get_or_create_total st ctx id owner v = elim (Option-cases (lookup id st.slots)) [
    | inl absent ↦
        let (mid, st', seq, ctx', runs, w, space, l, _) = prepared st ctx id owner v absent in
        (
          create st' id owner seq,
          ctx',
          slot id,
          runs,
          create-Outcome st mid st' id owner seq w space absent l,
        )
    | inr (s, found) ↦
        let x = reopen st id owner s in
        (
          x.0,
          ctx,
          x.1,
          unfold get_or_create in rw (found, get_or_create) refl,
          reopen-Outcome st id owner s v found,
        )
  ]

  -- On a valid store with a limit per user, `get_or_create` of a new id by a named user returns
  -- the id's slot, and that user has at most the limit of slots afterwards.
  pub get_or_create_per_user :
      (st : SessionStore) (ctx : L.Ctx) (id owner : Bytes)
      → IsValid st
      → lookup id st.slots ≡ none
      → is_empty owner ≡ false
      → 0 < st.max_slots_per_user
      → (st' : SessionStore) × (ctx' : L.Ctx) × (get_or_create L st ctx id owner
          ≡ some (st', ctx', slot id))
        × (count_owner owner st'.slots ≤ st.max_slots_per_user)
  get_or_create_per_user st ctx id owner v absent ne p =
      let (mid, st', seq, ctx', runs, w, space, l, under) = prepared st ctx id owner v absent in
      let counts = create-count mid st' id owner seq l (still_new st mid id w absent) in
      (create st' id owner seq, ctx', runs, omega (arith, counts, under ne p, w.per_user))

  -- On a valid store, `remove` leaves a valid store without the id, in which every slot was there
  -- before, unchanged.
  pub remove_session_total :
      (st : SessionStore) (ctx : L.Ctx) (id : Bytes)
      → IsValid st
      → IsValid (remove_session L st ctx id).0
        × (lookup id (remove_session L st ctx id).0.slots ≡ none)
        × ((k : Bytes) (t : SessionSlot)
            → lookup k (remove_session L st ctx id).0.slots ≡ some t
            → lookup k st.slots ≡ some t)
  unfolding remove_session
  remove_session_total st ctx id v = elim (Option-cases (lookup id st.slots)) [
    | inl absent ↦ rw (absent, remove_session) (v, absent, λ k t h. h)
    | inr (s, found) ↦
        let (w, _, gone) = doom-Shrinks L st ctx id s v found in
        rw (found, remove_session) (w.valid, lookup_absent id _ gone, w.kept)
  ]
