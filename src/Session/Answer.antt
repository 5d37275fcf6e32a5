-- ===== src/Session/Answer.antt =====
-- The answers of `get_or_create` of runtime/cne_session.cpp, and what opening a slot leaves.
use caedral_notre_engine.Prelude.{
  ℕ, suc, ◌+◌, ◌≤◌, ◌<◌, ◌≡◌, ◌≢◌, refl, ap, ◌∙◌, ◌⊎◌, true, false, [], ◌∷◌, Option, none, some,
  Bytes, bytes_eq, bytes_beq_iff, arith, if◌then◌else◌, length, Bool-cases, inl, inr,
}
use caedral_notre_engine.Prelude.Assoc.{
  lookup, has, assign, lookup-assign, has_of_lookup, has_of_none, assign-DistinctKeys,
  length-assign_new, length-assign_old,
}
use caedral_notre_engine.Session.Defs.{SessionSlot, SessionStore, is_empty, update, count_owner}
use caedral_notre_engine.Session.Store.{Handle, slot, null, owner_mismatch, create, refuses, reopen}
use caedral_notre_engine.Session.Invariant.{Slots, uses, IsValid, lane_of_lookup}
use caedral_notre_engine.Session.Evict.{Shrinks}
use caedral_notre_engine.Session.Assigned.{
  uses-assign_new, OwnLanes-assign_new, uses-assign_old, OwnLanes-assign_old,
  count_owner-assign_new,
}
use caedral_notre_engine.Session.Open.{Lane}

-- Both owners are named, and they differ.
abbrev pub Clash : Bytes → Bytes → Type 0
Clash a b = (is_empty a ≡ false) × (is_empty b ≡ false) × (a ≢ b)

-- A slot without an owner is claimed by the one who opens it, and another one keeps its owner.
abbrev pub Claimed : Bytes → Bytes → Bytes → Type 0
Claimed owner before after = ((before ≡ []) × (after ≡ owner)) ⊎ ((before ≢ []) × (after ≡ before))

-- What `get_or_create` answers: it refuses another user's slot, opens the slot of the id again, or
-- makes a new one.
pub data Answer (st st' : SessionStore) (id owner : Bytes) (h : Handle) : Type 0 where
  refused :
      (s : SessionSlot)
      → lookup id st.slots ≡ some s
      → Clash owner s.owner
      → h ≡ null owner_mismatch
      → st' ≡ st
      → Answer st st' id owner h
  reopened :
      (s : SessionSlot) (i : ℕ) (o : Bytes)
      → lookup id st.slots ≡ some s
      → ¬ Clash owner s.owner
      → Claimed owner s.owner o
      → s.seq_id ≡ some i
      → i < st.n_seq_cap
      → lookup id st'.slots ≡ some (record s { owner = o; last_tick = st.tick + 1 })
      → ((k : Bytes) → k ≢ id → lookup k st'.slots ≡ lookup k st.slots)
      → h ≡ slot id
      → Answer st st' id owner h
  created :
      (i : ℕ)
      → lookup id st.slots ≡ none
      → i < st.n_seq_cap
      → lookup id st'.slots
        ≡ some (record {
          id = id;
          owner = owner;
          kv_tokens = [];
          seq_id = some i;
          last_tick = st.tick + 1;
        })
      → h ≡ slot id
      → Answer st st' id owner h

pub record Outcome (st st' : SessionStore) (id owner : Bytes) (h : Handle) : Type 0 where
  pub valid : IsValid st'
  pub limits : (st'.max_slots ≡ st.max_slots) × (st'.n_seq_cap ≡ st.n_seq_cap)
  pub answer : Answer st st' id owner h
  pub kept :
      (k : Bytes) (t : SessionSlot)
      → k ≢ id
      → lookup k st'.slots ≡ some t
      → lookup k st.slots ≡ some t

lookup-assign_ne :
    (k id : Bytes) (s t : SessionSlot) (m : Slots)
    → k ≢ id
    → lookup k (assign id s m) ≡ some t
    → lookup k m ≡ some t
lookup-assign_ne k id s t m ne h = ground (arith, lookup-assign k id s m, bytes_beq_iff id k)

lookup-assign_other :
    (k id : Bytes) (s : SessionSlot) (m : Slots) → k ≢ id → lookup k (assign id s m) ≡ lookup k m
lookup-assign_other k id s m ne = ground (arith, lookup-assign k id s m, bytes_beq_iff id k)

Claimed-if :
    (owner before : Bytes) → Claimed owner before (if is_empty before then owner else before)
Claimed-if owner [] = inl (refl, refl)
Claimed-if owner (c ∷ cs) = inr (λ e. cc, refl)

lookup-assign_self : (id : Bytes) (s : SessionSlot) (m : Slots) → lookup id (assign id s m) ≡ some s
lookup-assign_self id s m = ground (arith, lookup-assign id id s m, bytes_beq_iff id id)

-- Writing a slot that keeps its lane.
rewrite-IsValid :
    (st : SessionStore) (id : Bytes) (s t : SessionSlot)
    → IsValid st
    → lookup id st.slots ≡ some t
    → s.seq_id ≡ t.seq_id
    → IsValid (record st { tick = st.tick + 1; slots = assign id s st.slots })
rewrite-IsValid st id s t v found same =
    let (i, lane, below) = lane_of_lookup st.n_seq_cap id t st.slots v.lanes found in
    let lane' = same ∙ lane in
    record {
      keys = assign-DistinctKeys id s st.slots v.keys;
      lanes = OwnLanes-assign_old id s i lane' st.n_seq_cap st.slots t found lane v.lanes;
      free = λ j h. ground (arith, v.free j, uses-assign_old id s i lane' st.slots j t found lane);
      bounded =
          omega
            (arith, length-assign_old id s st.slots (has_of_lookup id st.slots t found), v.bounded);
      room = v.room;
      capacity = v.capacity;
    }

Clash-refuses : (owner : Bytes) (s : SessionSlot) → refuses owner s ≡ true → Clash owner s.owner
unfolding refuses
Clash-refuses owner s h =
    (ground arith, ground arith, λ e. ground (arith, bytes_beq_iff s.owner owner))

-- The slot as it is opened again.
abbrev reopened_slot : SessionStore → Bytes → SessionSlot → SessionSlot
reopened_slot st owner s = record s {
  owner = if is_empty s.owner then owner else s.owner;
  last_tick = st.tick + 1;
}

module _ (st : SessionStore) (id owner : Bytes) (s : SessionSlot) where
  reopen_no : refuses owner s ≡ true → reopen st id owner s ≡ (st, null owner_mismatch)
  unfolding reopen
  reopen_no h = ground arith

  reopen_yes :
      refuses owner s ≡ false
      → reopen st id owner s ≡ (
        record st { tick = st.tick + 1; slots = assign id (reopened_slot st owner s) st.slots },
        slot id,
      )
  unfolding reopen
  reopen_yes h = ground arith

  no-Clash : refuses owner s ≡ false → ¬ Clash owner s.owner
  unfolding refuses
  no-Clash h c = c.2 (ground (arith, bytes_beq_iff s.owner owner))

  pub reopen-Outcome :
      IsValid st
      → lookup id st.slots ≡ some s
      → Outcome st (reopen st id owner s).0 id owner (reopen st id owner s).1
  reopen-Outcome v found = elim (Bool-cases (refuses owner s)) [
    | inl y ↦ rw (reopen_no y) (record {
      valid = v;
      limits = (refl, refl);
      answer = refused s found (Clash-refuses owner s y) refl refl;
      kept = λ k t ne h. h;
    })
    | inr n ↦
        let (i, lane, below) = lane_of_lookup st.n_seq_cap id s st.slots v.lanes found in
        rw (reopen_yes n) (record {
          valid = rewrite-IsValid st id (reopened_slot st owner s) s v found refl;
          limits = (refl, refl);
          answer =
              reopened s i (reopened_slot st owner s).owner found (no-Clash n)
                (Claimed-if owner s.owner) lane below
                (lookup-assign_self id (reopened_slot st owner s) st.slots)
                (λ k ne. lookup-assign_other k id (reopened_slot st owner s) st.slots ne) refl;
          kept = λ k t ne h. lookup-assign_ne k id (reopened_slot st owner s) t st.slots ne h;
        })
  ]

pub still_new :
    (st mid : SessionStore) (id : Bytes)
    → Shrinks st mid
    → lookup id st.slots ≡ none
    → has id mid.slots ≡ false
still_new st mid id w absent = has_of_none id mid.slots (none_left (lookup id mid.slots) refl)
  where
    none_left : (o : Option SessionSlot) → lookup id mid.slots ≡ o → lookup id mid.slots ≡ none
    none_left none e = e
    none_left (some t) e = absurd (ground (arith, w.kept id t e))

pub create-count :
    (mid st' : SessionStore) (id owner : Bytes) (seq : Option ℕ)
    → Lane mid st' seq
    → has id mid.slots ≡ false
    → count_owner owner (create st' id owner seq).slots ≤ suc (count_owner owner mid.slots)
unfolding create
create-count mid st' id owner seq l new =
    rw (l.after, l.given) (count_owner-assign_new owner id _ mid.slots new)

-- The state that a new slot is written into: the id is new, and a lane was taken.
pub create-Outcome :
    (st mid st' : SessionStore) (id owner : Bytes) (seq : Option ℕ)
    → Shrinks st mid
    → length mid.slots < mid.max_slots
    → lookup id st.slots ≡ none
    → Lane mid st' seq
    → Outcome st (create st' id owner seq) id owner (slot id)
unfolding create
create-Outcome st mid st' id owner seq w space absent l =
    rw (l.after, l.given)
      (record {
        valid = record {
          keys = assign-DistinctKeys id s mid.slots w.valid.keys;
          lanes =
              OwnLanes-assign_new id s l.lane refl mid.n_seq_cap mid.slots new l.below alone
                w.valid.lanes;
          free = λ j h.
              unfold update in
              ground (arith, w.valid.free j, uses-assign_new id s l.lane refl mid.slots j new);
          bounded = omega (arith, length-assign_new id s mid.slots new, space);
          room = w.valid.room;
          capacity = w.valid.capacity;
        };
        limits = (w.max_slots, w.lanes);
        answer =
            created l.lane absent (omega (arith, l.below, w.lanes))
              (lookup-assign_self id s mid.slots ∙ ap (λ n. some (slot_at n)) w.tick) refl;
        kept = λ k t ne h. w.kept k t (lookup-assign_ne k id s t mid.slots ne h);
      })
  where
    slot_at : ℕ → SessionSlot
    slot_at n = record {
      id = id;
      owner = owner;
      kv_tokens = [];
      seq_id = some l.lane;
      last_tick = n + 1;
    }

    s : SessionSlot
    s = slot_at mid.tick

    new : has id mid.slots ≡ false
    new = still_new st mid id w absent

    alone : uses l.lane mid.slots ≡ false
    alone = ground (arith, w.valid.free l.lane l.below, l.was_free)
