-- ===== src/Session/Evict.antt =====
-- The evictions of runtime/cne_session.cpp: each takes one slot off, frees its lane, and leaves
-- the other slots as they are.
use caedral_notre_engine.Prelude.{
  ℕ, ◌≤◌, ◌<◌, ◌≡◌, refl, ◌∙◌, ◌⊎◌, true, false, [], ◌∷◌, none, some, Bytes, bytes_eq,
  bytes_beq_iff, arith, length, Option-cases, inl, inr,
}
use caedral_notre_engine.Prelude.Assoc.{
  lookup, has, erase, erase-DistinctKeys, lookup-erase, length-erase-lt, has_of_lookup, has-erase,
}
use caedral_notre_engine.Session.Llama.{Llama}
use caedral_notre_engine.Session.Defs.{
  SessionSlot, SessionStore, update, free_seq, count_owner, oldest, owned_by,
}
use caedral_notre_engine.Session.Store.{doom, evict_lru, evict_lru_for_owner}
use caedral_notre_engine.Session.Invariant.{
  Slots, IsValid, uses-erase, OwnLanes-erase, lane_of_lookup, count_owner-erase-le, oldest-lookup,
  owned_by-DistinctKeys, lookup-owned_by,
}

-- What evictions leave: fewer slots, the remaining ones unchanged, and the same limits.
pub record Shrinks (st st' : SessionStore) : Type 0 where
  pub valid : IsValid st'
  pub max_slots : st'.max_slots ≡ st.max_slots
  pub per_user : st'.max_slots_per_user ≡ st.max_slots_per_user
  pub lanes : st'.n_seq_cap ≡ st.n_seq_cap
  pub tick : st'.tick ≡ st.tick
  pub fewer : length st'.slots ≤ length st.slots
  pub counts : (o : Bytes) → count_owner o st'.slots ≤ count_owner o st.slots
  pub kept :
      (k : Bytes) (s : SessionSlot) → lookup k st'.slots ≡ some s → lookup k st.slots ≡ some s

pub Shrinks-refl : (st : SessionStore) → IsValid st → Shrinks st st
Shrinks-refl st v = record {
  valid = v;
  max_slots = refl;
  per_user = refl;
  lanes = refl;
  tick = refl;
  fewer = omega arith;
  counts = λ o. omega arith;
  kept = λ k s h. h;
}

pub Shrinks-trans : {a b c : SessionStore} → Shrinks a b → Shrinks b c → Shrinks a c
Shrinks-trans p q = record {
  valid = q.valid;
  max_slots = q.max_slots ∙ p.max_slots;
  per_user = q.per_user ∙ p.per_user;
  lanes = q.lanes ∙ p.lanes;
  tick = q.tick ∙ p.tick;
  fewer = omega (arith, p.fewer, q.fewer);
  counts = λ o. omega (arith, p.counts o, q.counts o);
  kept = λ k s h. p.kept k s (q.kept k s h);
}

module _ (L : Llama) where
  -- The store after a slot with lane `i` is erased.
  after_doom : SessionStore → Bytes → ℕ → SessionStore
  after_doom st k i = record st { slots = erase k st.slots; seq_free = update st.seq_free i true }

  doom-after_doom :
      (st : SessionStore) (ctx : L.Ctx) (k : Bytes) (s : SessionSlot) (i : ℕ)
      → s.seq_id ≡ some i
      → i < st.n_seq_cap
      → (doom L st ctx (k, s)).0 ≡ after_doom st k i
  unfolding doom free_seq after_doom
  doom-after_doom st ctx k s i e h = ground arith

  -- A slot went, and a lane is free.
  abbrev pub Freed : SessionStore → SessionStore → Type 0
  Freed st st' =
      (length st'.slots < length st.slots)
      × ((i : ℕ) × (i < st'.n_seq_cap) × (st'.seq_free i ≡ true))

  -- The eviction of a slot of the store.
  pub doom-Shrinks :
      (st : SessionStore) (ctx : L.Ctx) (k : Bytes) (s : SessionSlot)
      → IsValid st
      → lookup k st.slots ≡ some s
      → Shrinks st (doom L st ctx (k, s)).0
        × Freed st (doom L st ctx (k, s)).0
        × (has k (doom L st ctx (k, s)).0.slots ≡ false)
  doom-Shrinks st ctx k s v found =
      let (i, lane, below) = lane_of_lookup st.n_seq_cap k s st.slots v.lanes found in
      let shorter = length-erase-lt k st.slots (has_of_lookup k st.slots s found) in
      rw (doom-after_doom st ctx k s i lane below) (
        unfold after_doom in
            record {
              valid = record {
                keys = erase-DistinctKeys k st.slots v.keys;
                lanes = OwnLanes-erase st.n_seq_cap k st.slots v.lanes;
                free = λ j h.
                    unfold update in
                    ground (
                      arith,
                      uses-erase st.n_seq_cap k s st.slots i j v.keys v.lanes found lane,
                      v.free j,
                    );
                bounded = omega (arith, shorter, v.bounded);
                room = v.room;
                capacity = v.capacity;
              };
              max_slots = refl;
              per_user = refl;
              lanes = refl;
              tick = refl;
              fewer = omega (arith, shorter);
              counts = λ o. count_owner-erase-le o k st.slots;
              kept = λ j t h. ground (arith, lookup-erase j k st.slots);
            },
        unfold after_doom update in (shorter, (i, below, ground arith)),
        unfold after_doom in ground (arith, has-erase k k st.slots, bytes_beq_iff k k),
      )

  -- One slot went, if there was one.
  abbrev pub Drops : SessionStore → SessionStore → Type 0
  Drops st st' = Shrinks st st' × ((length st.slots ≡ 0) ⊎ Freed st st')

  pub evict_lru-Drops :
      (st : SessionStore) (ctx : L.Ctx) → IsValid st → Drops st (evict_lru L st ctx).0
  unfolding evict_lru
  evict_lru-Drops st ctx v = elim (Option-cases (oldest st.slots)) [
    | inl nobody ↦ rw (nobody, evict_lru) (Shrinks-refl st v, inl (no_oldest st.slots nobody))
    | inr (x, found) ↦
        let (p, q, _) =
          doom-Shrinks st ctx x.0 x.1 v (oldest-lookup x.0 x.1 st.slots v.keys found) in
        rw (found, evict_lru) (p, inr q)
  ]
    where
      no_oldest : (m : Slots) → oldest m ≡ none → length m ≡ 0
      no_oldest [] h = refl
      no_oldest (x ∷ m) h = absurd (unfold oldest in ground arith)

  pub evict_lru_for_owner-Drops :
      (st : SessionStore) (ctx : L.Ctx) (o : Bytes)
      → IsValid st
      → Drops st (evict_lru_for_owner L st ctx o).0
  unfolding evict_lru_for_owner
  evict_lru_for_owner-Drops st ctx o v = elim (Option-cases (oldest (owned_by o st.slots))) [
    | inl nobody ↦ rw (nobody, evict_lru_for_owner) (evict_lru-Drops st ctx v)
    | inr (x, found) ↦
        let mine =
          oldest-lookup x.0 x.1 (owned_by o st.slots) (owned_by-DistinctKeys o st.slots v.keys)
            found in
        let (p, q, _) =
          doom-Shrinks st ctx x.0 x.1 v (lookup-owned_by o x.0 x.1 st.slots v.keys mine).0 in
        rw (found, evict_lru_for_owner) (p, inr q)
  ]
