-- ===== src/Session/Open.antt =====
-- `get_or_create` and `remove` of runtime/cne_session.cpp.
use caedral_notre_engine.Prelude.{
  ℕ, zero, suc, ◌+◌, ◌≤◌, ◌<◌, ◌≡◌, refl, ◌⊎◌, Bool, true, false, [], ◌∷◌, Option, none, some,
  Bytes, bytes_eq, arith, leb, length, Bool-cases, Option-cases, inl, inr,
}
use caedral_notre_engine.Session.Llama.{Llama}
use caedral_notre_engine.Session.Defs.{
  SessionStore, is_empty, update, first_free, alloc_seq, count_owner, count_for_owner,
}
use caedral_notre_engine.Session.Store.{
  evict_lru, evict_lru_for_owner, evict_user_loop, evict_store_loop, take_lane,
}
use caedral_notre_engine.Session.Invariant.{Slots, uses, IsValid}
use caedral_notre_engine.Session.Evict.{
  Shrinks, Shrinks-refl, Shrinks-trans, evict_lru-Drops, evict_lru_for_owner-Drops,
}

count_of_empty : (o : Bytes) (m : Slots) → length m ≡ 0 → count_owner o m ≡ 0
unfolding count_owner
count_of_empty o [] h = refl
count_of_empty o (x ∷ m) h = absurd (omega arith)

module _ (L : Llama) where
  pub evict_user_loop_total :
      (fuel : ℕ) (st : SessionStore) (ctx : L.Ctx) (o : Bytes)
      → IsValid st
      → is_empty o ≡ false
      → 0 < st.max_slots_per_user
      → length st.slots < fuel
      → (st' : SessionStore) × (ctx' : L.Ctx) × (evict_user_loop L fuel st ctx o ≡ some (st', ctx'))
        × Shrinks st st'
        × (count_owner o st'.slots < st'.max_slots_per_user)
  unfolding evict_user_loop count_for_owner
  evict_user_loop_total zero st ctx o v ne p f = absurd (omega arith)
  evict_user_loop_total (suc fuel) st ctx o v ne p f =
      elim (Bool-cases (leb st.max_slots_per_user (count_for_owner st o))) [
        | inr under ↦ (st, ctx, ground arith, Shrinks-refl st v, ground arith)
        | inl over ↦
            let x = evict_lru_for_owner L st ctx o in
            let (shrinks, drops) = evict_lru_for_owner-Drops L st ctx o v in
            let shorter : length x.0.slots < length st.slots =
              ground (arith, drops, count_of_empty o st.slots) in
            let (st', ctx', runs, shrinks', under) =
              evict_user_loop_total fuel x.0 x.1 o shrinks.valid ne
                (omega (arith, shrinks.per_user)) (omega (arith, shorter)) in
            (st', ctx', ground arith, Shrinks-trans shrinks shrinks', under)
      ]

  pub evict_store_loop_total :
      (fuel : ℕ) (st : SessionStore) (ctx : L.Ctx)
      → IsValid st
      → length st.slots < fuel
      → (st' : SessionStore) × (ctx' : L.Ctx) × (evict_store_loop L fuel st ctx ≡ some (st', ctx'))
        × Shrinks st st'
        × (length st'.slots < st'.max_slots)
  unfolding evict_store_loop
  evict_store_loop_total zero st ctx v f = absurd (omega arith)
  evict_store_loop_total (suc fuel) st ctx v f =
      elim (Bool-cases (leb st.max_slots (length st.slots))) [
        | inr under ↦ (st, ctx, ground arith, Shrinks-refl st v, ground arith)
        | inl over ↦
            let x = evict_lru L st ctx in
            let (shrinks, drops) = evict_lru-Drops L st ctx v in
            let shorter : length x.0.slots < length st.slots = ground (arith, drops, v.room) in
            let (st', ctx', runs, shrinks', under) =
              evict_store_loop_total fuel x.0 x.1 shrinks.valid (omega (arith, shorter)) in
            (st', ctx', ground arith, Shrinks-trans shrinks shrinks', under)
      ]

first_free-some :
    (rounds i j : ℕ) (free : ℕ → Bool)
    → first_free rounds i free ≡ some j
    → (free j ≡ true) × (j < i + rounds)
unfolding first_free
first_free-some zero i j free h = absurd (ground arith)
first_free-some (suc rounds) i j free h = elim (Bool-cases (free i)) [
  | inl y ↦ (ground arith, ground arith)
  | inr n ↦
      let (is_free, below) = first_free-some rounds (i + 1) j free (ground arith) in
      (is_free, omega (arith, below))
]

first_free-none :
    (rounds i j : ℕ) (free : ℕ → Bool)
    → first_free rounds i free ≡ none
    → i ≤ j
    → j < i + rounds
    → free j ≡ false
unfolding first_free
first_free-none zero i j free h lo hi = absurd (omega arith)
first_free-none (suc rounds) i j free h lo hi = elim (Bool-cases (free i)) [
  | inl y ↦ absurd (ground arith)
  | inr n ↦ ground (arith, first_free-none rounds (i + 1) j free)
]

uses_of_empty : (i : ℕ) (m : Slots) → length m ≡ 0 → uses i m ≡ false
unfolding uses
uses_of_empty i [] h = refl
uses_of_empty i (x ∷ m) h = absurd (omega arith)

-- A lane was taken: the store is as `st`, but for the lane's flag.
pub record Lane (st st' : SessionStore) (seq : Option ℕ) : Type 0 where
  pub lane : ℕ
  pub given : seq ≡ some lane
  pub below : lane < st.n_seq_cap
  pub was_free : st.seq_free lane ≡ true
  pub after : st' ≡ record st { seq_free = update st.seq_free lane false }

alloc_cases :
    (st : SessionStore)
    → Lane st (alloc_seq st).0 (alloc_seq st).1
      ⊎ (((alloc_seq st).0 ≡ st)
          × ((alloc_seq st).1 ≡ none)
          × ((i : ℕ) → i < st.n_seq_cap → st.seq_free i ≡ false))
unfolding alloc_seq
alloc_cases st = elim (Option-cases (first_free st.n_seq_cap 0 st.seq_free)) [
  | inl nothing ↦ inr (
    ground arith,
    ground arith,
    λ i h. first_free-none st.n_seq_cap 0 i st.seq_free nothing (omega arith) (omega arith),
  )
  | inr (j, found) ↦
      let (was, under) = first_free-some st.n_seq_cap 0 j st.seq_free found in
      inl (record {
        lane = j;
        given = ground arith;
        below = omega (arith, under);
        was_free = was;
        after = ground arith;
      })
]

module _ (L : Llama) where
  take_lane_first :
      (st : SessionStore) (ctx : L.Ctx) (i : ℕ)
      → (alloc_seq st).1 ≡ some i
      → (take_lane L st ctx).0 ≡ ((alloc_seq st).0, (alloc_seq st).1)
  unfolding take_lane
  take_lane_first st ctx i h = ground arith

  take_lane_second :
      (st : SessionStore) (ctx : L.Ctx)
      → (alloc_seq st).1 ≡ none
      → (take_lane L st ctx).0 ≡ alloc_seq (evict_lru L (alloc_seq st).0 ctx).0
  unfolding take_lane
  take_lane_second st ctx h = ground arith

  -- `take_lane` ends with a lane, of the store or of the store after an eviction.
  pub take_lane_total :
      (st : SessionStore) (ctx : L.Ctx)
      → IsValid st
      → (st' : SessionStore) × Shrinks st st'
        × Lane st' (take_lane L st ctx).0.0 (take_lane L st ctx).0.1
  take_lane_total st ctx v = elim (alloc_cases st) [
    | inl l ↦ (st, Shrinks-refl st v, rw (take_lane_first st ctx l.lane l.given) l)
    | inr (same, none_left, taken) ↦
        let st' = (evict_lru L st ctx).0 in
        let (shrinks, drops) = evict_lru-Drops L st ctx v in
        let (i, below, is_free) = some_free st' drops v taken in
        elim (alloc_cases st') [
          | inl l ↦ (st', shrinks, rw (take_lane_second st ctx none_left) (rw same l))
          | inr (_, _, taken') ↦ absurd (ground (arith, taken' i below))
        ]
  ]
    where
      some_free :
          (st' : SessionStore)
          → (length st.slots ≡ 0)
            ⊎ ((length st'.slots < length st.slots)
                × ((i : ℕ) × (i < st'.n_seq_cap) × (st'.seq_free i ≡ true)))
          → IsValid st
          → ((i : ℕ) → i < st.n_seq_cap → st.seq_free i ≡ false)
          → (i : ℕ) × (i < st'.n_seq_cap) × (st'.seq_free i ≡ true)
      some_free st' (inr (_, lane)) v taken = lane
      some_free st' (inl nothing) v taken =
          absurd (ground (arith, v.free 0, taken 0, uses_of_empty 0 st.slots nothing, v.capacity))
