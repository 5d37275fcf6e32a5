-- ===== src/Session/Invariant.antt =====
-- What `slots_` and `seq_free_` of runtime/cne_session.cpp keep in common.
use caedral_notre_engine.Prelude.{
  ℕ, ◌≤◌, ◌<◌, ◌≡◌, refl, Bool, true, false, not, List, [], ◌∷◌, none, some, Bytes, bytes_beq,
  bytes_eq, bytes_beq_iff, arith, ltb, ◌==◌, if◌then◌else◌, length, Bool-cases, inl, inr,
}
use caedral_notre_engine.Prelude.Assoc.{
  lookup, has, erase, DistinctKeys, erase_absent, has_of_lookup,
}
use caedral_notre_engine.Session.Defs.{
  SessionSlot, SessionStore, count_owner, oldest_from, oldest, owned_by,
}

abbrev pub Slots : Type 0
Slots = List (Bytes × SessionSlot)

-- Some slot has this lane.
unfoldable pub uses : ℕ → Slots → Bool
uses i [] = false
uses i ((k, s) ∷ m) = elim s.seq_id [ none ↦ uses i m | some j ↦ if j == i then true else uses i m ]

-- Every slot has a lane below the capacity, and no two slots have the same one.
abbrev pub OwnLanes : ℕ → Slots → Type 0
OwnLanes lim [] = Unit {0}
OwnLanes lim ((k, s) ∷ m) =
    ((i : ℕ) × (s.seq_id ≡ some i) × (i < lim) × (uses i m ≡ false)) × OwnLanes lim m

pub record IsValid (st : SessionStore) : Type 0 where
  pub keys : DistinctKeys st.slots
  pub lanes : OwnLanes st.n_seq_cap st.slots
  pub free : (i : ℕ) → i < st.n_seq_cap → st.seq_free i ≡ not (uses i st.slots)
  pub bounded : length st.slots ≤ st.max_slots
  pub room : 1 ≤ st.max_slots
  pub capacity : 1 ≤ st.n_seq_cap

uses_of_lookup :
    (k : Bytes) (s : SessionSlot) (m : Slots) (i : ℕ)
    → lookup k m ≡ some s
    → s.seq_id ≡ some i
    → uses i m ≡ true
unfolding uses lookup
uses_of_lookup k s [] i h e = cc
uses_of_lookup k s ((j, t) ∷ m) i h e = elim (Bool-cases (bytes_beq j k)) [
  | inl y ↦ ground arith
  | inr n ↦ ground (arith, uses_of_lookup k s m i)
]

pub uses-erase :
    (lim : ℕ) (k : Bytes) (s : SessionSlot) (m : Slots) (i j : ℕ)
    → DistinctKeys m
    → OwnLanes lim m
    → lookup k m ≡ some s
    → s.seq_id ≡ some i
    → uses j (erase k m) ≡ (if i == j then false else uses j m)
unfolding uses lookup erase
uses-erase lim k s [] i j d o h e = cc
uses-erase lim k s ((l, t) ∷ m) i j d o h e = elim (Bool-cases (bytes_beq l k)) [
  | inl y ↦
      let same : l ≡ k = (bytes_beq_iff l k).0 y in
      let gone : erase k m ≡ m = erase_absent k m (rw (← same) d.0) in ground (arith, o.0.1, o.0.3)
  | inr n ↦ ground (arith, uses-erase lim k s m i j d.1 o.1, o.0.1, o.0.3, uses_of_lookup k s m i)
]

uses-erase-false : (k : Bytes) (m : Slots) (j : ℕ) → uses j m ≡ false → uses j (erase k m) ≡ false
unfolding uses erase
uses-erase-false k [] j h = refl
uses-erase-false k ((l, t) ∷ m) j h = ground (arith, uses-erase-false k m j)

pub OwnLanes-erase : (lim : ℕ) (k : Bytes) (m : Slots) → OwnLanes lim m → OwnLanes lim (erase k m)
unfolding erase
OwnLanes-erase lim k [] o = tt
OwnLanes-erase lim k ((l, t) ∷ m) o = elim (Bool-cases (bytes_beq l k)) [
  | inl y ↦ rw y (OwnLanes-erase lim k m o.1)
  | inr n ↦
      let (i, has_lane, below, alone) = o.0 in
      rw n ((i, has_lane, below, uses-erase-false k m i alone), OwnLanes-erase lim k m o.1)
]

pub lane_of_lookup :
    (lim : ℕ) (k : Bytes) (s : SessionSlot) (m : Slots)
    → OwnLanes lim m
    → lookup k m ≡ some s
    → (i : ℕ) × (s.seq_id ≡ some i) × (i < lim)
unfolding lookup
lane_of_lookup lim k s [] o h = absurd (ground arith)
lane_of_lookup lim k s ((l, t) ∷ m) o h = elim (Bool-cases (bytes_beq l k)) [
  | inl y ↦ let (i, has_lane, below, alone) = o.0 in (i, ground arith, below)
  | inr n ↦ lane_of_lookup lim k s m o.1 (ground arith)
]

pub count_owner-erase-le : (o k : Bytes) (m : Slots) → count_owner o (erase k m) ≤ count_owner o m
unfolding count_owner erase
count_owner-erase-le o k [] = omega arith
count_owner-erase-le o k ((l, t) ∷ m) = ground (arith, count_owner-erase-le o k m)

-- A key found in the rest is found behind an entry that the rest does not have.
lookup_behind :
    (k j : Bytes) (s v : SessionSlot) (m : Slots)
    → has k m ≡ false
    → lookup j m ≡ some v
    → lookup j ((k, s) ∷ m) ≡ some v
unfolding lookup
lookup_behind k j s v m absent h = ground (arith, bytes_beq_iff k j, has_of_lookup j m v h)

lookup_between :
    (k l j : Bytes) (s t v : SessionSlot) (m : Slots)
    → has l m ≡ false
    → lookup j ((k, s) ∷ m) ≡ some v
    → lookup j ((k, s) ∷ (l, t) ∷ m) ≡ some v
unfolding lookup
lookup_between k l j s t v m absent h = elim (Bool-cases (bytes_beq k j)) [
  | inl y ↦ ground arith
  | inr n ↦ rw n (lookup_behind l j t v m absent (ground arith))
]

module _ (k l : Bytes) (s t : SessionSlot) (xs : Slots) where
  oldest_newer :
      ltb t.last_tick s.last_tick ≡ true → oldest_from (k, s) ((l, t) ∷ xs) ≡ oldest_from (l, t) xs
  unfolding oldest_from
  oldest_newer h = rw h refl

  oldest_older :
      ltb t.last_tick s.last_tick ≡ false → oldest_from (k, s) ((l, t) ∷ xs) ≡ oldest_from (k, s) xs
  unfolding oldest_from
  oldest_older h = rw h refl

-- The oldest slot is one of the slots, under its key.
oldest_from-lookup :
    (k : Bytes) (s : SessionSlot) (xs : Slots)
    → DistinctKeys ((k, s) ∷ xs)
    → lookup (oldest_from (k, s) xs).0 ((k, s) ∷ xs) ≡ some (oldest_from (k, s) xs).1
oldest_from-lookup k s [] d = unfold oldest_from lookup in ground (arith, bytes_beq_iff k k)
oldest_from-lookup k s ((l, t) ∷ xs) d = elim (Bool-cases (ltb t.last_tick s.last_tick)) [
  | inl y ↦
      rw (oldest_newer k l s t xs y)
        (lookup_behind k _ s _ ((l, t) ∷ xs) d.0 (oldest_from-lookup l t xs d.1))
  | inr n ↦ rw (oldest_older k l s t xs n) (
      lookup_between k l _ s t _ xs d.1.0
        (oldest_from-lookup k s xs (unfold has in ground arith, d.1.1)))
]

pub oldest-lookup :
    (k : Bytes) (s : SessionSlot) (m : Slots)
    → DistinctKeys m
    → oldest m ≡ some (k, s)
    → lookup k m ≡ some s
unfolding oldest
oldest-lookup k s [] d h = cc
oldest-lookup k s ((l, t) ∷ m) d h =
    let e : oldest_from (l, t) m ≡ (k, s) = ground arith in rw e at (oldest_from-lookup l t m d)

owned_by-has : (o k : Bytes) (m : Slots) → has k m ≡ false → has k (owned_by o m) ≡ false
unfolding has owned_by
owned_by-has o k [] h = refl
owned_by-has o k ((l, t) ∷ m) h = ground (arith, owned_by-has o k m)

pub owned_by-DistinctKeys : (o : Bytes) (m : Slots) → DistinctKeys m → DistinctKeys (owned_by o m)
unfolding owned_by
owned_by-DistinctKeys o [] d = tt
owned_by-DistinctKeys o ((l, t) ∷ m) d = elim (Bool-cases (bytes_beq t.owner o)) [
  | inl y ↦ rw y (owned_by-has o l m d.0, owned_by-DistinctKeys o m d.1)
  | inr n ↦ rw n (owned_by-DistinctKeys o m d.1)
]

-- What is found among an owner's slots is that owner's, and found among all.
pub lookup-owned_by :
    (o k : Bytes) (s : SessionSlot) (m : Slots)
    → DistinctKeys m
    → lookup k (owned_by o m) ≡ some s
    → (lookup k m ≡ some s) × (s.owner ≡ o)
unfolding owned_by lookup
lookup-owned_by o k s [] d h = absurd (ground arith)
lookup-owned_by o k s ((l, t) ∷ m) d h = ground (
  arith,
  lookup-owned_by o k s m d.1,
  bytes_beq_iff t.owner o,
  bytes_beq_iff l k,
  has_of_lookup k m s,
)
