-- ===== src/Session/Assigned.antt =====
-- The slots of runtime/cne_session.cpp after one of them is written.
use caedral_notre_engine.Prelude.{
  ℕ, suc, ◌≤◌, ◌<◌, ◌≡◌, refl, true, false, [], ◌∷◌, some, Bytes, bytes_beq, bytes_eq, arith, ◌==◌,
  if◌then◌else◌, Bool-cases, inl, inr,
}
use caedral_notre_engine.Prelude.Assoc.{lookup, has, assign}
use caedral_notre_engine.Session.Defs.{SessionSlot, count_owner}
use caedral_notre_engine.Session.Invariant.{Slots, uses, OwnLanes}

module _ (id : Bytes) (s : SessionSlot) (j : ℕ) (lane : s.seq_id ≡ some j) where
  pub uses-assign_new :
      (m : Slots) (i : ℕ)
      → has id m ≡ false
      → uses i (assign id s m) ≡ (if j == i then true else uses i m)
  unfolding uses has assign
  uses-assign_new [] i h = ground arith
  uses-assign_new ((k, t) ∷ m) i h = ground (arith, uses-assign_new m i)

  pub OwnLanes-assign_new :
      (lim : ℕ) (m : Slots)
      → has id m ≡ false
      → j < lim
      → uses j m ≡ false
      → OwnLanes lim m
      → OwnLanes lim (assign id s m)
  unfolding uses has assign
  OwnLanes-assign_new lim [] h below alone o = ((j, lane, below, refl), tt)
  OwnLanes-assign_new lim ((k, t) ∷ m) h below alone o =
      let (i, has_lane, under, only) = o.0 in
      let ne : bytes_beq k id ≡ false = ground arith in
      rw ne (
        (i, has_lane, under, ground (arith, uses-assign_new m i)),
        OwnLanes-assign_new lim m (ground arith) below (ground arith) o.1,
      )

  pub uses-assign_old :
      (m : Slots) (i : ℕ) (t : SessionSlot)
      → lookup id m ≡ some t
      → t.seq_id ≡ some j
      → uses i (assign id s m) ≡ uses i m
  unfolding uses lookup assign
  uses-assign_old [] i t h e = cc
  uses-assign_old ((k, u) ∷ m) i t h e = ground (arith, uses-assign_old m i t)

  pub OwnLanes-assign_old :
      (lim : ℕ) (m : Slots) (t : SessionSlot)
      → lookup id m ≡ some t
      → t.seq_id ≡ some j
      → OwnLanes lim m
      → OwnLanes lim (assign id s m)
  unfolding lookup assign
  OwnLanes-assign_old lim [] t h e o = absurd (ground arith)
  OwnLanes-assign_old lim ((k, u) ∷ m) t h e o = elim (Bool-cases (bytes_beq k id)) [
    | inl y ↦ let (i, has_lane, under, only) = o.0 in rw y ((i, ground arith, under, only), o.1)
    | inr n ↦
        let (i, has_lane, under, only) = o.0 in
        rw n (
          (i, has_lane, under, ground (arith, uses-assign_old m i t)),
          OwnLanes-assign_old lim m t (ground arith) e o.1,
        )
  ]

pub count_owner-assign_new :
    (o id : Bytes) (s : SessionSlot) (m : Slots)
    → has id m ≡ false
    → count_owner o (assign id s m) ≤ suc (count_owner o m)
unfolding count_owner has assign
count_owner-assign_new o id s [] h = ground arith
count_owner-assign_new o id s ((k, t) ∷ m) h = ground (arith, count_owner-assign_new o id s m)
