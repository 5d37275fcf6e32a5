-- ===== src/Cache/Room.antt =====
-- `make_room_locked` of core/src/features/streaming/cache.cpp: it ends, it keeps the cache sound,
-- it frees what is asked for or everything, and the shield is honoured.
use caedral_notre_engine.Prelude.{
  ℕ, zero, suc, ◌+◌, ◌≤◌, ◌<◌, ◌≡◌, refl, sym, ◌∙◌, ◌⊎◌, inl, inr, true, false, List, [], ◌∷◌, none,
  some, nat_eq, arith, ltb, length, Bool-cases, Option-cases,
}
use caedral_notre_engine.Prelude.Words.{u64_mod, add64, add64_exact}
use caedral_notre_engine.Prelude.Assoc.{
  contains, lookup, has, length-remove-lt, lookup_of_has, has_of_lookup, has-erase, lookup-erase,
}
use caedral_notre_engine.Cache.Defs.{
  SliceCache, Entry, find_unshielded, find_victim, evict, done, again, make_room_round,
  make_room_loop, make_room_locked,
}
use caedral_notre_engine.Cache.Invariant.{
  IsSound, find_victim-mem, find_victim-none, used-evict, evict-IsSound,
}

-- What is the same in `c'` as in `c` after evictions: the limit, the shield, and what remains.
pub record Evicts (c c' : SliceCache) : Type 0 where
  pub cap : c'.hard_cap_bytes ≡ c.hard_cap_bytes
  pub shield : c'.shield ≡ c.shield
  pub verify : c'.verify_remaining ≡ c.verify_remaining
  pub used : c'.used ≤ c.used
  pub kept : (k : ℕ) → has k c'.map ≡ true → lookup k c'.map ≡ lookup k c.map
  pub honoured :
      (k j : ℕ)
      → has k c.map ≡ true
      → contains k c.shield ≡ true
      → has k c'.map ≡ false
      → has j c'.map ≡ true
      → contains j c.shield ≡ true

pub has_kept :
    {c c' : SliceCache} → Evicts c c' → (k : ℕ) → has k c'.map ≡ true → has k c.map ≡ true
has_kept {c} {c'} v k h =
    let (e, found) = lookup_of_has k c'.map h in
    has_of_lookup k c.map e (ground (arith, v.kept k h))

Evicts-refl : (c : SliceCache) → Evicts c c
Evicts-refl c = record {
  cap = refl;
  shield = refl;
  verify = refl;
  used = omega arith;
  kept = λ k h. refl;
  honoured = λ k j p q r. cc;
}

Evicts-trans : {a b c : SliceCache} → Evicts a b → Evicts b c → Evicts a c
Evicts-trans {a} {b} {c} v w = record {
  cap = w.cap ∙ v.cap;
  shield = w.shield ∙ v.shield;
  verify = w.verify ∙ v.verify;
  used = omega (arith, v.used, w.used);
  kept = λ k h. w.kept k h ∙ v.kept k (has_kept w k h);
  honoured = λ k j p q r t. elim (Bool-cases (has k b.map)) [
    | inl stays ↦ ground (arith, w.honoured k j stays (ground (arith, v.shield)) r t, v.shield)
    | inr gone ↦ v.honoured k j p q gone (has_kept w j t)
  ];
}

find_unshielded-none :
    (sh ks : List ℕ) (j : ℕ)
    → find_unshielded sh ks ≡ none
    → contains j ks ≡ true
    → contains j sh ≡ true
unfolding find_unshielded contains
find_unshielded-none sh [] j h m = absurd (ground arith)
find_unshielded-none sh (k ∷ ks) j h m = ground (arith, find_unshielded-none sh ks j)

find_unshielded-some :
    (sh ks : List ℕ) (v : ℕ) → find_unshielded sh ks ≡ some v → contains v sh ≡ false
unfolding find_unshielded
find_unshielded-some sh [] v h = cc
find_unshielded-some sh (k ∷ ks) v h = ground (arith, find_unshielded-some sh ks v)

-- A victim in the shield is taken only where every key is in it.
victim_shielded :
    (c : SliceCache) (v j : ℕ)
    → find_victim c ≡ some v
    → contains v c.shield ≡ true
    → contains j c.lru ≡ true
    → contains j c.shield ≡ true
unfolding find_victim
victim_shielded c v j h p m =
    ground (arith, find_unshielded-some c.shield c.lru v, find_unshielded-none c.shield c.lru j)

module _ (c : SliceCache) (s : IsSound c) (v : ℕ) (e : Entry) (victim : find_victim c ≡ some v)
    (found : lookup v c.map ≡ some e) where
  evict-Evicts : Evicts c (evict c v e)
  unfolding evict
  evict-Evicts = record {
    cap = refl;
    shield = refl;
    verify = refl;
    used = omega (arith, used-evict c s v e found);
    kept = λ k h. ground (arith, lookup-erase k v c.map, has-erase k v c.map);
    honoured = λ k j p q r t.
        ground
          (arith, has-erase k v c.map, has-erase j v c.map, victim_shielded c v j victim, s.same j);
  }

  length-evict : length (evict c v e).lru < length c.lru
  unfolding evict
  length-evict = length-remove-lt v c.lru (find_victim-mem c v victim)

-- The outcome of `make_room_locked`.
pub record Room (bytes : ℕ) (c c' : SliceCache) : Type 0 where
  pub sound : IsSound c'
  pub evicts : Evicts c c'
  pub fits : (c'.used + bytes ≤ c'.hard_cap_bytes) ⊎ (c'.lru ≡ [])

-- A victim is always in the map.
victim_found :
    (c : SliceCache) (v : ℕ)
    → IsSound c
    → find_victim c ≡ some v
    → (e : Entry) × (lookup v c.map ≡ some e)
victim_found c v s h = lookup_of_has v c.map (ground (arith, s.same v, find_victim-mem c v h))

-- What one round does: it leaves the loop on room or on an empty cache, or takes a victim.
data Turn (c : SliceCache) (bytes : ℕ) : Type 0 where
  leaves :
      make_room_round c bytes ≡ done c
      → (c.used + bytes ≤ c.hard_cap_bytes) ⊎ (c.lru ≡ [])
      → Turn c bytes
  takes :
      (v : ℕ) (e : Entry)
      → find_victim c ≡ some v
      → lookup v c.map ≡ some e
      → make_room_round c bytes ≡ again (evict c v e)
      → Turn c bytes

turn : (c : SliceCache) (bytes : ℕ) → IsSound c → c.used + bytes < u64_mod → Turn c bytes
unfolding make_room_round
turn c bytes s w = elim (Bool-cases (ltb c.hard_cap_bytes (add64 c.used bytes))) [
  | inr room ↦ leaves (rw room refl) (inl (ground (arith, add64_exact c.used bytes)))
  | inl over ↦ elim (Option-cases (find_victim c)) [
    | inl nobody ↦ leaves (ground arith) (inr (find_victim-none c nobody))
    | inr (v, victim) ↦
        let (e, found) = victim_found c v s victim in takes v e victim found (ground arith)
  ]
]

module _ (fuel : ℕ) (c : SliceCache) (bytes : ℕ) where
  stop_loop : make_room_round c bytes ≡ done c → make_room_loop (suc fuel) c bytes ≡ some c
  unfolding make_room_loop
  stop_loop h = ground arith

  go_on_loop :
      (c₁ : SliceCache)
      → make_room_round c bytes ≡ again c₁
      → make_room_loop (suc fuel) c bytes ≡ make_room_loop fuel c₁ bytes
  unfolding make_room_loop
  go_on_loop c₁ h = ground arith

make_room_loop_total :
    (fuel : ℕ) (c : SliceCache) (bytes : ℕ)
    → IsSound c
    → c.used + bytes < u64_mod
    → length c.lru < fuel
    → (c' : SliceCache) × (make_room_loop fuel c bytes ≡ some c') × Room bytes c c'
make_room_loop_total zero c bytes s w f = absurd (omega arith)
make_room_loop_total (suc fuel) c bytes s w f = elim (turn c bytes s w) [
  | leaves runs fits ↦
      (c, stop_loop fuel c bytes runs, record { sound = s; evicts = Evicts-refl c; fits = fits })
  | takes v e victim found runs ↦
      let (c', loops, room) =
        make_room_loop_total fuel (evict c v e) bytes (evict-IsSound c s v e found)
          (omega (arith, used-evict c s v e found))
          (omega (arith, length-evict c s v e victim found)) in
      (
        c',
        go_on_loop fuel c bytes (evict c v e) runs ∙ loops,
        record {
          sound = room.sound;
          evicts = Evicts-trans (evict-Evicts c s v e victim found) room.evicts;
          fits = room.fits;
        },
      )
]

-- On a sound cache `make_room_locked` ends without a fault, for any size within a machine word.
-- It only evicts: the cache stays sound, the limit and the shield stay, and the entries that
-- remain are unchanged. Then the slice fits under the cap, or the cache is empty. A shielded
-- entry is evicted only if no entry outside the shield remains.
pub make_room_locked_total :
    (c : SliceCache) (bytes : ℕ)
    → IsSound c
    → c.used + bytes < u64_mod
    → (c' : SliceCache) × (make_room_locked c bytes ≡ some c') × Room bytes c c'
unfolding make_room_locked
make_room_locked_total c bytes s w =
    make_room_loop_total (suc (length c.lru)) c bytes s w (omega arith)

-- What every eviction keeps, `make_room_locked` keeps.
module _ {ℓ} (P : SliceCache → Type ℓ)
    (keep : (c : SliceCache) (v : ℕ) (e : Entry)
      → IsSound c
      → find_victim c ≡ some v
      → lookup v c.map ≡ some e
      → P c
      → P (evict c v e)) where
  loop_keeps :
      (fuel : ℕ) (c : SliceCache) (bytes : ℕ) (c' : SliceCache)
      → IsSound c
      → c.used + bytes < u64_mod
      → P c
      → make_room_loop fuel c bytes ≡ some c'
      → P c'
  loop_keeps zero c bytes c' s w p h = absurd (unfold make_room_loop in cc)
  loop_keeps (suc fuel) c bytes c' s w p h = elim (turn c bytes s w) [
    | leaves runs fits ↦ let e : c ≡ c' = ground (arith, stop_loop fuel c bytes runs) in rw e at p
    | takes v e victim found runs ↦
        loop_keeps fuel (evict c v e) bytes c' (evict-IsSound c s v e found)
          (omega (arith, used-evict c s v e found)) (keep c v e s victim found p)
          (sym (go_on_loop fuel c bytes (evict c v e) runs) ∙ h)
  ]

  pub make_room_keeps :
      (c : SliceCache) (bytes : ℕ) (c' : SliceCache)
      → IsSound c
      → c.used + bytes < u64_mod
      → P c
      → make_room_locked c bytes ≡ some c'
      → P c'
  unfolding make_room_locked
  make_room_keeps c bytes c' s w p h = loop_keeps (suc (length c.lru)) c bytes c' s w p h
