-- ===== src/Cache/Invariant.antt =====
-- What `map_`, `lru_` and `used_` of the slice cache keep in common, and what an eviction does.
use caedral_notre_engine.Prelude.{
  ℕ, ◌+◌, ◌<◌, ◌≡◌, refl, true, List, [], ◌∷◌, none, some, nat_eq, arith, get_last?,
}
use caedral_notre_engine.Prelude.Words.{u64_mod, sub64_exact}
use caedral_notre_engine.Prelude.Assoc.{
  contains, lookup, has, erase, Distinct, DistinctKeys, contains-remove, remove-Distinct, has-erase,
  erase_absent, erase-DistinctKeys,
}
use caedral_notre_engine.Cache.Defs.{SliceCache, Entry, find_unshielded, find_victim, evict}

-- The bytes of the entries.
unfoldable pub total : List (ℕ × Entry) → ℕ
total [] = 0
total ((k, e) ∷ m) = e.bytes + total m

-- The list and the map hold the same keys, once each, and `used_` counts the entries' bytes.
pub record IsSound (c : SliceCache) : Type 0 where
  pub distinct_lru : Distinct c.lru
  pub distinct_map : DistinctKeys c.map
  pub same : (k : ℕ) → contains k c.lru ≡ has k c.map
  pub counted : c.used ≡ total c.map
  pub word : c.used < u64_mod

pub total-erase :
    (k : ℕ) (e : Entry) (m : List (ℕ × Entry))
    → DistinctKeys m
    → lookup k m ≡ some e
    → e.bytes + total (erase k m) ≡ total m
unfolding total lookup erase has
total-erase k e [] d h = cc
total-erase k e ((j, f) ∷ m) d h = ground (arith, total-erase k e m d.1, erase_absent k m)

find_unshielded-mem :
    (sh ks : List ℕ) (v : ℕ) → find_unshielded sh ks ≡ some v → contains v ks ≡ true
unfolding find_unshielded contains
find_unshielded-mem sh [] v h = cc
find_unshielded-mem sh (k ∷ ks) v h = ground (arith, find_unshielded-mem sh ks v)

get_last?-mem : (ks : List ℕ) (v : ℕ) → get_last? ks ≡ some v → contains v ks ≡ true
unfolding contains
get_last?-mem [] v h = cc
get_last?-mem (x ∷ []) v h = ground arith
get_last?-mem (x ∷ y ∷ ys) v h = ground (arith, get_last?-mem (y ∷ ys) v h)

get_last?_cons : (x : ℕ) (ks : List ℕ) → get_last? (x ∷ ks) ≡ none → x ∷ ks ≡ []
get_last?_cons x [] h = cc
get_last?_cons x (y ∷ ys) h = absurd (step (get_last?_cons y ys h))
  where
    step : y ∷ ys ≡ [] → ⊥
    step e = cc

pub find_victim-mem : (c : SliceCache) (v : ℕ) → find_victim c ≡ some v → contains v c.lru ≡ true
unfolding find_victim
find_victim-mem c v h = ground (arith, find_unshielded-mem c.shield c.lru v, get_last?-mem c.lru v)

last_of_cons : (ks : List ℕ) → get_last? ks ≡ none → ks ≡ []
last_of_cons [] h = refl
last_of_cons (x ∷ ks) h = get_last?_cons x ks h

pub find_victim-none : (c : SliceCache) → find_victim c ≡ none → c.lru ≡ []
unfolding find_victim
find_victim-none c h = ground (arith, last_of_cons c.lru)

module _ (c : SliceCache) (s : IsSound c) (v : ℕ) (e : Entry)
    (found : lookup v c.map ≡ some e) where
  pub used-evict : (evict c v e).used + e.bytes ≡ c.used
  unfolding evict
  used-evict =
      let freed = total-erase v e c.map s.distinct_map found in
      omega (arith, sub64_exact c.used e.bytes, s.counted, s.word)

  pub evict-IsSound : IsSound (evict c v e)
  unfolding evict
  evict-IsSound = record {
    distinct_lru = remove-Distinct v c.lru s.distinct_lru;
    distinct_map = erase-DistinctKeys v c.map s.distinct_map;
    same = λ k. ground (arith, contains-remove k v c.lru, has-erase k v c.map, s.same k);
    counted = omega (arith, used-evict, total-erase v e c.map s.distinct_map found, s.counted);
    word = omega (arith, used-evict, s.word);
  }
