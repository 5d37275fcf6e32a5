-- ===== src/Prelude/Assoc.antt =====
-- Sets and maps over a type with equality: a list of keys, a list of pairs with distinct keys.
use Prim.Native.Nat.{suc, ◌≤◌, ◌<◌}
use mathlib.Core.Path.{◌≡◌, refl}
use mathlib.Core.Bool.{Bool, true, false}
use mathlib.Core.Logic.{inl, inr}
use mathlib.Core.List.{List, [], ◌∷◌}
use mathlib.Core.Option.{Option, none, some}
use native.Mathlib.Omega.{arith}
use caedral_notre_engine.Prelude.Tests.{Eq, if◌then◌else◌, Bool-cases}
use caedral_notre_engine.Prelude.Lists.{length}

module _ {ℓ} {A : Type ℓ} ⦃e : Eq A⦄ where
  unfoldable pub contains : A → List A → Bool
  contains a [] = false
  contains a (x ∷ xs) = if e.beq x a then true else contains a xs

  -- `list.remove(a)` and `set.erase(a)`: every occurrence goes.
  unfoldable pub remove : A → List A → List A
  remove a [] = []
  remove a (x ∷ xs) = let rest = remove a xs in if e.beq x a then rest else x ∷ rest

  -- `set.insert(a)`.
  unfoldable pub insert : A → List A → List A
  insert a xs = if contains a xs then xs else a ∷ xs

  abbrev pub Distinct : List A → Type 0
  Distinct [] = Unit {0}
  Distinct (x ∷ xs) = (contains x xs ≡ false) × Distinct xs

module _ {ℓ} {A : Type ℓ} ⦃e : Eq A⦄ where
  pub beq_refl : (a : A) → e.beq a a ≡ true
  beq_refl a = (e.beq_iff a a).1 refl

  pub contains-remove :
      (a b : A) (xs : List A)
      → contains a (remove b xs) ≡ (if e.beq b a then false else contains a xs)
  unfolding contains remove
  contains-remove a b [] = ground arith
  contains-remove a b (x ∷ xs) =
      ground (arith, contains-remove a b xs, e.beq_iff b a, e.beq_iff x b, e.beq_iff x a)

  pub contains-insert :
      (a b : A) (xs : List A)
      → contains a (insert b xs) ≡ (if e.beq b a then true else contains a xs)
  unfolding insert contains
  contains-insert a b xs = ground (arith, e.beq_iff b a)

  pub remove-Distinct : (a : A) (xs : List A) → Distinct xs → Distinct (remove a xs)
  unfolding remove
  remove-Distinct a [] h = tt
  remove-Distinct a (x ∷ xs) h =
      ground (arith, remove-Distinct a xs h.1, contains-remove x a xs, e.beq_iff x a, e.beq_iff a x)

  pub remove_absent : (a : A) (xs : List A) → contains a xs ≡ false → remove a xs ≡ xs
  unfolding contains remove
  remove_absent a [] h = refl
  remove_absent a (x ∷ xs) h = ground (arith, remove_absent a xs)

  pub length-remove-le : (a : A) (xs : List A) → length (remove a xs) ≤ length xs
  unfolding remove
  length-remove-le a [] = omega arith
  length-remove-le a (x ∷ xs) = ground (arith, length-remove-le a xs)

  pub length-remove-lt :
      (a : A) (xs : List A) → contains a xs ≡ true → length (remove a xs) < length xs
  unfolding contains remove
  length-remove-lt a [] h = absurd (ground arith)
  length-remove-lt a (x ∷ xs) h = ground (arith, length-remove-lt a xs, length-remove-le a xs)

module _ {ℓ κ} {K : Type ℓ} {V : Type κ} ⦃e : Eq K⦄ where
  unfoldable pub lookup : K → List (K × V) → Option V
  lookup k [] = none
  lookup k ((j, v) ∷ m) = if e.beq j k then some v else lookup k m

  unfoldable pub has : K → List (K × V) → Bool
  has k [] = false
  has k ((j, v) ∷ m) = if e.beq j k then true else has k m

  unfoldable pub erase : K → List (K × V) → List (K × V)
  erase k [] = []
  erase k ((j, v) ∷ m) = let rest = erase k m in if e.beq j k then rest else (j, v) ∷ rest

  -- `map[k] = v`: in place where the key is present, else a new entry.
  unfoldable pub assign : K → V → List (K × V) → List (K × V)
  assign k v [] = (k, v) ∷ []
  assign k v ((j, w) ∷ m) =
      let rest = assign k v m in if e.beq j k then (j, v) ∷ m else (j, w) ∷ rest

  abbrev pub DistinctKeys : List (K × V) → Type 0
  DistinctKeys [] = Unit {0}
  DistinctKeys ((k, v) ∷ m) = (has k m ≡ false) × DistinctKeys m

module _ {ℓ κ} {K : Type ℓ} {V : Type κ} ⦃e : Eq K⦄ where
  pub lookup_of_has : (k : K) (m : List (K × V)) → has k m ≡ true → (v : V) × (lookup k m ≡ some v)
  unfolding has lookup
  lookup_of_has k [] h = absurd (ground arith)
  lookup_of_has k ((j, v) ∷ m) h = elim (Bool-cases (e.beq j k)) [
    | inl y ↦ (v, rw y refl)
    | inr n ↦ rw n (lookup_of_has k m (ground arith))
  ]

  pub has_of_lookup : (k : K) (m : List (K × V)) (v : V) → lookup k m ≡ some v → has k m ≡ true
  unfolding has lookup
  has_of_lookup k [] v h = cc
  has_of_lookup k ((j, w) ∷ m) v h = ground (arith, has_of_lookup k m v)

  pub lookup_absent : (k : K) (m : List (K × V)) → has k m ≡ false → lookup k m ≡ none
  unfolding has lookup
  lookup_absent k [] h = refl
  lookup_absent k ((j, v) ∷ m) h = ground (arith, lookup_absent k m)

  pub has-erase :
      (k j : K) (m : List (K × V)) → has k (erase j m) ≡ (if e.beq j k then false else has k m)
  unfolding has erase
  has-erase k j [] = ground arith
  has-erase k j ((i, v) ∷ m) =
      ground (arith, has-erase k j m, e.beq_iff j k, e.beq_iff i j, e.beq_iff i k)

  pub lookup-erase :
      (k j : K) (m : List (K × V)) → lookup k (erase j m) ≡ (if e.beq j k then none else lookup k m)
  unfolding lookup erase
  lookup-erase k j [] = ground arith
  lookup-erase k j ((i, v) ∷ m) =
      ground (arith, lookup-erase k j m, e.beq_iff j k, e.beq_iff i j, e.beq_iff i k)

  pub erase_absent : (k : K) (m : List (K × V)) → has k m ≡ false → erase k m ≡ m
  unfolding has erase
  erase_absent k [] h = refl
  erase_absent k ((i, v) ∷ m) h = ground (arith, erase_absent k m)

  pub erase-DistinctKeys : (k : K) (m : List (K × V)) → DistinctKeys m → DistinctKeys (erase k m)
  unfolding erase
  erase-DistinctKeys k [] h = tt
  erase-DistinctKeys k ((i, v) ∷ m) h =
      ground (arith, erase-DistinctKeys k m h.1, has-erase i k m, e.beq_iff k i, e.beq_iff i k)

  pub lookup-assign :
      (k j : K) (v : V) (m : List (K × V))
      → lookup k (assign j v m) ≡ (if e.beq j k then some v else lookup k m)
  unfolding lookup assign
  lookup-assign k j v [] = refl
  lookup-assign k j v ((i, w) ∷ m) =
      ground (arith, lookup-assign k j v m, e.beq_iff j k, e.beq_iff i j, e.beq_iff i k)

  pub length-erase-lt : (k : K) (m : List (K × V)) → has k m ≡ true → length (erase k m) < length m
  unfolding has erase
  length-erase-lt k [] h = absurd (ground arith)
  length-erase-lt k ((i, v) ∷ m) h = ground (arith, length-erase-lt k m, length-erase-le k m)
    where
      length-erase-le : (k : K) (m : List (K × V)) → length (erase k m) ≤ length m
      length-erase-le k [] = omega arith
      length-erase-le k ((j, w) ∷ m) = ground (arith, length-erase-le k m)

module _ {ℓ κ} {K : Type ℓ} {V : Type κ} ⦃e : Eq K⦄ where
  pub has-assign :
      (k j : K) (v : V) (m : List (K × V))
      → has k (assign j v m) ≡ (if e.beq j k then true else has k m)
  unfolding has assign
  has-assign k j v [] = refl
  has-assign k j v ((i, w) ∷ m) =
      ground (arith, has-assign k j v m, e.beq_iff j k, e.beq_iff i j, e.beq_iff i k)

  pub assign-DistinctKeys :
      (k : K) (v : V) (m : List (K × V)) → DistinctKeys m → DistinctKeys (assign k v m)
  unfolding assign has
  assign-DistinctKeys k v [] d = (refl, tt)
  assign-DistinctKeys k v ((i, w) ∷ m) d =
      ground
        (arith, assign-DistinctKeys k v m d.1, has-assign i k v m, e.beq_iff k i, e.beq_iff i k)

  pub length-assign_new :
      (k : K) (v : V) (m : List (K × V)) → has k m ≡ false → length (assign k v m) ≡ suc (length m)
  unfolding assign has
  length-assign_new k v [] h = refl
  length-assign_new k v ((i, w) ∷ m) h = ground (arith, length-assign_new k v m)

  pub length-assign_old :
      (k : K) (v : V) (m : List (K × V)) → has k m ≡ true → length (assign k v m) ≡ length m
  unfolding assign has
  length-assign_old k v [] h = absurd (ground arith)
  length-assign_old k v ((i, w) ∷ m) h = ground (arith, length-assign_old k v m)

  pub has_of_none : (k : K) (m : List (K × V)) → lookup k m ≡ none → has k m ≡ false
  unfolding has lookup
  has_of_none k [] h = refl
  has_of_none k ((i, w) ∷ m) h = ground (arith, has_of_none k m)
