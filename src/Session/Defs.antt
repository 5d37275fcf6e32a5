-- ===== src/Session/Defs.antt =====
-- `SessionSlot` and `SessionStore`: runtime/cne_session.h, and the store's operations in
-- runtime/cne_session.cpp. `llama_seq_id` -1 is `none`; `seq_free_` is read below `n_seq_cap_` only.
use caedral_notre_engine.Prelude.{
  ℕ, zero, suc, ◌+◌, Bool, true, false, List, [], ◌∷◌, Option, none, some, Bytes, bytes_beq,
  bytes_eq, ltb, ◌==◌, if◌then◌else◌,
}

pub record SessionSlot : Type 0 where
  pub id : Bytes
  pub owner : Bytes
  pub kv_tokens : List ℕ
  pub seq_id : Option ℕ
  pub last_tick : ℕ

pub record SessionStore : Type 0 where
  pub max_slots : ℕ
  pub max_slots_per_user : ℕ
  pub n_seq_cap : ℕ
  pub seq_free : ℕ → Bool
  pub tick : ℕ
  pub slots : List (Bytes × SessionSlot)

-- The constructor.
unfoldable pub new_store : ℕ → SessionStore
new_store max_slots = record {
  max_slots = if max_slots == 0 then 1 else max_slots;
  max_slots_per_user = 0;
  n_seq_cap = 1;
  seq_free = λ _. true;
  tick = 0;
  slots = [];
}

abbrev pub is_empty : Bytes → Bool
is_empty [] = true
is_empty (c ∷ cs) = false

unfoldable pub update : (ℕ → Bool) → ℕ → Bool → ℕ → Bool
update f i b j = if j == i then b else f j

-- The loop of `set_seq_capacity` over the slots.
unfoldable pub mark_taken : ℕ → List (Bytes × SessionSlot) → (ℕ → Bool) → ℕ → Bool
mark_taken n [] free = free
mark_taken n ((k, s) ∷ m) free = elim s.seq_id [
  | none ↦ mark_taken n m free
  | some i ↦ mark_taken n m (if ltb i n then update free i false else free)
]

unfoldable pub set_seq_capacity : SessionStore → ℕ → SessionStore
unfolding mark_taken update
set_seq_capacity st n_seq_max =
    let n = if n_seq_max == 0 then 1 else n_seq_max in
    record st { n_seq_cap = n; seq_free = mark_taken n st.slots (λ _. true) }

unfoldable pub set_max_slots_per_user : SessionStore → ℕ → SessionStore
set_max_slots_per_user st n = record st { max_slots_per_user = n }

-- `for (i = start; i < n_seq_cap_; i++)`, by the rounds left.
unfoldable pub first_free : ℕ → ℕ → (ℕ → Bool) → Option ℕ
first_free zero i free = none
first_free (suc rounds) i free =
    let rest = first_free rounds (i + 1) free in if free i then some i else rest

unfoldable pub alloc_seq : SessionStore → SessionStore × Option ℕ
unfolding first_free update
alloc_seq st = elim (first_free st.n_seq_cap 0 st.seq_free) [
  | none ↦ (st, none)
  | some i ↦ (record st { seq_free = update st.seq_free i false }, some i)
]

unfoldable pub free_seq : SessionStore → Option ℕ → SessionStore
unfolding update
free_seq st none = st
free_seq st (some i) =
    if ltb i st.n_seq_cap then record st { seq_free = update st.seq_free i true } else st

unfoldable pub count_owner : Bytes → List (Bytes × SessionSlot) → ℕ
count_owner owner [] = 0
count_owner owner ((k, s) ∷ m) =
    if bytes_beq s.owner owner then suc (count_owner owner m) else count_owner owner m

unfoldable pub count_for_owner : SessionStore → Bytes → ℕ
unfolding count_owner
count_for_owner st owner = if is_empty owner then 0 else count_owner owner st.slots

-- The scan for the least `last_tick`, the first one of several.
unfoldable pub oldest_from : Bytes × SessionSlot → List (Bytes × SessionSlot) → Bytes × SessionSlot
oldest_from best [] = best
oldest_from best (x ∷ xs) = oldest_from (if ltb x.1.last_tick best.1.last_tick then x else best) xs

unfoldable pub oldest : List (Bytes × SessionSlot) → Option (Bytes × SessionSlot)
unfolding oldest_from
oldest [] = none
oldest (x ∷ xs) = some (oldest_from x xs)

unfoldable pub owned_by : Bytes → List (Bytes × SessionSlot) → List (Bytes × SessionSlot)
owned_by owner [] = []
owned_by owner (x ∷ xs) =
    if bytes_beq x.1.owner owner then x ∷ owned_by owner xs else owned_by owner xs
