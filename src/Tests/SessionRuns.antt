-- ===== src/Tests/SessionRuns.antt =====
-- The theorems on runtime/cne_session.cpp at small stores.
use caedral_notre_engine.Prelude.{
  ℕ, ◌≤◌, ◌≡◌, refl, not, List, [], ◌∷◌, none, some, arith, codes, Bytes, if◌then◌else◌, ◌==◌,
  bytes_eq, bytes_beq,
}
use caedral_notre_engine.Prelude.Assoc.{lookup, has}
use caedral_notre_engine.Session.Defs.{SessionSlot, SessionStore, count_owner}
use caedral_notre_engine.Session.Store.{Handle, slot, get_or_create, remove_session}
use caedral_notre_engine.Session.Prefill.{Prefill, session_prefill}
use caedral_notre_engine.Session.Invariant.{IsValid, uses}
use caedral_notre_engine.Session.Answer.{Outcome}
use caedral_notre_engine.Session.Access.{
  get_or_create_total, get_or_create_per_user, remove_session_total,
}
use caedral_notre_engine.Session.Aligned.{Aligned, session_prefill-Aligned}
use caedral_notre_engine.Tests.LlamaRuns.{Table, table_llama, table_llama-Lawful}

abbrev ann_slot : SessionSlot
ann_slot = record {
  id = codes "ann:1";
  owner = codes "ann";
  kv_tokens = 5 ∷ 6 ∷ 7 ∷ [];
  seq_id = some 0;
  last_tick = 1;
}

-- One slot, of a user who may have one; two lanes.
abbrev one_slot : SessionStore
one_slot = record {
  max_slots = 2;
  max_slots_per_user = 1;
  n_seq_cap = 2;
  seq_free = λ i. not (i == 0);
  tick = 1;
  slots = (codes "ann:1", ann_slot) ∷ [];
}

one_slot-IsValid : IsValid one_slot
unfolding has uses
one_slot-IsValid = record {
  keys = (refl, tt);
  lanes = ((0, refl, omega arith, refl), tt);
  free = λ i l. ground arith;
  bounded = omega arith;
  room = omega arith;
  capacity = omega arith;
}

-- Lane 0 holds the slot's tokens.
abbrev lanes : Table
lanes s = if s == 0 then 5 ∷ 6 ∷ 7 ∷ [] else []

get_or_create_total_example :
    (st' : SessionStore) × (ctx' : Table) × (h : Handle) × (get_or_create table_llama one_slot lanes
        (codes "bob:1")
        (codes "bob")
      ≡ some (st', ctx', h))
    × Outcome one_slot st' (codes "bob:1") (codes "bob") h
get_or_create_total_example =
    get_or_create_total table_llama one_slot lanes (codes "bob:1") (codes "bob") one_slot-IsValid

get_or_create_per_user_example :
    (st' : SessionStore) × (ctx' : Table) × (get_or_create table_llama one_slot lanes
        (codes "ann:2")
        (codes "ann")
      ≡ some (st', ctx', slot (codes "ann:2")))
    × (count_owner (codes "ann") st'.slots ≤ 1)
get_or_create_per_user_example =
    get_or_create_per_user table_llama one_slot lanes (codes "ann:2") (codes "ann") one_slot-IsValid
      (unfold lookup bytes_beq in refl) refl (omega arith)

remove_session_total_example :
    IsValid (remove_session table_llama one_slot lanes (codes "ann:1")).0
    × (lookup (codes "ann:1") (remove_session table_llama one_slot lanes (codes "ann:1")).0.slots
        ≡ none)
    × ((k : Bytes) (t : SessionSlot)
        → lookup k (remove_session table_llama one_slot lanes (codes "ann:1")).0.slots ≡ some t
        → lookup k one_slot.slots ≡ some t)
remove_session_total_example =
    remove_session_total table_llama one_slot lanes (codes "ann:1") one_slot-IsValid

session_prefill-Aligned_example :
    (r : Prefill Table) × (session_prefill table_llama 2 lanes ann_slot (5 ∷ 6 ∷ 9 ∷ []) ≡ some r)
    × Aligned table_llama (λ c s. c s) table_llama-Lawful 0 (5 ∷ 6 ∷ 9 ∷ []) r
session_prefill-Aligned_example =
    session_prefill-Aligned table_llama (λ c s. c s) table_llama-Lawful 0 lanes ann_slot 0 5
      (6 ∷ 9 ∷ []) refl refl (λ h. refl)

abbrev held_tokens : List ℕ
held_tokens = 5 ∷ 6 ∷ 7 ∷ []

abbrev new_prompt : List ℕ
new_prompt = 5 ∷ 6 ∷ 9 ∷ []
