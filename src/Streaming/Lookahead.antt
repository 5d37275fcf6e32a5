-- ===== src/Streaming/Lookahead.antt =====
-- The speculation of runtime/cne_stream_cb.cpp: the routing of this step and of the one before it,
-- the queue of the prefetch worker, and the hooks of the generation loop. What the callback and the
-- worker do under `g_pi_mu` is one step each. A step number of -1 is `none`.
use caedral_notre_engine.Prelude.{
  ℕ, zero, suc, Bool, true, false, not, List, [], ◌∷◌, ◌++◌, Option, none, some, Bytes, ◌==◌,
  if◌then◌else◌, bytes_eq,
}
use caedral_notre_engine.Prelude.Assoc.{lookup, assign, contains}
use caedral_notre_engine.Streaming.Names.{node_rank, rank_name}

pub data PfMode : Type 0 where
  off full lookahead : PfMode

pub record PrefetchItem : Type 0 where
  pub name : Bytes
  pub ids : List ℕ

abbrev pub Routing : Type 0
Routing = List (Bytes × List ℕ)

-- `step_ids` is `g_step_ids`, a map for each value of `id_slot`.
pub record Speculation : Type 0 where
  pub pf_mode : PfMode
  pub step : Option ℕ
  pub id_slot : Bool
  pub step_ids : Bool → Routing
  pub looked : List Bytes
  pub looked_step : Option ℕ
  pub queue : List PrefetchItem
  pub stop : Bool

abbrev pub same_step : Option ℕ → Option ℕ → Bool
same_step none none = true
same_step (some i) (some j) = i == j
same_step s t = false

abbrev pub is_lookahead : PfMode → Bool
is_lookahead lookahead = true
is_lookahead m = false

abbrev pub is_full : PfMode → Bool
is_full full = true
is_full m = false

abbrev pub is_off : PfMode → Bool
is_off off = true
is_off m = false

-- The slot that is written, and the one of the step before.
abbrev pub current : Speculation → Routing
current s = s.step_ids s.id_slot

abbrev pub previous : Speculation → Routing
previous s = s.step_ids (not s.id_slot)

abbrev pub write_slot : (Bool → Routing) → Bool → Routing → Bool → Routing
write_slot m true r true = r
write_slot m true r false = m false
write_slot m false r true = m true
write_slot m false r false = r

-- `g_step_ids[g_id_slot][name] = v`, unless speculation is off.
unfoldable pub record_ids : Bytes → List ℕ → Speculation → Speculation
unfolding assign
record_ids name v s =
    if is_off s.pf_mode
    then s
    else record s { step_ids = write_slot s.step_ids s.id_slot (assign name v (current s)) }

-- Speculate one node.
unfoldable pub push_item : Bytes → List ℕ → Speculation → Speculation
push_item rn ids s = record s {
  looked = rn ∷ s.looked;
  queue = s.queue ++ (record { name = rn; ids = ids } ∷ []);
}

-- One round of the loop of `lookahead_push`.
unfoldable pub look_at : Bytes → Speculation → Speculation
unfolding lookup contains push_item
look_at rn s = elim (lookup rn (previous s)) [
  | none ↦ s
  | some [] ↦ s
  | some (e ∷ es) ↦ if contains rn s.looked then s else push_item rn (e ∷ es) s
]

-- The nodes from `rank` on, `n` of them.
unfoldable pub look_ahead : ℕ → ℕ → Speculation → Speculation
unfolding look_at rank_name
look_ahead zero rank s = s
look_ahead (suc n) rank s = look_ahead n (suc rank) (look_at (rank_name rank) s)

-- A new step: nothing is speculated yet.
unfoldable pub open_step : Speculation → Speculation
open_step s =
    if same_step s.looked_step s.step then s else record s { looked_step = s.step; looked = [] }

abbrev pub lookahead_nodes : ℕ
lookahead_nodes = 6

unfoldable pub lookahead_push : Bytes → Speculation → Speculation
unfolding node_rank look_ahead open_step
lookahead_push name s = if not (is_lookahead s.pf_mode) then s else elim (node_rank name) [
  | none ↦ s
  | some rank ↦ look_ahead lookahead_nodes (suc rank) (open_step s)
]

unfoldable pub stream_set_step : Option ℕ → Speculation → Speculation
stream_set_step i s = record s { step = i }

-- `stream_step_boundary` behind the trim of the mappings.
unfoldable pub stream_step_boundary : Speculation → Speculation
stream_step_boundary s = record s {
  id_slot = not s.id_slot;
  step_ids = write_slot s.step_ids (not s.id_slot) [];
  looked = [];
  looked_step = none;
}

-- The nodes with ids, in the order of the map.
unfoldable pub routed_items : Routing → List PrefetchItem
routed_items [] = []
routed_items ((nm, []) ∷ r) = routed_items r
routed_items ((nm, e ∷ es) ∷ r) = record { name = nm; ids = e ∷ es } ∷ routed_items r

-- `order` is the order in which the unordered map is gone through.
unfoldable pub stream_prefetch_kick_full : (Routing → Routing) → Speculation → Speculation
unfolding routed_items
stream_prefetch_kick_full order s =
    if not (is_full s.pf_mode) then s else record s { queue = routed_items (order (current s)) }

unfoldable pub stream_prefetch_stop : Speculation → Speculation
stream_prefetch_stop s = record s { stop = true }

-- What the worker does when it has the lock: it waits, returns, or takes the next item.
pub data Woken : Type 0 where
  waits : Woken
  returns : Woken
  takes : PrefetchItem → Speculation → Woken

unfoldable pub prefetch_wake : Speculation → Woken
prefetch_wake s = elim s.queue [
  | [] ↦ if s.stop then returns else waits
  | it ∷ q ↦ takes it (record s { queue = q })
]
