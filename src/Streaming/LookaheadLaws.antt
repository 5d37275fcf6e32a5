-- ===== src/Streaming/LookaheadLaws.antt =====
-- What the speculation of runtime/cne_stream_cb.cpp enqueues.
use caedral_notre_engine.Prelude.{
  ℕ, zero, suc, ◌≡◌, refl, sym, ap, ◌∙◌, Bool, true, false, not, List, [], ◌∷◌, ◌++◌, Option, none,
  some, Bytes, map, reverse, ◌⊎◌, if◌then◌else◌, bytes_eq, Bool-cases, Option-cases, inl, inr, All,
  arith, ◌≢◌,
}
use mathlib.Core.List.{append_assoc, reverse_aux-eq, append-nil}
use mathlib.Core.Path.{subst}
use caedral_notre_engine.Prelude.Assoc.{lookup, contains, Distinct}
use caedral_notre_engine.Streaming.Names.{node_rank, rank_name}
use caedral_notre_engine.Streaming.Lookahead.{
  PrefetchItem, Speculation, previous, push_item, look_at, look_ahead, open_step, same_step,
  lookahead_push, is_lookahead, is_off, write_slot, current, prefetch_wake, takes, record_ids,
  waits, returns, stream_step_boundary, lookahead_nodes, Routing,
}

-- An item is a node with the routing that it had in the step before.
abbrev pub WasRouted : Routing → PrefetchItem → Type 0
WasRouted prev it = (lookup it.name prev ≡ some it.ids) × (it.ids ≢ [])

-- What the callback and the worker do between two step boundaries, in any order; the worker's items
-- are kept in `taken`.
pub data Between : List PrefetchItem → Speculation → List PrefetchItem → Speculation → Type 0 where
  pushes :
      (taken : List PrefetchItem) (s : Speculation) (name : Bytes)
      → Between taken s taken (lookahead_push name s)
  records :
      (taken : List PrefetchItem) (s : Speculation) (name : Bytes) (ids : List ℕ)
      → Between taken s taken (record_ids name ids s)
  works :
      (taken : List PrefetchItem) (s s' : Speculation) (it : PrefetchItem)
      → prefetch_wake s ≡ takes it s'
      → Between taken s (taken ++ (it ∷ [])) s'

pub data Betweens : List PrefetchItem → Speculation → List PrefetchItem → Speculation → Type 0 where
  stays : (taken : List PrefetchItem) (s : Speculation) → Betweens taken s taken s
  goes :
      {t t' t'' : List PrefetchItem} {s s' s'' : Speculation}
      → Between t s t' s'
      → Betweens t' s' t'' s''
      → Betweens t s t'' s''

abbrev pub item_name : PrefetchItem → Bytes
item_name it = it.name

-- The books of a step: `items` are the ones enqueued in it behind the queue `q`, the last one first,
-- each node once, with the routing `prev`; `looked` holds their names.
pub record StepBooks (q : List PrefetchItem) (prev : Routing) (taken : List PrefetchItem)
    (s : Speculation) : Type 0 where
  pub items : List PrefetchItem
  pub queued : taken ++ s.queue ≡ q ++ reverse items
  pub names : s.looked ≡ map item_name items
  pub once : Distinct s.looked
  pub routed : All (WasRouted prev) items
  pub source : previous s ≡ prev
  pub opened : (items ≡ []) ⊎ (same_step s.looked_step s.step ≡ true)

same_step_refl : (o : Option ℕ) → same_step o o ≡ true
same_step_refl none = refl
same_step_refl (some i) = ground arith

module _ (q : List PrefetchItem) (prev : Routing) (taken : List PrefetchItem) where
  -- The books of a step that `open_step` has opened.
  abbrev Opened : Speculation → Type 0
  Opened s = StepBooks q prev taken s × (same_step s.looked_step s.step ≡ true)

  open_step_books : (s : Speculation) → StepBooks q prev taken s → Opened (open_step s)
  unfolding open_step
  open_step_books s b = elim (Bool-cases (same_step s.looked_step s.step)) [
    | inl y ↦ rw y (b, y)
    | inr n ↦ rw n (fresh n b.opened, same_step_refl s.step)
  ]
    where
      fresh :
          same_step s.looked_step s.step ≡ false
          → (b.items ≡ []) ⊎ (same_step s.looked_step s.step ≡ true)
          → StepBooks q prev taken (record s { looked_step = s.step; looked = [] })
      fresh n (inr y) = absurd (ground arith)
      fresh n (inl e) = record {
        items = [];
        queued = rw e at b.queued;
        names = refl;
        once = tt;
        routed = tt;
        source = b.source;
        opened = inl refl;
      }

  push_item_books :
      (s : Speculation) (rn : Bytes) (e : ℕ) (es : List ℕ)
      → Opened s
      → lookup rn (previous s) ≡ some (e ∷ es)
      → contains rn s.looked ≡ false
      → Opened (push_item rn (e ∷ es) s)
  unfolding push_item
  push_item_books s rn e es (b, o) l c = (
    record {
      items = record { name = rn; ids = e ∷ es } ∷ b.items;
      queued =
          sym (append_assoc taken s.queue _)
          ∙ ap (λ l. l ++ (record { name = rn; ids = e ∷ es } ∷ [])) b.queued
          ∙ append_assoc q (reverse b.items) _
          ∙ ap (λ l. q ++ l) (sym (reverse_aux-eq b.items _));
      names = ap (◌∷◌ rn) b.names;
      once = (c, b.once);
      routed = ((subst (λ r. lookup rn r ≡ some (e ∷ es)) b.source l, λ h. ground arith), b.routed);
      source = b.source;
      opened = inr o;
    },
    o,
  )

  look_at_books : (s : Speculation) (rn : Bytes) → Opened s → Opened (look_at rn s)
  unfolding look_at
  look_at_books s rn b = elim (Option-cases (lookup rn (previous s))) [
    | inl e ↦ rw (look_at, e) b
    | inr ([], e) ↦ rw (look_at, e) b
    | inr (x ∷ xs, e) ↦ elim (Bool-cases (contains rn s.looked)) [
      | inl y ↦ rw (look_at, e, y) b
      | inr n ↦ rw (look_at, e, n) (push_item_books s rn x xs b e n)
    ]
  ]

  look_ahead_books : (n rank : ℕ) (s : Speculation) → Opened s → Opened (look_ahead n rank s)
  unfolding look_ahead
  look_ahead_books zero rank s b = b
  look_ahead_books (suc n) rank s b =
      look_ahead_books n (suc rank) (look_at (rank_name rank) s)
        (look_at_books s (rank_name rank) b)

  lookahead_push_books :
      (s : Speculation) (name : Bytes)
      → StepBooks q prev taken s
      → StepBooks q prev taken (lookahead_push name s)
  unfolding lookahead_push
  lookahead_push_books s name b = elim (Bool-cases (is_lookahead s.pf_mode)) [
    | inr n ↦ rw n b
    | inl y ↦ elim (Option-cases (node_rank name)) [
      | inl e ↦ rw (y, e) b
      | inr (rank, e) ↦
          rw (y, e)
            (look_ahead_books lookahead_nodes (suc rank) (open_step s) (open_step_books s b)).0
    ]
  ]

write_slot_other :
    (m : Bool → Routing) (b : Bool) (r : Routing) → write_slot m b r (not b) ≡ m (not b)
write_slot_other m true r = refl
write_slot_other m false r = refl

write_slot_back :
    (m : Bool → Routing) (b : Bool) (r : Routing) → write_slot m (not b) r (not (not b)) ≡ m b
write_slot_back m true r = refl
write_slot_back m false r = refl

no_take :
    (b : Bool) (it : PrefetchItem) (s : Speculation) → (if b then returns else waits) ≢ takes it s
no_take true it s h = cc
no_take false it s h = cc

takes_inj : {i j : PrefetchItem} {s t : Speculation} → takes i s ≡ takes j t → (i ≡ j) × (s ≡ t)
takes_inj h = (cc, cc)

wake_takes :
    (s s' : Speculation) (it : PrefetchItem) (l : List PrefetchItem)
    → s.queue ≡ l
    → prefetch_wake s ≡ takes it s'
    → (rest : List PrefetchItem) × (s.queue ≡ it ∷ rest) × (record s { queue = rest } ≡ s')
unfolding prefetch_wake
wake_takes s s' it [] e h = absurd (no_take s.stop it s' (rw (prefetch_wake, e) at h))
wake_takes s s' it (j ∷ rest) e h =
    let (same, next) = takes_inj (rw (prefetch_wake, e) at h) in
    (rest, e ∙ ap (λ x. x ∷ rest) same, next)

module _ (q : List PrefetchItem) (prev : Routing) where
  record_ids_books :
      (taken : List PrefetchItem) (s : Speculation) (name : Bytes) (ids : List ℕ)
      → StepBooks q prev taken s
      → StepBooks q prev taken (record_ids name ids s)
  unfolding record_ids
  record_ids_books taken s name ids b = elim (Bool-cases (is_off s.pf_mode)) [
    | inl y ↦ rw y b
    | inr n ↦ rw n (record {
      items = b.items;
      queued = b.queued;
      names = b.names;
      once = b.once;
      routed = b.routed;
      source = write_slot_other s.step_ids s.id_slot _ ∙ b.source;
      opened = b.opened;
    })
  ]

  prefetch_wake_books :
      (taken : List PrefetchItem) (s s' : Speculation) (it : PrefetchItem)
      → prefetch_wake s ≡ takes it s'
      → StepBooks q prev taken s
      → StepBooks q prev (taken ++ (it ∷ [])) s'
  unfolding prefetch_wake
  prefetch_wake_books taken s s' it e b =
      let (rest, head, next) = wake_takes s s' it s.queue refl e in
      subst (StepBooks q prev (taken ++ (it ∷ []))) next (record {
        items = b.items;
        queued = append_assoc taken (it ∷ []) rest ∙ ap (λ l. taken ++ l) (sym head) ∙ b.queued;
        names = b.names;
        once = b.once;
        routed = b.routed;
        source = b.source;
        opened = b.opened;
      })

  Between-books :
      {t t' : List PrefetchItem} {s s' : Speculation}
      → Between t s t' s'
      → StepBooks q prev t s
      → StepBooks q prev t' s'
  Between-books (pushes t s name) b = lookahead_push_books q prev t s name b
  Between-books (records t s name ids) b = record_ids_books t s name ids b
  Between-books (works t s s' it e) b = prefetch_wake_books t s s' it e b

  betweens_books :
      {t t' : List PrefetchItem} {s s' : Speculation}
      → Betweens t s t' s'
      → StepBooks q prev t s
      → StepBooks q prev t' s'
  betweens_books (stays t s) b = b
  betweens_books (goes g gs) b = betweens_books gs (Between-books g b)

boundary_books : (s : Speculation) → StepBooks s.queue (current s) [] (stream_step_boundary s)
unfolding stream_step_boundary
boundary_books s = record {
  items = [];
  queued = sym (append-nil s.queue);
  names = refl;
  once = tt;
  routed = tt;
  source = write_slot_back s.step_ids s.id_slot [];
  opened = inl refl;
}

-- From a step boundary on, in whatever order the callback records and speculates and the worker takes
-- items: the items enqueued are nodes with the routing that the step before the boundary recorded,
-- none of them empty and no node twice, and what the worker has taken and what is still queued are
-- the old queue followed by these items, in their order.
pub lookahead_once :
    (s s' : Speculation) (taken : List PrefetchItem)
    → Betweens [] (stream_step_boundary s) taken s'
    → StepBooks s.queue (current s) taken s'
lookahead_once s s' taken steps = betweens_books s.queue (current s) steps (boundary_books s)
