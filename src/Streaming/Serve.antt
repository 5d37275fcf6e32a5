-- ===== src/Streaming/Serve.antt =====
-- The node that the callback of runtime/cne_stream_cb.cpp serves: the matrix product of the experts.
use caedral_notre_engine.Prelude.{
  ℕ, ◌+◌, ◌*◌, Bool, true, false, not, ◌&&◌, ◌||◌, List, [], ◌∷◌, Option, none, some, Bytes, ltb,
  ◌==◌, if◌then◌else◌, nat_eq, bytes_eq, length,
}
use caedral_notre_engine.Prelude.Assoc.{lookup, has, assign}
use caedral_notre_engine.Gguf.Classify.{parse_layer_index}
use caedral_notre_engine.Cache.Defs.{SliceCache}
use caedral_notre_engine.Cache.Ops.{Source}
use caedral_notre_engine.Cache.Batch.{SliceWindow, touch_batch, touch_batch_at}
use caedral_notre_engine.Streaming.Lookahead.{record_ids, lookahead_push}
use caedral_notre_engine.Streaming.Router.{read_ids_strided}
use caedral_notre_engine.Streaming.Callback.{
  Window, Src, Node, Stream, routed_name, bytes_per_expert, ensure_window,
}

abbrev slice_window : Bytes → Window → SliceWindow
slice_window name win = record { tensor = name; base = win.base; bytes = bytes_per_expert win.ti }

-- The bytes of an expert's slice in the original mapping.
abbrev slice_source : Window → ℕ → ℕ → ℕ
slice_source win e i = elim win.orig [
  | none ↦ 0
  | some content ↦ content (e * bytes_per_expert win.ti + i)
]

abbrev pub points_at : Option ℕ → ℕ → Bool
points_at none base = false
points_at (some b) base = b == base

abbrev pub max_ids : ℕ
max_ids = 8192

module _ {ℓ} {F : Type ℓ} where
  -- The loop over the sources of a matrix product: the weight and the ids.
  unfoldable pub find_operands :
      Stream F → List Src → Option Src → Option Src → Option Src × Option Src
  unfolding has routed_name
  find_operands g [] w ids = (w, ids)
  find_operands g (s ∷ ss) w none =
      if s.tensor.is_i32
      then find_operands g ss w (some s)
      else find_operands g ss
          (elim w [
            | some x ↦ some x
            | none ↦
                if has s.tensor.name g.windows || routed_name s.tensor.name g.tensors
                then some s
                else none
          ])
          none
  find_operands g (s ∷ ss) (some w) (some ids) = find_operands g ss (some w) (some ids)
  find_operands g (s ∷ ss) none (some ids) =
      if has s.tensor.name g.windows || routed_name s.tensor.name g.tensors
      then find_operands g ss (some s) (some ids)
      else find_operands g ss none (some ids)

  -- The cache behind a fill, which is counted.
  unfoldable pub count_fill : Option (SliceCache × ℕ) → Stream F → Option (Stream F)
  count_fill none g = none
  count_fill (some (c, misses)) g = some (record g { cache = c; fill_calls = g.fill_calls + 1 })

module _ {ℓ} {F : Type ℓ} (order : List ℕ → List ℕ) (source : Source) where
  -- The fill of the slices that are asked for.
  unfoldable pub serve_fill : Bytes → Window → List ℕ → Stream F → Option (Stream F)
  unfolding touch_batch touch_batch_at count_fill
  serve_fill name win v g =
      if g.full_fill
      then some g
      else count_fill
          (if g.use_odirect
            then touch_batch_at order source g.cache (slice_window name win) v win.file_off
            else touch_batch order source g.cache (slice_window name win) v (slice_source win))
          g

  -- The tensor's pointer is moved to the window, once.
  unfoldable pub rebind_weight : Bytes → Window → Stream F → Stream F
  unfolding lookup assign
  rebind_weight name win g =
      if not win.rebound && not (points_at (lookup name g.moved) win.base)
      then record g {
        moved = assign name win.base g.moved;
        windows = assign name (record win { rebound = true }) g.windows;
      }
      else g

  -- Behind the fill: the ids are recorded, the next nodes speculated, the weight rebound.
  unfoldable pub serve_window : Bytes → Window → List ℕ → Stream F → Option (Stream F)
  unfolding serve_fill record_ids lookahead_push rebind_weight
  serve_window name win v g = elim (serve_fill name win v g) [
    | none ↦ none
    | some g' ↦ some (
        rebind_weight name win
          (record g' { spec = lookahead_push name (record_ids name v g'.spec) }))
  ]

  -- The kept ids of the layer if there are any, else the ids of the node.
  unfoldable pub wanted_ids : Bytes → Src → Stream F → List ℕ
  unfolding parse_layer_index lookup read_ids_strided
  wanted_ids name ids g = elim (parse_layer_index name) [
    | none ↦ read_ids_strided ids.ids
    | some layer ↦ elim (lookup layer g.fresh_kept) [
      | none ↦ read_ids_strided ids.ids
      | some [] ↦ read_ids_strided ids.ids
      | some (e ∷ es) ↦ e ∷ es
    ]
  ]

  -- There is nothing to fill the window from.
  abbrev pub no_source : Src → Window → Stream F → Bool
  no_source w win g =
      w.tensor.address == 0 || (not g.use_odirect && elim win.orig [ none ↦ true | some f ↦ false ])

  -- The window of the weight, if it has one.
  unfoldable pub serve_in : Option Window → Src → Src → Stream F → Option (Stream F)
  unfolding wanted_ids serve_window
  serve_in none w ids g = some g
  serve_in (some win) w ids g =
      let v = wanted_ids w.tensor.name ids g in
      if no_source w win g
      then some g
      else if length v == 0 || ltb max_ids (length v)
      then some g
      else serve_window w.tensor.name win v g

  -- The operands that were found.
  unfoldable pub serve_operands :
      (Bytes → ℕ → Option ℕ) → Option Src → Option Src → Stream F → Option (Stream F)
  unfolding ensure_window serve_in lookup
  serve_operands mmap none ids g = some g
  serve_operands mmap (some w) none g = some g
  serve_operands mmap (some w) (some ids) g =
      if ids.tensor.address == 0 then some g else elim (ensure_window mmap w.tensor.name w g) [
        | none ↦ none
        | some h ↦ serve_in (lookup w.tensor.name h.windows) w ids h
      ]

  -- A matrix product that is asked for.
  unfoldable pub serve_mmid : (Bytes → ℕ → Option ℕ) → Node F → Stream F → Option (Stream F)
  unfolding find_operands serve_operands
  serve_mmid mmap t g =
      let (w, ids) = find_operands g t.srcs none none in serve_operands mmap w ids g
