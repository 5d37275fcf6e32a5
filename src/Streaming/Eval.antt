-- ===== src/Streaming/Eval.antt =====
-- The routing node that the callback of runtime/cne_stream_cb.cpp harvests, and the callback.
use caedral_notre_engine.Prelude.{
  ℕ, ◌+◌, Bool, true, false, not, ◌&&◌, ◌||◌, List, [], ◌∷◌, Option, none, some, Bytes, codes,
  starts_with, ltb, leb, ◌==◌, if◌then◌else◌, nat_eq, bytes_eq, length, map,
}
use caedral_notre_engine.Prelude.Assoc.{lookup, assign}
use caedral_notre_engine.Gguf.Classify.{parse_layer_index}
use caedral_notre_engine.Cache.Ops.{Source}
use caedral_notre_engine.Streaming.Names.{expert_name}
use caedral_notre_engine.Streaming.Router.{Doubles, read_ids_strided, columns, gate_columns}
use caedral_notre_engine.Streaming.Dense.{scan_dense_srcs}
use caedral_notre_engine.Streaming.Callback.{argsort, mul_mat_id, Src, Node, Stream}
use caedral_notre_engine.Streaming.Serve.{serve_fill, serve_mmid}

abbrev router_prefix : Bytes
router_prefix = codes "ffn_moe_argsort"

module _ {ℓ} {F : Type ℓ} where
  abbrev pub is_router : Node F → Bool
  is_router t = elim t.op [ argsort ↦ starts_with router_prefix t.name | o ↦ false ]

  abbrev pub is_mmid : Node F → Bool
  is_mmid t = elim t.op [ mul_mat_id ↦ true | o ↦ false ]

module _ {ℓ} {F : Type ℓ} (order : List ℕ → List ℕ) (source : Source) where
  -- The windows of a layer that exist already are count_fill with the kept ids.
  unfoldable pub serve_kept : List ℕ → ℕ → List ℕ → Stream F → Option (Stream F)
  unfolding expert_name lookup serve_fill
  serve_kept kept layer [] g = some g
  serve_kept kept layer (k ∷ ks) g = elim (lookup (expert_name layer k) g.windows) [
    | none ↦ serve_kept kept layer ks g
    | some win ↦
        if length kept == 0
        then serve_kept kept layer ks g
        else elim (serve_fill order source (expert_name layer k) win kept g) [
          | none ↦ none
          | some g' ↦ serve_kept kept layer ks g'
        ]
  ]

module _ {ℓ} {F : Type ℓ} (real : Doubles F) (order : List ℕ → List ℕ) (source : Source) where
  -- The ids that the router's node keeps, and how many slices the gate drops.
  unfoldable pub kept_of : Node F → Stream F → List ℕ × ℕ
  unfolding columns gate_columns
  kept_of t g = elim t.probs [
    | none ↦ (columns t.ids g.n_experts_used 0 t.ids.ne1, 0)
    | some probs ↦
        if g.l2_on
          && (probs.ne0 == t.ids.ne0
              && (probs.ne1 == t.ids.ne1
                  && (ltb 0 g.n_experts_used && leb g.n_experts_used t.ids.ne0)))
        then gate_columns real g.l2_mass g.l2_min_k g.n_experts_used t.ids probs 0 t.ids.ne1
        else (columns t.ids g.n_experts_used 0 t.ids.ne1, 0)
  ]

  -- The routing node behind its computation.
  unfoldable pub harvest : Node F → Stream F → Option (Stream F)
  unfolding parse_layer_index read_ids_strided kept_of assign serve_kept
  harvest t g = elim (parse_layer_index t.name) [
    | none ↦ some g
    | some layer ↦
        if not t.has_data || (not t.is_i32 || length (read_ids_strided t.ids) == 0)
        then some g
        else (let (kept, dropped) = kept_of t g in
            let g' : Stream F = record g {
              fresh_kept = assign layer kept g.fresh_kept;
              l2_dropped_slices = g.l2_dropped_slices + dropped;
            } in
            if not g.rebind || (not g.use_odirect || g.full_fill)
            then some g'
            else serve_kept order source kept layer (0 ∷ 1 ∷ 2 ∷ []) g')
  ]

  -- The state behind the callback and its answer.
  unfoldable pub stream_cb_eval :
      (Bytes → ℕ → Option ℕ)
      → (ℕ → Option ℕ)
      → Bool
      → Node F
      → Bool
      → Stream F
      → Option (Stream F × Bool)
  unfolding scan_dense_srcs harvest serve_mmid starts_with
  stream_cb_eval mmap alloc drop t ask g =
      if g.anon_scan
      then some (
        record g {
          dense = (scan_dense_srcs alloc drop (map (λ (s : Src). s.tensor) t.srcs) g.dense).0;
        },
        true,
      )
      else if is_router t
      then (if ask
          then some (g, true)
          else elim (harvest t g) [ none ↦ none | some g' ↦ some (g', true) ])
      else if is_mmid t
      then (if ask
          then elim (serve_mmid order source mmap t g) [ none ↦ none | some g' ↦ some (g', true) ]
          else some (g, true))
      else some (g, not ask)
