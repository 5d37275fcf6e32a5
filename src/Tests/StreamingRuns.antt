-- ===== src/Tests/StreamingRuns.antt =====
-- The theorems on runtime/cne_stream_cb.cpp at small graphs.
use caedral_notre_engine.Prelude.{
  ℕ, ◌+◌, ◌*◌, ◌/◌, ◌≡◌, refl, inl, inr, Bool, true, false, List, [], ◌∷◌, ◌++◌, Option, none, some,
  Bytes, codes, leb, ltb, starts_with, nat_eq, bytes_eq,
}
use caedral_notre_engine.Gguf.Classify.{all_digits, routed_expert}
use caedral_notre_engine.Gguf.Registry.{TensorInfo}
use caedral_notre_engine.Cache.Defs.{new_cache}
use caedral_notre_engine.Cache.Ops.{Source}
use caedral_notre_engine.Streaming.Names.{node_rank, rank_name}
use caedral_notre_engine.Streaming.NameLaws.{node_rank-rank_name}
use caedral_notre_engine.Streaming.Lookahead.{
  Speculation, lookahead, current, record_ids, lookahead_push, stream_step_boundary,
}
use caedral_notre_engine.Streaming.LookaheadLaws.{
  Betweens, stays, goes, records, pushes, StepBooks, lookahead_once,
}
use caedral_notre_engine.Streaming.Router.{Grid, Doubles}
use caedral_notre_engine.Streaming.Callback.{Src, Node, Stream, argsort, mul_mat_id}
use caedral_notre_engine.Prelude.{find?, bytes_beq}
use caedral_notre_engine.Prelude.Assoc.{has, lookup, assign}
use caedral_notre_engine.Gguf.Classify.{parse_layer_index}
use caedral_notre_engine.Cache.Batch.{touch_batch_at}
use caedral_notre_engine.Streaming.Router.{read_ids_strided, columns, column}
use caedral_notre_engine.Streaming.Callback.{
  routed_name, ensure_window, layer_limited, find_routed, create_window, window_of,
}
use caedral_notre_engine.Streaming.Serve.{
  find_operands, serve_mmid, serve_operands, serve_in, wanted_ids, serve_window, serve_fill,
  count_fill,
}
use caedral_notre_engine.Streaming.Eval.{stream_cb_eval, harvest}
use caedral_notre_engine.Streaming.GateLaws.{run_callbacks, mass_gate_dead}

node_rank-rank_name_example : node_rank (rank_name 37) ≡ some 37
node_rank-rank_name_example = node_rank-rank_name 37

-- In the step before, the node behind rank 2 was routed to the experts 4 and 7.
abbrev routed_step : Speculation
routed_step = record {
  pf_mode = lookahead;
  step = some 5;
  id_slot = true;
  step_ids = λ b. elim b [ true ↦ (rank_name 3, 4 ∷ 7 ∷ []) ∷ [] | false ↦ [] ];
  looked = [];
  looked_step = none;
  queue = [];
  stop = false;
}

abbrev recorded : Speculation
recorded = record_ids (rank_name 2) (4 ∷ 9 ∷ []) (stream_step_boundary routed_step)

abbrev two_acts :
    Betweens [] (stream_step_boundary routed_step) [] (lookahead_push (rank_name 2) recorded)
two_acts =
    goes (records [] (stream_step_boundary routed_step) (rank_name 2) (4 ∷ 9 ∷ []))
      (goes (pushes [] recorded (rank_name 2)) (stays [] (lookahead_push (rank_name 2) recorded)))

lookahead_once_example :
    StepBooks routed_step.queue (current routed_step) [] (lookahead_push (rank_name 2) recorded)
lookahead_once_example =
    lookahead_once routed_step (lookahead_push (rank_name 2) recorded) [] two_acts

-- Numbers in place of doubles, in thousandths.
abbrev thousandths : Doubles ℕ
thousandths = record {
  nil = 0;
  plus = λ a b. a + b;
  over = λ a b. 1000 * a / b;
  ge = λ a b. leb b a;
  positive = λ a. ltb 0 a;
}

abbrev ranked {ℓ} : {A : Type ℓ} → (ℕ → A) → Grid A
ranked f = record { ne0 = 4; ne1 = 1; nb0 = 4; nb1 = 16; value = f }

abbrev router : Node ℕ
router = record {
  op = argsort;
  name = codes "ffn_moe_argsort-" ++ codes "12";
  is_i32 = true;
  has_data = true;
  ids = ranked (λ i. i / 4);
  probs = some (ranked (λ i. 100));
  srcs = [];
}

abbrev up_name : Bytes
up_name = codes "blk.12.ffn_up_exps.weight"

abbrev up_experts : TensorInfo
up_experts = record {
  name = up_name;
  kind = routed_expert;
  layer = some 12;
  abs_offset = 8192;
  bytes_total = 32;
  experts = some (record {
    expert_count = 4;
    expert_axis = 2;
    expert_contiguous = true;
    bytes_per_expert = 8;
  });
  quant_type = codes "q4_k";
}

abbrev source_of : Bytes → Bool → Src
source_of name i32 = record {
  tensor = record { name = name; is_i32 = i32; address = 4096; nbytes = 32 };
  content = λ i. i;
  ids = ranked (λ i. i / 4);
}

-- The product of the layer's up projections, which creates the window and fills four slices.
abbrev product : Node ℕ
product = record {
  op = mul_mat_id;
  name = codes "ffn_moe_up-12";
  is_i32 = false;
  has_data = true;
  ids = ranked (λ i. 0);
  probs = none;
  srcs = source_of up_name false ∷ source_of (codes "ffn_moe_topk-12") true ∷ [];
}

abbrev gated : Stream ℕ
gated = record {
  tensors = up_experts ∷ [];
  n_experts_used = 2;
  cache = new_cache 4096 (λ a. 0);
  windows = [];
  spec = routed_step;
  fresh_kept = [];
  use_odirect = true;
  rebind = true;
  full_fill = false;
  layer_limit = none;
  l2_mass = 500;
  l2_on = true;
  l2_min_k = 1;
  l2_dropped_slices = 0;
  moved = [];
  fill_calls = 0;
  anon_scan = false;
  dense = record {
    dense_names = [];
    dense_bind = [];
    expert_mmap = [];
    dense_anon_bytes = 0;
    dropped = [];
  };
}

abbrev file_source : Source
file_source = some (λ off n. some (λ i. off + i))

abbrev window_at : Bytes → ℕ → Option ℕ
window_at name n = some 65536

abbrev no_memory : ℕ → Option ℕ
no_memory n = none

abbrev nodes : List (Node ℕ × Bool)
nodes = (router, false) ∷ (product, true) ∷ []

abbrev run : Option (Stream ℕ)
unfolding run_callbacks
run = run_callbacks thousandths (λ l. l) file_source window_at no_memory true nodes gated

abbrev served_gate : Stream ℕ
served_gate = elim run [ none ↦ gated | some h ↦ h ]

gated_runs :
    run_callbacks thousandths (λ l. l) file_source window_at no_memory true nodes gated
    ≡ some served_gate
unfolding run run_callbacks stream_cb_eval harvest serve_mmid find_operands routed_name
    serve_operands ensure_window layer_limited find_routed create_window window_of serve_in
    wanted_ids serve_window serve_fill count_fill touch_batch_at parse_layer_index has lookup assign
    starts_with find? bytes_beq read_ids_strided columns column new_cache
gated_runs = refl

mass_gate_dead_example : (served_gate.fresh_kept ≡ []) × (served_gate.l2_dropped_slices ≡ 0)
mass_gate_dead_example =
    mass_gate_dead thousandths (λ l. l) file_source window_at no_memory true nodes gated served_gate
      (inr (codes "12", refl, unfold all_digits in refl), (inl refl, tt)) gated_runs
