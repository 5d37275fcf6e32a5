-- ===== src/Streaming/Names.antt =====
-- `node_rank` and `rank_name` of runtime/cne_stream_cb.cpp.
use caedral_notre_engine.Prelude.{
  ℕ, zero, suc, ◌+◌, ◌*◌, ◌/◌, ◌%◌, [], ◌∷◌, ◌++◌, Option, none, some, Bytes, codes, ltb, ◌==◌,
  if◌then◌else◌,
}
use caedral_notre_engine.Gguf.Classify.{parse_layer_index, has_part}

-- `%d` of a number that is not negative; a number has fewer digits than the fuel that is its
-- successor.
unfoldable pub digits : ℕ → ℕ → Bytes
digits zero n = []
digits (suc fuel) n =
    let front = digits fuel (n / 10) in
    if ltb n 10 then (b'0' + n) ∷ [] else front ++ ((b'0' + n % 10) ∷ [])

unfoldable pub decimal : ℕ → Bytes
unfolding digits
decimal n = digits (suc n) n

-- 0, 1 and 2 for the gate, the up and the down projection.
unfoldable pub node_kind : Bytes → ℕ
unfolding has_part
node_kind name =
    if has_part name (codes "ffn_gate_exps")
    then 0
    else if has_part name (codes "ffn_up_exps")
    then 1
    else 2

-- `none` is -1.
unfoldable pub node_rank : Bytes → Option ℕ
unfolding parse_layer_index node_kind
node_rank name = elim (parse_layer_index name) [
  | none ↦ none
  | some layer ↦ some (layer * 3 + node_kind name)
]

unfoldable pub kind_name : ℕ → Bytes
kind_name k =
    if k == 0
    then codes "ffn_gate_exps"
    else if k == 1
    then codes "ffn_up_exps"
    else codes "ffn_down_exps"

-- `blk.%d.%s.weight`.
unfoldable pub expert_name : ℕ → ℕ → Bytes
unfolding decimal kind_name
expert_name layer k = codes "blk." ++ decimal layer ++ b'.' ∷ (kind_name k ++ codes ".weight")

unfoldable pub rank_name : ℕ → Bytes
unfolding expert_name
rank_name rank = expert_name (rank / 3) (rank % 3)
