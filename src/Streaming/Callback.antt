-- ===== src/Streaming/Callback.antt =====
-- The callback of runtime/cne_stream_cb.cpp. What stands outside the source is a parameter: the
-- addresses that `mmap` gives, the order of an unordered set, the reads from the model file, and the
-- arithmetic of doubles. An answer of `none` is an `exit` or a call that aborts.
use caedral_notre_engine.Prelude.{
  ℕ, Bool, true, false, not, ◌&&◌, ◌||◌, List, [], ◌∷◌, Option, none, some, Bytes, bytes_beq, leb,
  ◌==◌, if◌then◌else◌, nat_eq, bytes_eq,
}
use caedral_notre_engine.Prelude.Assoc.{has, assign}
use caedral_notre_engine.Gguf.Classify.{TensorKind, routed_expert, parse_layer_index}
use caedral_notre_engine.Gguf.Registry.{TensorInfo}
use caedral_notre_engine.Cache.Defs.{SliceCache, write_range}
use caedral_notre_engine.Streaming.Lookahead.{Speculation}
use caedral_notre_engine.Streaming.Router.{Grid}
use caedral_notre_engine.Streaming.Dense.{Tensor, Dense}

-- `orig` is the mapping's content, the source of the copies without direct reads.
pub record Window : Type 0 where
  pub base : ℕ
  pub orig : Option (ℕ → ℕ)
  pub file_off : ℕ
  pub rebound : Bool
  pub ti : TensorInfo

pub data Op : Type 0 where
  argsort mul_mat_id another : Op

-- A source that carries ids has its values.
pub record Src : Type 0 where
  pub tensor : Tensor
  pub content : ℕ → ℕ
  pub ids : Grid ℕ

-- A node of the graph; `probs` is the first source, when it holds floats with data.
pub record Node {ℓ} (F : Type ℓ) : Type ℓ where
  pub op : Op
  pub name : Bytes
  pub is_i32 : Bool
  pub has_data : Bool
  pub ids : Grid ℕ
  pub probs : Option (Grid F)
  pub srcs : List Src

pub record Stream {ℓ} (F : Type ℓ) : Type ℓ where
  pub tensors : List TensorInfo
  pub n_experts_used : ℕ
  pub cache : SliceCache
  pub windows : List (Bytes × Window)
  pub spec : Speculation
  -- The layers with kept ids.
  pub fresh_kept : List (ℕ × List ℕ)
  pub use_odirect : Bool
  pub rebind : Bool
  pub full_fill : Bool
  pub layer_limit : Option ℕ
  pub l2_mass : F
  pub l2_on : Bool
  pub l2_min_k : ℕ
  pub l2_dropped_slices : ℕ
  -- Which window a tensor's data pointer was moved to.
  pub moved : List (Bytes × ℕ)
  pub fill_calls : ℕ
  pub anon_scan : Bool
  pub dense : Dense

abbrev pub is_routed_kind : TensorKind → Bool
is_routed_kind routed_expert = true
is_routed_kind k = false

-- The kind of the first tensor of the name.
unfoldable pub routed_name : Bytes → List TensorInfo → Bool
routed_name name [] = false
routed_name name (t ∷ ts) =
    let rest = routed_name name ts in if bytes_beq t.name name then is_routed_kind t.kind else rest

-- The first routed tensor of the name.
unfoldable pub find_routed : Bytes → List TensorInfo → Option TensorInfo
find_routed name [] = none
find_routed name (t ∷ ts) =
    let rest = find_routed name ts in
    if bytes_beq t.name name && is_routed_kind t.kind then some t else rest

abbrev pub bytes_per_expert : TensorInfo → ℕ
bytes_per_expert t = elim t.experts [ none ↦ 0 | some e ↦ e.bytes_per_expert ]

-- A limit is set and the layer is not below it.
unfoldable pub layer_limited : Option ℕ → Bytes → Bool
unfolding parse_layer_index
layer_limited none name = false
layer_limited (some limit) name = elim (parse_layer_index name) [
  | none ↦ true
  | some layer ↦ leb limit layer
]

module _ {ℓ} {F : Type ℓ} (mmap : Bytes → ℕ → Option ℕ) where
  -- The copy of a whole window; without a mapping it reads through a null pointer.
  unfoldable pub fill_window : Bytes → Window → Stream F → Option (Stream F)
  unfolding write_range assign
  fill_window name win g = elim win.orig [
    | none ↦ none
    | some content ↦ some (record g {
      cache = record (g.cache) {
        memory = write_range g.cache.memory win.base win.ti.bytes_total content;
      };
      windows = assign name (record win { rebound = true }) g.windows;
      moved = assign name win.base g.moved;
    })
  ]

  unfoldable pub window_of : Src → TensorInfo → ℕ → Stream F → Window
  window_of w ti base g = record {
    base = base;
    orig = if g.use_odirect || w.tensor.address == 0 then none else some w.content;
    file_off = ti.abs_offset;
    rebound = false;
    ti = ti;
  }

  unfoldable pub create_window : Bytes → Src → TensorInfo → Stream F → Option (Stream F)
  unfolding fill_window assign window_of
  create_window name w ti g = elim (mmap name ti.bytes_total) [
    | none ↦ none
    | some base ↦
        let win = window_of w ti base g in
        let g' : Stream F = record g { windows = assign name win g.windows } in
        if g.full_fill then fill_window name win g' else some g'
  ]

  unfoldable pub ensure_window : Bytes → Src → Stream F → Option (Stream F)
  unfolding layer_limited has find_routed create_window
  ensure_window name w g =
      if not g.rebind
      then some g
      else if layer_limited g.layer_limit name
      then some g
      else if has name g.windows
      then some g
      else elim (find_routed name g.tensors) [ none ↦ some g | some ti ↦ create_window name w ti g ]
