-- ===== src/Streaming/GateLaws.antt =====
-- The gate on the mass of the experts in runtime/cne_stream_cb.cpp never has ids to act on.
use caedral_notre_engine.Prelude.{
  ℕ, ◌≡◌, refl, ap, ◌∙◌, Bool, true, false, not, ◌&&◌, ◌||◌, List, [], ◌∷◌, ◌++◌, Option, none,
  some, Bytes, codes, if◌then◌else◌, Bool-cases, Option-cases, inl, inr, ◌==◌, ltb, length,
  bytes_eq, arith, All, ◌⊎◌,
}
use mathlib.Core.Path.{subst}
use caedral_notre_engine.Prelude.Assoc.{lookup, has}
use caedral_notre_engine.Gguf.Classify.{parse_layer_index, all_digits}
use caedral_notre_engine.Gguf.LayerLaws.{parse_layer_index_router}
use caedral_notre_engine.Gguf.Registry.{TensorInfo}
use caedral_notre_engine.Cache.Defs.{SliceCache}
use caedral_notre_engine.Cache.Ops.{Source}
use caedral_notre_engine.Streaming.Router.{Doubles}
use caedral_notre_engine.Streaming.Callback.{
  Window, Src, Node, Stream, window_of, fill_window, create_window, ensure_window, layer_limited,
  find_routed,
}
use caedral_notre_engine.Streaming.Serve.{
  serve_fill, rebind_weight, serve_window, serve_operands, serve_mmid, wanted_ids, max_ids,
  find_operands, no_source, count_fill, serve_in, points_at,
}
use caedral_notre_engine.Streaming.Eval.{harvest, stream_cb_eval, is_router, is_mmid}

module _ {ℓ} {F : Type ℓ} where
  -- The kept ids and the count of dropped slices are as they were.
  abbrev pub SameGate : Stream F → Option (Stream F) → Type 0
  SameGate g none = Unit {0}
  SameGate g (some h) = (h.fresh_kept ≡ g.fresh_kept) × (h.l2_dropped_slices ≡ g.l2_dropped_slices)

  SameGate-trans :
      (g h : Stream F) (o : Option (Stream F)) → SameGate g (some h) → SameGate h o → SameGate g o
  SameGate-trans g h none s t = tt
  SameGate-trans g h (some i) s t = (t.0 ∙ s.0, t.1 ∙ s.1)

  -- One step behind another that may fail.
  SameGate-then :
      (g : Stream F) (o : Option (Stream F)) (f : Stream F → Option (Stream F))
      → SameGate g o
      → ((h : Stream F) → SameGate h (f h))
      → SameGate g (elim o [ none ↦ none | some h ↦ f h ])
  SameGate-then g none f s k = tt
  SameGate-then g (some h) f s k = SameGate-trans g h (f h) s (k h)

  SameGate-if :
      (g : Stream F) (b : Bool) (o p : Option (Stream F))
      → SameGate g o
      → SameGate g p
      → SameGate g (if b then o else p)
  SameGate-if g true o p s t = s
  SameGate-if g false o p s t = t

  SameGate-keep :
      (g : Stream F) (b : Bool) (p : Option (Stream F))
      → SameGate g p
      → SameGate g (if b then some g else p)
  SameGate-keep g b p t = SameGate-if g b (some g) p (refl, refl) t

  module _ (mmap : Bytes → ℕ → Option ℕ) where
    fill_window_same :
        (name : Bytes) (win : Window) (g : Stream F) → SameGate g (fill_window mmap name win g)
    unfolding fill_window
    fill_window_same name win g = elim (Option-cases win.orig) [
      | inl e ↦ rw (fill_window, e) tt
      | inr (f, e) ↦ rw (fill_window, e) (refl, refl)
    ]

    create_window_same :
        (name : Bytes) (w : Src) (ti : TensorInfo) (g : Stream F)
        → SameGate g (create_window mmap name w ti g)
    unfolding create_window
    create_window_same name w ti g = elim (Option-cases (mmap name ti.bytes_total)) [
      | inl e ↦ rw (create_window, e) tt
      | inr (base, e) ↦
          rw (create_window, e)
            (SameGate-if g g.full_fill _ _ (fill_window_same name (window_of mmap w ti base g) _)
              (refl, refl))
    ]

    ensure_window_same :
        (name : Bytes) (w : Src) (g : Stream F) → SameGate g (ensure_window mmap name w g)
    unfolding ensure_window
    ensure_window_same name w g =
        SameGate-if g (not g.rebind) _ _ (refl, refl)
          (SameGate-if g (layer_limited g.layer_limit name) _ _ (refl, refl)
            (SameGate-if g (has name g.windows) _ _ (refl, refl)
              (found (find_routed name g.tensors))))
      where
        found :
            (o : Option TensorInfo)
            → SameGate g (elim o [ none ↦ some g | some ti ↦ create_window mmap name w ti g ])
        found none = (refl, refl)
        found (some ti) = create_window_same name w ti g

  served_same : (o : Option (SliceCache × ℕ)) (g : Stream F) → SameGate g (count_fill o g)
  unfolding count_fill
  served_same none g = tt
  served_same (some (c, n)) g = (refl, refl)

  module _ (order : List ℕ → List ℕ) (source : Source) where
    serve_fill_same :
        (name : Bytes) (win : Window) (v : List ℕ) (g : Stream F)
        → SameGate g (serve_fill order source name win v g)
    unfolding serve_fill
    serve_fill_same name win v g = SameGate-if g g.full_fill _ _ (refl, refl) (served_same _ g)

    rebind_weight_same :
        (name : Bytes) (win : Window) (g : Stream F)
        → SameGate g (some (rebind_weight order source name win g))
    unfolding rebind_weight
    rebind_weight_same name win g =
        elim (Bool-cases (not win.rebound && not (points_at (lookup name g.moved) win.base))) [
          | inl y ↦ rw (rebind_weight, y) (refl, refl)
          | inr n ↦ rw (rebind_weight, n) (refl, refl)
        ]

    serve_window_same :
        (name : Bytes) (win : Window) (v : List ℕ) (g : Stream F)
        → SameGate g (serve_window order source name win v g)
    unfolding serve_window
    serve_window_same name win v g =
        SameGate-then g (serve_fill order source name win v g) _ (serve_fill_same name win v g)
          (λ h. rebind_weight_same name win _)

    serve_in_same :
        (o : Option Window) (w ids : Src) (g : Stream F)
        → SameGate g (serve_in order source o w ids g)
    unfolding serve_in
    serve_in_same none w ids g = (refl, refl)
    serve_in_same (some win) w ids g =
        let v = wanted_ids order source w.tensor.name ids g in
        SameGate-keep g (no_source order source w win g) _ (
          SameGate-keep g (length v == 0 || ltb max_ids (length v))
            (serve_window order source w.tensor.name win v g)
            (serve_window_same w.tensor.name win v g))

    serve_operands_same :
        (mmap : Bytes → ℕ → Option ℕ) (w ids : Option Src) (g : Stream F)
        → SameGate g (serve_operands order source mmap w ids g)
    unfolding serve_operands
    serve_operands_same mmap none ids g = (refl, refl)
    serve_operands_same mmap (some w) none g = (refl, refl)
    serve_operands_same mmap (some w) (some ids) g = SameGate-keep g (ids.tensor.address == 0) _ (
        SameGate-then g (ensure_window mmap w.tensor.name w g) _
          (ensure_window_same mmap w.tensor.name w g)
          (λ h. serve_in_same (lookup w.tensor.name h.windows) w ids h))

    serve_mmid_same :
        (mmap : Bytes → ℕ → Option ℕ) (t : Node F) (g : Stream F)
        → SameGate g (serve_mmid order source mmap t g)
    unfolding serve_mmid
    serve_mmid_same mmap t g =
        let found = find_operands g t.srcs none none in serve_operands_same mmap found.0 found.1 g

module _ {ℓ} {F : Type ℓ} where
  -- A node that is no router, or one named as the graph names it: the prefix and the layer's digits.
  abbrev pub IsNamed : Node F → Type 0
  IsNamed t =
      (is_router t ≡ false)
      ⊎ ((d : Bytes) × (t.name ≡ codes "ffn_moe_argsort-" ++ d) × (all_digits d ≡ true))

  abbrev pub SameAnswer : Stream F → Option (Stream F × Bool) → Type 0
  SameAnswer g none = Unit {0}
  SameAnswer g (some (h, a)) = SameGate g (some h)

  SameAnswer-of :
      (g : Stream F) (o : Option (Stream F))
      → SameGate g o
      → SameAnswer g (elim o [ none ↦ none | some h ↦ some (h, true) ])
  SameAnswer-of g none s = tt
  SameAnswer-of g (some h) s = s

  SameAnswer-if :
      (g : Stream F) (b : Bool) (o p : Option (Stream F × Bool))
      → (b ≡ true → SameAnswer g o)
      → (b ≡ false → SameAnswer g p)
      → SameAnswer g (if b then o else p)
  SameAnswer-if g true o p s t = s refl
  SameAnswer-if g false o p s t = t refl

module _ {ℓ} {F : Type ℓ} (real : Doubles F) (order : List ℕ → List ℕ) (source : Source) where
  -- A router's node has no layer in its name, so nothing is harvested.
  harvest_named :
      (t : Node F) (g : Stream F)
      → is_router t ≡ true
      → IsNamed t
      → SameGate g (harvest real order source t g)
  unfolding harvest
  harvest_named t g r (inl n) = absurd (ground arith)
  harvest_named t g r (inr (d, e, k)) =
      let none_there : parse_layer_index t.name ≡ none =
        ap parse_layer_index e ∙ parse_layer_index_router d k in
      rw (harvest, none_there) (refl, refl)

  module _ (mmap : Bytes → ℕ → Option ℕ) (alloc : ℕ → Option ℕ) (drop : Bool) where
    stream_cb_eval_same :
        (t : Node F) (ask : Bool) (g : Stream F)
        → IsNamed t
        → SameAnswer g (stream_cb_eval real order source mmap alloc drop t ask g)
    unfolding stream_cb_eval
    stream_cb_eval_same t ask g h =
        SameAnswer-if g g.anon_scan _ _ (λ y. (refl, refl))
          (λ n.
            SameAnswer-if g (is_router t) _ _
              (λ r.
                SameAnswer-if g ask (some (g, true)) _ (λ y. (refl, refl))
                  (λ x. SameAnswer-of g (harvest real order source t g) (harvest_named t g r h)))
              (λ r.
                SameAnswer-if g (is_mmid t) _ (some (g, not ask))
                  (λ m.
                    SameAnswer-if g ask _ (some (g, true))
                      (λ y.
                        SameAnswer-of g (serve_mmid order source mmap t g)
                          (serve_mmid_same order source mmap t g))
                      (λ y. (refl, refl)))
                  (λ m. (refl, refl))))

    -- What the callback does for node after node, before and behind their computation.
    unfoldable pub run_callbacks : List (Node F × Bool) → Stream F → Option (Stream F)
    run_callbacks [] g = some g
    run_callbacks ((t, ask) ∷ ts) g =
        elim (stream_cb_eval real order source mmap alloc drop t ask g) [
          | none ↦ none
          | some (h, answer) ↦ run_callbacks ts h
        ]

    run_callbacks_same :
        (ts : List (Node F × Bool)) (g : Stream F)
        → All (λ (t : Node F × Bool). IsNamed t.0) ts
        → SameGate g (run_callbacks ts g)
    unfolding run_callbacks
    run_callbacks_same [] g n = (refl, refl)
    run_callbacks_same ((t, ask) ∷ ts) g (n, ns) =
        elim (Option-cases (stream_cb_eval real order source mmap alloc drop t ask g)) [
          | inl e ↦ rw (run_callbacks, e) tt
          | inr ((h, a), e) ↦
              let here : SameGate g (some h) =
                subst (SameAnswer g) e (stream_cb_eval_same t ask g n) in
              rw (run_callbacks, e)
                (SameGate-trans g h (run_callbacks ts h) here (run_callbacks_same ts h ns))
        ]

    -- The gate on the mass of the experts never acts: whatever nodes the graph has, with its routers
    -- named by their layers' digits, the callbacks that return leave the kept ids and the count of
    -- dropped slices as they were.
    pub mass_gate_dead :
        (ts : List (Node F × Bool)) (g h : Stream F)
        → All (λ (t : Node F × Bool). IsNamed t.0) ts
        → run_callbacks ts g ≡ some h
        → (h.fresh_kept ≡ g.fresh_kept) × (h.l2_dropped_slices ≡ g.l2_dropped_slices)
    mass_gate_dead ts g h named e = subst (SameGate g) e (run_callbacks_same ts g named)
