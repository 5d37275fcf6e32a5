-- ===== src/Server/GenerateLaws.antt =====
-- The ledger of a slot and its lane through the sequential decode of server/cne-server.cpp.
use caedral_notre_engine.Prelude.{
  ℕ, zero, suc, Bytes, leb, drop, ◌+◌, ◌≤◌, ◌≡◌, ◌⊎◌, refl, sym, ap, ◌∙◌, Bool, true, false, List,
  [], ◌∷◌, ◌++◌, some, length, Bool-cases, Option-cases, inl, inr, arith,
}
use mathlib.Core.List.{append_assoc, append-nil}
use mathlib.Core.Path.{subst}
use caedral_notre_engine.Session.Llama.{Llama, Lawful, rows}
use caedral_notre_engine.Session.Defs.{SessionSlot}
use caedral_notre_engine.Session.Prefill.{session_append_token, session_decode_token}
use caedral_notre_engine.Session.Aligned.{kv_seq_len-tokens}
use caedral_notre_engine.Streaming.Lookahead.{
  Speculation, stream_set_step, stream_prefetch_kick_full, stream_step_boundary,
}
use caedral_notre_engine.Server.TokenStream.{
  EmitCtx, Emitter, emit_token, drain, new_text, deliver, client_gone,
}
use caedral_notre_engine.Server.Emitter.{visible, shown}
use caedral_notre_engine.Server.Generate.{
  World, Generated, Finish, fails, aborts, stops, ran_out, generate_loop,
}

-- A token is emitted without an exception where think blocks are not hidden.
deliver-strip_think :
    (text : Bytes) (e : EmitCtx) → (deliver text e).em.strip_think ≡ e.em.strip_think
deliver-strip_think [] e = refl
deliver-strip_think (c ∷ t) e = elim (Option-cases e.stream) [
  | inl n ↦ rw (deliver, n) refl
  | inr (st, y) ↦ rw (deliver, y) refl
]

visible_all :
    (strip stripped : Bool) (full : Bytes)
    → strip ≡ false
    → visible strip stripped full ≡ shown full stripped
unfolding visible
visible_all strip stripped full h = rw h refl

new_text_shown :
    (text : Bytes) (b : Bool) (em : Emitter)
    → (piece : Bytes) × (em' : Emitter) × (new_text (shown text b) em ≡ some (piece, em'))
      × (em'.strip_think ≡ em.strip_think)
unfolding new_text
new_text_shown text b em = elim (Bool-cases (leb (length text) em.sent)) [
  | inl y ↦ ([], record em { stripped = b }, rw (new_text, y) refl, refl)
  | inr n ↦ (
    drop em.sent text,
    record em { stripped = b; sent = length text },
    rw (new_text, n) refl,
    refl,
  )
]

drain_shows :
    (detokenize : List ℕ → Bytes) (em : Emitter)
    → em.strip_think ≡ false
    → (text : Bytes) × (em' : Emitter) × (drain detokenize em ≡ some (text, em'))
      × (em'.strip_think ≡ false)
unfolding drain
drain_shows detokenize em h =
    let (text, em', e, k) = new_text_shown (detokenize em.toks) em.stripped em in
    (
      text,
      em',
      ap (λ v. new_text v em) (visible_all em.strip_think em.stripped (detokenize em.toks) h) ∙ e,
      k ∙ h,
    )

emit_token_emits :
    (detokenize : List ℕ → Bytes) (id : ℕ) (e : EmitCtx)
    → e.em.strip_think ≡ false
    → (e' : EmitCtx) × (emit_token detokenize id e ≡ some e') × (e'.em.strip_think ≡ false)
unfolding emit_token
emit_token_emits detokenize id e h = elim (Bool-cases (client_gone e.stream)) [
  | inl y ↦ (e, rw (emit_token, y) refl, h)
  | inr n ↦
      let (text, em, runs, k) =
        drain_shows detokenize (record (e.em) { toks = e.em.toks ++ (id ∷ []) }) h in
      (
        record (deliver text (record e { em = em })) { emitted = e.emitted + 1 },
        rw (emit_token, n, runs) refl,
        deliver-strip_think text (record e { em = em }) ∙ k,
      )
]

module _ (L : Llama) (tokens : L.Ctx → ℕ → List ℕ) (law : Lawful L tokens) where
  -- A decode that succeeds appends its token to the lane.
  decode_token-tokens :
      (c : L.Ctx) (s : SessionSlot) (seq id : ℕ)
      → L.has_memory c ≡ true
      → s.seq_id ≡ some seq
      → (session_decode_token L c s id).1 ≡ true
      → (tokens (session_decode_token L c s id).0 seq ≡ tokens c seq ++ (id ∷ []))
        × (L.has_memory (session_decode_token L c s id).0 ≡ true)
  unfolding session_decode_token
  decode_token-tokens c s seq id m lane ok = rw decoded (
    law.decode_appends c seq (id ∷ []) (true ∷ []) refl (subst (λ r. r.1 ≡ true) decoded ok),
    law.memory_stays.1 c _ ∙ m,
  )
    where
      decoded :
          session_decode_token L c s id
          ≡ L.decode c (rows seq (length (tokens c seq)) (id ∷ []) (true ∷ []))
      decoded = rw (session_decode_token, lane, kv_seq_len-tokens L tokens law c seq m) refl

  -- The ledger is the lane, and the context has a memory.
  abbrev pub Together : L.Ctx → SessionSlot → ℕ → Type 0
  Together c s seq = (L.has_memory c ≡ true) × (s.seq_id ≡ some seq) × (tokens c seq ≡ s.kv_tokens)

  module _ (S : Type 0) (w : World L S) (seq : ℕ) where
    -- What a generation leaves of a slot: at most `n` more tokens, and ledger and lane together
    -- unless a decode failed.
    pub record Continues (n : ℕ) (s : SessionSlot) (g : Generated L.Ctx S) : Type 0 where
      pub fed : List ℕ
      pub ledger : g.slot.kv_tokens ≡ s.kv_tokens ++ fed
      pub few : length fed ≤ n
      pub together : (g.finish ≡ fails) ⊎ Together g.ctx g.slot seq

    ends_here :
        (n : ℕ) (s : SessionSlot) (g : Generated L.Ctx S)
        → g.slot ≡ s
        → Together g.ctx g.slot seq
        → Continues n s g
    ends_here n s g e t = record {
      fed = [];
      ledger = ap (λ (x : SessionSlot). x.kv_tokens) e ∙ sym (append-nil s.kv_tokens);
      few = omega arith;
      together = inr t;
    }

    goes_on :
        (n id : ℕ) (s : SessionSlot) (g : Generated L.Ctx S)
        → Continues n (session_append_token s id) g
        → Continues (suc n) s g
    unfolding session_append_token
    goes_on n id s g c = record {
      fed = id ∷ c.fed;
      ledger = c.ledger ∙ append_assoc s.kv_tokens (id ∷ []) c.fed;
      few = omega (arith, c.few);
      together = c.together;
    }

    -- The speculation behind step `i`.
    abbrev next_step : ℕ → L.Ctx → Speculation → Speculation
    next_step i c sp =
        stream_step_boundary
          (stream_prefetch_kick_full w.order (w.during c (stream_set_step (some i) sp)))

    -- What is left where the loop stops in front of a token.
    abbrev stopped :
        Finish → ℕ → L.Ctx → SessionSlot → S → EmitCtx → Speculation → Generated L.Ctx S
    stopped why i c s sm e sp = record {
      ctx = c;
      slot = s;
      sampler = sm;
      emit = e;
      spec = sp;
      finish = why;
      steps = i;
    }

    -- What is left when the decode of step `i` fails.
    abbrev failed_decode :
        ℕ → L.Ctx → SessionSlot → ℕ → S → EmitCtx → Speculation → Generated L.Ctx S
    failed_decode i c s id sm e sp = record {
      ctx = (session_decode_token L c (session_append_token s id) id).0;
      slot = session_append_token s id;
      sampler = sm;
      emit = e;
      spec = w.during c (stream_set_step (some i) sp);
      finish = fails;
      steps = i;
    }

    failed_step :
        (n : ℕ) (s : SessionSlot) (g : Generated L.Ctx S) (id : ℕ)
        → g.slot ≡ session_append_token s id
        → g.finish ≡ fails
        → Continues (suc n) s g
    unfolding session_append_token
    failed_step n s g id e f = record {
      fed = id ∷ [];
      ledger = ap (λ (x : SessionSlot). x.kv_tokens) e;
      few = omega arith;
      together = inl f;
    }

    grown :
        (c : L.Ctx) (s : SessionSlot) (id : ℕ)
        → Together c s seq
        → (session_decode_token L c (session_append_token s id) id).1 ≡ true
        → Together
            (session_decode_token L c (session_append_token s id) id).0
            (session_append_token s id)
            seq
    unfolding session_append_token
    grown c s id (m, lane, held) ok =
        let (more, m') = decode_token-tokens c (session_append_token s id) seq id m lane ok in
        (m', lane, more ∙ ap (λ l. l ++ (id ∷ [])) held)

    -- In a context with a memory that keeps the documented laws, from a slot whose lane holds exactly
    -- its ledger, and with think blocks not hidden, the sequential decode ends:
    -- the ledger has grown by at most the tokens asked for, and unless a decode failed the lane
    -- still holds exactly the ledger, however the loop stopped.
    pub generate_loop-Continues :
        (n i : ℕ) (c : L.Ctx) (s : SessionSlot) (sm : S) (e : EmitCtx) (sp : Speculation)
        → e.em.strip_think ≡ false
        → Together c s seq
        → (g : Generated L.Ctx S) × (generate_loop L S w n i c s sm e sp ≡ some g) × Continues n s g
    unfolding generate_loop
    generate_loop-Continues zero i c s sm e sp h t =
        let g = stopped ran_out i c s sm e sp in (g, refl, ends_here zero s g refl t)
    generate_loop-Continues (suc n) i c s sm e sp h t = elim (Bool-cases (w.poll_stop i)) [
      | inl y ↦
          let g = stopped aborts i c s sm e sp in
          (g, rw (generate_loop, y) refl, ends_here (suc n) s g refl t)
      | inr x ↦ elim (Bool-cases (w.is_eog (w.sample sm c).0)) [
        | inl y ↦
            let g = stopped stops i c s (w.sample sm c).1 e sp in
            (g, rw (generate_loop, x, y) refl, ends_here (suc n) s g refl t)
        | inr z ↦
            let id = (w.sample sm c).0 in
            let (e', emits, h') = emit_token_emits w.detokenize id e h in
            let s' = session_append_token s id in
            elim (Bool-cases (session_decode_token L c s' id).1) [
              | inr bad ↦
                  let g = failed_decode i c s id (w.sample sm c).1 e' sp in
                  (g, rw (generate_loop, x, z, emits, bad) refl, failed_step n s g id refl refl)
              | inl ok ↦
                  let (g, runs, k) =
                    generate_loop-Continues n (suc i) (session_decode_token L c s' id).0 s'
                      (w.sample sm c).1 e' (next_step i c sp) h' (grown c s id t ok) in
                  (g, rw (generate_loop, x, z, emits, ok) runs, goes_on n id s g k)
            ]
      ]
    ]
