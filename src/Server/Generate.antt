-- ===== src/Server/Generate.antt =====
-- The sequential decode of server/cne-server.cpp behind the prefill of a slot, and the binding of a
-- conversation. Parameters: llama.cpp, the sampler with its state, the end-of-generation test, the
-- detokenizer, what the graph's callbacks do to the speculation during a decode, and what
-- `request_poll_stop` finds before each step.
use caedral_notre_engine.Prelude.{
  ℕ, zero, suc, Bool, true, false, not, ◌&&◌, List, [], Option, none, some, Bytes, ◌==◌,
  if◌then◌else◌,
}
use caedral_notre_engine.Session.Llama.{Llama}
use caedral_notre_engine.Session.Defs.{SessionSlot, SessionStore}
use caedral_notre_engine.Session.Store.{Handle, get_or_create, remove_session}
use caedral_notre_engine.Session.Prefill.{session_append_token, session_decode_token}
use caedral_notre_engine.Streaming.Lookahead.{
  Routing, Speculation, stream_set_step, stream_prefetch_kick_full, stream_step_boundary,
}
use caedral_notre_engine.Server.Request.{is_set}
use caedral_notre_engine.Server.TokenStream.{EmitCtx, emit_token}

pub data Finish : Type 0 where
  aborts stops fails ran_out : Finish

-- What the loop leaves: the tokens that it fed back in, the last one last, are `fed`.
pub record Generated (Ctx S : Type 0) : Type 0 where
  pub ctx : Ctx
  pub slot : SessionSlot
  pub sampler : S
  pub emit : EmitCtx
  pub spec : Speculation
  pub finish : Finish
  pub steps : ℕ

-- The parts of the world that a generation works with.
pub record World (L : Llama) (S : Type 0) : Type 0 where
  pub sample : S → L.Ctx → ℕ × S
  pub is_eog : ℕ → Bool
  pub detokenize : List ℕ → Bytes
  pub during : L.Ctx → Speculation → Speculation
  pub order : Routing → Routing
  pub poll_stop : ℕ → Bool

module _ (L : Llama) (S : Type 0) (w : World L S) where
  open L use {Ctx}

  -- The loop from step `i` on, at most `n` more; `none` is an exception.
  unfoldable pub generate_loop :
      ℕ → ℕ → Ctx → SessionSlot → S → EmitCtx → Speculation → Option (Generated Ctx S)
  unfolding emit_token session_append_token session_decode_token stream_set_step
      stream_prefetch_kick_full stream_step_boundary
  generate_loop zero i ctx s sm e sp = some (record {
    ctx = ctx;
    slot = s;
    sampler = sm;
    emit = e;
    spec = sp;
    finish = ran_out;
    steps = i;
  })
  generate_loop (suc n) i ctx s sm e sp = elim (w.poll_stop i) [
    | true ↦ some (record {
      ctx = ctx;
      slot = s;
      sampler = sm;
      emit = e;
      spec = sp;
      finish = aborts;
      steps = i;
    })
    | false ↦
        let (id, sm') = w.sample sm ctx in
        elim (w.is_eog id) [
          | true ↦ some (record {
            ctx = ctx;
            slot = s;
            sampler = sm';
            emit = e;
            spec = sp;
            finish = stops;
            steps = i;
          })
          | false ↦ elim (emit_token w.detokenize id e) [
            | none ↦ none
            | some e' ↦
                let s' = session_append_token s id in
                let r = session_decode_token L ctx s' id in
                let sp' = w.during ctx (stream_set_step (some i) sp) in
                elim r.1 [
                  | false ↦ some (record {
                    ctx = r.0;
                    slot = s';
                    sampler = sm';
                    emit = e';
                    spec = sp';
                    finish = fails;
                    steps = i;
                  })
                  | true ↦
                      generate_loop n (suc i) r.0 s' sm' e'
                        (stream_step_boundary (stream_prefetch_kick_full w.order sp'))
                ]
          ]
        ]
  ]

-- The engine's part in binding a conversation.
pub record Sessions : Type 0 where
  pub sessions_enabled : Bool
  pub mtp_k : ℕ
  pub active_conv_id : Bytes
  pub sessions : SessionStore

module _ (L : Llama) where
  -- The inner `none` of the handle is a request without a conversation.
  unfoldable pub bind_conversation :
      Sessions → L.Ctx → Bytes → Bool → Bytes → Option (Sessions × L.Ctx × Option Handle)
  unfolding get_or_create remove_session
  bind_conversation eng ctx conv_id clear_conv owner =
      if not (eng.sessions_enabled && (is_set conv_id && eng.mtp_k == 0))
      then some (record eng { active_conv_id = [] }, ctx, none)
      else (let start =
            if clear_conv then remove_session L eng.sessions ctx conv_id else (eng.sessions, ctx) in
          elim (get_or_create L start.0 start.1 conv_id owner) [
            | none ↦ none
            | some (st, ctx', h) ↦
                some (record eng { active_conv_id = conv_id; sessions = st }, ctx', some h)
          ])
