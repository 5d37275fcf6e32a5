-- ===== src/Server/TokenStream.antt =====
-- `TokenStream` and `emit_token` of server/cne-server.cpp: the pieces that the generation hands to the
-- HTTP side. Each operation holds the lock, so it is one step.
use caedral_notre_engine.Prelude.{
  ℕ, ◌+◌, Bool, true, false, not, ◌&&◌, ◌||◌, List, [], ◌∷◌, ◌++◌, Option, none, some, Bytes, leb,
  ◌==◌, if◌then◌else◌, length, drop,
}
use caedral_notre_engine.Server.Emitter.{Visible, shown, throws, unfinished, visible}

pub record TokenStream : Type 0 where
  pub q : List Bytes
  pub done : Bool
  pub failed : Bool
  pub aborted : Bool

abbrev pub new_stream : TokenStream
new_stream = record { q = []; done = false; failed = false; aborted = false }

unfoldable pub push : Bytes → TokenStream → TokenStream
push s t = record t { q = t.q ++ (s ∷ []) }

unfoldable pub finish : Bool → TokenStream → TokenStream
finish ok t = record t { done = true; failed = not ok }

-- `aborted.store(true)`.
unfoldable pub abort : TokenStream → TokenStream
abort t = record t { aborted = true }

pub data Pull : Type 0 where
  piece : Bytes → Pull
  drained : Pull
  timeout : Pull

-- The pull that stops waiting in this state: for what it waited for, or since the time is over.
unfoldable pub pull_front : List Bytes → TokenStream → Pull × TokenStream
pull_front [] t = if t.done || t.aborted then (drained, t) else (timeout, t)
pull_front (s ∷ q) t = (piece s, record t { q = q })

unfoldable pub pull : TokenStream → Pull × TokenStream
unfolding pull_front
pull t = pull_front t.q t

pub record Emitter : Type 0 where
  pub toks : List ℕ
  pub sent : ℕ
  pub strip_think : Bool
  pub stripped : Bool

-- What is new of the visible text.
unfoldable pub new_text : Visible → Emitter → Option (Bytes × Emitter)
new_text throws e = none
new_text unfinished e = none
new_text (shown vis stripped) e = some (
    if leb (length vis) e.sent
    then ([], record e { stripped = stripped })
    else (drop e.sent vis, record e { stripped = stripped; sent = length vis }))

-- The piece and the emitter behind the call; `none` is an exception, or a loop that does not end.
unfoldable pub drain : (List ℕ → Bytes) → Emitter → Option (Bytes × Emitter)
unfolding visible new_text
drain detokenize e = new_text (visible e.strip_think e.stripped (detokenize e.toks)) e

unfoldable pub truncated_in_think : Emitter → Bool
truncated_in_think e = e.strip_think && (e.sent == 0 && elim e.toks [ [] ↦ false | t ∷ ts ↦ true ])

-- `EmitCtx`; without a stream the text is collected.
pub record EmitCtx : Type 0 where
  pub em : Emitter
  pub stream : Option TokenStream
  pub text : Bytes
  pub emitted : ℕ

abbrev pub client_gone : Option TokenStream → Bool
client_gone none = false
client_gone (some t) = t.aborted

-- A piece that is not empty goes to the stream or to the text.
abbrev pub deliver : Bytes → EmitCtx → EmitCtx
deliver [] e = e
deliver (c ∷ s) e = elim e.stream [
  | none ↦ record e { text = e.text ++ (c ∷ s) }
  | some t ↦ record e { stream = some (push (c ∷ s) t) }
]

unfoldable pub emit_token : (List ℕ → Bytes) → ℕ → EmitCtx → Option EmitCtx
unfolding drain push
emit_token detokenize id e =
    if client_gone e.stream
    then some e
    else elim (drain detokenize (record (e.em) { toks = e.em.toks ++ (id ∷ []) })) [
      | none ↦ none
      | some (text, em) ↦
          some (record (deliver text (record e { em = em })) { emitted = e.emitted + 1 })
    ]
