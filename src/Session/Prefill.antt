-- ===== src/Session/Prefill.antt =====
-- `session_prefill` of runtime/cne_session.cpp with its helpers: align a lane with a prompt.
use caedral_notre_engine.Prelude.{
  ℕ, zero, suc, ◌+◌, ◌-◌, Bool, true, false, List, [], ◌∷◌, ◌++◌, Option, none, some, ltb, leb,
  ◌==◌, if◌then◌else◌, length, take, drop, min,
}
use caedral_notre_engine.Session.Llama.{Llama, rows}
use caedral_notre_engine.Session.Defs.{SessionSlot}
use caedral_notre_engine.Session.Store.{session_reset_kv}

pub record SessionPrefillStats : Type 0 where
  pub reused_tokens : ℕ
  pub prefilled_tokens : ℕ

unfoldable pub token_common_prefix : List ℕ → List ℕ → ℕ
token_common_prefix [] b = 0
token_common_prefix (x ∷ a) [] = 0
token_common_prefix (x ∷ a) (y ∷ b) = if x == y then suc (token_common_prefix a b) else 0

unfoldable pub session_append_token : SessionSlot → ℕ → SessionSlot
session_append_token s id = record s { kv_tokens = s.kv_tokens ++ id ∷ [] }

-- The `logits` flags of a chunk: on for the last token of the prompt alone.
unfoldable pub logit_flags : List ℕ → Bool → List Bool
logit_flags [] last_chunk = []
logit_flags (t ∷ []) last_chunk = last_chunk ∷ []
logit_flags (t ∷ u ∷ ts) last_chunk = false ∷ logit_flags (u ∷ ts) last_chunk

-- The context and the slot after a call, whether it succeeded, and `*stats_out` where it was set.
pub record Prefill (Ctx : Type 0) : Type 0 where
  pub ctx : Ctx
  pub slot : SessionSlot
  pub ok : Bool
  pub stats : Option SessionPrefillStats

abbrev no_stats : SessionPrefillStats
no_stats = record { reused_tokens = 0; prefilled_tokens = 0 }

module _ (L : Llama) where
  open L use {Ctx, has_memory, seq_pos_max, seq_rm, n_batch, decode}

  unfoldable pub kv_seq_len : Ctx → ℕ → ℕ
  kv_seq_len ctx seq =
      if has_memory ctx then elim (seq_pos_max ctx seq) [ none ↦ 0 | some p ↦ p + 1 ] else 0

  -- One round of `prefill_chunked`: a batch of at most `n` of the tokens left.
  unfoldable pub decode_chunk : ℕ → Ctx → ℕ → ℕ → List ℕ → Ctx × Bool
  unfolding logit_flags rows
  decode_chunk n ctx seq pos ts =
      let chunk = take (min n (length ts)) ts in
      let rest = drop (min n (length ts)) ts in
      decode ctx (rows seq pos chunk (logit_flags chunk (leb (length rest) 0)))

  -- The loop over the tokens left, the next one at `pos`; `none` is a loop that still runs (with a
  -- batch size `n` of 0 it would not end).
  unfoldable pub chunk_loop : ℕ → ℕ → Ctx → ℕ → ℕ → List ℕ → Option (Ctx × Bool)
  unfolding decode_chunk
  chunk_loop zero n ctx seq pos ts = none
  chunk_loop (suc fuel) n ctx seq pos [] = some (ctx, true)
  chunk_loop (suc fuel) n ctx seq pos (t ∷ ts) =
      let len = min n (length (t ∷ ts)) in
      let r = decode_chunk n ctx seq pos (t ∷ ts) in
      elim r.1 [
        | true ↦ chunk_loop fuel n r.0 seq (pos + len) (drop len (t ∷ ts))
        | false ↦ some (r.0, false)
      ]

  unfoldable pub prefill_chunked : Ctx → ℕ → List ℕ → Option (Ctx × Bool)
  unfolding chunk_loop kv_seq_len
  prefill_chunked ctx seq ts =
      chunk_loop (suc (length ts)) (n_batch ctx) ctx seq (kv_seq_len ctx seq) ts

  -- The end of a prefill: the tokens from `reused` on are decoded, and the ledger is the prompt.
  unfoldable pub prefill_tail : Ctx → SessionSlot → ℕ → List ℕ → ℕ → Option (Prefill Ctx)
  unfolding prefill_chunked
  prefill_tail ctx s seq prompt reused = elim (prefill_chunked ctx seq (drop reused prompt)) [
    | none ↦ none
    | some (ctx', ok) ↦ some (
        if ok
        then record {
          ctx = ctx';
          slot = record s { kv_tokens = prompt };
          ok = true;
          stats =
              some (record { reused_tokens = reused; prefilled_tokens = length prompt - reused });
        }
        else record { ctx = ctx'; slot = s; ok = false; stats = none })
  ]

  -- A lane that holds as many tokens as the ledger: trim to the common prefix, decode the rest.
  -- `again` is the call after a reset.
  unfoldable pub prefill_synced :
      (Ctx → SessionSlot → Option (Prefill Ctx))
      → Ctx
      → SessionSlot
      → ℕ
      → List ℕ
      → Option (Prefill Ctx)
  unfolding token_common_prefix prefill_tail session_reset_kv
  prefill_synced again ctx s seq prompt =
      let lcp = token_common_prefix s.kv_tokens prompt in
      if ltb lcp (length s.kv_tokens)
      then (let r = seq_rm ctx seq lcp in
          elim r.1 [
            | true ↦ prefill_tail r.0 (record s { kv_tokens = take lcp s.kv_tokens }) seq prompt lcp
            | false ↦ let (ctx', s') = session_reset_kv L r.0 s in again ctx' s'
          ])
      else prefill_tail ctx s seq prompt lcp

  -- `none` is out of fuel: each recursive call follows a reset.
  unfoldable pub session_prefill : ℕ → Ctx → SessionSlot → List ℕ → Option (Prefill Ctx)
  unfolding kv_seq_len prefill_tail prefill_synced session_reset_kv
  session_prefill zero ctx s prompt = none
  session_prefill (suc fuel) ctx s [] =
      some (record { ctx = ctx; slot = s; ok = true; stats = some no_stats })
  session_prefill (suc fuel) ctx s (t ∷ ts) =
      let again = λ (ctx' : Ctx) (s' : SessionSlot). session_prefill fuel ctx' s' (t ∷ ts) in
      if has_memory ctx
      then elim s.seq_id [
        | none ↦ some (record { ctx = ctx; slot = s; ok = false; stats = none })
        | some seq ↦
            let n_kv = kv_seq_len ctx seq in
            if n_kv == 0
            then prefill_tail ctx s seq (t ∷ ts) 0
            else if length s.kv_tokens == n_kv
            then prefill_synced again ctx s seq (t ∷ ts)
            else (let (ctx', s') = session_reset_kv L ctx s in again ctx' s')
      ]
      else some (record { ctx = ctx; slot = s; ok = false; stats = some no_stats })

  unfoldable pub session_decode_token : Ctx → SessionSlot → ℕ → Ctx × Bool
  unfolding kv_seq_len rows
  session_decode_token ctx s id = elim s.seq_id [
    | none ↦ (ctx, false)
    | some seq ↦ decode ctx (rows seq (kv_seq_len ctx seq) (id ∷ []) (true ∷ []))
  ]
