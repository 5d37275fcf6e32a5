-- ===== src/Session/Aligned.antt =====
-- After a successful `session_prefill` of runtime/cne_session.cpp the lane holds the prompt.
use caedral_notre_engine.Prelude.{
  ℕ, zero, suc, ◌+◌, ◌-◌, ◌≤◌, ◌<◌, ◌≡◌, refl, sym, ◌∙◌, ap, inl, inr, Bool, true, false, List, [],
  ◌∷◌, ◌++◌, none, some, arith, ltb, ◌==◌, if◌then◌else◌, length, take, drop, min, Bool-cases,
  take-append-drop, length-append, length-take, length-drop, take_of_length-le,
}
use mathlib.Core.List.{append_assoc, append-nil}
use caedral_notre_engine.Session.Llama.{Llama, Lawful}
use caedral_notre_engine.Session.Defs.{SessionSlot}
use caedral_notre_engine.Session.Store.{session_reset_kv, session_clear_seq}
use caedral_notre_engine.Session.Prefill.{
  token_common_prefix, logit_flags, Prefill, kv_seq_len, decode_chunk, chunk_loop, prefill_chunked,
  prefill_tail, prefill_synced, session_prefill,
}

length-logit_flags : (ts : List ℕ) (b : Bool) → length ts ≡ length (logit_flags ts b)
unfolding logit_flags
length-logit_flags [] b = refl
length-logit_flags (t ∷ []) b = refl
length-logit_flags (t ∷ u ∷ ts) b = ap suc (length-logit_flags (u ∷ ts) b)

-- The common prefix is common, and the longest one: both lists go on differently behind it.
token_common_prefix_lem :
    (a b : List ℕ)
    → (take (token_common_prefix a b) a ≡ take (token_common_prefix a b) b)
      × (token_common_prefix a b ≤ length a)
      × (token_common_prefix a b ≤ length b)
      × ((n : ℕ) → n ≤ length a → n ≤ length b → take n a ≡ take n b → n ≤ token_common_prefix a b)
unfolding token_common_prefix
token_common_prefix_lem [] b = (refl, omega arith, omega arith, λ n h k e. h)
token_common_prefix_lem (x ∷ a) [] = (refl, omega arith, omega arith, λ n h k e. k)
token_common_prefix_lem (x ∷ a) (y ∷ b) =
    let (common, left, right, longest) = token_common_prefix_lem a b in
    elim (Bool-cases (x == y)) [
      | inl same ↦ (
        ground arith,
        ground arith,
        ground arith,
        λ n.
            elim n
              as (λ n.
                n ≤ length (x ∷ a)
                → n ≤ length (y ∷ b)
                → take n (x ∷ a) ≡ take n (y ∷ b)
                → n ≤ (if x == y then suc (token_common_prefix a b) else 0)) [
                  | zero ↦ λ h k e. omega arith
                  | suc m ↦ λ h k e. ground (arith, longest m)
                ],
      )
      | inr differ ↦ (
        ground arith,
        ground arith,
        ground arith,
        λ n.
            elim n
              as (λ n.
                n ≤ length (x ∷ a)
                → n ≤ length (y ∷ b)
                → take n (x ∷ a) ≡ take n (y ∷ b)
                → n ≤ (if x == y then suc (token_common_prefix a b) else 0)) [
                  | zero ↦ λ h k e. omega arith
                  | suc m ↦ λ h k e. absurd (ground arith)
                ],
      )
    ]

module _ (L : Llama) (tokens : L.Ctx → ℕ → List ℕ) (law : Lawful L tokens) where
  pub kv_seq_len-tokens :
      (c : L.Ctx) (s : ℕ) → L.has_memory c ≡ true → kv_seq_len L c s ≡ length (tokens c s)
  unfolding kv_seq_len
  kv_seq_len-tokens c s h = by_tokens (tokens c s) refl
    where
      by_tokens : (ts : List ℕ) → tokens c s ≡ ts → kv_seq_len L c s ≡ length (tokens c s)
      by_tokens [] e = ground (arith, law.pos_max_empty c s e)
      by_tokens (t ∷ ts) e =
          ground (arith, law.pos_max_last c s (length ts) (ap length e), ap length e)

  decode_chunk-tokens :
      (n : ℕ) (c : L.Ctx) (s pos : ℕ) (ts : List ℕ)
      → pos ≡ length (tokens c s)
      → (decode_chunk L n c s pos ts).1 ≡ true
      → tokens (decode_chunk L n c s pos ts).0 s ≡ tokens c s ++ take (min n (length ts)) ts
  unfolding decode_chunk
  decode_chunk-tokens n c s pos ts e ok =
      rw e (law.decode_appends c s _ _ (length-logit_flags _ _) (rw e at ok))

  module _ (fuel n : ℕ) (c : L.Ctx) (s pos t : ℕ) (ts : List ℕ) where
    chunk_fails :
        (decode_chunk L n c s pos (t ∷ ts)).1 ≡ false
        → chunk_loop L (suc fuel) n c s pos (t ∷ ts)
          ≡ some ((decode_chunk L n c s pos (t ∷ ts)).0, false)
    unfolding chunk_loop
    chunk_fails h = rw (h, chunk_loop) refl

    chunk_goes_on :
        (decode_chunk L n c s pos (t ∷ ts)).1 ≡ true
        → chunk_loop L (suc fuel) n c s pos (t ∷ ts)
          ≡ chunk_loop L fuel n
              (decode_chunk L n c s pos (t ∷ ts)).0
              s
              (pos + min n (length (t ∷ ts)))
              (drop (min n (length (t ∷ ts))) (t ∷ ts))
    unfolding chunk_loop
    chunk_goes_on h = rw (h, chunk_loop) refl

  chunk_loop-tokens :
      (fuel n : ℕ) (c : L.Ctx) (s pos : ℕ) (ts : List ℕ)
      → 0 < n
      → length ts < fuel
      → pos ≡ length (tokens c s)
      → (c' : L.Ctx) × (ok : Bool) × (chunk_loop L fuel n c s pos ts ≡ some (c', ok))
        × (ok ≡ true → tokens c' s ≡ tokens c s ++ ts)
  chunk_loop-tokens zero n c s pos ts p f e = absurd (omega arith)
  chunk_loop-tokens (suc fuel) n c s pos [] p f e =
      (c, true, unfold chunk_loop in refl, λ _. sym (append-nil (tokens c s)))
  chunk_loop-tokens (suc fuel) n c s pos (t ∷ ts) p f e =
      let r = decode_chunk L n c s pos (t ∷ ts) in
      elim (Bool-cases r.1) [
        | inr bad ↦ (r.0, false, chunk_fails fuel n c s pos t ts bad, λ x. cc)
        | inl good ↦
            let len = min n (length (t ∷ ts)) in
            let held = decode_chunk-tokens n c s pos (t ∷ ts) e good in
            let (c', ok, runs, whole) =
              chunk_loop-tokens fuel n r.0 s (pos + len) (drop len (t ∷ ts)) p
                (omega (arith, length-drop len (t ∷ ts)))
                (omega (
                  arith,
                  ap length held,
                  length-append (tokens c s) (take len (t ∷ ts)),
                  e,
                  length-take len (t ∷ ts),
                )) in
            (
              c',
              ok,
              chunk_goes_on fuel n c s pos t ts good ∙ runs,
              λ x.
                  whole x
                  ∙ ap (λ (v : List ℕ). v ++ drop len (t ∷ ts)) held
                  ∙ append_assoc (tokens c s) (take len (t ∷ ts)) (drop len (t ∷ ts))
                  ∙ ap (◌++◌ (tokens c s)) (take-append-drop len (t ∷ ts)),
            )
      ]

  -- A prefill that returned: a success leaves the prompt in the ledger and in the lane, and tells
  -- the tokens reused from the tokens decoded.
  pub record Aligned (s : ℕ) (prompt : List ℕ) (r : Prefill L.Ctx) : Type 0 where
    pub ledger : r.ok ≡ true → r.slot.kv_tokens ≡ prompt
    pub lane : r.ok ≡ true → tokens r.ctx s ≡ prompt
    pub stats :
        r.ok ≡ true
        → (n : ℕ) × (r.stats
            ≡ some (record { reused_tokens = n; prefilled_tokens = length prompt - n }))
          × (n ≤ length prompt)

  module _ (c c' : L.Ctx) (slot : SessionSlot) (s : ℕ) (prompt : List ℕ) (n : ℕ) where
    tail_done :
        prefill_chunked L c s (drop n prompt) ≡ some (c', true)
        → prefill_tail L c slot s prompt n
          ≡ some (record {
            ctx = c';
            slot = record slot { kv_tokens = prompt };
            ok = true;
            stats = some (record { reused_tokens = n; prefilled_tokens = length prompt - n });
          })
    unfolding prefill_tail
    tail_done h = ground arith

    tail_failed :
        prefill_chunked L c s (drop n prompt) ≡ some (c', false)
        → prefill_tail L c slot s prompt n
          ≡ some (record { ctx = c'; slot = slot; ok = false; stats = none })
    unfolding prefill_tail
    tail_failed h = ground arith

  prefill_tail-Aligned :
      (c : L.Ctx) (slot : SessionSlot) (s : ℕ) (prompt : List ℕ) (n : ℕ)
      → L.has_memory c ≡ true
      → tokens c s ≡ take n prompt
      → n ≤ length prompt
      → (r : Prefill L.Ctx) × (prefill_tail L c slot s prompt n ≡ some r) × Aligned s prompt r
  prefill_tail-Aligned c slot s prompt n m held h =
      let (c', ok, runs, whole) =
        chunk_loop-tokens (suc (length (drop n prompt))) (L.n_batch c) c s (kv_seq_len L c s)
          (drop n prompt) (law.batch_pos c) (omega arith) (kv_seq_len-tokens c s m) in
      elim (Bool-cases ok) [
        | inl y ↦ (
          record {
            ctx = c';
            slot = record slot { kv_tokens = prompt };
            ok = true;
            stats = some (record { reused_tokens = n; prefilled_tokens = length prompt - n });
          },
          tail_done c c' slot s prompt n (unfold prefill_chunked in ground (arith, runs, y)),
          record {
            ledger = λ _. refl;
            lane = λ _.
                whole y ∙ ap (λ (v : List ℕ). v ++ drop n prompt) held ∙ take-append-drop n prompt;
            stats = λ _. (n, refl, h);
          },
        )
        | inr no' ↦ (
          record { ctx = c'; slot = slot; ok = false; stats = none },
          tail_failed c c' slot s prompt n (unfold prefill_chunked in ground (arith, runs, no')),
          record { ledger = λ x. cc; lane = λ x. cc; stats = λ x. cc },
        )
      ]

  -- What the ledger and the lane have in common: equal lengths mean equal tokens.
  abbrev pub Synced : L.Ctx → SessionSlot → ℕ → Type 0
  Synced c slot s = length slot.kv_tokens ≡ length (tokens c s) → slot.kv_tokens ≡ tokens c s

  -- From an empty lane, the call after a reset among them.
  prefill_empty :
      (fuel : ℕ) (c : L.Ctx) (slot : SessionSlot) (s t : ℕ) (ts : List ℕ)
      → L.has_memory c ≡ true
      → slot.seq_id ≡ some s
      → tokens c s ≡ []
      → (r : Prefill L.Ctx) × (session_prefill L (suc fuel) c slot (t ∷ ts) ≡ some r)
        × Aligned s (t ∷ ts) r
  prefill_empty fuel c slot s t ts m lane none_held =
      let (r, runs, good) = prefill_tail-Aligned c slot s (t ∷ ts) 0 m none_held (omega arith) in
      (
        r,
        unfold session_prefill in
            ground (arith, runs, kv_seq_len-tokens c s m, ap length none_held),
        good,
      )

  reset_lane :
      (c : L.Ctx) (slot : SessionSlot) (s : ℕ)
      → L.has_memory c ≡ true
      → slot.seq_id ≡ some s
      → (L.has_memory (session_reset_kv L c slot).0 ≡ true)
        × (tokens (session_reset_kv L c slot).0 s ≡ [])
        × ((session_reset_kv L c slot).1.seq_id ≡ some s)
  unfolding session_reset_kv session_clear_seq
  reset_lane c slot s m lane = (
    ground (arith, law.memory_stays.0 c s 0),
    ground (arith, law.rm_truncates c s 0 (law.rm_all c s)),
    lane,
  )

  prefill_synced-Aligned :
      (fuel : ℕ) (c : L.Ctx) (slot : SessionSlot) (s t : ℕ) (ts : List ℕ)
      → L.has_memory c ≡ true
      → slot.seq_id ≡ some s
      → slot.kv_tokens ≡ tokens c s
      → (r : Prefill L.Ctx) × (prefill_synced L
            (λ c' s'. session_prefill L (suc fuel) c' s' (t ∷ ts))
            c
            slot
            s
            (t ∷ ts)
          ≡ some r)
        × Aligned s (t ∷ ts) r
  prefill_synced-Aligned fuel c slot s t ts m lane same =
      elim (Bool-cases (ltb lcp (length slot.kv_tokens))) [
        | inr whole ↦
            let all : take lcp slot.kv_tokens ≡ slot.kv_tokens =
              take_of_length-le lcp slot.kv_tokens (ground arith) in
            let (r, runs, good) =
              prefill_tail-Aligned c slot s prompt lcp m (sym same ∙ sym all ∙ common) right in
            (r, unfold prefill_synced in ground (arith, runs), good)
        | inl shorter ↦ elim (Bool-cases (L.seq_rm c s lcp).1) [
          | inl trimmed ↦
              let (r, runs, good) =
                prefill_tail-Aligned (L.seq_rm c s lcp).0
                  (record slot { kv_tokens = take lcp slot.kv_tokens }) s prompt lcp
                  (law.memory_stays.0 c s lcp ∙ m)
                  (law.rm_truncates c s lcp trimmed ∙ ap (take lcp) (sym same) ∙ common) right in
              (r, unfold prefill_synced in ground (arith, runs), good)
          | inr stuck ↦
              let c₁ = (L.seq_rm c s lcp).0 in
              let (m', none_held, lane') =
                reset_lane c₁ slot s (law.memory_stays.0 c s lcp ∙ m) lane in
              let x = session_reset_kv L c₁ slot in
              let (r, runs, good) = prefill_empty fuel x.0 x.1 s t ts m' lane' none_held in
              (r, unfold prefill_synced in ground (arith, runs), good)
        ]
      ]
    where
      prompt : List ℕ
      prompt = t ∷ ts

      lcp : ℕ
      lcp = token_common_prefix slot.kv_tokens prompt

      common : take lcp slot.kv_tokens ≡ take lcp prompt
      common = (token_common_prefix_lem slot.kv_tokens prompt).0

      right : lcp ≤ length prompt
      right = (token_common_prefix_lem slot.kv_tokens prompt).2

  -- On a context with a memory, for a slot with a lane and a prompt that is not empty,
  -- `session_prefill` returns after at most one reset, whatever the lane holds, provided that a
  -- ledger as long as the lane is the lane's. If it reports success, the ledger and the lane both
  -- hold exactly the prompt, and the reused and the decoded tokens add up to the prompt.
  pub session_prefill-Aligned :
      (fuel : ℕ) (c : L.Ctx) (slot : SessionSlot) (s t : ℕ) (ts : List ℕ)
      → L.has_memory c ≡ true
      → slot.seq_id ≡ some s
      → Synced c slot s
      → (r : Prefill L.Ctx) × (session_prefill L (suc (suc fuel)) c slot (t ∷ ts) ≡ some r)
        × Aligned s (t ∷ ts) r
  session_prefill-Aligned fuel c slot s t ts m lane synced =
      let n = kv_seq_len-tokens c s m in
      elim (Bool-cases (kv_seq_len L c s == 0)) [
        | inl none_held ↦
            prefill_empty (suc fuel) c slot s t ts m lane
              (empty_of_length (tokens c s) (ground arith))
        | inr held ↦ elim (Bool-cases (length slot.kv_tokens == kv_seq_len L c s)) [
          | inl equal ↦
              let (r, runs, good) =
                prefill_synced-Aligned fuel c slot s t ts m lane (synced (ground arith)) in
              (r, unfold session_prefill in ground (arith, runs), good)
          | inr desync ↦
              let (m', none_held, lane') = reset_lane c slot s m lane in
              let x = session_reset_kv L c slot in
              let (r, runs, good) = prefill_empty fuel x.0 x.1 s t ts m' lane' none_held in
              (r, unfold session_prefill in ground (arith, runs), good)
        ]
      ]
    where
      empty_of_length : (xs : List ℕ) → length xs ≡ 0 → xs ≡ []
      empty_of_length [] e = refl
      empty_of_length (x ∷ xs) e = absurd (omega arith)
