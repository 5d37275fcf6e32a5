-- ===== src/Session/Llama.antt =====
-- What runtime/cne_session.cpp uses of llama.cpp: a context with a memory of token sequences.
-- The laws are what llama.h documents of `llama_memory_seq_rm` and `llama_decode`.
use caedral_notre_engine.Prelude.{
  ℕ, suc, ◌+◌, ◌<◌, ◌≡◌, ◌≢◌, Bool, true, List, [], ◌∷◌, ◌++◌, Option, none, some, length, take,
}

-- One row of a `llama_batch` that belongs to one sequence.
pub record BatchRow : Type 0 where
  pub token : ℕ
  pub pos : ℕ
  pub seq : ℕ
  pub logits : Bool

pub record Llama : Type 1 where
  pub Ctx : Type 0
  -- `llama_get_memory(ctx)` is not null.
  pub has_memory : Ctx → Bool
  -- `llama_memory_seq_pos_max`; `none` is -1, the empty sequence.
  pub seq_pos_max : Ctx → ℕ → Option ℕ
  -- `llama_memory_seq_rm(mem, seq, p0, -1)`, and whether it could.
  pub seq_rm : Ctx → ℕ → ℕ → Ctx × Bool
  pub n_batch : Ctx → ℕ
  -- `llama_decode`, and whether it returned 0.
  pub decode : Ctx → List BatchRow → Ctx × Bool

-- The rows of tokens at consecutive positions of one sequence.
unfoldable pub rows : ℕ → ℕ → List ℕ → List Bool → List BatchRow
rows seq pos [] flags = []
rows seq pos (t ∷ ts) [] = []
rows seq pos (t ∷ ts) (f ∷ fs) =
    record { token = t; pos = pos; seq = seq; logits = f } ∷ rows seq (pos + 1) ts fs

-- `tokens ctx seq` is what the memory holds of a sequence, from position 0 on.
pub record Lawful (L : Llama) (tokens : L.Ctx → ℕ → List ℕ) : Type 0 where
  pub memory_stays :
      ((c : L.Ctx) (s p : ℕ) → L.has_memory (L.seq_rm c s p).0 ≡ L.has_memory c)
      × ((c : L.Ctx) (b : List BatchRow) → L.has_memory (L.decode c b).0 ≡ L.has_memory c)
  pub batch_pos : (c : L.Ctx) → 0 < L.n_batch c
  pub pos_max_empty : (c : L.Ctx) (s : ℕ) → tokens c s ≡ [] → L.seq_pos_max c s ≡ none
  pub pos_max_last :
      (c : L.Ctx) (s n : ℕ) → length (tokens c s) ≡ suc n → L.seq_pos_max c s ≡ some n
  -- A removal that succeeds truncates its sequence; one from position 0 on never fails.
  pub rm_truncates :
      (c : L.Ctx) (s p : ℕ)
      → (L.seq_rm c s p).1 ≡ true
      → tokens (L.seq_rm c s p).0 s ≡ take p (tokens c s)
  pub rm_all : (c : L.Ctx) (s : ℕ) → (L.seq_rm c s 0).1 ≡ true
  pub rm_others : (c : L.Ctx) (s p r : ℕ) → r ≢ s → tokens (L.seq_rm c s p).0 r ≡ tokens c r
  -- A batch that is decoded appends to its sequence.
  pub decode_appends :
      (c : L.Ctx) (s : ℕ) (ts : List ℕ) (fs : List Bool)
      → length ts ≡ length fs
      → (L.decode c (rows s (length (tokens c s)) ts fs)).1 ≡ true
      → tokens (L.decode c (rows s (length (tokens c s)) ts fs)).0 s ≡ tokens c s ++ ts
  pub decode_others :
      (c : L.Ctx) (s p r : ℕ) (ts : List ℕ) (fs : List Bool)
      → r ≢ s
      → tokens (L.decode c (rows s p ts fs)).0 r ≡ tokens c r
