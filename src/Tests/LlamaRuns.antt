-- ===== src/Tests/LlamaRuns.antt =====
-- A context that keeps the tokens of each sequence, as an instance of what the session code uses.
use caedral_notre_engine.Prelude.{
  ℕ, suc, ◌+◌, ◌≡◌, ◌≢◌, refl, sym, ◌∙◌, ap, Bool, true, false, List, [], ◌∷◌, ◌++◌, Option, none,
  some, arith, length, take, ◌==◌, ==_iff, if◌then◌else◌,
}
use mathlib.Core.List.{append_assoc}
use caedral_notre_engine.Session.Llama.{BatchRow, Llama, rows, Lawful}

abbrev pub Table : Type 0
Table = ℕ → List ℕ

pub last_pos : List ℕ → Option ℕ
last_pos [] = none
last_pos (t ∷ ts) = some (length ts)

pub cut : Table → ℕ → ℕ → Table
cut c s p r = if r == s then take p (c r) else c r

put : Table → BatchRow → Table
put c b r = if r == b.seq then c r ++ b.token ∷ [] else c r

pub put_all : Table → List BatchRow → Table
unfolding put
put_all c [] = c
put_all c (b ∷ bs) = put_all (put c b) bs

abbrev pub table_llama : Llama
table_llama = record {
  Ctx = Table;
  has_memory = λ c. true;
  seq_pos_max = λ c s. last_pos (c s);
  seq_rm = λ c s p. (cut c s p, true);
  n_batch = λ c. 512;
  decode = λ c b. (put_all c b, true);
}

append_nil : (xs : List ℕ) → xs ++ [] ≡ xs
append_nil [] = refl
append_nil (x ∷ xs) = ap (◌∷◌ x) (append_nil xs)

put_rows :
    (c : Table) (s p : ℕ) (ts : List ℕ) (fs : List Bool)
    → length ts ≡ length fs
    → put_all c (rows s p ts fs) s ≡ c s ++ ts
unfolding put_all rows put
put_rows c s p [] [] h = sym (append_nil (c s))
put_rows c s p [] (f ∷ fs) h = absurd (omega arith)
put_rows c s p (t ∷ ts) [] h = absurd (omega arith)
put_rows c s p (t ∷ ts) (f ∷ fs) h =
    put_rows (put c (record { token = t; pos = p; seq = s; logits = f })) s (p + 1) ts fs
      (omega arith)
    ∙ rw ((==_iff s s).1 refl) (append_assoc (c s) (t ∷ []) ts)

put_rows_others :
    (c : Table) (s p r : ℕ) (ts : List ℕ) (fs : List Bool)
    → r ≢ s
    → put_all c (rows s p ts fs) r ≡ c r
unfolding put_all rows put
put_rows_others c s p r [] fs ne = refl
put_rows_others c s p r (t ∷ ts) [] ne = refl
put_rows_others c s p r (t ∷ ts) (f ∷ fs) ne =
    let other : (r == s) ≡ false = ground arith in
    put_rows_others (put c (record { token = t; pos = p; seq = s; logits = f })) s (p + 1) r ts fs
      ne
    ∙ rw other refl

pub table_llama-Lawful : Lawful table_llama (λ c s. c s)
unfolding last_pos cut
table_llama-Lawful = record {
  memory_stays = (λ c s p. refl, λ c b. refl);
  batch_pos = λ c. omega arith;
  pos_max_empty = λ c s e. ap last_pos e;
  pos_max_last = λ c s n e. last (c s) n e;
  rm_truncates = λ c s p h. rw ((==_iff s s).1 refl) refl;
  rm_all = λ c s. refl;
  rm_others = λ c s p r ne. ground arith;
  decode_appends = λ c s ts fs e h. put_rows c s (length (c s)) ts fs e;
  decode_others = λ c s p r ts fs ne. put_rows_others c s p r ts fs ne;
}
  where
    last : (ts : List ℕ) (n : ℕ) → length ts ≡ suc n → last_pos ts ≡ some n
    last [] n e = absurd (omega arith)
    last (t ∷ ts) n e = ap some (omega arith)
