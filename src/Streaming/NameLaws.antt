-- ===== src/Streaming/NameLaws.antt =====
-- `node_rank` and `rank_name` of runtime/cne_stream_cb.cpp are inverse to each other.
use caedral_notre_engine.Prelude.{
  ℕ, zero, suc, ◌+◌, ◌*◌, ◌/◌, ◌%◌, ◌≤◌, ◌<◌, ◌≡◌, refl, sym, ap, ◌∙◌, inl, inr, true, false, [],
  ◌∷◌, ◌++◌, some, Bytes, codes, ltb, ◌==◌, Bool-cases, find?, starts_with, arith,
}
use mathlib.Core.Path.{subst}
use caedral_notre_engine.Gguf.Classify.{all_digits, atoi, parse_layer_index, has_part}
use caedral_notre_engine.Gguf.LayerLaws.{parse_layer_index_reads, has_part-cons}
use caedral_notre_engine.Streaming.Names.{
  digits, decimal, node_kind, node_rank, kind_name, expert_name, rank_name,
}

atoi_snoc : (xs : Bytes) (n d : ℕ) → d < 10 → atoi n (xs ++ ((b'0' + d) ∷ [])) ≡ atoi n xs * 10 + d
unfolding atoi
atoi_snoc [] n d h = omega arith
atoi_snoc (x ∷ xs) n d h = atoi_snoc xs _ d h

atoi-digits : (fuel n : ℕ) → n < fuel → atoi 0 (digits fuel n) ≡ n
unfolding digits atoi
atoi-digits zero n h = absurd (omega arith)
atoi-digits (suc fuel) n h = elim (Bool-cases (ltb n 10)) [
  | inl y ↦ rw (y, atoi) (omega arith)
  | inr x ↦
      rw (x, atoi_snoc (digits fuel (n / 10)) 0 (n % 10) (omega arith))
        (let big : 10 ≤ n = ground (arith, x) in
          omega (arith, atoi-digits fuel (n / 10) (omega arith)))
]

all_digits_snoc :
    (xs : Bytes) (d : ℕ)
    → d < 10
    → all_digits xs ≡ true
    → all_digits (xs ++ ((b'0' + d) ∷ [])) ≡ true
unfolding all_digits
all_digits_snoc [] d h k = ground arith
all_digits_snoc (x ∷ xs) d h k = ground (arith, all_digits_snoc xs d h)

all_digits-digits : (fuel n : ℕ) → all_digits (digits fuel n) ≡ true
unfolding digits all_digits
all_digits-digits zero n = refl
all_digits-digits (suc fuel) n = elim (Bool-cases (ltb n 10)) [
  | inl y ↦ rw y (ground (arith, y))
  | inr x ↦ rw x (
      all_digits_snoc (digits fuel (n / 10)) (n % 10) (omega arith)
        (all_digits-digits fuel (n / 10)))
]

-- A byte other than an `f` starts no word that starts with an `f`.
has_part_skip :
    (c : ℕ) (s q : Bytes)
    → (b'f' == c) ≡ false
    → has_part (c ∷ s) (b'f' ∷ q) ≡ has_part s (b'f' ∷ q)
unfolding starts_with
has_part_skip c s q h = rw (has_part-cons c s (b'f' ∷ q), h) refl

has_part_digits :
    (d rest q : Bytes)
    → all_digits d ≡ true
    → has_part (d ++ rest) (b'f' ∷ q) ≡ has_part rest (b'f' ∷ q)
unfolding all_digits
has_part_digits [] rest q h = refl
has_part_digits (c ∷ d) rest q h =
    has_part_skip c (d ++ rest) q (ground arith) ∙ has_part_digits d rest q (ground arith)

snoc_cons : (xs : Bytes) (x : ℕ) → (c : ℕ) × (d : Bytes) × (xs ++ (x ∷ []) ≡ c ∷ d)
snoc_cons [] x = (x, [], refl)
snoc_cons (y ∷ ys) x = (y, ys ++ (x ∷ []), refl)

digits_cons : (fuel n : ℕ) → (c : ℕ) × (d : Bytes) × (digits (suc fuel) n ≡ c ∷ d)
unfolding digits
digits_cons fuel n = elim (Bool-cases (ltb n 10)) [
  | inl y ↦ (b'0' + n, [], rw y refl)
  | inr x ↦ rw x (snoc_cons (digits fuel (n / 10)) (b'0' + n % 10))
]

layer_of_expert_name : (n k : ℕ) → parse_layer_index (expert_name n k) ≡ some n
unfolding expert_name decimal
layer_of_expert_name n k =
    let (c, d, e) = digits_cons n n in
    rw e (
      parse_layer_index_reads c d (kind_name k ++ codes ".weight")
        (subst (λ s. all_digits s ≡ true) e (all_digits-digits (suc n) n))
      ∙ ap some (subst (λ s. atoi 0 s ≡ n) e (atoi-digits (suc n) n (omega arith))))

part_of_expert_name :
    (n k : ℕ) (q : Bytes)
    → has_part (expert_name n k) (b'f' ∷ q) ≡ has_part (kind_name k ++ codes ".weight") (b'f' ∷ q)
unfolding expert_name decimal
part_of_expert_name n k q =
    rw
      (
        has_part_skip b'b' _ q refl,
        has_part_skip b'l' _ q refl,
        has_part_skip b'k' _ q refl,
        has_part_skip b'.' _ q refl,
        has_part_digits (digits (suc n) n) (b'.' ∷ (kind_name k ++ codes ".weight")) q
            (all_digits-digits (suc n) n),
      )
      (has_part_skip b'.' (kind_name k ++ codes ".weight") q refl)

kind_of_expert_name : (n k : ℕ) → k < 3 → node_kind (expert_name n k) ≡ k
unfolding node_kind kind_name has_part find? starts_with
kind_of_expert_name n zero h = rw (part_of_expert_name n 0 (codes "fn_gate_exps")) refl
kind_of_expert_name n (suc zero) h =
    rw
      (part_of_expert_name n 1 (codes "fn_gate_exps"), part_of_expert_name n 1 (codes "fn_up_exps"))
      refl
kind_of_expert_name n (suc (suc zero)) h =
    rw
      (part_of_expert_name n 2 (codes "fn_gate_exps"), part_of_expert_name n 2 (codes "fn_up_exps"))
      refl
kind_of_expert_name n (suc (suc (suc k))) h = absurd (omega arith)

rank_of_expert_name : (n k : ℕ) → k < 3 → node_rank (expert_name n k) ≡ some (n * 3 + k)
unfolding node_rank
rank_of_expert_name n k h = rw (node_rank, layer_of_expert_name n k, kind_of_expert_name n k h) refl

-- `node_rank` gives back the rank that `rank_name` made a name of, whatever the rank.
pub node_rank-rank_name : (rank : ℕ) → node_rank (rank_name rank) ≡ some rank
unfolding rank_name node_rank
node_rank-rank_name rank =
    rw (rank_name, rank_of_expert_name (rank / 3) (rank % 3) (omega arith)) (ap some (omega arith))

-- Different ranks have different names.
pub rank_name_inj : (r s : ℕ) → rank_name r ≡ rank_name s → r ≡ s
rank_name_inj r s h = some-inj
  where
    both : some r ≡ some s
    both = sym (node_rank-rank_name r) ∙ ap node_rank h ∙ node_rank-rank_name s

    some-inj : r ≡ s
    some-inj = cc both
