-- ===== src/Streaming/Router.antt =====
-- The router's ids and the gate on the mass of the experts in runtime/cne_stream_cb.cpp. The
-- arithmetic of `double` is a parameter.
use caedral_notre_engine.Prelude.{
  ℕ, zero, suc, ◌+◌, ◌-◌, ◌*◌, Bool, not, List, [], ◌∷◌, ◌++◌, ltb, leb, if◌then◌else◌,
}

-- A matrix of 32-bit values in the graph's memory: `value` reads the one at a byte offset. For the
-- gate that is the `double` of the array `p` behind the `memcpy` of the 4 bytes there, whose other
-- half is what the stack held.
pub record Grid {ℓ} (A : Type ℓ) : Type ℓ where
  pub ne0 : ℕ
  pub ne1 : ℕ
  pub nb0 : ℕ
  pub nb1 : ℕ
  pub value : ℕ → A

-- `n` values from `r` on, in the column `col`.
unfoldable pub column {ℓ} : {A : Type ℓ} → Grid A → ℕ → ℕ → ℕ → List A
column g col r zero = []
column g col r (suc n) = g.value (col * g.nb1 + r * g.nb0) ∷ column g col (suc r) n

-- `n` columns from `col` on.
unfoldable pub columns {ℓ} : {A : Type ℓ} → Grid A → ℕ → ℕ → ℕ → List A
unfolding column
columns g k col zero = []
columns g k col (suc n) = column g col 0 k ++ columns g k (suc col) n

unfoldable pub read_ids_strided : Grid ℕ → List ℕ
unfolding columns
read_ids_strided ids = columns ids ids.ne0 0 ids.ne1

pub record Doubles {ℓ} (F : Type ℓ) : Type ℓ where
  pub nil : F
  pub plus : F → F → F
  pub over : F → F → F
  -- `a >= b`, and `a > 0`.
  pub ge : F → F → Bool
  pub positive : F → Bool

-- The array `p` has room for this many.
abbrev pub gate_room : ℕ
gate_room = 4096

module _ {ℓ} {F : Type ℓ} (real : Doubles F) where
  -- `sel`: the sum in the order of the ranks.
  unfoldable pub selected_mass : F → List F → F
  selected_mass acc [] = acc
  selected_mass acc (p ∷ ps) = selected_mass (real.plus acc p) ps

  -- The ranks up to the one that reaches the mass, or `used` if none does.
  unfoldable pub ranks_kept : F → F → ℕ → ℕ → F → List F → ℕ
  ranks_kept mass sel used r cum [] = used
  ranks_kept mass sel used r cum (p ∷ ps) =
      let rest = ranks_kept mass sel used (suc r) (real.plus cum (real.over p sel)) ps in
      if real.ge (real.plus cum (real.over p sel)) mass then suc r else rest

  -- How many ids of a column are kept: none without a positive sum.
  unfoldable pub gate : F → ℕ → ℕ → List F → ℕ
  unfolding selected_mass ranks_kept
  gate mass min_k used ps =
      let sel = selected_mass real.nil ps in
      let m = ranks_kept mass sel used 0 real.nil ps in
      if not (real.positive sel) then 0 else if ltb m min_k then min_k else m

  -- The columns from `col` on: the kept ids, and how many slices are dropped.
  unfoldable pub gate_columns : F → ℕ → ℕ → Grid ℕ → Grid F → ℕ → ℕ → List ℕ × ℕ
  unfolding gate column selected_mass
  gate_columns mass min_k used ids probs col zero = ([], 0)
  gate_columns mass min_k used ids probs col (suc n) =
      let ps = column probs col 0 (if leb used gate_room then used else gate_room) in
      let m = gate mass min_k used ps in
      let (kept, dropped) = gate_columns mass min_k used ids probs (suc col) n in
      if not (real.positive (selected_mass real.nil ps))
      then (kept, dropped)
      else (column ids col 0 m ++ kept, used - m + dropped)
