-- ===== src/Tools/PrepareLaws.antt =====
-- The copy that `main` of tools/cne-prepare.cpp makes.
use caedral_notre_engine.Prelude.{
  ◌≡◌, refl, sym, ap, ◌∙◌, ◌⊎◌, inl, inr, ℕ, zero, suc, ◌+◌, ◌-◌, ◌*◌, ◌%◌, ◌≤◌, ◌<◌, min, true,
  false, List, [], ◌∷◌, some, Bytes, ltb, ◌==◌, length, All, arith, Bool-cases,
}
use mathlib.Core.Path.{subst}
use caedral_notre_engine.Prelude.Words.{u64_mod, add64, add64_exact, sub64_exact}
use caedral_notre_engine.Cache.Defs.{write_range}
use caedral_notre_engine.Cache.Memory.{write_range_in, write_range_out}
use caedral_notre_engine.Gguf.Stream.{align_up}
use caedral_notre_engine.Gguf.OpenSound.{align_up_first}
use caedral_notre_engine.Gguf.Registry.{RawTensor}
use caedral_notre_engine.Gguf.Reader.{GgufReader}
use caedral_notre_engine.Tools.Prepare.{
  Placed, io_align, copy_bytes, in_order, span_of, layout, byte_at, copy_loop, copy_all, write_out,
  prepare_file, prepared_meta, refused, wrote, smaller_layout, no_space,
}

-- A copy of `left` bytes: they are at the target, and nothing else has changed.
abbrev IsCopy : Bytes → ℕ → ℕ → ℕ → (ℕ → ℕ) → (ℕ → ℕ) → Type 0
IsCopy file src dst left out out' =
    ((j : ℕ) → j < left → out' (dst + j) ≡ byte_at file (src + j))
    × ((a : ℕ) → (a < dst) ⊎ (dst + left ≤ a) → out' a ≡ out a)

IsCopy-step :
    (file : Bytes) (src dst left chunk : ℕ) (out out' : ℕ → ℕ)
    → chunk ≤ left
    → IsCopy file
        (src + chunk)
        (dst + chunk)
        (left - chunk)
        (write_range out dst chunk (λ i. byte_at file (src + i)))
        out'
    → IsCopy file src dst left out out'
IsCopy-step file src dst left chunk out out' h (inside, outside) = (
  λ j k. elim (Bool-cases (ltb j chunk)) [
    | inl y ↦
        outside (dst + j) (ground (arith, y))
        ∙ write_range_in out (λ i. byte_at file (src + i)) dst chunk j (ground (arith, y))
    | inr n ↦
        let there : dst + j ≡ dst + chunk + (j - chunk) = ground (arith, n) in
        let from : src + chunk + (j - chunk) ≡ src + j = ground (arith, n) in
        ap out' there ∙ inside (j - chunk) (ground (arith, n, k)) ∙ ap (byte_at file) from
  ],
  λ a k.
      outside a (ground (arith, k, h))
      ∙ write_range_out out (λ i. byte_at file (src + i)) dst chunk a (ground (arith, k, h)),
)

copy_loop-IsCopy :
    (file : Bytes) (n src dst left : ℕ) (out : ℕ → ℕ)
    → left < n
    → src + left ≤ length file
    → (out' : ℕ → ℕ) × (copy_loop file n src dst left out ≡ some out')
      × IsCopy file src dst left out out'
unfolding copy_loop
copy_loop-IsCopy file zero src dst left out h k = absurd (omega arith)
copy_loop-IsCopy file (suc n) src dst left out h k = elim (Bool-cases (left == 0)) [
  | inl y ↦ (out, rw (copy_loop, y) refl, (λ j i. absurd (ground (arith, y, i)), λ a i. refl))
  | inr x ↦
      let chunk = min left copy_bytes in
      let (out', run, copied) =
        copy_loop-IsCopy file n (src + chunk) (dst + chunk) (left - chunk)
          (write_range out dst chunk (λ i. byte_at file (src + i))) (ground (arith, x, h))
          (ground (arith, k)) in
      let fits : ltb (length file) (src + chunk) ≡ false = ground (arith, k) in
      (
        out',
        rw (copy_loop, x, fits) run,
        IsCopy-step file src dst left chunk out out' (omega arith) copied,
      )
]

-- Where the first of the tensors begins, or the end of the file.
abbrev begin_of : ℕ → ℕ → List RawTensor → ℕ
begin_of data_off size [] = size
begin_of data_off size (t ∷ ts) = data_off + t.rel_offset

abbrev Within : ℕ → ℕ → List RawTensor → Type 0
Within data_off size ts = All (λ t. data_off + t.rel_offset ≤ size) ts

-- Each tensor is placed at a multiple of 4096, and all bytes up to the next one are there.
abbrev IsCopied : Bytes → ℕ → ℕ → List RawTensor → List Placed → (ℕ → ℕ) → Type 0
IsCopied file data_off new_off [] [] out = Unit
IsCopied file data_off new_off (t ∷ ts) (p ∷ ps) out =
    (p.tensor ≡ t)
    × (p.new_rel % io_align ≡ 0)
    × ((j : ℕ)
        → j < begin_of data_off (length file) ts - (data_off + t.rel_offset)
        → out (new_off + p.new_rel + j) ≡ byte_at file (data_off + t.rel_offset + j))
    × IsCopied file data_off new_off ts ps out
IsCopied file data_off new_off [] (p ∷ ps) out = ⊥
IsCopied file data_off new_off (t ∷ ts) [] out = ⊥

in_order_next :
    (data_off size : ℕ) (t : RawTensor) (ts : List RawTensor)
    → in_order (t ∷ ts) ≡ true
    → Within data_off size (t ∷ ts)
    → (data_off + t.rel_offset ≤ begin_of data_off size ts)
      × (begin_of data_off size ts ≤ size)
      × (in_order ts ≡ true)
unfolding in_order
in_order_next data_off size t [] h w = (w.0, omega arith, refl)
in_order_next data_off size t (u ∷ us) h w = (ground (arith, h), w.1.0, ground (arith, h))

span_of_exact :
    (data_off size : ℕ) (t : RawTensor) (ts : List RawTensor)
    → data_off + t.rel_offset ≤ begin_of data_off size ts
    → begin_of data_off size ts < u64_mod
    → span_of data_off size t ts ≡ begin_of data_off size ts - (data_off + t.rel_offset)
unfolding span_of
span_of_exact data_off size t [] h b =
    rw (add64_exact data_off t.rel_offset (omega arith))
      (sub64_exact size (data_off + t.rel_offset) h b)
span_of_exact data_off size t (u ∷ us) h b =
    rw (add64_exact data_off t.rel_offset (omega arith), add64_exact data_off u.rel_offset b)
      (sub64_exact (data_off + u.rel_offset) (data_off + t.rel_offset) h b)

-- What a copy of the tensors to the places of `ps`, from `cursor` on, gives.
abbrev Copies : Bytes → ℕ → ℕ → ℕ → List RawTensor → (ℕ → ℕ) → List Placed → Type 0
Copies file data_off new_off cursor ts out ps =
    (out' : ℕ → ℕ) × (copy_all file data_off new_off ps out ≡ some out')
    × IsCopied file data_off new_off ts ps out'
    × ((a : ℕ) → a < new_off + cursor → out' a ≡ out a)

layout_cons :
    (data_off size cursor : ℕ) (t : RawTensor) (ts : List RawTensor) (span place : ℕ)
    → span_of data_off size t ts ≡ span
    → add64 cursor (align_up span io_align) ≡ place
    → (layout data_off size cursor (t ∷ ts)).0
      ≡ record { tensor = t; span = span; new_rel = cursor } ∷ (layout data_off size place ts).0
unfolding layout
layout_cons data_off size cursor t ts span place e f = rw (e, f) refl

layout-Copies :
    (file : Bytes) (data_off new_off : ℕ) (ts : List RawTensor) (cursor : ℕ) (out : ℕ → ℕ)
    → in_order ts ≡ true
    → Within data_off (length file) ts
    → cursor % io_align ≡ 0
    → length file < u64_mod
    → new_off + cursor + (length file - begin_of data_off (length file) ts) + io_align * length ts
      < u64_mod
    → Copies file data_off new_off cursor ts out (layout data_off (length file) cursor ts).0
unfolding layout copy_all
layout-Copies file data_off new_off [] cursor out o w c z room = (out, refl, tt, λ a h. refl)
layout-Copies file data_off new_off (t ∷ ts) cursor out o w c z room =
    let (below, inside, o') = in_order_next data_off (length file) t ts o w in
    let begin = data_off + t.rel_offset in
    let span = begin_of data_off (length file) ts - begin in
    let place = align_up span io_align in
    let (above, near, whole) =
      align_up_first span io_align (omega arith) (omega arith) (omega arith) in
    let (out₁, run₁, (same, kept)) =
      copy_loop-IsCopy file (suc span) begin (new_off + cursor) span out (omega arith)
        (omega (arith, below, inside)) in
    let (out₂, run₂, rest, kept') =
      layout-Copies file data_off new_off ts (cursor + place) out₁ o' w.1 (omega (arith, c, whole))
        z (omega arith) in
    let ps = (layout data_off (length file) (cursor + place) ts).0 in
    let p : Placed = record { tensor = t; span = span; new_rel = cursor } in
    let run : copy_all file data_off new_off (p ∷ ps) out ≡ some out₂ =
      rw
        (
          copy_all,
          add64_exact data_off t.rel_offset (omega (arith, below, inside)),
          add64_exact new_off cursor (omega arith),
          run₁,
        )
        run₂ in
    subst (Copies file data_off new_off cursor (t ∷ ts) out)
      (sym (
        layout_cons data_off (length file) cursor t ts span (cursor + place)
          (span_of_exact data_off (length file) t ts below (omega (arith, inside, z)))
          (add64_exact cursor place (omega arith))))
      (
        out₂,
        run,
        (refl, c, (λ j h. kept' (new_off + cursor + j) (omega (arith, h, above)) ∙ same j h), rest),
        λ a h. kept' a (omega (arith, h)) ∙ kept a (inl h),
      )

-- What the tool works out before it writes: the places, the end of the data, the metadata and where
-- the data goes.
abbrev pub places : GgufReader → Bytes → List Placed
places r file = (layout r.data_offset (length file) 0 r.tensors).0

abbrev pub new_meta : GgufReader → Bytes → Bytes
new_meta r file = prepared_meta r (places r file) file

abbrev pub new_off : GgufReader → Bytes → ℕ
new_off r file = align_up (length (new_meta r file)) io_align

abbrev pub new_size : GgufReader → Bytes → ℕ
new_size r file = add64 (new_off r file) (layout r.data_offset (length file) 0 r.tensors).1

-- A written file: its data begins at a multiple of 4096 behind the metadata, which is in it whole, and
-- the tensors are copied.
abbrev pub IsPrepared : ℕ → GgufReader → Bytes → Type 0
IsPrepared available r file =
    (out : ℕ → ℕ) × (prepare_file available r file ≡ wrote (places r file) out)
    × (new_off r file % io_align ≡ 0)
    × ((a : ℕ) → a < length (new_meta r file) → out a ≡ byte_at (new_meta r file) a)
    × IsCopied file r.data_offset (new_off r file) r.tensors (places r file) out

meta_written :
    (meta : Bytes) (a : ℕ)
    → a < length meta
    → write_range (λ i. 0) 0 (length meta) (byte_at meta) a ≡ byte_at meta a
unfolding write_range
meta_written meta a h =
    let back : a - 0 ≡ a = omega arith in ground (arith, h, ap (byte_at meta) back)

-- On a file that holds its metadata and whose tensors are in the order of their offsets and begin
-- inside it, with all sizes within 64 bits, the tool refuses a new file that would be smaller or for
-- which there is no space, and otherwise writes the new metadata and every byte of every tensor up to
-- the next one, each tensor at a multiple of 4096.
pub prepare_file_total :
    (available : ℕ) (r : GgufReader) (file : Bytes)
    → in_order r.tensors ≡ true
    → Within r.data_offset (length file) r.tensors
    → r.meta_end ≤ length file
    → length (new_meta r file) + length file + io_align * (length r.tensors + 2) < u64_mod
    → ((new_size r file < length file) × (prepare_file available r file ≡ refused smaller_layout))
      ⊎ (((available < new_size r file) × (prepare_file available r file ≡ refused no_space))
          ⊎ IsPrepared available r file)
unfolding prepare_file write_out
prepare_file_total available r file o w m room =
    elim (Bool-cases (ltb (new_size r file) (length file))) [
      | inl y ↦ inl (ground (arith, y), rw (prepare_file, write_out, o, short, y) refl)
      | inr x ↦ elim (Bool-cases (ltb available (new_size r file))) [
        | inl y ↦ inr (inl (ground (arith, y), rw (prepare_file, write_out, o, short, x, y) refl))
        | inr y ↦ inr (
            inr (
              copied.0,
              rw (prepare_file, write_out, o, short, x, y, copied.1) refl,
              aligned.2,
              λ a h. copied.3 a (omega (arith, h, aligned.0)) ∙ meta_written meta a h,
              copied.2,
            ))
      ]
    ]
  where
    short : ltb (length file) r.meta_end ≡ false
    short = ground (arith, m)

    meta : Bytes
    meta = new_meta r file

    aligned :
        (length meta ≤ new_off r file)
        × (new_off r file < length meta + io_align)
        × (new_off r file % io_align ≡ 0)
    aligned =
        align_up_first (length meta) io_align (omega arith) (omega (arith, room))
          (omega (arith, room))

    copied :
        Copies file r.data_offset
          (new_off r file)
          0
          r.tensors
          (write_range (λ a. 0) 0 (length meta) (byte_at meta))
          (places r file)
    copied =
        layout-Copies file r.data_offset (new_off r file) r.tensors 0
          (write_range (λ a. 0) 0 (length meta) (byte_at meta)) o w refl (omega (arith, room))
          (omega (arith, room, aligned.1))
