-- ===== src/Tools/Prepare.antt =====
-- `main` of tools/cne-prepare.cpp, from the open reader to the copied file. `available` is the space of
-- the output's directory, and writes succeed. `align_up` is the reader's, which the tool repeats.
-- The tensors have distinct offsets, which the registry has checked, so a sort leaves them in place
-- exactly if their offsets ascend.
use caedral_notre_engine.Prelude.{
  ℕ, zero, suc, ◌+◌, ◌-◌, min, Bool, true, not, ◌&&◌, ◌||◌, List, [], ◌∷◌, ◌++◌, Option, none, some,
  Bytes, codes, ltb, leb, ◌==◌, if◌then◌else◌, length, take, drop, get_elem?, ◌>>=◌,
}
use caedral_notre_engine.Prelude.Words.{add64, sub64}
use caedral_notre_engine.Cache.Defs.{write_range}
use caedral_notre_engine.Gguf.Stream.{le_value, align_up}
use caedral_notre_engine.Gguf.Registry.{RawTensor}
use caedral_notre_engine.Gguf.Reader.{GgufReader, kv_scalar_value_pos}
use caedral_notre_engine.Gguf.Format.{put_uint}

abbrev pub io_align : ℕ
io_align = 4096

-- A buffer of 8 MiB.
abbrev pub copy_bytes : ℕ
copy_bytes = 8388608

-- A tensor with its span and its place in the new file.
pub record Placed : Type 0 where
  pub tensor : RawTensor
  pub span : ℕ
  pub new_rel : ℕ

pub data PrepareError : Type 0 where
  not_sorted short_metadata smaller_layout no_space copy_failure : PrepareError

pub data PreparedFile : Type 0 where
  refused : PrepareError → PreparedFile
  wrote : List Placed → (ℕ → ℕ) → PreparedFile

unfoldable pub in_order : List RawTensor → Bool
in_order [] = true
in_order (t ∷ []) = true
in_order (t ∷ u ∷ us) = leb t.rel_offset u.rel_offset && in_order (u ∷ us)

unfoldable pub span_of : ℕ → ℕ → RawTensor → List RawTensor → ℕ
unfolding add64 sub64
span_of data_off size t [] = sub64 size (add64 data_off t.rel_offset)
span_of data_off size t (u ∷ us) = sub64 (add64 data_off u.rel_offset) (add64 data_off t.rel_offset)

-- The new places from `cursor` on, and the cursor behind the last one.
unfoldable pub layout : ℕ → ℕ → ℕ → List RawTensor → List Placed × ℕ
unfolding add64 align_up span_of
layout data_off size cursor [] = ([], cursor)
layout data_off size cursor (t ∷ ts) =
    let span = span_of data_off size t ts in
    let (rest, end) = layout data_off size (add64 cursor (align_up span io_align)) ts in
    (record { tensor = t; span = span; new_rel = cursor } ∷ rest, end)

-- `memcpy` into the metadata.
unfoldable pub poke : ℕ → Bytes → Bytes → Bytes
poke pos bytes meta = take pos meta ++ bytes ++ drop (pos + length bytes) meta

-- The entry `general.alignment`, of type UINT32.
abbrev pub align_entry : Bytes
align_entry = put_uint 8 17 (codes "general.alignment" ++ put_uint 4 4 (put_uint 4 io_align []))

-- The metadata with the alignment set, and how far the fields behind the entries have moved.
unfoldable pub set_alignment : GgufReader → Bytes → Bytes × ℕ
unfolding kv_scalar_value_pos poke le_value
set_alignment r meta = elim (kv_scalar_value_pos (codes "general.alignment") r.kvs) [
  | some have_pos ↦ (poke have_pos (put_uint 4 io_align []) meta, 0)
  | none ↦
      let n_kv = add64 (le_value (take 8 (drop 16 meta))) 1 in
      let counted = poke 16 (put_uint 8 n_kv []) meta in
      (take r.kv_end counted ++ align_entry ++ drop r.kv_end counted, length align_entry)
]

-- The loop that patches the offset fields.
unfoldable pub patch_offsets : GgufReader → ℕ → List Placed → Bytes → Bytes
unfolding poke add64
patch_offsets r shift [] meta = meta
patch_offsets r shift (p ∷ ps) meta =
    let field = p.tensor.offset_field_pos in
    let pos = if shift == 0 || leb r.kv_end field then add64 field shift else field in
    patch_offsets r shift ps (poke pos (put_uint 8 p.new_rel []) meta)

unfoldable pub prepared_meta : GgufReader → List Placed → Bytes → Bytes
unfolding set_alignment patch_offsets
prepared_meta r ps file =
    let (meta, shift) = set_alignment r (take r.meta_end file) in patch_offsets r shift ps meta

abbrev pub byte_at : Bytes → ℕ → ℕ
byte_at file i = elim (get_elem? file i) [ none ↦ 0 | some b ↦ b ]

-- The copy of `left` bytes, chunk by chunk; a read behind the end of the file comes short.
unfoldable pub copy_loop : Bytes → ℕ → ℕ → ℕ → ℕ → (ℕ → ℕ) → Option (ℕ → ℕ)
unfolding write_range
copy_loop file zero src dst left out = none
copy_loop file (suc n) src dst left out =
    let chunk = min left copy_bytes in
    let rest =
      copy_loop file n (src + chunk) (dst + chunk) (left - chunk)
        (write_range out dst chunk (λ i. byte_at file (src + i))) in
    if left == 0 then some out else if ltb (length file) (src + chunk) then none else rest

unfoldable pub copy_all : Bytes → ℕ → ℕ → List Placed → (ℕ → ℕ) → Option (ℕ → ℕ)
unfolding copy_loop add64
copy_all file data_off new_off [] out = some out
copy_all file data_off new_off (p ∷ ps) out =
    copy_loop file (suc p.span) (add64 data_off p.tensor.rel_offset) (add64 new_off p.new_rel)
      p.span out
    >>= copy_all file data_off new_off ps

-- From the new metadata on: the checks of the size and the space, and the copy.
unfoldable pub write_out : ℕ → ℕ → Bytes → Bytes → List Placed → ℕ → PreparedFile
unfolding copy_all align_up write_range add64
write_out available data_off file meta ps end =
    let new_off = align_up (length meta) io_align in
    let new_size = add64 new_off end in
    if ltb new_size (length file)
    then refused smaller_layout
    else if ltb available new_size
    then refused no_space
    else elim (copy_all file data_off new_off ps
        (write_range (λ a. 0) 0 (length meta) (byte_at meta))) [
          | none ↦ refused copy_failure
          | some out ↦ wrote ps out
        ]

unfoldable pub prepare_file : ℕ → GgufReader → Bytes → PreparedFile
unfolding in_order layout prepared_meta write_out
prepare_file available r file =
    let (ps, end) = layout r.data_offset (length file) 0 r.tensors in
    if not (in_order r.tensors)
    then refused not_sorted
    else if ltb (length file) r.meta_end
    then refused short_metadata
    else write_out available r.data_offset file (prepared_meta r ps file) ps end
