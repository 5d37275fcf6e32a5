-- ===== src/Streaming/Dense.antt =====
-- The anonymous copies of the dense weights in runtime/cne_stream_cb.cpp. The allocator is a
-- parameter; `dropped` lists the ranges that were handed to `madvise`, the last one first.
use caedral_notre_engine.Prelude.{
  ℕ, ◌+◌, ◌-◌, ◌*◌, ◌/◌, Bool, true, not, ◌&&◌, ◌||◌, List, [], ◌∷◌, Option, none, some, Bytes,
  codes, ltb, leb, ◌==◌, if◌then◌else◌, nat_eq, bytes_eq,
}
use caedral_notre_engine.Prelude.Words.{add64}
use caedral_notre_engine.Prelude.Assoc.{lookup, has, assign, contains}
use caedral_notre_engine.Gguf.Classify.{has_part, routed_expert}
use caedral_notre_engine.Gguf.Registry.{TensorInfo}

-- A `ggml_tensor` that is a source of a node; `address` is its data pointer, 0 for null.
pub record Tensor : Type 0 where
  pub name : Bytes
  pub is_i32 : Bool
  pub address : ℕ
  pub nbytes : ℕ

pub record Dense : Type 0 where
  pub dense_names : List Bytes
  pub dense_bind : List (Bytes × ℕ)
  pub expert_mmap : List (ℕ × ℕ)
  pub dense_anon_bytes : ℕ
  pub dropped : List (ℕ × ℕ)

abbrev pub page_size : ℕ
page_size = 4096

-- `x & ~(psz - 1)`, for a page size that is a power of two.
abbrev pub page_start : ℕ → ℕ
page_start x = x / page_size * page_size

unfoldable pub drop_resident_pages : ℕ → ℕ → Dense → Dense
unfolding add64
drop_resident_pages ptr nbytes d =
    let start = page_start ptr in
    let end = page_start (add64 ptr (nbytes + 4095)) in
    if ptr == 0 || nbytes == 0
    then d
    else if leb end start
    then d
    else record d { dropped = (start, end - start) ∷ d.dropped }

-- Whether a tensor is bound: a dense weight with data that is not bound yet, of at most 2 GiB.
unfoldable pub binds : Tensor → Dense → Bool
unfolding contains has
binds s d =
    not (s.address == 0)
    && (not s.is_i32
        && (contains s.name d.dense_names
            && (not (has s.name d.dense_bind)
                && (not (s.nbytes == 0) && not (ltb 2147483648 s.nbytes)))))

-- `alloc` is `posix_memalign`, `none` when it fails; `drop` is the knob DENSE_DROP_MMAP. The pointer
-- of the tensor is the copy behind the call, `none` if it stays.
unfoldable pub try_bind_dense : (ℕ → Option ℕ) → Bool → Tensor → Dense → Dense × Option ℕ
unfolding binds drop_resident_pages assign
try_bind_dense alloc drop s d = if not (binds s d) then (d, none) else elim (alloc s.nbytes) [
  | none ↦ (d, none)
  | some buf ↦
      let bound = record d {
        dense_bind = assign s.name buf d.dense_bind;
        dense_anon_bytes = d.dense_anon_bytes + s.nbytes;
      } in
      (if drop then drop_resident_pages s.address s.nbytes bound else bound, some buf)
]

-- Whether a tensor is listed: data of a routed expert, larger than what is listed at its address.
unfoldable pub lists : Tensor → Dense → Bool
unfolding contains has_part lookup
lists s d =
    not (s.address == 0)
    && (not s.is_i32
        && (not (contains s.name d.dense_names)
            && (has_part s.name (codes "_exps")
                && (not (s.nbytes == 0) && (elim (lookup s.address d.expert_mmap) [
                  | none ↦ true
                  | some n ↦ ltb n s.nbytes
                ])))))

unfoldable pub try_record_expert_mmap : Tensor → Dense → Dense
unfolding lists assign
try_record_expert_mmap s d =
    if lists s d then record d { expert_mmap = assign s.address s.nbytes d.expert_mmap } else d

-- The sources of a node, each with its pointer behind the scan.
unfoldable pub scan_dense_srcs :
    (ℕ → Option ℕ) → Bool → List Tensor → Dense → Dense × List (Option ℕ)
unfolding try_record_expert_mmap try_bind_dense
scan_dense_srcs alloc drop [] d = (d, [])
scan_dense_srcs alloc drop (s ∷ ss) d =
    let (d₁, moved) = try_bind_dense alloc drop s (try_record_expert_mmap s d) in
    let (d₂, rest) = scan_dense_srcs alloc drop ss d₁ in (d₂, moved ∷ rest)

-- The loop over the listed mappings, and the bytes it counts.
unfoldable pub drop_all : List (ℕ × ℕ) → Dense → Dense × ℕ
unfolding drop_resident_pages
drop_all [] d = (d, 0)
drop_all ((ptr, bytes) ∷ m) d =
    let (d₁, n) = drop_all m (drop_resident_pages ptr bytes d) in (d₁, bytes + n)

unfoldable pub stream_anon_finalize : Bool → Dense → Dense × ℕ
unfolding drop_all
stream_anon_finalize drop d = if not drop then (d, 0) else drop_all d.expert_mmap d

unfoldable pub stream_expert_mmap_trim : Bool → Bool → Dense → Dense
unfolding drop_all
stream_expert_mmap_trim drop rebind d =
    let (d₁, n) = drop_all d.expert_mmap d in if not drop || rebind then d else d₁

-- The names of the manifest that `stream_init` inserts.
unfoldable pub dense_names_of : List TensorInfo → List Bytes
dense_names_of [] = []
dense_names_of (t ∷ ts) =
    let rest = dense_names_of ts in elim t.kind [ routed_expert ↦ rest | _ ↦ t.name ∷ rest ]
