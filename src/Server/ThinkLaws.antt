-- ===== src/Server/ThinkLaws.antt =====
-- What `Emitter::visible` does with the think blocks of a text.
use caedral_notre_engine.Prelude.{
  ℕ, zero, suc, ◌+◌, ◌<◌, ◌≡◌, refl, Bool, true, false, [], ◌∷◌, ◌++◌, some, Bytes, ltb, ◌==◌,
  length, take, drop, find?, starts_with, arith, nat_eq, length-append, length-drop, Bool-cases,
  Option-cases, inl, inr,
}
use caedral_notre_engine.Prelude.Assoc.{contains}
use caedral_notre_engine.Server.Emitter.{
  shown, Visible, throws, unfinished, open_tag, close_tag, skipped, strip_loop, swallow, visible,
}

abbrev pub is_unfinished : Visible → Bool
is_unfinished unfinished = true
is_unfinished v = false

strip_loop_ends :
    (fuel : ℕ) (rest : Bytes) (stripped : Bool) (out : Bytes)
    → length rest < fuel
    → is_unfinished (strip_loop fuel rest stripped out) ≡ false
unfolding strip_loop
strip_loop_ends zero rest stripped out h = absurd (omega arith)
strip_loop_ends (suc fuel) rest stripped out h = elim (Option-cases (find? open_tag rest)) [
  | inl n ↦ rw (n, strip_loop) refl
  | inr (b, y) ↦ elim (Option-cases (find? close_tag (drop b rest))) [
    | inl n ↦ rw (y, n, strip_loop) refl
    | inr (e, z) ↦ elim (Bool-cases (ltb (length rest) (b + e + skipped))) [
      | inl past ↦ rw (y, z, past, strip_loop) refl
      | inr fine ↦
          rw (y, z, fine, strip_loop)
            (strip_loop_ends fuel (drop (b + e + skipped) rest) true (out ++ take b rest)
              (ground (arith, length-drop (b + e + skipped) rest)))
    ]
  ]
]

find_close :
    (body tail : Bytes)
    → contains b'<' body ≡ false
    → find? close_tag (body ++ close_tag ++ tail) ≡ some (length body)
unfolding find? starts_with contains
find_close [] tail h = refl
find_close (c ∷ body) tail h =
    let other : (60 == c) ≡ false = ground arith in
    let ih : find? close_tag (body ++ close_tag ++ tail) ≡ some (length body) =
      find_close body tail (ground arith) in
    rw (find?, starts_with, other, ih) refl

visible_past :
    (stripped : Bool) (full : Bytes) (e : ℕ)
    → find? open_tag full ≡ some 0
    → find? close_tag full ≡ some e
    → length full < e + 20
    → visible true stripped full ≡ throws
unfolding visible strip_loop
visible_past stripped full e a b l =
    let past : ltb (length full) (0 + e + skipped) ≡ true = ground arith in
    rw (a, b, past, strip_loop) refl

find_close_open :
    (body tail : Bytes)
    → contains b'<' body ≡ false
    → find? close_tag (open_tag ++ body ++ close_tag ++ tail) ≡ some (7 + length body)
unfolding find? starts_with
find_close_open body tail h =
    let seven : 7 + length body ≡ suc (suc (suc (suc (suc (suc (suc (length body))))))) =
      omega arith in
    rw (find_close body tail h, seven) refl

length-think :
    (body tail : Bytes)
    → length (open_tag ++ body ++ close_tag ++ tail) ≡ 15 + length body + length tail
length-think body tail =
    omega (arith, length-append {0} body close_tag, length-append {0} (body ++ close_tag) tail)

-- A text that begins with a think block, whose reasoning holds no `<`, and that goes on for fewer
-- than 12 bytes behind the block makes `visible` throw when think blocks are stripped.
pub visible_throws :
    (stripped : Bool) (body tail : Bytes)
    → contains b'<' body ≡ false
    → length tail < 12
    → visible true stripped (open_tag ++ body ++ close_tag ++ tail) ≡ throws
visible_throws stripped body tail h l =
    visible_past stripped (open_tag ++ body ++ close_tag ++ tail) (7 + length body)
      (unfold find? starts_with in refl) (find_close_open body tail h)
      (omega (arith, length-think body tail))

swallow_ends : (v : Visible) → is_unfinished v ≡ false → is_unfinished (swallow v) ≡ false
swallow_ends (shown out true) h = refl
swallow_ends (shown out false) h = refl
swallow_ends throws h = refl
swallow_ends unfinished h = h

-- `visible` ends on every text, with a visible text or by throwing.
visible_ends :
    (strip_think stripped : Bool) (full : Bytes)
    → is_unfinished (visible strip_think stripped full) ≡ false
unfolding visible
visible_ends false stripped full = refl
visible_ends true stripped full =
    swallow_ends (strip_loop (suc (length full)) full stripped [])
      (strip_loop_ends (suc (length full)) full stripped [] (omega arith))
