-- ===== src/Server/Emitter.antt =====
-- `Emitter::visible` of server/cne-server.cpp. The position `pos` is what is left of the text from
-- there on.
use caedral_notre_engine.Prelude.{
  ℕ, zero, suc, ◌+◌, Bool, true, false, ◌||◌, [], ◌∷◌, ◌++◌, none, some, Bytes, codes, ltb, ◌==◌,
  if◌then◌else◌, length, take, drop, find?,
}

-- The visible text with the flag `stripped`; `throws` is `std::out_of_range`, `unfinished` a loop
-- out of fuel.
pub data Visible : Type 0 where
  shown : Bytes → Bool → Visible
  throws : Visible
  unfinished : Visible

abbrev pub open_tag : Bytes
open_tag = codes "<think>"

abbrev pub close_tag : Bytes
close_tag = codes "</think>"

-- `pos = e + 20`.
abbrev pub skipped : ℕ
skipped = 20

unfoldable pub strip_loop : ℕ → Bytes → Bool → Bytes → Visible
unfolding find?
strip_loop zero rest stripped out = unfinished
strip_loop (suc fuel) rest stripped out = elim (find? open_tag rest) [
  | none ↦ shown (out ++ rest) stripped
  | some b ↦ elim (find? close_tag (drop b rest)) [
    | none ↦ shown out stripped
    | some e ↦
        let more = strip_loop fuel (drop (b + e + skipped) rest) true (out ++ take b rest) in
        if ltb (length rest) (b + e + skipped) then throws else more
  ]
]

-- `find_first_not_of("\n \t")` and the erase.
unfoldable pub trim_lead : Bytes → Bytes
trim_lead [] = []
trim_lead (c ∷ s) =
    let rest = trim_lead s in if (c == 10) || ((c == 32) || (c == 9)) then rest else c ∷ s

abbrev pub swallow : Visible → Visible
swallow (shown out true) = shown (trim_lead out) true
swallow (shown out false) = shown out false
swallow throws = throws
swallow unfinished = unfinished

unfoldable pub visible : Bool → Bool → Bytes → Visible
unfolding strip_loop trim_lead
visible strip_think stripped full =
    if strip_think
    then swallow (strip_loop (suc (length full)) full stripped [])
    else shown full stripped
