-- ===== src/Api/Parse.antt =====
-- The text helpers and the key files of runtime/cne_api.cpp. `isspace` and `tolower` are those of
-- the "C" locale.
use caedral_notre_engine.Prelude.{
  ℕ, ◌+◌, Bool, true, false, ◌&&◌, ◌||◌, List, [], ◌∷◌, Option, none, some, Bytes, bytes_eq, leb,
  ◌==◌, if◌then◌else◌, reverse,
}
use caedral_notre_engine.Prelude.Assoc.{insert, assign}

unfoldable pub is_space : ℕ → Bool
is_space c = (c == 32) || (leb 9 c && leb c 13)

unfoldable pub trim_front : Bytes → Bytes
trim_front [] = []
trim_front (c ∷ s) = elim (is_space c) [ true ↦ trim_front s | false ↦ c ∷ s ]

unfoldable pub trim_ws : Bytes → Bytes
unfolding trim_front is_space
trim_ws s = reverse (trim_front (reverse (trim_front s)))

abbrev lower_char : ℕ → ℕ
lower_char c = if leb b'A' c && leb c b'Z' then c + 32 else c

unfoldable pub lower : Bytes → Bytes
lower [] = []
lower (c ∷ s) = lower_char c ∷ lower s

-- `std::getline(in, item, sep)` until the end: a last item without a separator counts if it is
-- not empty.
unfoldable pub get_lines : ℕ → Bytes → Bytes → List Bytes
get_lines sep [] [] = []
get_lines sep (a ∷ acc) [] = reverse (a ∷ acc) ∷ []
get_lines sep acc (c ∷ s) = elim (c == sep) [
  | true ↦ reverse acc ∷ get_lines sep [] s
  | false ↦ get_lines sep (c ∷ acc) s
]

unfoldable pub keep_trimmed : List Bytes → List Bytes
unfolding trim_ws
keep_trimmed [] = []
keep_trimmed (x ∷ xs) = elim (trim_ws x) [
  | [] ↦ keep_trimmed xs
  | c ∷ t ↦ (c ∷ t) ∷ keep_trimmed xs
]

unfoldable pub split_csv : Bytes → List Bytes
unfolding get_lines keep_trimmed
split_csv csv = keep_trimmed (get_lines b',' [] csv)

-- Up to the first blank or tab, and behind it; `none` is npos.
unfoldable pub split_blank : Bytes → Option (Bytes × Bytes)
split_blank [] = none
split_blank (c ∷ s) = elim ((c == 32) || (c == 9)) [
  | true ↦ some ([], s)
  | false ↦ elim (split_blank s) [ none ↦ none | some (k, r) ↦ some (c ∷ k, r) ]
]

-- The key and the user of a line; `none` is a line that counts for nothing.
abbrev keyed : Bytes → Bytes → Option (Bytes × Bytes)
keyed [] user = none
keyed (c ∷ k) user = some (c ∷ k, user)

unfoldable pub parse_trimmed : Bytes → Option (Bytes × Bytes)
unfolding split_blank trim_ws
parse_trimmed [] = none
parse_trimmed (c ∷ s) = elim (c == b'#') [
  | true ↦ none
  | false ↦ elim (split_blank (c ∷ s)) [
    | none ↦ some (c ∷ s, [])
    | some (k, r) ↦ keyed (trim_ws k) (trim_ws r)
  ]
]

unfoldable pub parse_key_line : Bytes → Option (Bytes × Bytes)
unfolding parse_trimmed
parse_key_line line = parse_trimmed (trim_ws line)

pub record Keys : Type 0 where
  pub keys : List Bytes
  pub key_to_user : List (Bytes × Bytes)

-- The lambda `ingest` of `load_keys`.
unfoldable pub ingest : Keys → Bytes → Bytes → Keys
unfolding insert assign
ingest ks [] user = ks
ingest ks (c ∷ key) [] = record ks { keys = insert (c ∷ key) ks.keys }
ingest ks (c ∷ key) (u ∷ user) = record {
  keys = insert (c ∷ key) ks.keys;
  key_to_user = assign (c ∷ key) (u ∷ user) ks.key_to_user;
}

unfoldable pub ingest_lines : Keys → List Bytes → Keys
unfolding ingest parse_key_line
ingest_lines ks [] = ks
ingest_lines ks (l ∷ ls) = elim (parse_key_line l) [
  | none ↦ ingest_lines ks ls
  | some (key, user) ↦ ingest_lines (ingest ks key user) ls
]

-- What `load_keys` reads: three knobs, and the content of the file, `none` if it cannot be opened.
pub record KeySources : Type 0 where
  pub api_key : Option Bytes
  pub api_keys : Option Bytes
  pub api_keys_file : Option Bytes
  pub file_content : Option Bytes

abbrev no_keys : Keys
no_keys = record { keys = []; key_to_user = [] }

abbrev is_nil : List Bytes → Bool
is_nil [] = true
is_nil (x ∷ xs) = false

abbrev or_empty : Option Bytes → Bytes
or_empty none = []
or_empty (some s) = s

unfoldable pub env_keys : KeySources → Keys
unfolding ingest ingest_lines split_csv
env_keys src =
    ingest_lines (ingest no_keys (or_empty src.api_key) []) (split_csv (or_empty src.api_keys))

-- The keys read, and the returned flag.
unfoldable pub load_keys : KeySources → Keys × Bool
unfolding env_keys ingest_lines get_lines
load_keys src = elim (or_empty src.api_keys_file) [
  | [] ↦ (env_keys src, if is_nil (env_keys src).keys then false else true)
  | c ∷ path ↦ elim src.file_content [
    | none ↦ (env_keys src, false)
    | some text ↦
        let ks = ingest_lines (env_keys src) (get_lines 10 [] text) in
        (ks, if is_nil ks.keys then false else true)
  ]
]
