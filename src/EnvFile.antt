-- ===== src/EnvFile.antt =====
-- The environment file of tools/amp_panel_cli.py: `_env_value`, `read_env_file` and the content that
-- `write_env_file` writes. A text is a list of characters; white space and line ends are those of
-- Python, the white space among the ASCII characters.
pub mod Keys
pub mod Quoting
pub mod Lines
pub mod Written
pub mod Read
pub mod RoundTrip
use amplifier_panel.Base.{
  ℕ, suc, Bool, true, false, not, ◌&&◌, ◌||◌, Char, code, String, Option, none, some, List, [], ◌∷◌,
  ◌++◌, eqb, leb, ◌==◌, string_eq, if◌then◌else◌,
}
use amplifier_panel.Base.Dict
use amplifier_panel.Base.Dict.{Dict}
use amplifier_panel.Base.Result.{Result, ok, err, ◌>>=◌}
use amplifier_panel.Base.Text.{◌<>◌, ends_line, extend, strip, is_empty, cut, join}

-- A test of all characters.
unfoldable pub all_codes : (ℕ → Bool) → String → Bool
all_codes test String.[] = true
all_codes test (String.◌∷◌ c s) = test (code c) && all_codes test s

abbrev pub is_upper : ℕ → Bool
is_upper c = leb b'A' c && leb c b'Z'

abbrev pub is_lower : ℕ → Bool
is_lower c = leb b'a' c && leb c b'z'

abbrev pub is_number : ℕ → Bool
is_number c = leb b'0' c && leb c b'9'

-- `[A-Za-z0-9_./:@%+,=-]`
abbrev pub is_plain : ℕ → Bool
is_plain c =
    is_upper c
    || is_lower c
    || is_number c
    || eqb c b'_'
    || eqb c b'.'
    || eqb c b'/'
    || eqb c b':'
    || eqb c b'@'
    || eqb c b'%'
    || eqb c b'+'
    || eqb c b','
    || eqb c b'='
    || eqb c b'-'

abbrev pub is_key_character : ℕ → Bool
is_key_character c = is_upper c || is_number c || eqb c b'_'

-- `KEY_PATTERN.fullmatch`
unfoldable pub is_key : String → Bool
unfolding all_codes
is_key String.[] = false
is_key (String.◌∷◌ c s) = is_upper (code c) && all_codes is_key_character s

-- A line feed, a carriage return or a NUL.
abbrev pub is_refused : ℕ → Bool
is_refused c = eqb c 10 || eqb c 13 || eqb c 0

-- `s.replace(a, r)` of one character by two.
unfoldable pub double : ℕ → Char → String → String
double a r String.[] = String.[]
double a r (String.◌∷◌ c s) =
    let rest = double a r s in
    if eqb (code c) a then String.◌∷◌ r (String.◌∷◌ c rest) else String.◌∷◌ c rest

-- `s.replace(a + b, b)` of two characters by the second; the flag says that an `a` is held back.
unfoldable pub single : Char → ℕ → Bool → String → String
single a b false String.[] = String.[]
single a b true String.[] = String.◌∷◌ a String.[]
single a b false (String.◌∷◌ c s) =
    let rest = single a b (eqb (code c) (code a)) s in
    if eqb (code c) (code a) then rest else String.◌∷◌ c rest
single a b true (String.◌∷◌ c s) =
    let rest = single a b (not (eqb (code c) b) && eqb (code c) (code a)) s in
    if eqb (code c) b
    then String.◌∷◌ c rest
    else String.◌∷◌ a (if eqb (code c) (code a) then rest else String.◌∷◌ c rest)

abbrev pub backslash : Char
backslash = "\\"

-- `value.replace("\\", "\\\\").replace('"', '\\"')`
unfoldable pub escape : String → String
unfolding double
escape s = double b'"' backslash (double b'\\' backslash s)

-- `value.replace('\\"', '"').replace("\\\\", "\\")`
unfoldable pub unescape : String → String
unfolding single
unescape s = single backslash b'\\' false (single backslash b'"' false s)

-- `_env_value`
unfoldable pub env_value : String → Result String String
unfolding all_codes
env_value s =
    if all_codes (λ c. not (is_refused c)) s
    then ok (if all_codes is_plain s then s else "\"" <> escape s <> "\"")
    else err "Configuration values may not contain newlines."

-- The ends of a line of `str.splitlines`.
abbrev pub is_line_end : ℕ → Bool
is_line_end c = ends_line c || eqb c 133 || eqb c 8232 || eqb c 8233

abbrev pub starts_with_feed : String → Bool
starts_with_feed String.[] = false
starts_with_feed (String.◌∷◌ c s) = eqb (code c) 10

-- `text.splitlines()`, where a carriage return and a line feed are one end.
unfoldable pub splitlines : String → List String
splitlines String.[] = []
splitlines (String.◌∷◌ c s) =
    let rest = splitlines s in
    if is_line_end (code c)
    then (if eqb (code c) 13 && starts_with_feed s then rest else String.[] ∷ rest)
    else extend c rest

abbrev pub has_code : ℕ → Option ℕ → Bool
has_code c none = false
has_code c (some d) = eqb c d

-- `value[-1]` and `value[:-1]`
unfoldable pub last_code : String → Option ℕ
last_code String.[] = none
last_code (String.◌∷◌ c s) = let rest = last_code s in if is_empty s then some (code c) else rest

unfoldable pub drop_last : String → String
drop_last String.[] = String.[]
drop_last (String.◌∷◌ c s) =
    let rest = drop_last s in if is_empty s then String.[] else String.◌∷◌ c rest

-- The value without its quotes.
unfoldable pub unquoted : String → String
unfolding last_code drop_last
unquoted String.[] = String.[]
unquoted (String.◌∷◌ c s) =
    if (eqb (code c) b'\'' || eqb (code c) b'"') && has_code (code c) (last_code s)
    then (if eqb (code c) b'"' then unescape (drop_last s) else drop_last s)
    else String.◌∷◌ c s

abbrev pub is_comment : String → Bool
is_comment String.[] = false
is_comment (String.◌∷◌ c _) = eqb (code c) b'#'

module _ (show_number : ℕ → String) (path : String) where
  -- One line, without the white space around it.
  unfoldable pub read_line : ℕ → String → Dict String String → Result String (Dict String String)
  read_line number line values =
      if is_empty line || is_comment line then ok values else elim (cut b'=' line) [
        | none ↦ err ("Invalid configuration line " <> show_number number <> " in " <> path <> ".")
        | some (key, raw_value) ↦
            if is_key (strip key)
            then ok (Dict.insert (strip key) (unquoted (strip raw_value)) values)
            else err (
                "Invalid configuration key on line " <> show_number number <> " in " <> path <> ".")
      ]

  unfoldable pub read_lines :
      ℕ → List String → Dict String String → Result String (Dict String String)
  read_lines number [] values = ok values
  read_lines number (raw_line ∷ lines) values =
      read_line number (strip raw_line) values >>= read_lines (suc number) lines

  -- `read_env_file` on the text of the file.
  unfoldable pub read_env_file : String → Result String (Dict String String)
  read_env_file text = read_lines 1 (splitlines text) []

abbrev pub comment_lines : (String → List String) → Option String → List String
comment_lines lines none = []
comment_lines lines (some text) = if is_empty text then [] else lines text

-- The lines of one key.
unfoldable pub key_lines : Dict String String → Dict String String → String → String → List String
key_lines sections help key shown =
    comment_lines (λ section. "" ∷ ("# --- " <> section <> " ---") ∷ []) (Dict.lookup key sections)
    ++ comment_lines (λ text. ("# " <> text) ∷ []) (Dict.lookup key help)
    ++ (key <> "=" <> shown) ∷ []

unfoldable pub put_lines :
    Dict String String
    → Dict String String
    → List String
    → Dict String String
    → Result String (List String)
put_lines sections help [] values = ok []
put_lines sections help (key ∷ keys) values = elim (Dict.lookup key values) [
  | none ↦ put_lines sections help keys values
  | some value ↦ env_value value >>= λ shown.
      put_lines sections help keys values >>= λ rest. ok (key_lines sections help key shown ++ rest)
]

abbrev pub head_lines : String → List String
head_lines now =
    "# Amp Panel configuration. Edit with: sudo amp-panel configure"
    ∷ "# Lines starting with # are comments; values containing spaces or # are quoted automatically."
    ∷ "# Values are validated before changes are applied."
    ∷ ("# Updated " <> now)
    ∷ []

-- The content that `write_env_file` writes, with the text of the clock; the tables are those of
-- `EnvFile.Keys`.
unfoldable pub env_content :
    Dict String String
    → Dict String String
    → List String
    → String
    → Dict String String
    → Result String String
env_content sections help keys now values = put_lines sections help keys values >>= λ lines.
    ok (join "\n" (head_lines now ++ lines) <> "\n")
