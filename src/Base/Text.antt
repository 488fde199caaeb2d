-- ===== src/Base/Text.antt =====
-- Python's operations on texts that the program uses: `+`, `strip`, `startswith`, `split` at one
-- character, and `int` of a text.
use Prim.Native.String.{char_at}
use amplifier_panel.Base.{
  ℕ, ◌-◌, ◌≡◌, refl, Bool, true, false, ◌&&◌, ◌||◌, Char, code, ap, String, Option, none, some,
  List, [], ◌∷◌, ◌++◌, eqb, ltb, leb, if◌then◌else◌,
}

-- `s + t`. By clauses, so that a literal in front of an unknown text computes.
infixr 65 ◌<>◌
unfoldable pub ◌<>◌ : String → String → String
String.[] <> t = t
(String.◌∷◌ c s) <> t = String.◌∷◌ c (s <> t)

-- The code points of a text.
abbrev pub codes : String → List ℕ
codes String.[] = []
codes (String.◌∷◌ c s) = code c ∷ codes s

pub codes-append : (s t : String) → codes (s <> t) ≡ codes s ++ codes t
unfolding ◌<>◌
codes-append String.[] t = refl
codes-append (String.◌∷◌ c s) t = ap (λ r. code c ∷ r) (codes-append s t)

-- The white space of `str.strip`, among the ASCII characters.
abbrev pub is_space : ℕ → Bool
is_space c = (leb 9 c && leb c 13) || (leb 28 c && leb c 32)

unfoldable pub lstrip : String → String
lstrip String.[] = String.[]
lstrip (String.◌∷◌ c s) = let rest = lstrip s in if is_space (code c) then rest else String.◌∷◌ c s

-- A text in front of a part that is stripped already.
abbrev pub keep_char : Char → String → String
keep_char c String.[] = if is_space (code c) then String.[] else String.◌∷◌ c String.[]
keep_char c (String.◌∷◌ d r) = String.◌∷◌ c (String.◌∷◌ d r)

unfoldable pub rstrip : String → String
rstrip String.[] = String.[]
rstrip (String.◌∷◌ c s) = keep_char c (rstrip s)

-- `s.strip()`
unfoldable pub strip : String → String
unfolding lstrip rstrip
strip s = rstrip (lstrip s)

-- `not s`
abbrev pub is_empty : String → Bool
is_empty String.[] = true
is_empty (String.◌∷◌ _ _) = false

-- `s or default`
abbrev pub or_text : String → String → String
or_text s default = if is_empty s then default else s

-- `s.removeprefix(p)` where `s.startswith(p)`, and nothing otherwise.
unfoldable pub after_prefix : String → String → Option String
after_prefix String.[] s = some s
after_prefix (String.◌∷◌ c p) String.[] = none
after_prefix (String.◌∷◌ c p) (String.◌∷◌ d s) =
    let rest = after_prefix p s in if eqb (code c) (code d) then rest else none

-- What stands before and after the first character with the given code.
unfoldable pub cut : ℕ → String → Option (String × String)
cut sep String.[] = none
cut sep (String.◌∷◌ c s) =
    let rest = cut sep s in if eqb (code c) sep then some (String.[], s) else put_front c rest
  where
    put_front : Char → Option (String × String) → Option (String × String)
    put_front c none = none
    put_front c (some (a, b)) = some (String.◌∷◌ c a, b)

-- `s.split(sep)[0]`
unfoldable pub before : ℕ → String → String
before sep String.[] = String.[]
before sep (String.◌∷◌ c s) =
    let rest = before sep s in if eqb (code c) sep then String.[] else String.◌∷◌ c rest

-- `sep.join(parts)`
unfoldable pub join : String → List String → String
unfolding ◌<>◌
join sep [] = ""
join sep (s ∷ []) = s
join sep (s ∷ t ∷ rest) = s <> sep <> join sep (t ∷ rest)

-- `s.lower()`, of the ASCII letters.
unfoldable pub lower : String → String
lower String.[] = String.[]
lower (String.◌∷◌ c s) =
    let rest = lower s in
    if leb b'A' (code c) && leb (code c) b'Z'
    then String.◌∷◌ (char_at "abcdefghijklmnopqrstuvwxyz" (code c - 65)) rest
    else String.◌∷◌ c rest

abbrev pub extend : Char → List String → List String
extend c [] = String.◌∷◌ c String.[] ∷ []
extend c (part ∷ parts) = String.◌∷◌ c part ∷ parts

-- The pieces of a text between the characters that pass a test.
unfoldable pub pieces : (ℕ → Bool) → String → List String
pieces separates String.[] = String.[] ∷ []
pieces separates (String.◌∷◌ c s) =
    let rest = pieces separates s in if separates (code c) then String.[] ∷ rest else extend c rest

-- `[v.strip() for v in parts if v.strip()]`
unfoldable pub stripped_words : List String → List String
stripped_words [] = []
stripped_words (v ∷ vs) =
    let rest = stripped_words vs in if is_empty (strip v) then rest else strip v ∷ rest

-- The line ends of `str.splitlines`, among the ASCII characters.
abbrev pub ends_line : ℕ → Bool
ends_line c = (leb 10 c && leb c 13) || (leb 28 c && leb c 30)

-- `s <= t`, by code points.
unfoldable pub text_le : String → String → Bool
text_le String.[] t = true
text_le (String.◌∷◌ c s) String.[] = false
text_le (String.◌∷◌ c s) (String.◌∷◌ d t) =
    let rest = text_le s t in if eqb (code c) (code d) then rest else ltb (code c) (code d)
