-- ===== src/EnvFile/Quoting.antt =====
-- A quoted value is read back: `_env_value` and the part of `read_env_file` on quotes, in
-- tools/amp_panel_cli.py.
use amplifier_panel.Base.{
  ◌≡◌, refl, ap, ◌∙◌, ℕ, Bool, true, false, not, Char, code, String, some, eqb, arith,
  if◌then◌else◌, if_elim, Bool-cases, inl, inr,
}
use amplifier_panel.Base.Text.{◌<>◌}
use text.Mathlib.TextEquality.{Char-path}
use amplifier_panel.EnvFile.{
  all_codes, is_plain, double, single, backslash, escape, unescape, last_code, drop_last, unquoted,
  is_line_end,
}

backslash_char : (c : Char) → eqb (code c) b'\\' ≡ true → backslash ≡ c
backslash_char c h = Char-path backslash c (ground (arith, h))

-- What was doubled by a character in front is taken back, where that character differs ...
single-double_quote :
    (s : String)
    → (single backslash b'"' false (double b'"' backslash s) ≡ s)
      × (single backslash b'"' true (double b'"' backslash s) ≡ String.◌∷◌ backslash s)
unfolding single double
single-double_quote String.[] = (refl, refl)
single-double_quote (String.◌∷◌ c s) =
    let (plain, held) = single-double_quote s in
    elim (Bool-cases (eqb (code c) b'"')) [
      | inl e ↦ (ground (arith, e, plain), ground (arith, e, plain))
      | inr e ↦ elim (Bool-cases (eqb (code c) b'\\')) [
        | inl k ↦ (
          ground (arith, e, k, held, backslash_char c k),
          ground (arith, e, k, held, backslash_char c k),
        )
        | inr k ↦ (ground (arith, e, k, plain), ground (arith, e, k, plain))
      ]
    ]

-- ... and where it is the same.
single-double-backslash : (s : String) → single backslash b'\\' false (double b'\\' backslash s) ≡ s
unfolding single double
single-double-backslash String.[] = refl
single-double-backslash (String.◌∷◌ c s) =
    let rest = single-double-backslash s in
    elim (Bool-cases (eqb (code c) b'\\')) [
      | inl e ↦ ground (arith, e, rest)
      | inr e ↦ ground (arith, e, rest)
    ]

unescape-escape : (s : String) → unescape (escape s) ≡ s
unfolding unescape escape
unescape-escape s =
    ap (single backslash b'\\' false) (single-double_quote (double b'\\' backslash s)).0
    ∙ single-double-backslash s

last_code-append : (s : String) → last_code (s <> "\"") ≡ some b'"'
unfolding last_code ◌<>◌
last_code-append String.[] = refl
last_code-append (String.◌∷◌ c String.[]) = ground (arith)
last_code-append (String.◌∷◌ c (String.◌∷◌ d s)) = ground (arith, last_code-append (String.◌∷◌ d s))

drop_last-append : (s : String) → drop_last (s <> "\"") ≡ s
unfolding drop_last ◌<>◌
drop_last-append String.[] = refl
drop_last-append (String.◌∷◌ c String.[]) = ground (arith)
drop_last-append (String.◌∷◌ c (String.◌∷◌ d s)) = ground (arith, drop_last-append (String.◌∷◌ d s))

pub unquoted-quoted : (s : String) → unquoted ("\"" <> escape s <> "\"") ≡ s
unfolding unquoted ◌<>◌
unquoted-quoted s =
    ground (arith, last_code-append (escape s), drop_last-append (escape s), unescape-escape s)

pub unquoted-plain : (s : String) → all_codes is_plain s ≡ true → unquoted s ≡ s
unfolding unquoted all_codes
unquoted-plain String.[] h = refl
unquoted-plain (String.◌∷◌ c s) h = ground (arith, h)

-- A text with no end of a line in it.
abbrev pub IsLine : String → Type 0
IsLine s = all_codes (λ c. not (is_line_end c)) s ≡ true

pub all_codes-append :
    (test : ℕ → Bool) (s t : String)
    → all_codes test s ≡ true
    → all_codes test t ≡ true
    → all_codes test (s <> t) ≡ true
unfolding all_codes ◌<>◌
all_codes-append test String.[] t h k = k
all_codes-append test (String.◌∷◌ c s) t h k = ground (arith, h, all_codes-append test s t, k)

double-IsLine : (a : ℕ) (s : String) → IsLine s → IsLine (double a backslash s)
unfolding double all_codes
double-IsLine a String.[] h = refl
double-IsLine a (String.◌∷◌ c s) h = ground (arith, h, double-IsLine a s)

-- The text that is written for a value.
abbrev pub shown_value : String → String
shown_value s = if all_codes is_plain s then s else "\"" <> escape s <> "\""

quote-IsLine : IsLine "\""
unfolding all_codes
quote-IsLine = refl

pub shown_value-IsLine : (s : String) → IsLine s → IsLine (shown_value s)
unfolding escape
shown_value-IsLine s h =
    if_elim IsLine (all_codes is_plain s) (λ _. h)
      (λ _.
        all_codes-append (λ c. not (is_line_end c)) "\"" (escape s <> "\"") quote-IsLine
          (all_codes-append (λ c. not (is_line_end c)) (escape s) "\""
            (double-IsLine b'"' (double b'\\' backslash s) (double-IsLine b'\\' s h)) quote-IsLine))
