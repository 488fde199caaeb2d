-- ===== src/Base/Int.antt =====
-- Python's `int` of a text, over signed numbers.
use amplifier_panel.Base.{
  ℕ, zero, suc, ◌+◌, ◌-◌, ◌*◌, ◌≡◌, refl, Bool, true, false, ◌&&◌, String, Option, none, some, List,
  [], ◌∷◌, eqb, leb, length, select, if◌then◌else◌,
}
use amplifier_panel.Base.Text.{codes, strip}

-- `negsuc n` is -(n + 1).
pub data ℤ : Type 0 where
  pos : ℕ → ℤ
  negsuc : ℕ → ℤ

-- `a <= b`
abbrev pub leb_int : ℤ → ℤ → Bool
leb_int (pos a) (pos b) = leb a b
leb_int (pos a) (negsuc b) = false
leb_int (negsuc a) (pos b) = true
leb_int (negsuc a) (negsuc b) = leb b a

abbrev pub is_digit : ℕ → Bool
is_digit c = leb 48 c && leb c 57

pub data DigitClass : Type 0 where
  digit : ℕ → DigitClass
  underscore : DigitClass
  other : DigitClass

abbrev pub digit_class : ℕ → DigitClass
digit_class c = if is_digit c then digit (c - 48) else if eqb c 95 then underscore else other

-- Digits with single underscores between them; the flag says that a digit stands before.
unfoldable pub parse_digits : Bool → ℕ → List ℕ → Option ℕ
parse_digits after_digit n [] = if after_digit then some n else none
parse_digits after_digit n (c ∷ cs) = elim (digit_class c) [
  | digit d ↦ parse_digits true (n * 10 + d) cs
  | underscore ↦ let rest = parse_digits false n cs in if after_digit then rest else none
  | other ↦ none
]

abbrev negate : ℕ → ℤ
negate zero = pos 0
negate (suc n) = negsuc n

-- Python refuses more than 4300 digits.
abbrev within_digit_limit : List ℕ → Bool
within_digit_limit cs = leb (length (select is_digit cs)) 4300

unfoldable pub parse_signed : List ℕ → Option ℤ
unfolding parse_digits
parse_signed [] = none
parse_signed (c ∷ cs) =
    if within_digit_limit (c ∷ cs)
    then (if eqb c b'-'
        then elim (parse_digits false 0 cs) [ none ↦ none | some n ↦ some (negate n) ]
        else if eqb c b'+'
        then elim (parse_digits false 0 cs) [ none ↦ none | some n ↦ some (pos n) ]
        else elim (parse_digits false 0 (c ∷ cs)) [ none ↦ none | some n ↦ some (pos n) ])
    else none

-- `int(text)`; `none` is the `ValueError`.
unfoldable pub parse_int : String → Option ℤ
unfolding parse_signed strip
parse_int s = parse_signed (codes (strip s))

parse_int_samples :
    (parse_int " 600_000 " ≡ some (pos 600000))
    × (parse_int "-7" ≡ some (negsuc 6))
    × (parse_int "1__2" ≡ none)
    × (parse_int "" ≡ none)
unfolding parse_int
parse_int_samples = (refl, refl, refl, refl)
