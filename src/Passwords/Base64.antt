-- ===== src/Passwords/Base64.antt =====
-- `base64.b64encode` and `base64.b64decode(…, validate=True)`, over bytes as numbers.
use amplifier_panel.Base.{
  ℕ, ◌+◌, ◌-◌, ◌*◌, ◌/◌, ◌%◌, ◌≡◌, refl, Bool, true, false, ◌&&◌, Char, String, Option, none, some,
  List, [], ◌∷◌, eqb, leb, if◌then◌else◌,
}
use Prim.Native.String.{char_at}
use amplifier_panel.Base.Text.{codes}

abbrev alphabet : String
alphabet = "ABCDEFGHIJKLMNOPQRSTUVWXYZabcdefghijklmnopqrstuvwxyz0123456789+/"

abbrev pub digit64 : ℕ → Char
digit64 n = char_at alphabet n

abbrev pub value64 : ℕ → Option ℕ
value64 c =
    if leb b'A' c && leb c b'Z'
    then some (c - 65)
    else if leb b'a' c && leb c b'z'
    then some (c - 71)
    else if leb b'0' c && leb c b'9'
    then some (c + 4)
    else if eqb c b'+'
    then some 62
    else if eqb c b'/'
    then some 63
    else none

abbrev pad : Char
pad = "="

unfoldable pub b64encode : List ℕ → String
b64encode [] = String.[]
b64encode (a ∷ []) =
    String.◌∷◌ (digit64 (a / 4))
      (String.◌∷◌ (digit64 (a % 4 * 16)) (String.◌∷◌ pad (String.◌∷◌ pad String.[])))
b64encode (a ∷ b ∷ []) = String.◌∷◌ (digit64 (a / 4)) (
    String.◌∷◌ (digit64 (a % 4 * 16 + b / 16))
      (String.◌∷◌ (digit64 (b % 16 * 4)) (String.◌∷◌ pad String.[])))
b64encode (a ∷ b ∷ c ∷ rest) = String.◌∷◌ (digit64 (a / 4)) (
    String.◌∷◌ (digit64 (a % 4 * 16 + b / 16))
      (String.◌∷◌ (digit64 (b % 16 * 4 + c / 64)) (String.◌∷◌ (digit64 (c % 64)) (b64encode rest))))

abbrev pub prepend3 : ℕ → ℕ → ℕ → Option (List ℕ) → Option (List ℕ)
prepend3 a b c none = none
prepend3 a b c (some rest) = some (a ∷ b ∷ c ∷ rest)

-- The bytes of four characters; padding stands at the end alone.
abbrev pub group :
    Option ℕ
    → Option ℕ
    → Option ℕ
    → Option ℕ
    → Bool
    → Bool
    → Bool
    → Option (List ℕ)
    → Option (List ℕ)
group (some x) (some y) (some z) (some w) _ _ _ rest =
    prepend3 (x * 4 + y / 16) (y % 16 * 16 + z / 4) (z % 4 * 64 + w) rest
group (some x) (some y) (some z) none _ true true rest =
    some ((x * 4 + y / 16) ∷ (y % 16 * 16 + z / 4) ∷ [])
group (some x) (some y) none none true true true rest = some ((x * 4 + y / 16) ∷ [])
group _ _ _ _ _ _ _ _ = none

abbrev is_nil : List ℕ → Bool
is_nil [] = true
is_nil (_ ∷ _) = false

unfoldable pub decode : List ℕ → Option (List ℕ)
decode [] = some []
decode (a ∷ b ∷ c ∷ d ∷ rest) =
    group (value64 a) (value64 b) (value64 c) (value64 d) (eqb c b'=') (eqb d b'=') (is_nil rest)
      (decode rest)
decode _ = none

-- `none` is the `ValueError`.
unfoldable pub b64decode : String → Option (List ℕ)
unfolding decode
b64decode s = decode (codes s)

decode_samples :
    (b64decode "QUJD" ≡ some (65 ∷ 66 ∷ 67 ∷ []))
    × (b64decode "QQ==" ≡ some (65 ∷ []))
    × (b64decode "QQ=" ≡ none)
    × (b64decode "QQ==QQ==" ≡ none)
unfolding b64decode
decode_samples = (refl, refl, refl, refl)
