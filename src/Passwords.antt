-- ===== src/Passwords.antt =====
-- app/core/passwords.py. PBKDF2 (hashlib) is a parameter: the digest of a password, the bytes of a
-- salt and a number of rounds. Base 64 is modelled as Python's strict decoder reads it.
pub mod Base64
pub mod RoundTrip
use amplifier_panel.Base.{
  ℕ, zero, suc, Bool, true, false, ◌&&◌, not, String, Option, none, some, List, [], ◌∷◌, leb,
  length, if◌then◌else◌,
}
use amplifier_panel.Base.Int.{ℤ, pos, negsuc, parse_int}
use amplifier_panel.Base.Text.{◌<>◌, codes, after_prefix, cut}
use amplifier_panel.Base.Result.{Result, ok, err}
use Base64.{b64encode, b64decode}

abbrev pub legacy_password_iterations : ℕ
legacy_password_iterations = 120000

-- `f"{PASSWORD_SCHEME}$"` and `f"{PASSWORD_SCHEME}${PASSWORD_ITERATIONS}$"`
abbrev pub scheme_mark : String
scheme_mark = "pbkdf2_sha256$"

abbrev pub current_mark : String
current_mark = "pbkdf2_sha256$600000$"

abbrev pub password_iterations : ℕ
password_iterations = 600000

-- `int(iterations) >= LEGACY_PASSWORD_ITERATIONS`
abbrev pub enough_rounds : ℤ → Bool
enough_rounds (pos n) = leb legacy_password_iterations n
enough_rounds (negsuc n) = false

abbrev pub not_nil : Option (List ℕ) → Bool
not_nil (some (b ∷ bs)) = true
not_nil _ = false

abbrev pub decodes : Option (List ℕ) → Bool
decodes none = false
decodes (some _) = true

-- What follows the scheme: the iterations, a dollar sign and the digest.
unfoldable pub scheme_rest_is_usable : String → Bool
scheme_rest_is_usable rest = elim (cut b'$' rest) [
  | none ↦ false
  | some (iterations, digest) ↦ elim (parse_int iterations) [
    | none ↦ false
    | some n ↦ enough_rounds n && not_nil (b64decode digest)
  ]
]

unfoldable pub record_is_usable : String → String → Bool
unfolding scheme_rest_is_usable
record_is_usable hash salt =
    if decodes (b64decode salt)
    then elim (after_prefix scheme_mark hash) [
      | some rest ↦ scheme_rest_is_usable rest
      | none ↦ not_nil (b64decode hash)
    ]
    else false

-- A field that is missing or is no text is `none`.
unfoldable pub password_is_usable : Option String → Option String → Bool
unfolding record_is_usable
password_is_usable none _ = false
password_is_usable (some hash) none = false
password_is_usable (some hash) (some salt) = record_is_usable hash salt

-- `validate_password`; the error is the text of the `ValueError`.
unfoldable pub validate_password : String → Result String String
validate_password password =
    if leb 8 (length (codes password)) && leb (length (codes password)) 256
    then ok password
    else err "Password must contain 8 to 256 characters"

-- The rounds and the expected digest of a stored hash.
unfoldable pub expected : String → Option (ℕ × List ℕ)
expected hash = elim (after_prefix scheme_mark hash) [
  | none ↦ elim (b64decode hash) [ none ↦ none | some d ↦ some (legacy_password_iterations, d) ]
  | some rest ↦ elim (cut b'$' rest) [
    | none ↦ none
    | some (iterations, digest) ↦ elim (b64decode digest) [
      | none ↦ none
      | some d ↦ elim (parse_int iterations) [ some (pos n) ↦ some (n, d) | _ ↦ none ]
    ]
  ]
]

unfoldable pub same_bytes : List ℕ → List ℕ → Bool
same_bytes [] [] = true
same_bytes [] (_ ∷ _) = false
same_bytes (_ ∷ _) [] = false
same_bytes (a ∷ as') (b ∷ bs) = leb a b && leb b a && same_bytes as' bs

module _ (pbkdf2 : String → List ℕ → ℕ → List ℕ) where
  -- With a new salt, whose sixteen random bytes are an argument.
  unfoldable pub hash_password : String → List ℕ → String × String
  unfolding ◌<>◌
  hash_password password salt_bytes =
      let digest = pbkdf2 password salt_bytes password_iterations in
      (current_mark <> b64encode digest, b64encode salt_bytes)

  unfoldable pub verify_record : String → String → String → Bool
  unfolding expected same_bytes
  verify_record password hash salt = elim (b64decode salt) [
    | none ↦ false
    | some salt_bytes ↦ elim (expected hash) [
      | none ↦ false
      | some (rounds, digest) ↦ same_bytes (pbkdf2 password salt_bytes rounds) digest
    ]
  ]

  unfoldable pub verify_password : String → Option String → Option String → Bool
  unfolding verify_record password_is_usable
  verify_password password none _ = false
  verify_password password (some hash) none = false
  verify_password password (some hash) (some salt) =
      if password_is_usable (some hash) (some salt) then verify_record password hash salt else false
