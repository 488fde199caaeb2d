-- ===== src/Passwords/RoundTrip.antt =====
-- What `hash_password` makes, `verify_password` accepts.
use amplifier_panel.Base.{
  ℕ, ◌+◌, ◌*◌, ◌/◌, ◌%◌, ◌<◌, ◌≡◌, refl, Bool, true, false, code, String, Option, none, some, List,
  [], ◌∷◌, arith, eqb, All, all_below, all_below_sound,
}
use amplifier_panel.Base.Text.{◌<>◌, after_prefix, cut}
use amplifier_panel.Base.Int.{parse_int}
use amplifier_panel.Passwords.Base64.{digit64, value64, b64encode, b64decode}
use amplifier_panel.Passwords.{
  same_bytes, expected, current_mark, password_is_usable, verify_record, hash_password,
  verify_password,
}

abbrev pub IsByte : ℕ → Type 0
IsByte b = b < 256

-- Every digit is read back, and none is the padding: by evaluation.
reads_back : ℕ → Bool
reads_back n = elim (value64 (code (digit64 n))) [ none ↦ false | some v ↦ eqb v n ]

reads_back_table : all_below 64 reads_back ≡ true
unfolding all_below reads_back
reads_back_table = refl

of_reads_back :
    (o : Option ℕ) (n : ℕ) → elim o [ none ↦ false | some v ↦ eqb v n ] ≡ true → o ≡ some n
of_reads_back none n h = cc
of_reads_back (some v) n h = ground arith

value64-digit64 : (n : ℕ) → n < 64 → value64 (code (digit64 n)) ≡ some n
unfolding reads_back
value64-digit64 n h =
    of_reads_back (value64 (code (digit64 n))) n
      (all_below_sound 64 reads_back n reads_back_table h)

-- Decoding what the encoder wrote gives the bytes back.
pub b64decode-b64encode : (bs : List ℕ) → All IsByte bs → b64decode (b64encode bs) ≡ some bs
unfolding b64decode b64encode
b64decode-b64encode [] h = refl
b64decode-b64encode (a ∷ []) h =
    rw (value64-digit64 (a / 4) (omega arith), value64-digit64 (a % 4 * 16) (omega arith))
      (ground arith)
b64decode-b64encode (a ∷ b ∷ []) h =
    rw
      (
        value64-digit64 (a / 4) (omega arith),
        value64-digit64 (a % 4 * 16 + b / 16) (omega arith),
        value64-digit64 (b % 16 * 4) (omega arith),
      )
      (ground arith)
b64decode-b64encode (a ∷ b ∷ c ∷ rest) h =
    rw
      (
        value64-digit64 (a / 4) (omega arith),
        value64-digit64 (a % 4 * 16 + b / 16) (omega arith),
        value64-digit64 (b % 16 * 4 + c / 64) (omega arith),
        value64-digit64 (c % 64) (omega arith),
        b64decode-b64encode rest (h.1.1.1),
      )
      (ground arith)

same_bytes_refl : (bs : List ℕ) → same_bytes bs bs ≡ true
unfolding same_bytes
same_bytes_refl [] = refl
same_bytes_refl (b ∷ bs) = ground (arith, same_bytes_refl bs)

expected-current :
    (text : String) (digest : List ℕ)
    → b64decode text ≡ some digest
    → expected (current_mark <> text) ≡ some (600000, digest)
unfolding expected ◌<>◌ cut after_prefix parse_int
expected-current text digest h = rw (h, expected)

usable-current :
    (text salt : String) {b : ℕ} {bs salt_bytes : List ℕ}
    → b64decode text ≡ some (b ∷ bs)
    → b64decode salt ≡ some salt_bytes
    → password_is_usable (some (current_mark <> text)) (some salt) ≡ true
unfolding password_is_usable ◌<>◌ cut after_prefix parse_int
usable-current text salt h k = rw (k, h)

module _ (pbkdf2 : String → List ℕ → ℕ → List ℕ) where
  verify_record-same :
      (password hash salt : String) {salt_bytes digest : List ℕ} {rounds : ℕ}
      → b64decode salt ≡ some salt_bytes
      → expected hash ≡ some (rounds, digest)
      → pbkdf2 password salt_bytes rounds ≡ digest
      → verify_record pbkdf2 password hash salt ≡ true
  unfolding verify_record
  verify_record-same password hash salt {digest} h k l =
      rw (h, verify_record, k, l) (same_bytes_refl digest)

  verify_password-record :
      (password hash salt : String)
      → password_is_usable (some hash) (some salt) ≡ true
      → verify_record pbkdf2 password hash salt ≡ true
      → verify_password pbkdf2 password (some hash) (some salt) ≡ true
  unfolding verify_password
  verify_password-record password hash salt h k = rw h k

  -- A password is accepted against the record that `hash_password` makes of it, whatever the salt
  -- bytes, if the digest is a list of bytes that is not empty.
  pub verify_password-hash_password :
      (password : String) (salt_bytes : List ℕ) {b : ℕ} {bs : List ℕ}
      → All IsByte salt_bytes
      → pbkdf2 password salt_bytes 600000 ≡ b ∷ bs
      → All IsByte (b ∷ bs)
      → let (hash, salt) = hash_password pbkdf2 password salt_bytes in
        verify_password pbkdf2 password (some hash) (some salt) ≡ true
  verify_password-hash_password password salt_bytes {b} {bs} hs hd hb =
      let salt_read = b64decode-b64encode salt_bytes hs in
      let digest_read = b64decode-b64encode (b ∷ bs) hb in
      unfold hash_password in
      rw hd (
        verify_password-record password _ _
          (usable-current (b64encode (b ∷ bs)) (b64encode salt_bytes) digest_read salt_read)
          (verify_record-same password _ _ salt_read
            (expected-current (b64encode (b ∷ bs)) (b ∷ bs) digest_read) hd))
