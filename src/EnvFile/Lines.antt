-- ===== src/EnvFile/Lines.antt =====
-- The lines of the environment file, as `splitlines`, `strip` and the cut at the sign `=` see them.
use amplifier_panel.Base.{
  ◌≡◌, refl, ap, ◌∙◌, ℕ, Bool, true, false, not, Char, code, String, some, List, [], ◌∷◌, All, eqb,
  arith,
}
use amplifier_panel.Base.Text.{
  ◌<>◌, is_empty, is_space, lstrip, rstrip, strip, cut, join, keep_char,
}
use amplifier_panel.EnvFile.{
  all_codes, is_plain, is_key_character, is_key, is_line_end, splitlines, is_comment,
}
use amplifier_panel.EnvFile.Quoting.{IsLine}

-- A line in front of a line feed is the first of the lines.
splitlines-line :
    (l t : String) → IsLine l → splitlines (l <> (String.◌∷◌ "\n" t)) ≡ l ∷ splitlines t
unfolding splitlines all_codes ◌<>◌
splitlines-line String.[] t h = ground (arith)
splitlines-line (String.◌∷◌ c l) t h = ground (arith, h, splitlines-line l t)

append_assoc : (s t u : String) → (s <> t) <> u ≡ s <> (t <> u)
unfolding ◌<>◌
append_assoc String.[] t u = refl
append_assoc (String.◌∷◌ c s) t u = ap (λ r. String.◌∷◌ c r) (append_assoc s t u)

-- Lines that were joined are split again.
pub splitlines-join :
    (l : String) (ls : List String)
    → All IsLine (l ∷ ls)
    → splitlines (join "\n" (l ∷ ls) <> "\n") ≡ l ∷ ls
unfolding join ◌<>◌ splitlines
splitlines-join l [] h = splitlines-line l "" h.0
splitlines-join l (m ∷ ls) h =
    ap splitlines (append_assoc l (String.◌∷◌ "\n" (join "\n" (m ∷ ls))) "\n")
    ∙ splitlines-line l (join "\n" (m ∷ ls) <> "\n") h.0
    ∙ ap (λ r. l ∷ r) (splitlines-join m ls h.1)

-- No white space at the end.
abbrev pub ends_plain : String → Bool
ends_plain String.[] = true
ends_plain (String.◌∷◌ c String.[]) = not (is_space (code c))
ends_plain (String.◌∷◌ c (String.◌∷◌ d s)) = ends_plain (String.◌∷◌ d s)

abbrev pub starts_plain : String → Bool
starts_plain String.[] = true
starts_plain (String.◌∷◌ c s) = not (is_space (code c))

rstrip-plain : (s : String) → ends_plain s ≡ true → rstrip s ≡ s
unfolding rstrip
rstrip-plain String.[] h = refl
rstrip-plain (String.◌∷◌ c String.[]) h = ground (arith, h)
rstrip-plain (String.◌∷◌ c (String.◌∷◌ d s)) h = ground (arith, rstrip-plain (String.◌∷◌ d s) h)

lstrip-plain : (s : String) → starts_plain s ≡ true → lstrip s ≡ s
unfolding lstrip
lstrip-plain String.[] h = refl
lstrip-plain (String.◌∷◌ c s) h = ground (arith, h)

pub strip-plain : (s : String) → starts_plain s ≡ true → ends_plain s ≡ true → strip s ≡ s
unfolding strip
strip-plain s h k = rw (lstrip-plain s h) (rstrip-plain s k)

pub cons-ends_plain :
    (c : Char) (s : String)
    → is_space (code c) ≡ false
    → ends_plain s ≡ true
    → ends_plain (String.◌∷◌ c s) ≡ true
cons-ends_plain c String.[] e h = ground (arith, e)
cons-ends_plain c (String.◌∷◌ d s) e h = h

-- A test of all characters that lets no white space through.
pub all_codes-ends_plain :
    (test : ℕ → Bool) (s : String)
    → ((c : ℕ) → test c ≡ true → is_space c ≡ false)
    → all_codes test s ≡ true
    → ends_plain s ≡ true
unfolding all_codes
all_codes-ends_plain test String.[] avoids h = refl
all_codes-ends_plain test (String.◌∷◌ c s) avoids h =
    cons-ends_plain c s (avoids (code c) (ground (arith, h)))
      (all_codes-ends_plain test s avoids (ground (arith, h)))

pub all_codes-weaken :
    (test weak : ℕ → Bool) (s : String)
    → ((c : ℕ) → test c ≡ true → weak c ≡ true)
    → all_codes test s ≡ true
    → all_codes weak s ≡ true
unfolding all_codes
all_codes-weaken test weak String.[] imp h = refl
all_codes-weaken test weak (String.◌∷◌ c s) imp h =
    let here = imp (code c) (ground (arith, h)) in
    let rest = all_codes-weaken test weak s imp (ground (arith, h)) in ground (arith, here, rest)

pub ends_plain-append :
    (s t : String) → ends_plain t ≡ true → ends_plain s ≡ true → ends_plain (s <> t) ≡ true
unfolding ◌<>◌
ends_plain-append String.[] t h k = h
ends_plain-append (String.◌∷◌ c String.[]) t h k = cons-ends_plain c t (ground (arith, k)) h
ends_plain-append (String.◌∷◌ c (String.◌∷◌ d s)) t h k = ends_plain-append (String.◌∷◌ d s) t h k

-- The characters of a key are plain, and neither white space nor a line end nor the sign `=`.
key_character :
    (c : ℕ)
    → is_key_character c ≡ true
    → (is_space c ≡ false) × (not (is_line_end c) ≡ true) × (eqb c b'=' ≡ false)
key_character c h = (ground (arith, h), ground (arith, h), ground (arith, h))

pub plain_character : (c : ℕ) → is_plain c ≡ true → is_space c ≡ false
plain_character c h = ground (arith, h)

cut_append :
    (k v : String)
    → all_codes is_key_character k ≡ true
    → cut b'=' (k <> (String.◌∷◌ "=" v)) ≡ some (k, v)
unfolding cut all_codes ◌<>◌
cut_append String.[] v h = ground (arith)
cut_append (String.◌∷◌ c k) v h =
    let here = (key_character (code c) (ground (arith, h))).2 in
    ground (arith, here, cut_append k v (ground (arith, h)))

pub key_codes : (k : String) → is_key k ≡ true → all_codes is_key_character k ≡ true
unfolding is_key all_codes
key_codes String.[] h = ground (arith, h)
key_codes (String.◌∷◌ c s) h = ground (arith, h)

pub key-IsLine : (k : String) → is_key k ≡ true → IsLine k
key-IsLine k h =
    all_codes-weaken is_key_character (λ c. not (is_line_end c)) k (λ c e. (key_character c e).1)
      (key_codes k h)

pub key-ends_plain : (k : String) → is_key k ≡ true → ends_plain k ≡ true
key-ends_plain k h =
    all_codes-ends_plain is_key_character k (λ c e. (key_character c e).0) (key_codes k h)

-- What is in front of a key and of its line.
pub key_starts :
    (k t : String)
    → is_key k ≡ true
    → (starts_plain (k <> t) ≡ true) × (is_empty (k <> t) ≡ false) × (is_comment (k <> t) ≡ false)
unfolding is_key ◌<>◌
key_starts String.[] t h = absurd (ground (arith, h))
key_starts (String.◌∷◌ c s) t h = (ground (arith, h), refl, ground (arith, h))

pub cut_key : (k v : String) → is_key k ≡ true → cut b'=' (k <> "=" <> v) ≡ some (k, v)
unfolding ◌<>◌
cut_key k v h = cut_append k v (key_codes k h)

pub quote_ends : (s : String) → ends_plain (s <> "\"") ≡ true
unfolding ◌<>◌
quote_ends String.[] = refl
quote_ends (String.◌∷◌ c String.[]) = refl
quote_ends (String.◌∷◌ c (String.◌∷◌ d s)) = quote_ends (String.◌∷◌ d s)

hash_kept :
    (r : String) → (is_empty (keep_char "#" r) ≡ false) × (is_comment (keep_char "#" r) ≡ true)
hash_kept String.[] = (refl, refl)
hash_kept (String.◌∷◌ d r) = (refl, refl)

-- A line that starts with `#` is a comment, whatever is stripped of it.
pub hash_comment :
    (s : String)
    → (is_empty (strip (String.◌∷◌ "#" s)) ≡ false) × (is_comment (strip (String.◌∷◌ "#" s)) ≡ true)
unfolding strip lstrip rstrip
hash_comment s = hash_kept (rstrip s)
