-- ===== src/EnvFile/Read.antt =====
-- How `read_env_file` of tools/amp_panel_cli.py reads the lines that are written for one key.
use amplifier_panel.Base.{
  ◌≡◌, refl, ap, ◌∙◌, ℕ, suc, true, code, String, List, [], ◌∷◌, ◌++◌, arith, string_eq, if_elim,
}
use amplifier_panel.Base.Dict
use amplifier_panel.Base.Dict.{Dict, AllValues, HoldsSome, lookup-AllValues}
use amplifier_panel.Base.Result.{ok}
use amplifier_panel.Base.Text.{◌<>◌, strip}
use amplifier_panel.EnvFile.{all_codes, is_plain, is_key, escape, unquoted, read_line, read_lines}
use amplifier_panel.EnvFile.Quoting.{shown_value, unquoted-quoted, unquoted-plain}
use amplifier_panel.EnvFile.Lines.{
  ends_plain, starts_plain, strip-plain, ends_plain-append, cons-ends_plain, all_codes-ends_plain,
  plain_character, key-ends_plain, key_starts, cut_key, quote_ends, hash_comment,
}

pub shown_starts : (v : String) → starts_plain (shown_value v) ≡ true
unfolding all_codes ◌<>◌
shown_starts String.[] = refl
shown_starts (String.◌∷◌ c s) =
    if_elim (λ r. starts_plain r ≡ true) (all_codes is_plain (String.◌∷◌ c s))
      (λ e. ground (arith, plain_character (code c) (ground (arith, e)))) (λ _. refl)

pub shown_ends : (v : String) → ends_plain (shown_value v) ≡ true
unfolding ◌<>◌
shown_ends v =
    if_elim (λ r. ends_plain r ≡ true) (all_codes is_plain v)
      (λ e. all_codes-ends_plain is_plain v plain_character e)
      (λ _. quote_ends (String.◌∷◌ "\"" (escape v)))

pub unquoted-shown : (v : String) → unquoted (shown_value v) ≡ v
unquoted-shown v =
    if_elim (λ r. unquoted r ≡ v) (all_codes is_plain v) (unquoted-plain v) (λ _. unquoted-quoted v)

line_ends :
    (k w : String) → is_key k ≡ true → ends_plain w ≡ true → ends_plain (k <> "=" <> w) ≡ true
unfolding ◌<>◌
line_ends k w h e =
    ends_plain-append k (String.◌∷◌ "=" w) (cons-ends_plain "=" w refl e) (key-ends_plain k h)

key_itself : (k : String) → is_key k ≡ true → starts_plain k ≡ true
unfolding is_key
key_itself String.[] h = refl
key_itself (String.◌∷◌ c s) h = ground (arith, h)

module _ (show_number : ℕ → String) (path : String) where
  pub read_key_line :
      (n : ℕ) (k v w : String) (values : Dict String String)
      → is_key k ≡ true
      → starts_plain w ≡ true
      → ends_plain w ≡ true
      → unquoted w ≡ v
      → read_line show_number path n (strip (k <> "=" <> w)) values ≡ ok (Dict.insert k v values)
  unfolding read_line
  read_key_line n k v w values h a b u =
      let (starts, filled, plain) = key_starts k ("=" <> w) h in
      let line = strip-plain (k <> "=" <> w) starts (line_ends k w h b) in
      let key = strip-plain k (key_itself k h) (key-ends_plain k h) in
      rw (line, filled, plain, cut_key k w h, key, h, strip-plain w a b, u) refl

  -- The lines change the values that have been read, and the rest of the lines is read after them.
  abbrev pub Reads : List String → (Dict String String → Dict String String) → Type 0
  Reads lines change =
      (n : ℕ) (values : Dict String String) (rest : List String)
      → (m : ℕ) × (read_lines show_number path n (lines ++ rest) values
          ≡ read_lines show_number path m rest (change values))

  append_lists : (a b c : List String) → (a ++ b) ++ c ≡ a ++ (b ++ c)
  append_lists [] b c = refl
  append_lists (x ∷ a) b c = ap (λ r. x ∷ r) (append_lists a b c)

  pub Reads-append :
      (a b : List String) (f g : Dict String String → Dict String String)
      → Reads a f
      → Reads b g
      → Reads (a ++ b) (λ d. g (f d))
  Reads-append a b f g h k n values rest =
      let (m, first) = h n values (b ++ rest) in
      let (last, second) = k m (f values) rest in
      (
        last,
        ap (λ l. read_lines show_number path n l values) (append_lists a b rest) ∙ first ∙ second,
      )

  pub Reads-nil : Reads [] (λ d. d)
  Reads-nil n values rest = (n, refl)

  pub Reads-line :
      (line : String) (f : Dict String String → Dict String String)
      → ((n : ℕ) (values : Dict String String)
          → read_line show_number path n (strip line) values ≡ ok (f values))
      → Reads (line ∷ []) f
  unfolding read_lines
  Reads-line line f h n values rest = (suc n, rw (h n values) refl)

  pub Reads-comment : (s : String) → Reads (String.◌∷◌ "#" s ∷ []) (λ d. d)
  unfolding read_line
  Reads-comment s =
      let (filled, comment) = hash_comment s in
      Reads-line (String.◌∷◌ "#" s) (λ d. d) (λ n values. rw (filled, comment) refl)

  pub Reads-empty : Reads ("" ∷ []) (λ d. d)
  unfolding read_line strip
  Reads-empty = Reads-line "" (λ d. d) (λ n values. refl)
