-- ===== src/EnvFile/Written.antt =====
-- The lines that `write_env_file` of tools/amp_panel_cli.py writes, each of them one line.
use amplifier_panel.Base.{
  if_elim, ◌≡◌, refl, subst, ℕ, Bool, true, not, ◌&&◌, String, Option, none, some, List, [], ◌∷◌,
  ◌++◌, All, eqb, arith, string_eq, if_true, Option-cases, inl, inr,
}
use amplifier_panel.Base.Dict
use amplifier_panel.Base.Dict.{Dict, AllValues, HoldsSome, lookup-AllValues}
use amplifier_panel.Base.Result.{ok}
use amplifier_panel.Base.Text.{◌<>◌, is_empty}
use amplifier_panel.EnvFile.{
  all_codes, is_key, is_refused, is_line_end, env_value, comment_lines, key_lines, put_lines,
  head_lines,
}
use amplifier_panel.EnvFile.Keys.{config_keys, config_sections, config_help}
use amplifier_panel.EnvFile.Quoting.{IsLine, shown_value, shown_value-IsLine, all_codes-append}
use amplifier_panel.EnvFile.Lines.{all_codes-weaken, key-IsLine}

-- A value that can be written: no end of a line in it and no NUL.
abbrev pub is_writable : ℕ → Bool
is_writable c = not (is_line_end c) && not (eqb c 0)

abbrev pub IsWritable : String → Type 0
IsWritable v = all_codes is_writable v ≡ true

pub env_value-IsWritable : (v : String) → IsWritable v → env_value v ≡ ok (shown_value v)
unfolding env_value
env_value-IsWritable v h =
    if_true (all_codes (λ c. not (is_refused c)) v) _ _
      (all_codes-weaken is_writable (λ c. not (is_refused c)) v (λ c e. ground (arith, e)) h)

pub IsLine-IsWritable : (v : String) → IsWritable v → IsLine v
IsLine-IsWritable v h =
    all_codes-weaken is_writable (λ c. not (is_line_end c)) v (λ c e. ground (arith, e)) h

pub append-All :
    (P : String → Type 0) (xs ys : List String) → All P xs → All P ys → All P (xs ++ ys)
append-All P [] ys a b = b
append-All P (x ∷ xs) ys a b = (a.0, append-All P xs ys a.1 b)

join-IsLine : (s t : String) → IsLine s → IsLine t → IsLine (s <> t)
join-IsLine s t h k = all_codes-append (λ c. not (is_line_end c)) s t h k

section_lines-IsLine :
    (o : Option String)
    → HoldsSome IsLine o
    → All IsLine (comment_lines (λ section. "" ∷ ("# --- " <> section <> " ---") ∷ []) o)
unfolding all_codes
section_lines-IsLine none h = tt
section_lines-IsLine (some section) h =
    if_elim (All IsLine) (is_empty section) (λ _. tt)
      (λ _. (
        refl,
        (join-IsLine "# --- " (section <> " ---") refl (join-IsLine section " ---" h refl), tt),
      ))

help_lines-IsLine :
    (o : Option String)
    → HoldsSome IsLine o
    → All IsLine (comment_lines (λ text. ("# " <> text) ∷ []) o)
unfolding all_codes
help_lines-IsLine none h = tt
help_lines-IsLine (some text) h =
    if_elim (All IsLine) (is_empty text) (λ _. tt) (λ _. (join-IsLine "# " text refl h, tt))

module _ (sections help : Dict String String) where
  unfoldable pub written : List String → Dict String String → List String
  written [] values = []
  written (k ∷ ks) values =
      let rest = written ks values in
      elim (Dict.lookup k values) [
        | none ↦ rest
        | some v ↦ key_lines sections help k (shown_value v) ++ rest
      ]

  pub put_lines-written :
      (ks : List String) (values : Dict String String)
      → AllValues IsWritable values
      → put_lines sections help ks values ≡ ok (written ks values)
  unfolding put_lines written
  put_lines-written [] values a = refl
  put_lines-written (k ∷ ks) values a =
      let rest = put_lines-written ks values a in
      elim (Option-cases (Dict.lookup k values)) [
        | inl e ↦ rw (e, put_lines, written) rest
        | inr (v, e) ↦
            let writable : IsWritable v =
              subst (HoldsSome IsWritable) e (lookup-AllValues IsWritable k values a) in
            rw (e, put_lines, written, env_value-IsWritable v writable, rest) refl
      ]

  key_lines-IsLine :
      (k v : String)
      → is_key k ≡ true
      → AllValues IsLine sections
      → AllValues IsLine help
      → IsWritable v
      → All IsLine (key_lines sections help k (shown_value v))
  unfolding key_lines all_codes
  key_lines-IsLine k v key s h w =
      append-All IsLine _ _
        (append-All IsLine _ _
          (section_lines-IsLine (Dict.lookup k sections) (lookup-AllValues IsLine k sections s))
          (help_lines-IsLine (Dict.lookup k help) (lookup-AllValues IsLine k help h)))
        (
          join-IsLine k ("=" <> shown_value v) (key-IsLine k key)
              (join-IsLine "=" (shown_value v) refl (shown_value-IsLine v (IsLine-IsWritable v w))),
          tt,
        )

  pub written-IsLine :
      (ks : List String) (values : Dict String String)
      → All (λ k. is_key k ≡ true) ks
      → AllValues IsLine sections
      → AllValues IsLine help
      → AllValues IsWritable values
      → All IsLine (written ks values)
  unfolding written
  written-IsLine [] values a s h w = tt
  written-IsLine (k ∷ ks) values a s h w =
      let rest = written-IsLine ks values a.1 s h w in
      elim (Option-cases (Dict.lookup k values)) [
        | inl e ↦ rw (e, written) rest
        | inr (v, e) ↦
            let writable : IsWritable v =
              subst (HoldsSome IsWritable) e (lookup-AllValues IsWritable k values w) in
            rw (e, written)
              (append-All IsLine (key_lines sections help k (shown_value v)) (written ks values)
                (key_lines-IsLine k v a.0 s h writable) rest)
      ]

abbrev keys_ok : List String → Bool
keys_ok [] = true
keys_ok (k ∷ ks) = is_key k && keys_ok ks

pub keys_ok_sound : (ks : List String) → keys_ok ks ≡ true → All (λ k. is_key k ≡ true) ks
keys_ok_sound [] h = tt
keys_ok_sound (k ∷ ks) h = (ground (arith, h), keys_ok_sound ks (ground (arith, h)))

abbrev texts_ok : Dict String String → Bool
texts_ok [] = true
texts_ok ((_, text) ∷ d) = all_codes (λ c. not (is_line_end c)) text && texts_ok d

pub texts_ok_sound : (d : Dict String String) → texts_ok d ≡ true → AllValues IsLine d
texts_ok_sound [] h = tt
texts_ok_sound ((_, text) ∷ d) h = (ground (arith, h), texts_ok_sound d (ground (arith, h)))

pub tables_ok :
    (keys_ok config_keys ≡ true) × (texts_ok config_sections ≡ true) × (texts_ok config_help ≡ true)
unfolding is_key all_codes
tables_ok = (refl, refl, refl)

pub head_lines-IsLine : (now : String) → IsLine now → All IsLine (head_lines now)
unfolding all_codes
head_lines-IsLine now h = (refl, (refl, (refl, (join-IsLine "# Updated " now refl h, tt))))
