-- ===== src/EnvFile/RoundTrip.antt =====
-- What `write_env_file` of tools/amp_panel_cli.py writes, `read_env_file` reads back.
use amplifier_panel.Base.{
  ◌≡◌, refl, ap, sym, ◌∙◌, ℕ, true, String, Option, none, some, List, [], ◌∷◌, ◌++◌, All, contains,
  arith, string_eq, if◌then◌else◌, Option-cases, inl, inr, append_nil, if_elim,
}
use amplifier_panel.Base.Dict
use amplifier_panel.Base.Dict.{Dict, AllValues, HoldsSome, lookup-AllValues}
use amplifier_panel.Base.Result.{ok}
use amplifier_panel.Base.Text.{◌<>◌, is_empty, join}
use amplifier_panel.EnvFile.{
  is_key, read_lines, read_env_file, comment_lines, key_lines, head_lines, env_content,
}
use amplifier_panel.EnvFile.Keys.{config_keys, config_sections, config_help}
use amplifier_panel.EnvFile.Quoting.{IsLine, shown_value}
use amplifier_panel.EnvFile.Lines.{splitlines-join}
use amplifier_panel.EnvFile.Written.{
  IsWritable, written, append-All, put_lines-written, written-IsLine, keys_ok_sound, texts_ok_sound,
  tables_ok, head_lines-IsLine,
}
use amplifier_panel.EnvFile.Read.{
  shown_starts, shown_ends, unquoted-shown, read_key_line, Reads, Reads-append, Reads-nil,
  Reads-line, Reads-comment, Reads-empty,
}

-- The values that are written of those that are given.
picked : List String → Dict String String → Dict String String → Dict String String
picked [] values d = d
picked (k ∷ ks) values d =
    picked ks values (elim (Dict.lookup k values) [ none ↦ d | some v ↦ Dict.insert k v d ])

or_old : Option String → Option String → Option String
or_old none old = old
or_old (some v) old = some v

lookup-picked :
    (j : String) (ks : List String) (values d : Dict String String)
    → Dict.lookup j (picked ks values d)
      ≡ or_old (if contains ks j then Dict.lookup j values else none) (Dict.lookup j d)
unfolding picked or_old
lookup-picked j [] values d = refl
lookup-picked j (k ∷ ks) values d = elim (Option-cases (Dict.lookup k values)) [
  | inl e ↦ rw e (ground (arith, e, lookup-picked j ks values d))
  | inr (v, e) ↦
      rw e (
        ground
          (arith, e, lookup-picked j ks values (Dict.insert k v d), Dict.lookup-insert j k v d))
]

module _ (sections help : Dict String String) where
  module _ (show_number : ℕ → String) (path : String) where
    section_lines : Option String → List String
    section_lines o = comment_lines (λ section. "" ∷ ("# --- " <> section <> " ---") ∷ []) o

    help_lines : Option String → List String
    help_lines o = comment_lines (λ text. ("# " <> text) ∷ []) o

    Reads-section : (o : Option String) → Reads show_number path (section_lines o) (λ d. d)
    unfolding section_lines ◌<>◌
    Reads-section none = Reads-nil show_number path
    Reads-section (some section) =
        if_elim (λ l. Reads show_number path l (λ d. d)) (is_empty section)
          (λ _. Reads-nil show_number path)
          (λ _.
            Reads-append show_number path ("" ∷ []) (("# --- " <> section <> " ---") ∷ []) (λ d. d)
              (λ d. d) (Reads-empty show_number path)
              (Reads-comment show_number path (" --- " <> section <> " ---")))

    Reads-help : (o : Option String) → Reads show_number path (help_lines o) (λ d. d)
    unfolding help_lines ◌<>◌
    Reads-help none = Reads-nil show_number path
    Reads-help (some text) =
        if_elim (λ l. Reads show_number path l (λ d. d)) (is_empty text)
          (λ _. Reads-nil show_number path) (λ _. Reads-comment show_number path (" " <> text))

    -- The lines of one key read as the value of the key.
    Reads-key :
        (k v : String)
        → is_key k ≡ true
        → Reads show_number path
            (key_lines sections help k (shown_value v))
            (λ d. Dict.insert k v d)
    unfolding key_lines section_lines help_lines
    Reads-key k v h =
        let sec = section_lines (Dict.lookup k sections) in
        let hlp = help_lines (Dict.lookup k help) in
        Reads-append show_number path (sec ++ hlp) ((k <> "=" <> shown_value v) ∷ []) (λ d. d)
          (λ d. Dict.insert k v d)
          (Reads-append show_number path sec hlp (λ d. d) (λ d. d)
            (Reads-section (Dict.lookup k sections)) (Reads-help (Dict.lookup k help)))
          (Reads-line show_number path (k <> "=" <> shown_value v) (λ d. Dict.insert k v d)
            (λ n values.
              read_key_line show_number path n k v (shown_value v) values h (shown_starts v)
                (shown_ends v) (unquoted-shown v)))

    Reads-written :
        (ks : List String) (values : Dict String String)
        → All (λ k. is_key k ≡ true) ks
        → Reads show_number path (written sections help ks values) (λ d. picked ks values d)
    unfolding written picked
    Reads-written [] values a = Reads-nil show_number path
    Reads-written (k ∷ ks) values a = elim (Option-cases (Dict.lookup k values)) [
      | inl e ↦ rw (e, written, picked) (Reads-written ks values a.1)
      | inr (v, e) ↦
          rw (e, written, picked)
            (Reads-append show_number path (key_lines sections help k (shown_value v))
              (written sections help ks values) (λ d. Dict.insert k v d) (λ d. picked ks values d)
              (Reads-key k v a.0) (Reads-written ks values a.1))
    ]

or_old-none : (o : Option String) → or_old o none ≡ o
unfolding or_old
or_old-none none = refl
or_old-none (some v) = refl

module _ (show_number : ℕ → String) (path : String) where
  Reads-comments :
      (a b c d : String)
      → Reads show_number path
          (String.◌∷◌ "#" a ∷ String.◌∷◌ "#" b ∷ String.◌∷◌ "#" c ∷ String.◌∷◌ "#" d ∷ [])
          (λ x. x)
  Reads-comments a b c d =
      let one = Reads-comment show_number path in
      let two =
        Reads-append show_number path (String.◌∷◌ "#" c ∷ []) (String.◌∷◌ "#" d ∷ []) (λ x. x)
          (λ x. x) (one c) (one d) in
      let three =
        Reads-append show_number path (String.◌∷◌ "#" b ∷ [])
          (String.◌∷◌ "#" c ∷ String.◌∷◌ "#" d ∷ []) (λ x. x) (λ x. x) (one b) two in
      Reads-append show_number path (String.◌∷◌ "#" a ∷ [])
        (String.◌∷◌ "#" b ∷ String.◌∷◌ "#" c ∷ String.◌∷◌ "#" d ∷ []) (λ x. x) (λ x. x) (one a)
        three

  -- The same, for any tables of keys, sections and comments.
  round_trip :
      (sections help : Dict String String) (ks : List String) (now : String)
      (values : Dict String String) (j : String)
      → All (λ k. is_key k ≡ true) ks
      → AllValues IsLine sections
      → AllValues IsLine help
      → IsLine now
      → AllValues IsWritable values
      → (content : String) × (result : Dict String String) × (env_content sections help ks now
            values
          ≡ ok content)
        × (read_env_file show_number path content ≡ ok result)
        × (Dict.lookup j result ≡ (if contains ks j then Dict.lookup j values else none))
  unfolding env_content read_env_file read_lines ◌<>◌ Dict.lookup
  round_trip sections help ks now values j a s t h w =
      let lines = head_lines now ++ written sections help ks values in
      let result = picked ks values [] in
      let are_lines =
        append-All IsLine (head_lines now) (written sections help ks values)
          (head_lines-IsLine now h) (written-IsLine sections help ks values a s t w) in
      let (m, read) =
        Reads-append show_number path (head_lines now) (written sections help ks values) (λ d. d)
          (λ d. picked ks values d) (Reads-comments _ _ _ _)
          (Reads-written sections help show_number path ks values a) 1 [] [] in
      (
        join "\n" lines <> "\n",
        result,
        rw (put_lines-written sections help ks values w) refl,
        rw (splitlines-join _ _ are_lines)
            (ap (λ l. read_lines show_number path 1 l []) (sym (append_nil lines)) ∙ read),
        lookup-picked j ks values []
            ∙ or_old-none (if contains ks j then Dict.lookup j values else none),
      )

  -- A configuration that is written is read back: when no value has the end of a line or a NUL in it, the
  -- content can be made, and reading it gives each key of `CONFIG_KEYS` the value that it had, and
  -- nothing else, whatever quotes, backslashes, spaces or signs the values have. The text of the
  -- clock is taken to be one line.
  pub read-write_env_file :
      (now : String) (values : Dict String String) (j : String)
      → IsLine now
      → AllValues IsWritable values
      → (content : String) × (result : Dict String String) × (env_content config_sections
            config_help config_keys now values
          ≡ ok content)
        × (read_env_file show_number path content ≡ ok result)
        × (Dict.lookup j result ≡ (if contains config_keys j then Dict.lookup j values else none))
  read-write_env_file now values j h w =
      round_trip config_sections config_help config_keys now values j
        (keys_ok_sound config_keys tables_ok.0) (texts_ok_sound config_sections tables_ok.1)
        (texts_ok_sound config_help tables_ok.2) h w
