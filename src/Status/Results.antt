-- ===== src/Status/Results.antt =====
-- The profiles and the issues of a status document: `parse_status` of app/services/xml_status.py.
use amplifier_panel.Base.{
  ℕ, suc, ◌+◌, ◌≤◌, ◌≡◌, refl, ap, sym, ◌∙◌, subst, Bool, true, false, ◌&&◌, ◌||◌, String, Option,
  none, some, List, [], ◌∷◌, ◌==◌, string_eq, length, count, contains, arith, Bool-cases, inl, inr,
  if_true, if_false, if_elim, option_elim, eq_of,
}
use amplifier_panel.Base.Dict
use amplifier_panel.Base.Dict.{Dict, NodupKeys}
use amplifier_panel.Base.Result.{Result, Result-cases, ok, err}
use amplifier_panel.Base.Text.{◌<>◌, is_empty, or_text}
use amplifier_panel.Device.{Floats, Value, Field}
use amplifier_panel.Status.{Param, Node, Root, Mapping, MappedSection, MappedDevice}
use amplifier_panel.Status.Parse.{
  Scan, automatic_field, keep_automatic, scan_param, scan_params, stripped, mapped_ids,
  mapped_names, Results, add_node, parse_node, parse_nodes, parse_root, parse_status,
  profile_suffix, section_of, mapped_section, snapshot_of, automatic_value,
}

last_false : (a b : Bool) → (a || b) ≡ false → b ≡ false
last_false a b e = ground (arith, e)

module _ (fl : Floats) where
  open fl use {Float}

  length-insert_new :
      {V : Type 0} (k : String) (v : V) (d : Dict String V)
      → Dict.has k d ≡ false
      → length (Dict.insert k v d) ≡ suc (length d)
  unfolding Dict.insert Dict.lookup
  length-insert_new k v [] h = refl
  length-insert_new k v ((j, w) ∷ d) h = ground (arith, length-insert_new k v d)

  -- A node is a profile when its tag begins with `params_`.
  abbrev pub is_profile : Node → Bool
  is_profile n = elim (profile_suffix fl n.tag) [ none ↦ false | some _ ↦ true ]

  -- What the loop has after some nodes: as many results as profiles, under different ids.
  abbrev Grown : ℕ → Result String (Results fl) → Type 0
  Grown n (err e) = Unit
  Grown n (ok results) = (length results ≡ n) × NodupKeys results

  add_node-Grown :
      (info : Dict String (Option String)) (tag : String) (params : List Param)
      (s : Option (MappedDevice Float) × MappedSection Float) (results : Results fl)
      → NodupKeys results
      → Grown (suc (length results)) (add_node fl info tag params s results)
  unfolding add_node
  add_node-Grown info tag params (definition, section) results u =
      if_elim (Grown (suc (length results))) (is_empty section.key || Dict.has section.key results)
        (λ _. tt)
        (λ e. (
          length-insert_new section.key (snapshot_of fl info definition section params) results
              (ground (arith, e)),
          Dict.insert-NodupKeys section.key (snapshot_of fl info definition section params) results
              u,
        ))

  parse_node-Grown :
      (info : Dict String (Option String)) (mapping : Mapping Float) (o : Option (String × String))
      (params : List Param) (results : Results fl)
      → NodupKeys results
      → Grown
          (elim o [ none ↦ 0 | some _ ↦ 1 ] + length results)
          (parse_node fl info mapping o params results)
  unfolding parse_node
  parse_node-Grown info mapping none params results u = (omega arith, u)
  parse_node-Grown info mapping (some (tag, suffix)) params results u =
      let same : suc (length results) ≡ 1 + length results = omega arith in
      let s = section_of fl tag suffix (mapped_section fl tag mapping) in
      subst (λ n. Grown n (add_node fl info tag params s results)) same
        (add_node-Grown info tag params s results u)

  one_more :
      (n : Node) (nodes : List Node) (before middle : ℕ)
      → middle ≡ elim (profile_suffix fl n.tag) [ none ↦ 0 | some _ ↦ 1 ] + before
      → count is_profile nodes + middle ≡ count is_profile (n ∷ nodes) + before
  one_more n nodes before middle w = ground (arith, w)

  parse_nodes-Grown :
      (info : Dict String (Option String)) (mapping : Mapping Float) (nodes : List Node)
      (results : Results fl)
      → NodupKeys results
      → Grown (count is_profile nodes + length results) (parse_nodes fl info mapping nodes results)
  unfolding parse_nodes
  parse_nodes-Grown info mapping [] results u = (omega arith, u)
  parse_nodes-Grown info mapping (n ∷ nodes) results u =
      let first = parse_node-Grown info mapping (profile_suffix fl n.tag) n.params results u in
      elim (Result-cases (parse_node fl info mapping (profile_suffix fl n.tag) n.params results)) [
        | inl (middle, e) ↦
            let (grown, v) =
              subst
                (Grown (elim (profile_suffix fl n.tag) [ none ↦ 0 | some _ ↦ 1 ] + length results))
                e first in
            let rest = parse_nodes-Grown info mapping nodes middle v in
            rw e (
              subst (λ m. Grown m (parse_nodes fl info mapping nodes middle))
                (one_more n nodes (length results) (length middle) grown) rest)
        | inr (message, e) ↦ rw (e, Grown) tt
      ]

  -- A result holds what the profiles of a root need.
  abbrev pub Complete : Root → Results fl → Type 0
  Complete r results =
      (r.tag ≡ "status") × (length results ≡ count is_profile r.nodes) × NodupKeys results

  parse_root-Complete :
      (mapping : Mapping Float) (root : Option Root) (results : Results fl)
      → parse_root fl mapping root ≡ ok results
      → (r : Root) × (root ≡ some r) × Complete r results
  parse_root-Complete mapping none results w = ground arith
  parse_root-Complete mapping (some r) results w = elim (Bool-cases (r.tag == "status")) [
    | inl e ↦
        let parsed = sym (if_true (r.tag == "status") _ (err "Expected <status> root") e) ∙ w in
        let (n, u) =
          subst (Grown (count is_profile r.nodes + 0)) parsed
            (parse_nodes-Grown r.module_info mapping r.nodes [] tt) in
        (r, refl, (eq_of r.tag "status" e, omega (arith, n), u))
    | inr e ↦ ground (
      arith,
      if_false (r.tag == "status") (parse_nodes fl r.module_info mapping r.nodes [])
          (err "Expected <status> root") e,
      w,
    )
  ]

  pub accepted :
      (bytes : ℕ) (has_declaration : Bool) (root : Option Root) (mapping : Mapping Float)
      (results : Results fl)
      → parse_status fl bytes has_declaration root mapping ≡ ok results
      → (bytes ≤ 1000000) × (has_declaration ≡ false) × (parse_root fl mapping root ≡ ok results)
  unfolding parse_status
  accepted bytes has_declaration root mapping results w = ground (arith, w)

  -- A status document that is read gives one result for each child whose tag begins with `params_`,
  -- each under an id of its own, and is a `<status>` of at most a million bytes without declarations.
  pub parse_status_results :
      (bytes : ℕ) (has_declaration : Bool) (root : Option Root) (mapping : Mapping Float)
      (results : Results fl)
      → parse_status fl bytes has_declaration root mapping ≡ ok results
      → (bytes ≤ 1000000)
        × (has_declaration ≡ false)
        × ((r : Root) × (root ≡ some r) × Complete r results)
  parse_status_results bytes has_declaration root mapping results w =
      let (small, plain, parsed) = accepted bytes has_declaration root mapping results w in
      (small, plain, parse_root-Complete mapping root results parsed)

  abbrev IsNew : List String → Option (Field Float × Value Float) → Type 0
  IsNew used none = Unit
  IsNew used (some (f, v)) = contains used f.key ≡ false

  automatic_field-IsNew :
      (identifier name raw : String) (used : List String)
      → IsNew used (automatic_field fl identifier name raw used)
  unfolding automatic_field
  automatic_field-IsNew identifier name raw used =
      let key = "auto:" <> or_text identifier name in
      if_elim (IsNew used)
        (is_empty raw || (is_empty identifier && is_empty name) || contains used key) (λ _. tt)
        (λ e.
          option_elim (IsNew used) (automatic_value fl raw) (λ _. tt)
            (λ v _.
              last_false (is_empty raw || (is_empty identifier && is_empty name))
                (contains used key) e))

  keep_automatic-lookup :
      (id shown key : String) (o : Option (Field Float × Value Float)) (s : Scan fl)
      → IsNew (Dict.keys s.values) o
      → Dict.has key s.values ≡ true
      → Dict.lookup key (keep_automatic fl id shown o s).values ≡ Dict.lookup key s.values
  keep_automatic-lookup id shown key none s n h = refl
  keep_automatic-lookup id shown key (some (f, v)) s n h = elim (Bool-cases (key == f.key)) [
    | inl e ↦ ground (
      arith,
      n,
      h,
      subst (λ k. contains (Dict.keys s.values) k ≡ Dict.has k s.values) (eq_of key f.key e)
          (Dict.contains-keys key s.values),
      subst (λ k. Dict.has k s.values ≡ true) (eq_of key f.key e) h,
    )
    | inr e ↦ ground (arith, e, Dict.lookup-insert key f.key v s.values)
  ]

  scan_param-lookup :
      (id key : String) (mapped : List (Field Float)) (p : Param) (s : Scan fl)
      → Dict.has key s.values ≡ true
      → Dict.lookup key (scan_param fl id mapped p s).values ≡ Dict.lookup key s.values
  unfolding scan_param
  scan_param-lookup id key mapped p s h =
      if_elim (λ (x : Scan fl). Dict.lookup key x.values ≡ Dict.lookup key s.values)
        (contains (mapped_ids fl mapped) (stripped p.id)
          || contains (mapped_names fl mapped) (stripped p.name))
        (λ _. refl)
        (λ _.
          keep_automatic-lookup id _ key _ s
            (automatic_field-IsNew (stripped p.id) (stripped p.name) (stripped p.value)
              (Dict.keys s.values))
            h)

  -- An automatic field never takes the place of a value that has been read before it, in particular of
  -- a mapped one, whatever the parameters of the section are called.
  pub scan_params-lookup :
      (id key : String) (mapped : List (Field Float)) (params : List Param) (s : Scan fl)
      → Dict.has key s.values ≡ true
      → Dict.lookup key (scan_params fl id mapped params s).values ≡ Dict.lookup key s.values
  unfolding scan_params
  scan_params-lookup id key mapped [] s h = refl
  scan_params-lookup id key mapped (p ∷ params) s h =
      let s' = scan_param fl id mapped p s in
      let same = scan_param-lookup id key mapped p s h in
      scan_params-lookup id key mapped params s'
        (ap (elim [ none ↦ false | some _ ↦ true ]) same ∙ h)
      ∙ same
