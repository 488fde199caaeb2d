-- ===== src/Runtime/Document.antt =====
-- The live state after a poll is the document that was read: `poll_once` of app/services/xml_status.py,
-- through `parse_status`, the inventory and the loop over the devices.
use amplifier_panel.Base.{
  ◌≡◌, refl, sym, subst, ◌∙◌, ℕ, ◌+◌, min, Bool, ◌||◌, String, Option, none, some, List, [], ◌∷◌,
  ◌==◌, string_eq, contains, arith, if_elim, if_true, if_false, inl, inr, Bool-cases,
}
use amplifier_panel.Base.Dict
use amplifier_panel.Base.Dict.{Dict, NodupKeys}
use amplifier_panel.Base.Result
use amplifier_panel.Base.Result.{Result, ok, err, ◌>>=◌, reject_if}
use amplifier_panel.Base.Text.{is_empty}
use amplifier_panel.Device.{Floats, Snapshot}
use amplifier_panel.Inventory.Order.{ids}
use amplifier_panel.Inventory.Devices.{lookup-set_device_inventory}
use amplifier_panel.Statistics.{Shown}
use amplifier_panel.Status.{Param, Node, Root, MappedSection, MappedDevice, Mapping}
use amplifier_panel.Status.Profiles.{profile_definition, definition_dict}
use amplifier_panel.Status.Parse.{
  Results, snapshot_of, add_node, profile_suffix, parse_node, parse_nodes, parse_root, parse_status,
  section_of, mapped_section, max_xml_bytes,
}
use amplifier_panel.Status.Results.{accepted, parse_status_results}
use amplifier_panel.Runtime.{Panel, World}
use amplifier_panel.Runtime.Poll.{
  Reading, read_results, poll_once, start_poll, profiles_of, parse_file,
}
use amplifier_panel.Runtime.Polled.{polled_live, after_poll, poll_devices-live}

module _ (fl : Floats) where
  open fl use {Float}

  -- The profile of each result has the result's id.
  abbrev pub OwnProfiles : Results fl → Type 0
  OwnProfiles [] = Unit
  OwnProfiles ((k, snapshot) ∷ results) = (snapshot.profile.id ≡ k) × OwnProfiles results

  insert-OwnProfiles :
      (k : String) (snapshot : Snapshot Float) (results : Results fl)
      → snapshot.profile.id ≡ k
      → OwnProfiles results
      → OwnProfiles (Dict.insert k snapshot results)
  unfolding Dict.insert
  insert-OwnProfiles k snapshot [] e h = (e, tt)
  insert-OwnProfiles k snapshot ((j, old) ∷ results) e h =
      ground (arith, insert-OwnProfiles k snapshot results e h.1)

  abbrev OkOwn : Result String (Results fl) → Type 0
  OkOwn (err _) = Unit
  OkOwn (ok results) = OwnProfiles results

  add_node-OkOwn :
      (info : Dict String (Option String)) (tag : String) (params : List Param)
      (s : Option (MappedDevice Float) × MappedSection Float) (results : Results fl)
      → OwnProfiles results
      → OkOwn (add_node fl info tag params s results)
  unfolding add_node snapshot_of profile_definition definition_dict
  add_node-OkOwn info tag params (definition, section) results h =
      if_elim OkOwn (is_empty section.key || Dict.has section.key results) (λ _. tt)
        (λ _.
          insert-OwnProfiles section.key (snapshot_of fl info definition section params) results
            refl h)

  parse_node-OkOwn :
      (info : Dict String (Option String)) (mapping : Mapping Float) (o : Option (String × String))
      (params : List Param) (results : Results fl)
      → OwnProfiles results
      → OkOwn (parse_node fl info mapping o params results)
  unfolding parse_node
  parse_node-OkOwn info mapping none params results h = h
  parse_node-OkOwn info mapping (some (tag, suffix)) params results h =
      add_node-OkOwn info tag params (section_of fl tag suffix (mapped_section fl tag mapping))
        results h

  parse_nodes-OkOwn :
      (info : Dict String (Option String)) (mapping : Mapping Float) (nodes : List Node)
      (results : Results fl)
      → OwnProfiles results
      → OkOwn (parse_nodes fl info mapping nodes results)
  unfolding parse_nodes
  parse_nodes-OkOwn info mapping [] results h = h
  parse_nodes-OkOwn info mapping (n ∷ nodes) results h =
      let first = parse_node-OkOwn info mapping (profile_suffix fl n.tag) n.params results h in
      elim (Result.Result-cases
        (parse_node fl info mapping (profile_suffix fl n.tag) n.params results)) [
          | inl (middle, e) ↦
              rw e (parse_nodes-OkOwn info mapping nodes middle (subst OkOwn e first))
          | inr (message, e) ↦ rw (e, OkOwn) tt
        ]

  own_of_root :
      (mapping : Mapping Float) (root : Option Root) (results : Results fl)
      → parse_root fl mapping root ≡ ok results
      → OwnProfiles results
  own_of_root mapping none results w = absurd (ground (arith, w))
  own_of_root mapping (some r) results w = elim (Bool-cases (r.tag == "status")) [
    | inl e ↦
        let parsed = sym (if_true (r.tag == "status") _ (err "Expected <status> root") e) ∙ w in
        subst OkOwn parsed (parse_nodes-OkOwn r.module_info mapping r.nodes [] tt)
    | inr e ↦ ground (
      arith,
      if_false (r.tag == "status") (parse_nodes fl r.module_info mapping r.nodes [])
          (err "Expected <status> root") e,
      w,
    )
  ]

  parsed-IsOwn :
      (bytes : ℕ) (declared : Bool) (root : Option Root) (mapping : Mapping Float)
      (results : Results fl)
      → parse_status fl bytes declared root mapping ≡ ok results
      → NodupKeys results × OwnProfiles results
  parsed-IsOwn bytes declared root mapping results w =
      let (_, _, found) = parse_status_results fl bytes declared root mapping results w in
      let (_, _, parsed) = accepted fl bytes declared root mapping results w in
      (found.2.2, own_of_root mapping root results parsed)

module _ (fl : Floats) (sh : Shown fl.Float) where
  pub contains-profiles_of :
      (results : Results fl) (j : String)
      → OwnProfiles fl results
      → contains (ids (profiles_of fl sh results)) j ≡ Dict.has j results
  unfolding Dict.lookup
  contains-profiles_of [] j h = refl
  contains-profiles_of ((k, snapshot) ∷ results) j h =
      ground (arith, contains-profiles_of results j h.1)

  pub read_results-IsOwn :
      (r : Reading fl sh) (t : ℕ) (at : String) (results : Results fl)
      → read_results fl sh r ≡ ok (t, at, results)
      → NodupKeys results × OwnProfiles fl results
  unfolding read_results parse_file
  read_results-IsOwn r t at results w = elim (Result.Result-cases r.mapping) [
    | inr (e, m) ↦ absurd (ground (arith, m, w))
    | inl (mapping, m) ↦ elim (Result.Result-cases r.file) [
      | inr (e, f) ↦ absurd (ground (arith, m, f, w))
      | inl (file, f) ↦
          let status =
            parse_status fl (min file.bytes (max_xml_bytes fl + 1)) file.has_declaration file.root
              mapping in
          elim (Result.Result-cases status) [
            | inr (e, p) ↦ absurd (ground (arith, m, f, p, w))
            | inl (found, p) ↦
                subst (λ x. NodupKeys x × OwnProfiles fl x) (ground (arith, m, f, p, w))
                  (parsed-IsOwn fl (min file.bytes (max_xml_bytes fl + 1)) file.has_declaration
                    file.root mapping found p)
          ]
    ]
  ]

  -- After a poll that has read the status document and ends with no exception, the live state is that
  -- document: every device of it is connected, at the time of the file, with the snapshot that was
  -- read of it and the issues that were met, and no other device has an entry. The live state is taken
  -- to have each device once before the poll.
  pub poll_shows_document :
      (w : World fl sh) (r : Reading fl sh) (s : Panel fl sh) (t : ℕ) (at : String)
      (results : Results fl) (j : String)
      → NodupKeys s.inventory.device_live
      → read_results fl sh r ≡ ok (t, at, results)
      → (poll_once fl sh w r s).0 ≡ ok tt
      → Dict.lookup j (poll_once fl sh w r s).1.inventory.device_live
        ≡ elim (Dict.lookup j results) [
          | none ↦ none
          | some snapshot ↦ some (polled_live fl sh at snapshot)
        ]
  unfolding poll_once start_poll after_poll
  poll_shows_document w r s t at results j u read done =
      let (v, own) = read_results-IsOwn r t at results read in
      let loop =
        poll_devices-live fl sh w t at results (start_poll fl sh r results s) j v
          (rw (read, poll_once) at done) in
      let before = lookup-set_device_inventory fl (profiles_of fl sh results) s.inventory j u in
      rw (read, poll_once) (loop ∙ ground (arith, before, contains-profiles_of results j own))
