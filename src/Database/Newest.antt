-- ===== src/Database/Newest.antt =====
-- The control requests that stay: the newest hundred of a device, in app/services/database.py.
use amplifier_panel.Base.{
  ℕ, suc, ◌≤◌, ◌<◌, ◌≡◌, refl, ap, sym, ◌∙◌, Bool, true, ◌||◌, not, String, Option, none, some,
  List, [], ◌∷◌, ◌==◌, string_eq, select, take, contains, count, All, arith, Option-cases, inl, inr,
  if_elim, eq_refl, eq_of, length-take-le,
}
use amplifier_panel.Base.Dict
use amplifier_panel.Base.Dict.{Dict, NodupKeys}
use amplifier_panel.Device.{Floats}
use amplifier_panel.Statistics.{Json, Shown}
use amplifier_panel.Database.{ControlRequest}
use amplifier_panel.Database.Requests.{
  Requests, for_device, latest, after, newest_first, trim, add_request,
}
use amplifier_panel.Database.Ranking.{
  listed, count-listed, length-keys, Beats, Has, StartsWith, sort_first,
}

module _ (fl : Floats) (sh : Shown fl.Float) where
  count-trim :
      (device_id : String) (ks : List String) (requests : Requests fl sh)
      → count (for_device fl sh device_id) (
          Dict.keep
            (λ k (q : ControlRequest fl sh). not (q.device_id == device_id) || contains ks k)
            requests)
        ≤ count (listed ks) requests
  unfolding Dict.keep
  count-trim device_id ks [] = omega arith
  count-trim device_id ks ((k, q) ∷ requests) = ground (arith, count-trim device_id ks requests)

  trim_bounded :
      (device_id : String) (requests : Requests fl sh)
      → NodupKeys requests
      → count (for_device fl sh device_id) (trim fl sh device_id requests) ≤ 100
  unfolding trim
  trim_bounded device_id requests u =
      let newest = take 100 (newest_first fl sh device_id requests) in
      omega (
        arith,
        count-trim device_id (Dict.keys newest) requests,
        count-listed (Dict.keys newest) requests u,
        length-keys newest,
        length-take-le 100 (newest_first fl sh device_id requests),
      )

  abbrev pub new_request :
      String → String → Json fl.Float → ℕ → Requests fl sh → ControlRequest fl sh
  new_request device_id username values now requests =
      let created = after fl sh (latest fl sh device_id requests) now in
      record {
        created_ms = created;
        updated_ms = created;
        device_id = device_id;
        username = username;
        request_values = values;
        request_state = "pending";
        message = "awaiting acknowledgement";
      }

  abbrev Below : ℕ → Option ℕ → Type 0
  Below t none = Unit
  Below t (some u) = u < t

  abbrev pub AllBelow : ℕ → String → Requests fl sh → Type 0
  AllBelow t device_id requests =
      All
        (λ (x : String × ControlRequest fl sh).
          for_device fl sh device_id x ≡ true → x.1.created_ms < t)
        requests

  latest-AllBelow :
      (t : ℕ) (device_id : String) (requests : Requests fl sh)
      → Below t (latest fl sh device_id requests)
      → AllBelow t device_id requests
  unfolding latest
  latest-AllBelow t device_id [] b = tt
  latest-AllBelow t device_id ((k, q) ∷ requests) b = (
    λ w. elim (Option-cases (latest fl sh device_id requests)) [
      | inl e ↦ ground (arith, b, e, w)
      | inr (u, e) ↦ ground (arith, b, e, w)
    ],
    latest-AllBelow t device_id requests (elim (Option-cases (latest fl sh device_id requests)) [
      | inl e ↦ rw e tt
      | inr (u, e) ↦ rw e (ground (arith, b, e))
    ]),
  )

  after-Below : (o : Option ℕ) (now : ℕ) → Below (after fl sh o now) o
  after-Below none now = tt
  after-Below (some u) now = omega arith

  abbrev created : ControlRequest fl sh → ℕ
  created x = x.created_ms

  abbrev IsFirst : String × ControlRequest fl sh → List (String × ControlRequest fl sh) → Type 0
  IsFirst e l = Beats created e l × Has e l

  Beats-select :
      (device_id : String) (e : String × ControlRequest fl sh) (requests : Requests fl sh)
      → AllBelow (created e.1) device_id requests
      → Beats created e (select (for_device fl sh device_id) requests)
  Beats-select device_id e [] b = tt
  Beats-select device_id e (x ∷ requests) b =
      if_elim (Beats created e) (for_device fl sh device_id x)
        (λ t. (inr (b.0 t), Beats-select device_id e requests b.1))
        (λ _. Beats-select device_id e requests b.1)

  insert-IsFirst :
      (device_id id : String) (q : ControlRequest fl sh) (requests : Requests fl sh)
      → for_device fl sh device_id (id, q) ≡ true
      → AllBelow q.created_ms device_id requests
      → IsFirst (id, q) (select (for_device fl sh device_id) (Dict.insert id q requests))
  unfolding Dict.insert
  insert-IsFirst device_id id q [] w b = rw w ((inl refl, tt), inl refl)
  insert-IsFirst device_id id q ((k, x) ∷ requests) w b =
      if_elim (λ d. IsFirst (id, q) (select (for_device fl sh device_id) d)) (id == k)
        (λ e.
          let same : (k, q) ≡ (id, q) = ap (λ y. (y, q)) (sym (eq_of id k e)) in
          if_elim (IsFirst (id, q)) (for_device fl sh device_id (k, q))
            (λ _. ((inl same, Beats-select device_id (id, q) requests b.1), inl same))
            (λ n. ground (arith, w, n)))
        (λ _.
          let rest = insert-IsFirst device_id id q requests w b.1 in
          if_elim (IsFirst (id, q)) (for_device fl sh device_id (k, x))
            (λ t. ((inr (b.0 t), rest.0), inr rest.1)) (λ _. rest))

  -- After a request has been recorded, the history of its device has at most a hundred requests.
  pub add_request_bounded :
      (request_id device_id username : String) (values : Json fl.Float) (now : ℕ)
      (requests : Requests fl sh)
      → NodupKeys requests
      → count
          (for_device fl sh device_id)
          (add_request fl sh request_id device_id username values now requests)
        ≤ 100
  unfolding add_request
  add_request_bounded request_id device_id username values now requests u =
      trim_bounded device_id _ (
        Dict.insert-NodupKeys request_id (new_request device_id username values now requests)
          requests u)

  contains-first :
      (n : ℕ) (e : String × ControlRequest fl sh) (l : List (String × ControlRequest fl sh))
      → StartsWith e l
      → contains (Dict.keys (take (suc n) l)) e.0 ≡ true
  contains-first n e [] w = absurd w
  contains-first n (k, q) ((j, x) ∷ l) w =
      ground (arith, eq_refl k, ap (λ (y : String × ControlRequest fl sh). y.0) w)

  trim_first :
      (device_id id : String) (q : ControlRequest fl sh) (requests : Requests fl sh)
      → NodupKeys requests
      → Dict.lookup id requests ≡ some q
      → StartsWith (id, q) (newest_first fl sh device_id requests)
      → Dict.lookup id (trim fl sh device_id requests) ≡ some q
  unfolding trim
  trim_first device_id id q requests u found w =
      let ks = Dict.keys (take 100 (newest_first fl sh device_id requests)) in
      let test : String → ControlRequest fl sh → Bool =
        λ k x. not (x.device_id == device_id) || contains ks k in
      Dict.lookup-keep test id requests u
      ∙ ground (arith, found, contains-first 99 (id, q) (newest_first fl sh device_id requests) w)

  -- The request that has been recorded is in the history, as pending, and it is created after all
  -- requests of its device before it, however the clock reads.
  pub add_request_kept :
      (request_id device_id username : String) (values : Json fl.Float) (now : ℕ)
      (requests : Requests fl sh)
      → NodupKeys requests
      → (Dict.lookup request_id
            (add_request fl sh request_id device_id username values now requests)
          ≡ some (new_request device_id username values now requests))
        × AllBelow
            (new_request device_id username values now requests).created_ms
            device_id
            requests
  unfolding add_request
  add_request_kept request_id device_id username values now requests u =
      let q = new_request device_id username values now requests in
      let below =
        latest-AllBelow q.created_ms device_id requests
          (after-Below (latest fl sh device_id requests) now) in
      let first = insert-IsFirst device_id request_id q requests (eq_refl device_id) below in
      (
        trim_first device_id request_id q (Dict.insert request_id q requests)
            (Dict.insert-NodupKeys request_id q requests u)
            (ground
              (arith, Dict.lookup-insert request_id request_id q requests, eq_refl request_id))
            (sort_first created (request_id, q)
              (select (for_device fl sh device_id) (Dict.insert request_id q requests)) first.1
              first.0),
        below,
      )
