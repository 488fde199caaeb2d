-- ===== src/Auth/Login/Limits.antt =====
-- The rate limit of the login handler.
use amplifier_panel.Base.{
  ℕ, ◌+◌, ◌≤◌, ◌≡◌, refl, Bool, true, false, String, List, [], ◌∷◌, ◌++◌, arith, length, select,
  le→leb, eq_refl, ◌==◌, string_eq, length-append, if◌then◌else◌,
}
use amplifier_panel.Base.Dict
use amplifier_panel.Base.Result.{Result, ok, err}
use amplifier_panel.Auth.{
  Config, User, State, Raised, http, Request, normalize_username, get_client_ip, audit_event,
  create_session,
}
use amplifier_panel.Auth.Radius.{Reply}
use amplifier_panel.Auth.Login.{
  LoginRequest, or_empty, recent_failures, login_begin, login_check, check_password, login_finish,
  login,
}

-- The failures kept for one address.
abbrev pub failures_of : String → State → List ℕ
failures_of ip s = or_empty (Dict.lookup ip s.login_failures)

length-select-le {ℓ} :
    {A : Type ℓ} (test : A → Bool) (xs : List A) → length (select test xs) ≤ length xs
length-select-le test [] = omega arith
length-select-le test (x ∷ xs) = ground (arith, length-select-le test xs)

-- With the window full, the first part of a login refuses.
login_begin_full :
    (cfg : Config) (r : Request) (username : String) (now : ℕ) (s : State)
    → cfg.login_max_attempts ≤ length (recent_failures cfg now (get_client_ip cfg r) s)
    → let ip = get_client_ip cfg r in
      login_begin cfg r username now s ≡ (
        err (http 429 "Too many login attempts. Try again later"),
        audit_event cfg r "login_rate_limited" username "" (record s {
          login_failures = Dict.insert ip (recent_failures cfg now ip s) s.login_failures;
        }),
      )
unfolding login_begin
login_begin_full cfg r username now s h = rw (le→leb _ _ h)

login_full :
    (pbkdf2 : String → List ℕ → ℕ → List ℕ) (cfg : Config) (r : Request) (body : LoginRequest)
    (reply : Reply) (token : String) (now session_now : ℕ) (between : State → State)
    (edit : User → User) (s : State) {username : String}
    → normalize_username body.username ≡ ok username
    → cfg.login_max_attempts ≤ length (recent_failures cfg now (get_client_ip cfg r) s)
    → let ip = get_client_ip cfg r in
      login pbkdf2 cfg r body reply token now session_now between edit s ≡ (
        err (http 429 "Too many login attempts. Try again later"),
        audit_event cfg r "login_rate_limited" username "" (record s {
          login_failures = Dict.insert ip (recent_failures cfg now ip s) s.login_failures;
        }),
      )
unfolding login login_check
login_full pbkdf2 cfg r body reply token now session_now between edit s {username} h l =
    rw (h, login, login_begin_full cfg r username now s l)

-- Where the name in a login is not blank: while an address has as many failures in the window as are allowed, its login is refused with
-- 429, whatever the account and the password, no session is made or dropped, and the failures of
-- the address only lose those that left the window.
pub login_limited :
    (pbkdf2 : String → List ℕ → ℕ → List ℕ) (cfg : Config) (r : Request) (body : LoginRequest)
    (reply : Reply) (token : String) (now session_now : ℕ) (between : State → State)
    (edit : User → User) (s : State) {username : String}
    → normalize_username body.username ≡ ok username
    → cfg.login_max_attempts ≤ length (recent_failures cfg now (get_client_ip cfg r) s)
    → let result = login pbkdf2 cfg r body reply token now session_now between edit s in
      (result.0 ≡ err (http 429 "Too many login attempts. Try again later"))
      × (result.1.auth_sessions ≡ s.auth_sessions)
      × (failures_of (get_client_ip cfg r) result.1
          ≡ recent_failures cfg now (get_client_ip cfg r) s)
login_limited pbkdf2 cfg r body reply token now session_now between edit s h l =
    rw (login_full pbkdf2 cfg r body reply token now session_now between edit s h l)
      (refl, refl, rw Dict.lookup-insert (rw eq_refl))

-- What the failures of an address are after a write to those of another or the same address.
failures_of-insert :
    (j ip : String) (xs : List ℕ) (s : State)
    → or_empty (Dict.lookup j (Dict.insert ip xs s.login_failures))
      ≡ (if j == ip then xs else failures_of j s)
failures_of-insert j ip xs s = rw Dict.lookup-insert (ground arith)

failures_of-erase :
    (j ip : String) (s : State)
    → or_empty (Dict.lookup j (Dict.erase ip s.login_failures))
      ≡ (if j == ip then [] else failures_of j s)
failures_of-erase j ip s = rw Dict.lookup-erase (ground arith)

module _ (cfg : Config) where
  -- No address has more failures than are allowed.
  abbrev pub IsLimited : State → Type 0
  IsLimited s = (ip : String) → length (failures_of ip s) ≤ cfg.login_max_attempts

  recent-le :
      (now : ℕ) (ip : String) (s : State)
      → length (recent_failures cfg now ip s) ≤ length (failures_of ip s)
  recent-le now ip s = length-select-le _ (failures_of ip s)

  login_begin-IsLimited :
      (r : Request) (username : String) (now : ℕ) (s : State)
      → IsLimited s
      → IsLimited (login_begin cfg r username now s).1
  unfolding login_begin
  login_begin-IsLimited r username now s h j =
      let ip = get_client_ip cfg r in
      let recent = recent_failures cfg now ip s in
      ground (
        arith,
        h j,
        h ip,
        recent-le now ip s,
        failures_of-insert j ip recent s,
        failures_of-insert j ip (recent ++ now ∷ []) s,
        length-append recent (now ∷ []),
      )

  login_finish-IsLimited :
      (r : Request) (username : String) (u : User) (authenticated : Bool) (token : String)
      (now session_now : ℕ) (s : State)
      → IsLimited s
      → length (failures_of (get_client_ip cfg r) s) + 1 ≤ cfg.login_max_attempts
      → IsLimited (login_finish cfg r username u authenticated token now session_now s).1
  unfolding login_finish create_session
  login_finish-IsLimited r username u false token now session_now s h room j =
      let ip = get_client_ip cfg r in
      ground (
        arith,
        h j,
        room,
        failures_of-insert j ip (failures_of ip s ++ now ∷ []) s,
        length-append (failures_of ip s) (now ∷ []),
      )
  login_finish-IsLimited r username u true token now session_now s h room j =
      ground (arith, h j, failures_of-erase j (get_client_ip cfg r) s)

  -- The first part lets a login go on only while the address has room for one more failure.
  login_begin_room :
      (r : Request) (username : String) (now : ℕ) (s : State) {u : User}
      → (login_begin cfg r username now s).0 ≡ ok u
      → length (failures_of (get_client_ip cfg r) (login_begin cfg r username now s).1) + 1
        ≤ cfg.login_max_attempts
  unfolding login_begin
  login_begin_room r username now s h =
      let ip = get_client_ip cfg r in
      ground (arith, failures_of-insert ip ip (recent_failures cfg now ip s) s, eq_refl ip)

  module _ (pbkdf2 : String → List ℕ → ℕ → List ℕ) where
    login_check-IsLimited :
        (r : Request) (username password : String) (reply : Reply) (token : String)
        (now session_now : ℕ) (edit : User → User) (m : Result Raised User × State)
        → IsLimited m.1
        → ((u : User)
            → m.0 ≡ ok u
            → length (failures_of (get_client_ip cfg r) m.1) + 1 ≤ cfg.login_max_attempts)
        → IsLimited
            (login_check pbkdf2 cfg r username password reply token now session_now
              (λ s. s)
              edit
              m).1
    unfolding login_check
    login_check-IsLimited r username password reply token now session_now edit (err e, s) h room = h
    login_check-IsLimited r username password reply token now session_now edit (ok u, s) h room =
        checked (check_password pbkdf2 cfg cfg.auth_mode reply (edit u) password) refl
      where
        checked :
            (c : Result String Bool)
            → check_password pbkdf2 cfg cfg.auth_mode reply (edit u) password ≡ c
            → IsLimited
                (login_check pbkdf2 cfg r username password reply token now session_now
                  (λ s. s)
                  edit
                  (ok u, s)).1
        checked (ok b) e =
            rw (e, login_check)
              (login_finish-IsLimited r username (edit u) b token now session_now s h (room u refl))
        checked (err message) e = rw (e, login_check) h

    -- A login by itself, whatever it answers, leaves no address with more failures than are allowed,
    -- if none had more before.
    pub login-IsLimited :
        (r : Request) (body : LoginRequest) (reply : Reply) (token : String) (now session_now : ℕ)
        (edit : User → User) (s : State)
        → IsLimited s
        → IsLimited (login pbkdf2 cfg r body reply token now session_now (λ t. t) edit s).1
    unfolding login
    login-IsLimited r body reply token now session_now edit s h =
        named (normalize_username body.username) refl
      where
        named :
            (n : Result Raised String)
            → normalize_username body.username ≡ n
            → IsLimited (login pbkdf2 cfg r body reply token now session_now (λ t. t) edit s).1
        named (err e) p = rw (p, login) h
        named (ok username) p =
            rw (p, login)
              (login_check-IsLimited r username body.password reply token now session_now edit
                (login_begin cfg r username now s) (login_begin-IsLimited r username now s h)
                (λ u q. login_begin_room r username now s q))
