-- ===== src/Auth/Login/Sessions.antt =====
-- An account has one session at most, whatever the order in which the locked parts of the handlers
-- run.
use amplifier_panel.Base.{
  ℕ, ◌≡◌, refl, Bool, true, false, not, String, Option, none, some, [], ◌∷◌, arith, ◌==◌, string_eq,
}
use amplifier_panel.Base.Dict
use amplifier_panel.Base.Dict.{Dict}
use amplifier_panel.Auth.{
  Config, User, PublicUser, Session, State, Request, create_session, is_expired, get_current_user,
  session_user, drop_session,
}
use amplifier_panel.Auth.Login.{has_session, drop_expired, login_begin, login_finish, logout}
use amplifier_panel.Auth.Users.{
  Host, CreateRequest, UpdateRequest, create_access_user, update_access_user, delete_access_user,
  create_named, update_found, delete_found, conclude, save_persisted_access_users,
}

-- No two sessions belong to one account.
abbrev pub OnePerAccount : Dict String Session → Type 0
OnePerAccount [] = Unit
OnePerAccount ((_, session) ∷ d) = (has_session session.username d ≡ false) × OnePerAccount d

has_session-keep :
    (test : String → Session → Bool) (n : String) (d : Dict String Session)
    → has_session n d ≡ false
    → has_session n (Dict.keep test d) ≡ false
unfolding Dict.keep
has_session-keep test n [] h = h
has_session-keep test n ((t, v) ∷ d) h = ground (arith, has_session-keep test n d)

keep-OnePerAccount :
    (test : String → Session → Bool) (d : Dict String Session)
    → OnePerAccount d
    → OnePerAccount (Dict.keep test d)
unfolding Dict.keep
keep-OnePerAccount test [] h = h
keep-OnePerAccount test ((t, v) ∷ d) h =
    ground (arith, keep-OnePerAccount test d h.1, has_session-keep test v.username d h.0)

has_session-erase :
    (token n : String) (d : Dict String Session)
    → has_session n d ≡ false
    → has_session n (Dict.erase token d) ≡ false
unfolding Dict.erase
has_session-erase token n [] h = h
has_session-erase token n ((t, v) ∷ d) h = ground (arith, has_session-erase token n d)

erase-OnePerAccount :
    (token : String) (d : Dict String Session)
    → OnePerAccount d
    → OnePerAccount (Dict.erase token d)
unfolding Dict.erase
erase-OnePerAccount token [] h = h
erase-OnePerAccount token ((t, v) ∷ d) h =
    ground (arith, erase-OnePerAccount token d h.1, has_session-erase token v.username d h.0)

has_session-insert :
    (token n : String) (v : Session) (d : Dict String Session)
    → (v.username == n) ≡ false
    → has_session n d ≡ false
    → has_session n (Dict.insert token v d) ≡ false
unfolding Dict.insert
has_session-insert token n v [] e h = ground arith
has_session-insert token n v ((t, w) ∷ d) e h = ground (arith, has_session-insert token n v d)

insert-OnePerAccount :
    (token : String) (v : Session) (d : Dict String Session)
    → has_session v.username d ≡ false
    → OnePerAccount d
    → OnePerAccount (Dict.insert token v d)
unfolding Dict.insert
insert-OnePerAccount token v [] e h = (refl, tt)
insert-OnePerAccount token v ((t, w) ∷ d) e h =
    ground (arith, insert-OnePerAccount token v d, has_session-insert token w.username v d)

module _ (cfg : Config) where
  -- One locked part of a handler, or the session dependency.
  pub data Step : State → State → Type 0 where
    begin : (r : Request) (n : String) (now : ℕ) (s : State) → Step s (login_begin cfg r n now s).1
    finish :
        (r : Request) (n : String) (u : User) (authenticated : Bool) (token : String)
        (now session_now : ℕ) (s : State)
        → Step s (login_finish cfg r n u authenticated token now session_now s).1
    leave :
        (r : Request) (u : PublicUser) (token : Option String) (s : State)
        → Step s (logout cfg r u token s)
    resolve :
        (now : ℕ) (token : Option String) (s : State) → Step s (get_current_user cfg now token s).1
    create :
        (h : Host) (r : Request) (actor : String) (body : CreateRequest) (s : State)
        → Step s (create_access_user h cfg r actor body s).1
    update :
        (h : Host) (r : Request) (actor : String) (quoted : String → String) (name : String)
        (body : UpdateRequest) (s : State)
        → Step s (update_access_user h cfg r actor quoted name body s).1
    delete :
        (h : Host) (r : Request) (actor name : String) (s : State)
        → Step s (delete_access_user h cfg r actor name s).1

  pub data Reach (s : State) : State → Type 0 where
    here : Reach s s
    next : {t u : State} → Reach s t → Step t u → Reach s u

  auth_sessions-login_begin :
      (r : Request) (n : String) (now : ℕ) (s : State)
      → (login_begin cfg r n now s).1.auth_sessions ≡ s.auth_sessions
  unfolding login_begin
  auth_sessions-login_begin r n now s = ground arith

  auth_sessions-create :
      (h : Host) (r : Request) (actor : String) (body : CreateRequest) (s : State)
      → (create_access_user h cfg r actor body s).1.auth_sessions ≡ s.auth_sessions
  unfolding create_access_user create_named conclude save_persisted_access_users
  auth_sessions-create h r actor body s = ground arith

  auth_sessions-update :
      (h : Host) (r : Request) (actor : String) (quoted : String → String) (name : String)
      (body : UpdateRequest) (s : State)
      → (update_access_user h cfg r actor quoted name body s).1.auth_sessions ≡ s.auth_sessions
  unfolding update_access_user update_found conclude save_persisted_access_users
  auth_sessions-update h r actor quoted name body s = ground arith

  auth_sessions-delete :
      (h : Host) (r : Request) (actor name : String) (s : State)
      → (delete_access_user h cfg r actor name s).1.auth_sessions ≡ s.auth_sessions
  unfolding delete_access_user delete_found save_persisted_access_users
  auth_sessions-delete h r actor name s = ground arith

  finish-OnePerAccount :
      (r : Request) (n : String) (u : User) (authenticated : Bool) (token : String)
      (now session_now : ℕ) (s : State)
      → OnePerAccount s.auth_sessions
      → OnePerAccount (login_finish cfg r n u authenticated token now session_now s).1.auth_sessions
  unfolding login_finish create_session
  finish-OnePerAccount r n u false token now session_now s h = h
  finish-OnePerAccount r n u true token now session_now s h =
      let live = drop_expired cfg session_now s.auth_sessions in
      let fresh : Session = record { username = n; created_at = session_now } in
      let kept =
        keep-OnePerAccount (λ _ session. not (is_expired cfg session_now session)) s.auth_sessions
          h in
      ground (arith, kept, insert-OnePerAccount token fresh live)

  leave-OnePerAccount :
      (r : Request) (u : PublicUser) (token : Option String) (s : State)
      → OnePerAccount s.auth_sessions
      → OnePerAccount (logout cfg r u token s).auth_sessions
  unfolding logout
  leave-OnePerAccount r u none s h = h
  leave-OnePerAccount r u (some token) s h =
      ground (arith, erase-OnePerAccount token s.auth_sessions h)

  resolve-OnePerAccount :
      (now : ℕ) (token : Option String) (s : State)
      → OnePerAccount s.auth_sessions
      → OnePerAccount (get_current_user cfg now token s).1.auth_sessions
  unfolding get_current_user session_user drop_session
  resolve-OnePerAccount now none s h = h
  resolve-OnePerAccount now (some token) s h =
      ground (arith, erase-OnePerAccount token s.auth_sessions h)

  Step-OnePerAccount :
      {s t : State} → Step s t → OnePerAccount s.auth_sessions → OnePerAccount t.auth_sessions
  Step-OnePerAccount (begin r n now s) h = rw (auth_sessions-login_begin r n now s) h
  Step-OnePerAccount (finish r n u a token now session_now s) h =
      finish-OnePerAccount r n u a token now session_now s h
  Step-OnePerAccount (leave r u token s) h = leave-OnePerAccount r u token s h
  Step-OnePerAccount (resolve now token s) h = resolve-OnePerAccount now token s h
  Step-OnePerAccount (create h' r actor body s) h = rw (auth_sessions-create h' r actor body s) h
  Step-OnePerAccount (update h' r actor quoted name body s) h =
      rw (auth_sessions-update h' r actor quoted name body s) h
  Step-OnePerAccount (delete h' r actor name s) h = rw (auth_sessions-delete h' r actor name s) h

  -- Whatever locked parts of logins, logouts, session checks and changes of accounts follow one
  -- another, in any order and with any clock readings and tokens, no account has two sessions.
  pub one_session_per_account :
      {s t : State} → OnePerAccount s.auth_sessions → Reach s t → OnePerAccount t.auth_sessions
  one_session_per_account h here = h
  one_session_per_account h (next r st) = Step-OnePerAccount st (one_session_per_account h r)
