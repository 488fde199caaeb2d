-- ===== src/Auth/Access.antt =====
-- Who gets in: what the session dependency of app/api/security.py accepts.
use amplifier_panel.Base.{
  ℕ, ◌+◌, ◌≤◌, ◌≡◌, ◌↔◌, refl, ap, subst, true, false, String, some, List, arith, contains,
  Option-cases, inl, inr, string_eq,
}
use amplifier_panel.Base.Dict
use amplifier_panel.Base.Result.{Result, ok, err}
use amplifier_panel.Base.Text.{is_empty}
use amplifier_panel.Auth.{
  Config, User, PublicUser, Session, State, Raised, microseconds, access_user_public,
  find_access_user, drop_session, session_user, get_current_user, require_roles, allow_result,
}

-- What it takes for a token to stand for an account at a time.
pub record IsLoggedIn (cfg : Config) (now : ℕ) (token : String) (s : State) (p : PublicUser)
    : Type 0 where
  pub session : Session
  pub user : User
  pub not_empty : is_empty token ≡ false
  pub held : Dict.lookup token s.auth_sessions ≡ some session
  pub fresh : now ≤ session.created_at + microseconds cfg.session_max_age_seconds
  pub known : find_access_user session.username s ≡ some user
  pub active : user.active ≡ true
  pub answer : access_user_public user ≡ p

session_user_sound :
    (cfg : Config) (now : ℕ) (token : String) (session : Session) (s : State) (p : PublicUser)
    → (session_user cfg now token session s).0 ≡ ok p
    → is_empty token ≡ false
    → Dict.lookup token s.auth_sessions ≡ some session
    → IsLoggedIn cfg now token s p
unfolding session_user drop_session
session_user_sound cfg now token session s p h e k =
    elim (Option-cases (find_access_user session.username s)) [
      | inl missing ↦ absurd (ground arith)
      | inr (u, found) ↦ record {
        session = session;
        user = u;
        not_empty = e;
        held = k;
        fresh = ground arith;
        known = found;
        active = ground arith;
        answer = ground arith;
      }
    ]

get_current_user_sound :
    (cfg : Config) (now : ℕ) (token : String) (s : State) (p : PublicUser)
    → (get_current_user cfg now (some token) s).0 ≡ ok p
    → IsLoggedIn cfg now token s p
unfolding get_current_user
get_current_user_sound cfg now token s p h =
    elim (Option-cases (Dict.lookup token s.auth_sessions)) [
      | inl missing ↦ absurd (ground arith)
      | inr (session, held) ↦
          session_user_sound cfg now token session s p (ground arith) (ground arith) held
    ]

get_current_user_complete :
    (cfg : Config) (now : ℕ) (token : String) (s : State) (p : PublicUser)
    → IsLoggedIn cfg now token s p
    → get_current_user cfg now (some token) s ≡ (ok p, s)
unfolding get_current_user session_user
get_current_user_complete cfg now token s p h =
    ground (arith, h.not_empty, h.held, h.fresh, h.known, h.active, h.answer)

-- The dependency answers with a public user exactly while the token is not empty, it is held by a
-- session that is not too old, and the account of the session is known and active. The answer is
-- that account's, and the state is then left alone.
pub get_current_user_iff :
    (cfg : Config) (now : ℕ) (token : String) (s : State) (p : PublicUser)
    → (get_current_user cfg now (some token) s ≡ (ok p, s)) ↔ IsLoggedIn cfg now token s p
get_current_user_iff cfg now token s p = (
  λ h.
      get_current_user_sound cfg now token s p
        (ap (λ (r : Result Raised PublicUser × State). r.0) h),
  get_current_user_complete cfg now token s p,
)

-- A request without a valid session, or of a role that is not listed, is refused: what
-- `require_roles` lets through is logged in, and its role is one of those.
pub require_roles_sound :
    (cfg : Config) (allowed : List String) (now : ℕ) (token : String) (s : State) (p : PublicUser)
    → (require_roles cfg allowed now (some token) s).0 ≡ ok p
    → (contains allowed p.role ≡ true) × IsLoggedIn cfg now token s p
unfolding require_roles
require_roles_sound cfg allowed now token s p h =
    let sound = get_current_user_sound cfg now token s in
    allowed_of (get_current_user cfg now (some token) s).0 refl h sound
  where
    allowed_of :
        (r : Result Raised PublicUser)
        → (get_current_user cfg now (some token) s).0 ≡ r
        → allow_result allowed r ≡ ok p
        → ((q : PublicUser)
            → (get_current_user cfg now (some token) s).0 ≡ ok q
            → IsLoggedIn cfg now token s q)
        → (contains allowed p.role ≡ true) × IsLoggedIn cfg now token s p
    allowed_of (ok q) e g sound =
        let same : q ≡ p = ground arith in
        (ground arith, subst (λ x. IsLoggedIn cfg now token s x) same (sound q e))
    allowed_of (err e') e g sound = absurd (ground arith)
