-- ===== src/Network/Pending.antt =====
-- At most one change waits for its confirmation, and it goes only by its expiry or its confirmation.
use amplifier_panel.Base.{
  subst, ℕ, ◌+◌, ◌≤◌, ◌<◌, ◌≡◌, refl, sym, ap, ◌∙◌, Bool, true, false, not, ◌||◌, String, Option,
  none, some, List, [], ◌∷◌, ◌++◌, arith, length, leb, Bool-cases, Option-cases, inl, inr, ◌==◌,
  string_eq,
}
use amplifier_panel.Base.Dict
use amplifier_panel.Base.Dict.{Dict, NodupKeys, dict_laws}
use amplifier_panel.Base.Result.{Result, Result-cases, is_ok, ok, err}
use amplifier_panel.Base.Text.{is_empty}
use amplifier_panel.Network.Host.{Host, NetworkState, Checkpoint, Agent, Failure, M, ◌>>=◌, ◌>>◌}
use amplifier_panel.Network.Commands.{create_checkpoint, checkpoint_call, route_interface}
use amplifier_panel.Network.Apply.{
  Payload, Printing, Plan, prune_expired, ensure_no_pending, register_checkpoint, check, plan,
  is_nil, change, settle, guarded, apply_network_settings, destroy, confirm_found,
  confirm_network_settings,
}
use amplifier_panel.Network.Keeps.{
  Keeps, Keeps-change, Keeps-checkpoint_call, Keeps-plan, Keeps-create_checkpoint,
  Keeps-route_interface,
}
use amplifier_panel.Network.Rollback.{checkpoint_command, checkpoint_call-trace, settle_failed}

abbrev live : ℕ → Checkpoint → Bool
live now c = not (leb c.expires_at now)

is_nil-keep :
    (now : ℕ) (token : String) (c : Checkpoint) (d : Dict String Checkpoint)
    → Dict.lookup token d ≡ some c
    → now < c.expires_at
    → is_nil (Dict.keep (λ _ x. live now x) d) ≡ false
unfolding Dict.keep Dict.lookup
is_nil-keep now token c [] w l = ground arith
is_nil-keep now token c ((k, x) ∷ d) w l = ground (arith, is_nil-keep now token c d)

length-keep :
    (test : String → Checkpoint → Bool) (d : Dict String Checkpoint)
    → length (Dict.keep test d) ≤ length d
unfolding Dict.keep
length-keep test [] = ground arith
length-keep test ((k, x) ∷ d) = ground (arith, length-keep test d)

is_nil_eq : (d : Dict String Checkpoint) → is_nil d ≡ true → d ≡ []
is_nil_eq [] w = refl
is_nil_eq (x ∷ d) w = ground arith

-- What is pending after a change that was asked for with nothing pending: the change itself, with its
-- checkpoint's expiry and the state to show, or nothing when it failed.
abbrev Settles : String → ℕ → Result Failure NetworkState → Agent → Type 0
Settles token later (err e) s = s.pending ≡ []
Settles token later (ok result) s =
    (path : String) × (interface : String) × (s.pending
      ≡ (
        token,
        record { path = path; interface = interface; expires_at = later + 60; state = result },
      )
        ∷ [])

module _ {A : Type 0} (token : String) (later : ℕ) where
  Settles-bind :
      (m : M A) (f : A → M NetworkState) (s : Agent)
      → Keeps m
      → s.pending ≡ []
      → ((a : A) (s' : Agent) → s'.pending ≡ [] → Settles token later (f a s').0 (f a s').1)
      → Settles token later ((m >>= f) s).0 ((m >>= f) s).1
  Settles-bind m f s k w next = elim (Result-cases (m s).0) [
    | inl (a, o) ↦ rw o (next a (m s).1 (k.at s ∙ w))
    | inr (e, o) ↦ rw o (k.at s ∙ w)
  ]

Settles-length :
    (token : String) (later : ℕ) (r : Result Failure NetworkState) (s : Agent)
    → Settles token later r s
    → length s.pending ≤ 1
Settles-length token later (err e) s w = rw w (omega arith)
Settles-length token later (ok a) s (path, interface, w) = rw w (omega arith)

-- A confirmation of `c`: done by the last command, or without an effect on what waits.
abbrev Confirms :
    String → Checkpoint → Dict String Checkpoint → Result Failure NetworkState → Agent → Type 0
Confirms token c d (err e) s = s.pending ≡ d
Confirms token c d (ok result) s =
    (result ≡ c.state)
    × (s.pending ≡ Dict.erase token d)
    × ((before : List (List String)) × (s.trace
          ≡ before ++ checkpoint_command "CheckpointDestroy" c.path ∷ []))

module _ (h : Host) (p : Printing) where
  Confirms-destroy :
      (token : String) (c : Checkpoint) (s : Agent)
      → Confirms token c s.pending (destroy h p token c s).0 (destroy h p token c s).1
  unfolding destroy
  Confirms-destroy token c s =
      elim (Result-cases (checkpoint_call h "CheckpointDestroy" c.path s).0) [
        | inl (a, o) ↦ rw o (
          refl,
          ap (Dict.erase token) ((Keeps-checkpoint_call h "CheckpointDestroy" c.path).at s),
          (s.trace, checkpoint_call-trace h p "CheckpointDestroy" c.path s),
        )
        | inr (e, o) ↦ rw o ((Keeps-checkpoint_call h "CheckpointDestroy" c.path).at s)
      ]

  Confirms-checked :
      (b : Bool) (message token : String) (c : Checkpoint) (d : Dict String Checkpoint) (s : Agent)
      → s.pending ≡ d
      → Confirms token c d
          ((check b message >> destroy h p token c) s).0
          ((check b message >> destroy h p token c) s).1
  Confirms-checked true message token c d s k =
      subst (λ x. Confirms token c x (destroy h p token c s).0 (destroy h p token c s).1) k
        (Confirms-destroy token c s)
  Confirms-checked false message token c d s k = k

  Confirms-found :
      (token client_ip : String) (c : Checkpoint) (s : Agent)
      → Confirms token c s.pending
          (confirm_found h p token client_ip (some c) s).0
          (confirm_found h p token client_ip (some c) s).1
  unfolding confirm_found
  Confirms-found token client_ip c s =
      let k = (Keeps-route_interface h client_ip).at s in
      elim (Result-cases (route_interface h client_ip s).0) [
        | inl (a, o) ↦ rw o (
            Confirms-checked (is_empty a || a == c.interface) _ token c s.pending
              (route_interface h client_ip s).1 k)
        | inr (e, o) ↦ rw o k
      ]

  Settles-settle :
      (q : Plan) (path token : String) (later : ℕ) (c : Result Failure NetworkState × Agent)
      → c.1.pending ≡ []
      → Settles token later (settle h p q path token later c).0 (settle h p q path token later c).1
  unfolding settle register_checkpoint Dict.insert
  Settles-settle q path token later (ok a, s) w = (path, q.interface, rw w)
  Settles-settle q path token later (err e, s) w =
      let r = settle_failed h p q path token later (err e, s) e refl w in
      elim (Result-cases (settle h p q path token later (err e, s)).0) [
        | inl (a, o) ↦ ground arith
        | inr (f, o) ↦ rw o r.1
      ]

  Settles-apply :
      (b : Payload) (token : String) (now later : ℕ) (s : Agent)
      → is_nil (prune_expired now s).pending ≡ true
      → Settles token later
          (apply_network_settings h p b token now later s).0
          (apply_network_settings h p b token now later s).1
  unfolding apply_network_settings ensure_no_pending guarded
  Settles-apply b token now later s w = rw w (
      Settles-bind token later (plan h p b) _ (prune_expired now s) (Keeps-plan h p b)
        (is_nil_eq _ w)
        (λ q s1 w1.
          Settles-bind token later (create_checkpoint h q.interface) _ s1
            (Keeps-create_checkpoint h q.interface) w1
            (λ path s2 w2.
              Settles-settle q path token later (change h p q s2)
                ((Keeps-change h p q).at s2 ∙ w2))))

  apply-refused :
      (b : Payload) (token : String) (now later : ℕ) (s : Agent)
      → is_nil (prune_expired now s).pending ≡ false
      → ((apply_network_settings h p b token now later s).1 ≡ prune_expired now s)
        × (is_ok (apply_network_settings h p b token now later s).0 ≡ false)
  unfolding apply_network_settings ensure_no_pending
  apply-refused b token now later s w = rw w (refl, refl)

  -- While a change waits for its confirmation and its time is not over, another change is refused
  -- before any command of it is run, and the change that waits goes on waiting.
  pub one_change_at_a_time :
      (b : Payload) (token other : String) (now later : ℕ) (c : Checkpoint) (s : Agent)
      → NodupKeys s.pending
      → Dict.lookup other s.pending ≡ some c
      → now < c.expires_at
      → (is_ok (apply_network_settings h p b token now later s).0 ≡ false)
        × ((apply_network_settings h p b token now later s).1.trace ≡ s.trace)
        × (Dict.lookup other (apply_network_settings h p b token now later s).1.pending ≡ some c)
  unfolding apply_network_settings ensure_no_pending prune_expired
  one_change_at_a_time b token other now later c s u w l =
      rw (is_nil-keep now other c s.pending w l)
        (refl, refl, rw (Dict.lookup-keep (λ _ x. live now x) other s.pending u, w) (ground arith))

  prune-length :
      (now : ℕ) (s : Agent) → length s.pending ≤ 1 → length (prune_expired now s).pending ≤ 1
  unfolding prune_expired
  prune-length now s l = ground (arith, length-keep (λ _ x. live now x) s.pending)

  -- Whatever is asked and whatever the commands answer, `apply_network_settings` never leaves two
  -- changes that wait, when there was at most one before.
  pub at_most_one_pending :
      (b : Payload) (token : String) (now later : ℕ) (s : Agent)
      → length s.pending ≤ 1
      → length (apply_network_settings h p b token now later s).1.pending ≤ 1
  at_most_one_pending b token now later s l =
      elim (Bool-cases (is_nil (prune_expired now s).pending)) [
        | inl w ↦ Settles-length token later _ _ (Settles-apply b token now later s w)
        | inr w ↦ rw (apply-refused b token now later s w).0 (prune-length now s l)
      ]

  -- A change that is answered with success waits under the new token alone, until sixty seconds after
  -- the clock's second reading, with the state that was answered.
  pub apply-pending :
      (b : Payload) (token : String) (now later : ℕ) (s : Agent) (result : NetworkState)
      → (apply_network_settings h p b token now later s).0 ≡ ok result
      → (path : String) × (interface : String) × ((apply_network_settings h p b token now later
            s).1.pending
          ≡ (
            token,
            record { path = path; interface = interface; expires_at = later + 60; state = result },
          )
            ∷ [])
  apply-pending b token now later s result w =
      elim (Bool-cases (is_nil (prune_expired now s).pending)) [
        | inl n ↦
            subst (λ r. Settles token later r (apply_network_settings h p b token now later s).1) w
              (Settles-apply b token now later s n)
        | inr n ↦ ground (arith, (apply-refused b token now later s n).1)
      ]

  confirm-Confirms :
      (token client_ip : String) (now : ℕ) (s : Agent) (c : Checkpoint)
      → Dict.lookup token (prune_expired now s).pending ≡ some c
      → Confirms token c
          (prune_expired now s).pending
          (confirm_network_settings h p token client_ip now s).0
          (confirm_network_settings h p token client_ip now s).1
  unfolding confirm_network_settings
  confirm-Confirms token client_ip now s c o =
      rw o (Confirms-found token client_ip c (prune_expired now s))

  confirm-absent :
      (token client_ip : String) (now : ℕ) (s : Agent)
      → Dict.lookup token (prune_expired now s).pending ≡ none
      → (is_ok (confirm_network_settings h p token client_ip now s).0 ≡ false)
        × ((confirm_network_settings h p token client_ip now s).1 ≡ prune_expired now s)
  unfolding confirm_network_settings confirm_found
  confirm-absent token client_ip now s o = rw o (refl, refl)

  kept-live :
      (now : ℕ) (token : String) (o : Option Checkpoint) (c : Checkpoint)
      → Dict.kept (λ _ x. live now x) token o ≡ some c
      → (o ≡ some c) × (now < c.expires_at)
  kept-live now token none c w = ground arith
  kept-live now token (some x) c w = elim (Bool-cases (leb x.expires_at now)) [
    | inl l ↦ ground arith
    | inr l ↦ ground arith
  ]

  lookup-prune_expired :
      (now : ℕ) (token : String) (c : Checkpoint) (s : Agent)
      → NodupKeys s.pending
      → Dict.lookup token (prune_expired now s).pending ≡ some c
      → (Dict.lookup token s.pending ≡ some c) × (now < c.expires_at)
  unfolding prune_expired
  lookup-prune_expired now token c s u o =
      kept-live now token (Dict.lookup token s.pending) c
        (sym (Dict.lookup-keep (λ _ x. live now x) token s.pending u) ∙ o)

  -- A confirmation that is answered with success is for a change that waited under that token and was
  -- not over; its checkpoint was destroyed by the last command run, the answer is the state that was
  -- shown after the change, and the change waits no longer while all others do.
  pub confirm_commits :
      (token client_ip : String) (now : ℕ) (s : Agent) (result : NetworkState)
      → NodupKeys s.pending
      → (confirm_network_settings h p token client_ip now s).0 ≡ ok result
      → (c : Checkpoint) × (Dict.lookup token s.pending ≡ some c)
        × (now < c.expires_at)
        × (result ≡ c.state)
        × ((confirm_network_settings h p token client_ip now s).1.pending
            ≡ Dict.erase token (prune_expired now s).pending)
        × ((before : List (List String)) × ((confirm_network_settings h p token client_ip now
                s).1.trace
              ≡ before ++ checkpoint_command "CheckpointDestroy" c.path ∷ []))
  confirm_commits token client_ip now s result u w =
      elim (Option-cases (Dict.lookup token (prune_expired now s).pending)) [
        | inl o ↦ ground (arith, (confirm-absent token client_ip now s o).0)
        | inr (c, o) ↦
            let (found, alive) = lookup-prune_expired now token c s u o in
            let (same, gone, command) =
              subst
                (λ r.
                  Confirms token c (prune_expired now s).pending r
                    (confirm_network_settings h p token client_ip now s).1)
                w (confirm-Confirms token client_ip now s c o) in
            (c, found, alive, same, gone, command)
      ]

  -- A confirmation that fails, at whatever command, leaves every change that is not over waiting.
  pub confirm_failed :
      (token client_ip : String) (now : ℕ) (s : Agent) (e : Failure)
      → (confirm_network_settings h p token client_ip now s).0 ≡ err e
      → (confirm_network_settings h p token client_ip now s).1.pending
        ≡ (prune_expired now s).pending
  confirm_failed token client_ip now s e w =
      elim (Option-cases (Dict.lookup token (prune_expired now s).pending)) [
        | inl o ↦ ap (λ (t : Agent). t.pending) (confirm-absent token client_ip now s o).1
        | inr (c, o) ↦
            subst
              (λ r.
                Confirms token c (prune_expired now s).pending r
                  (confirm_network_settings h p token client_ip now s).1)
              w (confirm-Confirms token client_ip now s c o)
      ]
