-- ===== src/Network/Rollback.antt =====
-- A change that fails is rolled back: `guarded` in tools/network_agent.py.
use amplifier_panel.Base.{
  ap, arith, inl, inr, false, ◌≡◌, refl, ◌∙◌, String, List, [], ◌∷◌, ◌++◌, ℕ,
}
use amplifier_panel.Base.Result.{Result, Result-cases, is_ok, ok, err}
use amplifier_panel.Base.Dict.{Dict}
use amplifier_panel.Network.Host.{
  Host, Checkpoint, NetworkState, Agent, Failure, agent_error, other_error, run,
}
use amplifier_panel.Network.Commands.{checkpoint_call}
use amplifier_panel.Network.Apply.{Plan, Printing, guarded, settle, after_rollback, change}
use amplifier_panel.Network.Keeps.{Keeps-change, Keeps-checkpoint_call}

-- The bus call on the checkpoint at `path`.
abbrev pub checkpoint_command : String → String → List String
checkpoint_command method path =
    "busctl" ∷ "call" ∷ "org.freedesktop.NetworkManager" ∷ "/org/freedesktop/NetworkManager"
    ∷ "org.freedesktop.NetworkManager" ∷ method ∷ "o" ∷ path ∷ []

module _ (h : Host) (p : Printing) where
  -- The state that a change leaves is the state of the rollback's call.
  after_rollback-state :
      (e : Failure) (r : Result Failure Unit × Agent) → (after_rollback h p e r).1 ≡ r.1
  after_rollback-state e (ok _, s) = refl
  after_rollback-state e (err (agent_error _), s) = refl
  after_rollback-state e (err other_error, s) = refl

  pub checkpoint_call-trace :
      (method path : String) (s : Agent)
      → (checkpoint_call h method path s).1.trace ≡ s.trace ++ checkpoint_command method path ∷ []
  unfolding checkpoint_call run
  checkpoint_call-trace method path s =
      elim (Result-cases (run h (checkpoint_command method path) s).0) [
        | inl (a, w) ↦ simp w
        | inr (a, w) ↦ simp w
      ]

  after_rollback-error :
      (e : Failure) (r : Result Failure Unit × Agent) → is_ok (after_rollback h p e r).0 ≡ false
  after_rollback-error e (ok _, s) = refl
  after_rollback-error e (err (agent_error _), s) = refl
  after_rollback-error e (err other_error, s) = refl

  pub settle_failed :
      (q : Plan) (path token : String) (later : ℕ) (c : Result Failure NetworkState × Agent)
      (e : Failure)
      → c.0 ≡ err e
      → {before : Dict String Checkpoint} → c.1.pending ≡ before
      → ((settle h p q path token later c).1.trace
          ≡ c.1.trace ++ checkpoint_command "CheckpointRollback" path ∷ [])
        × ((settle h p q path token later c).1.pending ≡ before)
        × (is_ok (settle h p q path token later c).0 ≡ false)
  unfolding settle
  settle_failed q path token later (ok a, s) e w k = ground arith
  settle_failed q path token later (err f, s) e w k =
      let r = checkpoint_call h "CheckpointRollback" path s in
      (
        ap (λ (t : Agent). t.trace) (after_rollback-state f r)
            ∙ checkpoint_call-trace "CheckpointRollback" path s,
        ap (λ (t : Agent). t.pending) (after_rollback-state f r)
            ∙ (Keeps-checkpoint_call h "CheckpointRollback" path).at s
            ∙ k,
        after_rollback-error f r,
      )

  -- When the change fails, with whatever error and at whatever command, the last thing the agent runs
  -- is the rollback of this change's checkpoint, directly after the commands of the change; nothing
  -- new is pending, and the answer is an error even when the rollback itself works.
  pub change_rolled_back :
      (q : Plan) (path token : String) (later : ℕ) (s : Agent) (e : Failure)
      → (change h p q s).0 ≡ err e
      → ((guarded h p q path token later s).1.trace
          ≡ (change h p q s).1.trace ++ checkpoint_command "CheckpointRollback" path ∷ [])
        × ((guarded h p q path token later s).1.pending ≡ s.pending)
        × (is_ok (guarded h p q path token later s).0 ≡ false)
  unfolding guarded
  change_rolled_back q path token later s e w =
      settle_failed q path token later (change h p q s) e w ((Keeps-change h p q).at s)
