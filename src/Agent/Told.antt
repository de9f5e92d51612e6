-- ===== src/Agent/Told.antt =====
-- What telling the parts of a message comes to, with the configuration manager of
-- internal/configuration/configuration.go.
use k4e_device_worker.Prelude.{◌≡◌, refl, Option, none, some, List, [], ◌∷◌, Key, Err, collect}
use k4e_device_worker.Configuration.{Message, Observer, Manager, notify, observer_failed}
use k4e_device_worker.Configuration
use k4e_device_worker.Agent.{
  DeviceConfiguration, Configured, AgentMessage, State, Part, Env, update_part, Process, of_outcome,
  Outcome, told, observer_of, observers_of,
}

module _ {P W F X T C U R B : Type 0} (env : Env P W F X T C U R B) where
  unfoldable pub after_part :
      (List Err → State P W T C R B → Option (List Err × State P W T C R B))
      → List Err
      → Outcome env
      → Option (List Err × State P W T C R B)
  after_part more errors none = none
  after_part more errors (some (e, s)) = more (collect errors (observer_failed e)) s

  -- The parts, one after the other, until one panics
  unfoldable pub tell_parts :
      List Part
      → AgentMessage
      → List Err
      → State P W T C R B
      → Option (List Err × State P W T C R B)
  unfolding after_part update_part
  tell_parts [] msg errors s = some (errors, s)
  tell_parts (p ∷ rest) msg errors s =
      after_part (tell_parts rest msg) errors (update_part env p msg s)

  -- What the configuration manager has after it told the parts
  abbrev pub Follows : Option (List Err × State P W T C R B) → List Err × Process env → Type 0
  Follows none x = x.1 ≡ none
  Follows (some (errors, s)) x = x ≡ (errors, some s)

  module _ ⦃same_c : Key (Option DeviceConfiguration)⦄ ⦃same_l : Key (List Configured)⦄
      (files : Configuration.Env (Option DeviceConfiguration) (List Configured) (Process env))
      (fallback : AgentMessage) where
    pub notify_ended :
        (parts : List Part) (msg : AgentMessage) (errors : List Err)
        → (notify files fallback msg (observers_of env parts) errors none).1 ≡ none
    unfolding notify observers_of observer_of told
    notify_ended [] msg errors = refl
    notify_ended (p ∷ rest) msg errors = notify_ended rest msg errors

    after_part-Follows :
        (rest : List Part) (msg : AgentMessage) (errors : List Err) (o : Outcome env)
        → ((e : List Err) (s : State P W T C R B)
            → Follows
                (tell_parts rest msg e s)
                (notify files fallback msg (observers_of env rest) e (some s)))
        → Follows (after_part (tell_parts rest msg) errors o) (
            notify files fallback msg
              (observers_of env rest)
              (collect errors (observer_failed (of_outcome env o).0))
              (of_outcome env o).1)
    unfolding after_part
    after_part-Follows rest msg errors none later = notify_ended rest msg errors
    after_part-Follows rest msg errors (some (e, s)) later =
        later (collect errors (observer_failed e)) s

    pub notify-Follows :
        (parts : List Part) (msg : AgentMessage) (errors : List Err) (s : State P W T C R B)
        → Follows
            (tell_parts parts msg errors s)
            (notify files fallback msg (observers_of env parts) errors (some s))
    unfolding notify observers_of observer_of told tell_parts
    notify-Follows [] msg errors s = refl
    notify-Follows (p ∷ rest) msg errors s =
        after_part-Follows rest msg errors (update_part env p msg s)
          (λ e t. notify-Follows rest msg e t)
