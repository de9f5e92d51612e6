-- ===== src/Metrics/RemoteWrite/Settings/Routine.antt =====
-- The client in use follows the configuration, and one routine writes with it.
use k4e_device_worker.Prelude.{
  ◌<◌, ◌≡◌, refl, true, false, not, Option, none, some, if◌then◌else◌, ◌==◌, text_key, integer_key,
  int_beq_iff, Result, ok, err, Err, arith, Bool-cases, inl, inr,
}
use text.Mathlib.TextEquality.{eq_iff}
use k4e_device_worker.Metrics.RemoteWrite.Settings.{
  Receiver, RemoteWrite, Env, receiver_beq, same_config, feature_disabled, is_enabled, apply_config,
  enable, update, get_config, new_remote_write,
}
use k4e_device_worker.Metrics.RemoteWrite.Settings.Made.{IsMade, update-IsMade, get_config-IsMade}

-- A client is in use exactly when the configuration asks for one; with a client in use the
-- routine runs; and there is one goroutine while it runs and none otherwise.
pub record IsSettled {C : Type 0} (r : RemoteWrite C) : Type 0 where
  pub client_as_configured : is_enabled r.client ≡ not (feature_disabled r.config)
  pub served : is_enabled r.client ≡ true → r.is_running ≡ true
  pub one_routine : r.routines ≡ (if r.is_running then 1 else 0)

pub receiver_beq-eq : (a b : Receiver) → receiver_beq a b ≡ true → a ≡ b
unfolding receiver_beq
receiver_beq-eq a b h = ground (
  arith,
  eq_iff a.ca_cert b.ca_cert,
  eq_iff a.url b.url,
  int_beq_iff a.request_num_samples b.request_num_samples,
  int_beq_iff a.timeout_seconds b.timeout_seconds,
)

pub same_config-eq : (a b : Option Receiver) → same_config a b ≡ true → a ≡ b
unfolding same_config
same_config-eq none none h = refl
same_config-eq none (some b) h = cc
same_config-eq (some a) none h = cc
same_config-eq (some a) (some b) h = cc (receiver_beq-eq a b h)

module _ {W U C : Type 0} (env : Env W U C) where
  -- What a successful `applyConfig` changes.
  apply_config-ok :
      (cfg : Receiver) (r r' : RemoteWrite C) (w : W)
      → (apply_config env cfg r w).0 ≡ ok r'
      → (is_enabled r'.client ≡ true) × (r'.is_running ≡ r.is_running) × (r'.routines ≡ r.routines)
  unfolding apply_config
  apply_config-ok cfg r r' w h = ground arith

  enable_error :
      (config : Option Receiver) (r : RemoteWrite C) (made : Result (RemoteWrite C) × W) {e : Err}
      → (enable env config r made).0 ≡ some e
      → (enable env config r made).1 ≡ r
  unfolding enable
  enable_error config r (ok r', w) h = cc
  enable_error config r (err c, w) h = refl

  -- A refused update, for a bad URL, a zero timeout or request size, a CA file or a client that
  -- cannot be made, leaves the object as it was, so that the same message is tried again.
  pub update_error_unchanged :
      (config : Option Receiver) (r : RemoteWrite C) (w : W) {e : Err}
      → (update env config r w).0 ≡ some e
      → (update env config r w).1 ≡ r
  unfolding update
  update_error_unchanged none r w h = ground arith
  update_error_unchanged (some cfg) r w h =
      ground (arith, enable_error (some cfg) r (apply_config env cfg r w))

  enable-IsSettled :
      (cfg : Receiver) (r : RemoteWrite C) (made : Result (RemoteWrite C) × W)
      → IsSettled r
      → (cfg.url == "") ≡ false
      → ((r' : RemoteWrite C)
          → made.0 ≡ ok r'
          → (is_enabled r'.client ≡ true)
            × (r'.is_running ≡ r.is_running)
            × (r'.routines ≡ r.routines))
      → IsSettled (enable env (some cfg) r made).1
  unfolding enable feature_disabled
  enable-IsSettled cfg r (ok r', w) s on facts = let (a, b, c) = facts r' refl in ground (arith)
  enable-IsSettled cfg r (err e, w) s on facts = s

  -- Every update, accepted or refused, keeps the object settled.
  pub update-IsSettled :
      (config : Option Receiver) (r : RemoteWrite C) (w : W)
      → IsSettled r
      → IsSettled (update env config r w).1
  unfolding update feature_disabled
  update-IsSettled none r w s = ground arith
  update-IsSettled (some cfg) r w s = elim (Bool-cases (same_config r.config (some cfg))) [
    | inl same ↦ ground arith
    | inr new ↦ elim (Bool-cases (cfg.url == "")) [
      | inl off ↦ ground arith
      | inr on ↦
          rw (new, on)
            (enable-IsSettled cfg r (apply_config env cfg r w) s on
              (λ r' h. apply_config-ok cfg r r' w h))
    ]
  ]

  -- An accepted update has put its configuration in force.
  pub update-ok :
      (config : Option Receiver) (r : RemoteWrite C) (w : W)
      → (update env config r w).0 ≡ none
      → (update env config r w).1.config ≡ config
  unfolding update
  update-ok none r w h = ground (arith, same_config-eq r.config none)
  update-ok (some cfg) r w h = ground (arith, same_config-eq r.config (some cfg))

get_config-IsSettled :
    {C : Type 0} (r : RemoteWrite C) → IsSettled r → 0 < r.routines → IsSettled (get_config r).0
unfolding get_config
get_config-IsSettled r s alive = ground arith

new-IsSettled : {C : Type 0} → IsSettled (new_remote_write {C = C})
unfolding new_remote_write feature_disabled
new-IsSettled = record { client_as_configured = refl; served = λ h. cc; one_routine = refl }

module _ {W U C : Type 0} (env : Env W U C) where
  -- What can happen to the object: a message from the operator, in any world, and a round of a
  -- routine that is alive.
  pub data Step : RemoteWrite C → RemoteWrite C → Type 0 where
    updated :
        (config : Option Receiver) (r : RemoteWrite C) (w : W) → Step r (update env config r w).1
    polled : (r : RemoteWrite C) → 0 < r.routines → Step r (get_config r).0

  pub data Reach : RemoteWrite C → Type 0 where
    start : Reach new_remote_write
    after : {r t : RemoteWrite C} → Reach r → Step r t → Reach t

  Step-IsSettled : {r t : RemoteWrite C} → Step r t → IsSettled r → IsSettled t
  Step-IsSettled (updated config r w) s = update-IsSettled env config r w s
  Step-IsSettled (polled r alive) s = get_config-IsSettled r s alive

  Step-IsMade : {r t : RemoteWrite C} → Step r t → IsMade env r → IsMade env t
  Step-IsMade (updated config r w) made = update-IsMade env config r w made
  Step-IsMade (polled r alive) made = get_config-IsMade env r made

  new-IsMade : IsMade env (new_remote_write {C = C})
  unfolding new_remote_write
  new-IsMade c h = cc

  -- However updates and rounds of the routine interleave, there is a client exactly if the
  -- configuration in force asks for one, and it was made for the address, the timeout and the
  -- certificate of this configuration; the routine runs while there is a client, and never more than
  -- one goroutine writes.
  pub Reach-IsSettled : {r : RemoteWrite C} → Reach r → IsSettled r × IsMade env r
  Reach-IsSettled start = (new-IsSettled, new-IsMade)
  Reach-IsSettled (after before step) =
      let (settled, made) = Reach-IsSettled before in
      (Step-IsSettled step settled, Step-IsMade step made)
