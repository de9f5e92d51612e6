-- ===== src/Agent/Clean.antt =====
-- What it takes for a list of parts to be told without an error.
use mathlib.Core.Path.{subst}
use k4e_device_worker.Prelude.{
  ◌≡◌, refl, ap, Option, none, some, List, [], ◌∷◌, Err, collect, text_key,
}
use k4e_device_worker.Configuration.{observer_failed}
use k4e_device_worker.Agent.{AgentMessage, State, Part, Env, update_part, Outcome}
use k4e_device_worker.Agent.Told.{tell_parts, after_part}

module _ {P W F X T C U R B : Type 0} (env : Env P W F X T C U R B) where
  abbrev St : Type 0
  St = State P W T C R B

  -- A field of the state that an observer leaves, if it does not panic
  abbrev pub field_or : {A : Type 0} → (St → A) → St → Outcome env → A
  field_or f s none = f s
  field_or f s (some (e, t)) = f t

  abbrev pub error_or : Outcome env → Option Err
  error_or none = none
  error_or (some (e, t)) = e

  no_collected :
      (errors : List Err) (e : Option Err)
      → collect errors (observer_failed e) ≡ []
      → (errors ≡ []) × (e ≡ none)
  no_collected [] none h = (refl, refl)
  no_collected [] (some e) h = cc
  no_collected (x ∷ xs) none h = cc
  no_collected (x ∷ xs) (some e) h = cc

  after_part_clean :
      (more : List Err → St → Option (List Err × St)) (errors : List Err) (o : Outcome env) (u : St)
      → ((es : List Err) (v : St) → more es v ≡ some ([], u) → es ≡ [])
      → after_part env more errors o ≡ some ([], u)
      → (errors ≡ []) × (v : St) × (o ≡ some (none, v)) × (more [] v ≡ some ([], u))
  unfolding after_part
  after_part_clean more errors none u grows h = cc
  after_part_clean more errors (some (e, v)) u grows h =
      let (no_errors, ok_part) =
        no_collected errors e (grows (collect errors (observer_failed e)) v h) in
      (
        no_errors,
        v,
        ap (λ x. some (x, v)) ok_part,
        subst (λ es. more es v ≡ some ([], u)) (grows (collect errors (observer_failed e)) v h) h,
      )

  -- Errors that there were are still there at the end.
  tell_parts_errors :
      (parts : List Part) (msg : AgentMessage) (errors : List Err) (s u : St)
      → tell_parts env parts msg errors s ≡ some ([], u)
      → errors ≡ []
  unfolding tell_parts
  tell_parts_errors [] msg errors s u h = ap (λ o. errors_or errors o) h
    where
      errors_or : List Err → Option (List Err × St) → List Err
      errors_or es none = es
      errors_or es (some (fs, t)) = fs
  tell_parts_errors (p ∷ rest) msg errors s u h =
      (after_part_clean (tell_parts env rest msg) errors (update_part env p msg s) u
        (λ es v. tell_parts_errors rest msg es v u) h).0

  pub first_told :
      (p : Part) (rest : List Part) (msg : AgentMessage) (s u : St)
      → tell_parts env (p ∷ rest) msg [] s ≡ some ([], u)
      → (v : St) × (update_part env p msg s ≡ some (none, v))
        × (tell_parts env rest msg [] v ≡ some ([], u))
  unfolding tell_parts
  first_told p rest msg s u h =
      let (no_errors, v, one, later) =
        after_part_clean (tell_parts env rest msg) [] (update_part env p msg s) u
          (λ es v. tell_parts_errors rest msg es v u) h in
      (v, one, later)

  state_or : St → Option (List Err × St) → St
  state_or s none = s
  state_or s (some (errors, t)) = t

  pub last_told :
      (msg : AgentMessage) (s u : St) → tell_parts env [] msg [] s ≡ some ([], u) → s ≡ u
  unfolding tell_parts state_or
  last_told msg s u h = ap (state_or s) h
