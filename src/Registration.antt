-- ===== src/Registration.antt =====
-- `Registration` of internal/registration/registration.go: the device is registered with the
-- operator, and deregistered with every part that asked for it. The dispatcher, the certificates,
-- JSON and the hardware are parameters.
pub mod Registered
pub mod Certificates
pub mod Composed
mod Examples
use k4e_device_worker.Prelude.{
  ℕ, suc, zero, Bool, true, false, not, Option, none, some, List, [], ◌∷◌, ◌++◌, String,
  if◌then◌else◌, ltb, Result, ok, err, Err, Exec, pure, lift, guard, change, check, attempt,
  wrap_error, collect, ◌>>=◌, ◌>>◌, ◌⧺◌,
}

-- `YGGDResponse`, less its metadata
pub record Response : Type 0 where
  pub status_code : ℕ
  pub body : String

-- `Deregistrable`: its name, as it is printed, and its `Deregister`
pub record Deregistrable (W : Type 0) : Type 0 where
  pub name : String
  pub deregister : W → Option Err × W

-- The calls of a registration. `renew_certificate` gives the key and the request for a
-- certificate; `certificate_of` is the certificate in the content of a body.
pub record Env (W H : Type 0) : Type 0 where
  pub renew_certificate : Exec W (String × String)
  pub hardware_information : Exec W H
  pub marshal : H → String → Result String
  pub dispatch : String → Exec W Response
  pub certificate_of : String → Result String
  pub write_certificate : String → String → W → Option Err × W
  pub is_initial_config : W → Bool
  pub status_text : ℕ → String

module _ {W H : Type 0} (env : Env W H) where
  -- The certificate that a response holds, if it is no refusal.
  unfoldable pub read_response : Response → Result String
  read_response r =
      if ltb r.status_code 300
      then env.certificate_of r.body
      else err (
          "cannot register to the operator, status_code="
          ⧺ (env.status_text r.status_code ⧺ (", body=" ⧺ r.body)))

  -- `registerDeviceOnce` up to the end, where `registered` is set
  unfoldable pub exchange : Exec W (Unit {0})
  unfolding read_response
  exchange = do
    key_and_request ← env.renew_certificate
    hardware ← env.hardware_information
    content ← lift (env.marshal hardware key_and_request.1)
    response ← env.dispatch content
    certificate ← lift (read_response response)
    check (env.write_certificate certificate key_and_request.0)

  -- The second part of the state is the field `registered`.
  set_registered : Bool → Result (Unit {0}) × W → Option Err × Bool × W
  set_registered registered (ok a, w) = (none, true, w)
  set_registered registered (err e, w) = (some e, registered, w)

  unfoldable pub register_device_once : Bool → W → Option Err × Bool × W
  unfolding set_registered exchange
  register_device_once registered w = set_registered registered (exchange w)

  -- The goroutine, for a number of ticks: it ends once the device has a configuration.
  unfoldable pub register_device_with_retries : ℕ → Bool → W → Bool × W
  unfolding register_device_once
  register_device_with_retries zero registered w = (registered, w)
  register_device_with_retries (suc ticks) registered w =
      let (e, registered', w') = register_device_once registered w in
      let next = register_device_with_retries ticks registered' w' in
      if env.is_initial_config w then next else (registered, w)

  unfoldable pub register_device : ℕ → Bool → W → Bool × W
  unfolding register_device_with_retries
  register_device ticks registered w =
      let (e, registered', w') = register_device_once registered w in
      register_device_with_retries ticks registered' w'

unfoldable pub deregister_later :
    {W : Type 0} → List (Deregistrable W) → List (Deregistrable W) → List (Deregistrable W)
deregister_later parts more = parts ++ more

unfoldable pub deregister_all : {W : Type 0} → List (Deregistrable W) → List Err → W → List Err × W
deregister_all [] errors w = (errors, w)
deregister_all (d ∷ rest) errors w =
    let (e, w') = d.deregister w in deregister_all rest (collect errors (named e)) w'
  where
    named : Option Err → Option Err
    named none = none
    named (some e) = some ("failed to deregister " ⧺ (d.name ⧺ (": " ⧺ e)))

-- `Deregister`, with the field `registered` after it
unfoldable pub deregister : {W : Type 0} → List (Deregistrable W) → Bool → W → List Err × Bool × W
unfolding deregister_all
deregister parts registered w = let (errors, w') = deregister_all parts [] w in (errors, false, w')
