-- ===== src/Registration/Registered.antt =====
-- When a device counts as registered.
use k4e_device_worker.Prelude.{
  ◌≡◌, refl, sym, Bool, true, false, none, List, [], ◌∷◌, String, Result, ok, err, Err, Exec, lift,
  check, ◌>>=◌, Leaves, sequence_last, check_ok, check_state,
}
use mathlib.Core.Path.{subst}
use k4e_device_worker.Registration.{
  Response, Deregistrable, Env, read_response, exchange, set_registered, register_device_once,
  deregister_all, deregister,
}

-- Every part is deregistered, in order, whatever the ones before it reported.
abbrev pub each_deregistered : {W : Type 0} → List (Deregistrable W) → W → W
each_deregistered [] w = w
each_deregistered (d ∷ rest) w = each_deregistered rest (d.deregister w).1

deregister_all-each :
    {W : Type 0} (parts : List (Deregistrable W)) (errors : List Err) (w : W)
    → (deregister_all parts errors w).1 ≡ each_deregistered parts w
unfolding deregister_all
deregister_all-each [] errors w = refl
deregister_all-each (d ∷ rest) errors w = deregister_all-each rest _ (d.deregister w).1

-- Deregistering reaches every part that asked for it, in order, although earlier ones fail, and the
-- device is not registered after it.
pub deregister-each :
    {W : Type 0} (parts : List (Deregistrable W)) (registered : Bool) (w : W)
    → ((deregister parts registered w).1 ≡ false)
      × ((deregister parts registered w).2 ≡ each_deregistered parts w)
unfolding deregister
deregister-each parts registered w = (refl, deregister_all-each parts [] w)

module _ {W H : Type 0} (env : Env W H) where
  set_registered_ok :
      (registered : Bool) (x : Result (Unit {0}) × W)
      → (set_registered env registered x).0 ≡ none
      → (x.0 ≡ ok tt)
        × ((set_registered env registered x).1 ≡ true)
        × ((set_registered env registered x).2 ≡ x.1)
  unfolding set_registered
  set_registered_ok registered (ok a, w) h = (refl, refl, refl)
  set_registered_ok registered (err e, w) h = cc

  -- What the world must have after a certificate was written.
  abbrev pub HasCertificate : (W → String → Bool) → W → Type 0
  HasCertificate stored w = (c : String) × (stored w c ≡ true)

  -- What every write of a certificate leaves, a registration without an error leaves.
  pub register_device_once_leaves :
      (P : W → Type 0)
      → ((c k : String) (w : W)
          → (env.write_certificate c k w).0 ≡ none
          → P (env.write_certificate c k w).1)
      → (registered : Bool) (w : W) → (register_device_once env registered w).0 ≡ none
      → ((register_device_once env registered w).1 ≡ true)
        × P (register_device_once env registered w).2
  unfolding register_device_once exchange
  register_device_once_leaves P writes registered w h =
      let written : (key certificate : String)
          → Leaves P (check (env.write_certificate certificate key)) =
        λ key certificate s b done.
          subst P (sym (check_state (env.write_certificate certificate key) s))
            (writes certificate key s (check_ok (env.write_certificate certificate key) s done)) in
      let answer : String → Response → Exec W (Unit {0}) = λ key response.
        lift (read_response env response)
        >>= (λ certificate. check (env.write_certificate certificate key)) in
      let ask : String × String → H → Exec W (Unit {0}) = λ keys hardware.
        lift (env.marshal hardware keys.1)
        >>= (λ content. env.dispatch content >>= answer keys.0) in
      let whole : Leaves P (exchange env) =
        sequence_last P env.renew_certificate (λ keys. env.hardware_information >>= ask keys)
          (λ keys. sequence_last P env.hardware_information (ask keys) (λ hardware.
            sequence_last P (lift (env.marshal hardware keys.1))
              (λ content. env.dispatch content >>= answer keys.0)
              (λ content. sequence_last P (env.dispatch content) (answer keys.0) (λ response.
                sequence_last P (lift (read_response env response))
                  (λ certificate. check (env.write_certificate certificate keys.0))
                  (written keys.0))))) in
      let (done, flag, world) = set_registered_ok registered (exchange env w) h in
      (flag, subst P (sym world) (whole w tt done))

  -- A registration without an error sets `registered` and has written a certificate that the
  -- operator sent, if a write without an error stores what it was given.
  pub register_device_once-ok :
      (stored : W → String → Bool)
      → ((c k : String) (w : W)
          → (env.write_certificate c k w).0 ≡ none
          → stored (env.write_certificate c k w).1 c ≡ true)
      → (registered : Bool) (w : W) → (register_device_once env registered w).0 ≡ none
      → ((register_device_once env registered w).1 ≡ true)
        × HasCertificate stored (register_device_once env registered w).2
  register_device_once-ok stored writes =
      register_device_once_leaves (HasCertificate stored) (λ c k w h. (c, writes c k w h))
