-- ===== src/Metrics/RemoteWrite/Settings/Made.antt =====
-- The client that `applyConfig` makes, and the configuration that it is made for.
use mathlib.Core.Path.{subst}
use k4e_device_worker.Prelude.{
  ◌≡◌, refl, sym, ap, ◌∙◌, true, not, Option, none, some, String, ◌==◌, text_key, integer_key, ℤ,
  pos, Result, ok, err, Exec, pure, guard, ignore, lift, ◌>>=◌, ◌>>◌, continue_ok, arith,
  Bool-cases, inl, inr, ◌⊎◌,
}
use k4e_device_worker.Metrics.RemoteWrite.Settings.{
  Receiver, RemoteWrite, Env, make_ca_file, create_client, apply_config, start_routine, enable,
  update, get_config, same_config,
}

start_routine_keeps :
    {W U C : Type 0} (env : Env W U C) (r : RemoteWrite C)
    → ((start_routine env r).client ≡ r.client)
      × ((start_routine env r).current_server_ca_file ≡ r.current_server_ca_file)
unfolding start_routine
start_routine_keeps env r = ground arith

get_config_keeps :
    {C : Type 0} (r : RemoteWrite C)
    → ((get_config r).0.client ≡ r.client)
      × ((get_config r).0.current_server_ca_file ≡ r.current_server_ca_file)
      × ((get_config r).0.config ≡ r.config)
unfolding get_config
get_config_keeps r = ground arith

module _ {W U C : Type 0} (env : Env W U C) where
  -- The file with the certificate of the server: none is made if the configuration has none.
  abbrev pub IsCaFile : String → String → Type 0
  IsCaFile cert ca =
      ((cert == "") ≡ true) × (ca ≡ "")
      ⊎ ((w : W) × ((env.temp_file w).0 ≡ ok ca)
          × ((env.write_ca ca cert (env.temp_file w).1).0 ≡ ok tt))

  -- The client was made for the address, the timeout and the certificate of a configuration.
  abbrev pub IsMadeFor : Receiver → String → C → Type 0
  IsMadeFor cfg ca c =
      (url : U) × (w : W) × (env.parse_url cfg.url ≡ ok url)
      × ((env.new_write_client url cfg.timeout_seconds ca w).0 ≡ ok c)
      × IsCaFile cfg.ca_cert ca

  create_client_ok :
      (url : U) (timeout : ℤ) (ca : String) (w : W) (c : C)
      → (create_client env url timeout ca w).0 ≡ ok c
      → (env.new_write_client url timeout ca w).0 ≡ ok c
  unfolding create_client
  create_client_ok url timeout ca w c h = ground (arith, h)

  abbrev ok_or : {A : Type 0} → A → Result A → A
  ok_or a (ok b) = b
  ok_or a (err e) = a

  make_ca_file_ok :
      (cert ca : String) (w : W) → (make_ca_file env cert w).0 ≡ ok ca → IsCaFile cert ca
  unfolding make_ca_file
  make_ca_file_ok cert ca w h = elim (Bool-cases (cert == "")) [
    | inl blank ↦
        let empty_file : ok "" ≡ ok ca = sym (rw blank) ∙ h in
        inl (blank, sym (ap (ok_or "") empty_file))
    | inr given ↦
        let (path, made, h1) =
          continue_ok (λ path. env.write_ca path cert >> pure path) (env.temp_file w) ca
            (sym (rw given) ∙ h) in
        let (_, wrote, last) =
          continue_ok (λ _. pure path) (env.write_ca path cert (env.temp_file w).1) ca h1 in
        let same : path ≡ ca = ap (ok_or path) last in
        inr (
          w,
          made ∙ ap (λ p. ok p) same,
          ap (λ p. (env.write_ca p cert (env.temp_file w).1).0) (sym same) ∙ wrote,
        )
  ]

  abbrev with_client : RemoteWrite C → String → C → Exec W (RemoteWrite C)
  with_client r ca client =
      ignore (env.remove_file r.current_server_ca_file)
      >> pure (record r { client = some client; current_server_ca_file = ca })

  abbrev with_ca : Receiver → RemoteWrite C → U → String → Exec W (RemoteWrite C)
  with_ca cfg r url ca = create_client env url cfg.timeout_seconds ca >>= with_client r ca

  abbrev with_size : Receiver → RemoteWrite C → U → Exec W (RemoteWrite C)
  with_size cfg r url = make_ca_file env cfg.ca_cert >>= with_ca cfg r url

  abbrev size_given : Receiver → Exec W (Unit {0})
  size_given cfg =
      guard (not (cfg.request_num_samples == pos 0)) "RequestNumSamples has to greater than 0"

  abbrev timeout_given : Receiver → Exec W (Unit {0})
  timeout_given cfg =
      guard (not (cfg.timeout_seconds == pos 0)) "TimeoutSeconds has to greater than 0"

  abbrev with_timeout : Receiver → RemoteWrite C → U → Exec W (RemoteWrite C)
  with_timeout cfg r url = size_given cfg >> with_size cfg r url

  abbrev with_url : Receiver → RemoteWrite C → U → Exec W (RemoteWrite C)
  with_url cfg r url = timeout_given cfg >> with_timeout cfg r url

  -- What a successful `applyConfig` leaves
  pub apply_config-IsMadeFor :
      (cfg : Receiver) (r r' : RemoteWrite C) (w : W)
      → (apply_config env cfg r w).0 ≡ ok r'
      → (c : C) × (r'.client ≡ some c) × IsMadeFor cfg r'.current_server_ca_file c
  unfolding apply_config
  apply_config-IsMadeFor cfg r r' w h =
      let (url, parsed, h1) = continue_ok (with_url cfg r) (lift (env.parse_url cfg.url) w) r' h in
      let (_, has_timeout, h2) =
        continue_ok (λ _. with_timeout cfg r url) (timeout_given cfg w) r' h1 in
      let w1 = (timeout_given cfg w).1 in
      let (_, has_size, h3) = continue_ok (λ _. with_size cfg r url) (size_given cfg w1) r' h2 in
      let w2 = (size_given cfg w1).1 in
      let (ca, made_ca, h4) =
        continue_ok (with_ca cfg r url) (make_ca_file env cfg.ca_cert w2) r' h3 in
      let w3 = (make_ca_file env cfg.ca_cert w2).1 in
      let (c, made, h5) =
        continue_ok (with_client r ca) (create_client env url cfg.timeout_seconds ca w3) r' h4 in
      let left : record r { client = some c; current_server_ca_file = ca } ≡ r' = ap (ok_or r) h5 in
      (
        c,
        sym (ap (λ x. x.client) left),
        subst (λ f. IsMadeFor cfg f c) (ap (λ x. x.current_server_ca_file) left)
            (
              url,
              w3,
              parsed,
              create_client_ok url cfg.timeout_seconds ca w3 c made,
              make_ca_file_ok cfg.ca_cert ca w2 made_ca,
            ),
      )

  -- A client that is in use was made for the configuration that is in force.
  abbrev pub IsMade : RemoteWrite C → Type 0
  IsMade r =
      (c : C)
      → r.client ≡ some c
      → (cfg : Receiver) × (r.config ≡ some cfg) × IsMadeFor cfg r.current_server_ca_file c

  enable-IsMade :
      (cfg : Receiver) (r : RemoteWrite C) (made : Result (RemoteWrite C) × W)
      → IsMade r
      → ((r' : RemoteWrite C)
          → made.0 ≡ ok r'
          → (c : C) × (r'.client ≡ some c) × IsMadeFor cfg r'.current_server_ca_file c)
      → IsMade (enable env (some cfg) r made).1
  unfolding enable
  enable-IsMade cfg r (err e, w) before facts c used = before c used
  enable-IsMade cfg r (ok r', w) before facts c used =
      let (d, new, for_cfg) = facts r' refl in
      let (client, file) = start_routine_keeps env r' in
      let same : some d ≡ some c = sym new ∙ (sym client ∙ used) in
      (
        cfg,
        refl,
        subst (λ f. IsMadeFor cfg f c) (sym file)
            (subst (λ x. IsMadeFor cfg r'.current_server_ca_file x) (ap (client_or d) same)
              for_cfg),
      )
    where
      client_or : C → Option C → C
      client_or c none = c
      client_or c (some d) = d

  pub update-IsMade :
      (config : Option Receiver) (r : RemoteWrite C) (w : W)
      → IsMade r
      → IsMade (update env config r w).1
  unfolding update
  update-IsMade none r w before = elim (Bool-cases (same_config r.config none)) [
    | inl same ↦ rw same before
    | inr new ↦ rw new (λ c h. cc)
  ]
  update-IsMade (some cfg) r w before = elim (Bool-cases (same_config r.config (some cfg))) [
    | inl same ↦ rw same before
    | inr new ↦ elim (Bool-cases (cfg.url == "")) [
      | inl off ↦ rw (new, off) (λ c h. cc)
      | inr on ↦
          rw (new, on)
            (enable-IsMade cfg r (apply_config env cfg r w) before
              (λ r' h. apply_config-IsMadeFor cfg r r' w h))
    ]
  ]

  pub get_config-IsMade : (r : RemoteWrite C) → IsMade r → IsMade (get_config r).0
  get_config-IsMade r before c used =
      let (client, file, config) = get_config_keeps r in
      let (cfg, in_force, made) = before c (sym client ∙ used) in
      (cfg, config ∙ in_force, subst (λ f. IsMadeFor cfg f c) (sym file) made)
