-- ===== src/Registration/Certificates.antt =====
-- `ClientCert` of internal/registration/certs.go, and `renewCertificate` of registration.go: the
-- certificate of the device and its key, in two files. Cryptography and files are parameters.
pub mod Pair
use k4e_device_worker.Prelude.{
  Bool, true, false, Option, none, some, List, [], ◌∷◌, String, if◌then◌else◌, ◌==◌, text_key,
  Result, ok, err, Err, Exec, pure, raise, lift, ◌>>=◌, ◌>>◌, wrap_error, ◌⧺◌,
}

-- `mtls.CertificateGroup`: the two texts, and what was read from them.
pub record CertificateGroup (C K : Type 0) : Type 0 where
  pub cert_pem : String
  pub key_pem : String
  pub cert : Option C
  pub key : Option K

-- `ClientCert`: the group is nil before it was read.
pub record ClientCert (C K : Type 0) : Type 0 where
  pub key_path : String
  pub cert_path : String
  pub cert_group : Option (CertificateGroup C K)

-- `import_from_pem` is `ImportFromPem` of the two texts, and `create_request` makes the request for
-- a certificate with the common name it is given.
pub record Env (W C K : Type 0) : Type 0 where
  pub read_file : String → W → Result String
  pub write_file : String → String → W → Option Err × W
  pub import_from_pem : String → String → Result (Option C × Option K)
  pub common_name : C → String
  pub get_new_key : Exec W K
  pub create_request : String → K → Exec W String
  pub marshal_key : K → Result String

-- mtls.CertRegisterCN
abbrev pub cert_register_cn : String
cert_register_cn = "register"

module _ {W C K : Type 0} (env : Env W C K) where
  abbrev pub group_of :
      String → String → Result (Option C × Option K) → Result (CertificateGroup C K)
  group_of cert key (err e) = err e
  group_of cert key (ok (c, k)) = ok (record { cert_pem = cert; key_pem = key; cert = c; key = k })

  unfoldable pub import_group : String → String → Result (CertificateGroup C K)
  import_group cert key = group_of cert key (env.import_from_pem cert key)

  abbrev pub reading : String → Exec W String
  reading path w = (env.read_file path w, w)

  -- `NewClientCert` with `init`
  unfoldable pub new_client_cert : String → String → Exec W (ClientCert C K)
  unfolding import_group
  new_client_cert cert_path key_path = do
    cert ← reading cert_path
    key ← reading key_path
    group ← lift (import_group cert key)
    pure (record { key_path = key_path; cert_path = cert_path; cert_group = some group })

  -- `CreateClientCerts`, with the files that the dispatcher names
  unfoldable pub create_client_certs : Exec W (String × String) → Exec W (ClientCert C K)
  unfolding new_client_cert
  create_client_certs get_config = do paths ← get_config; new_client_cert paths.0 paths.1

  subject_is_register : Option C → Result Bool
  subject_is_register none = err "No valid cert"
  subject_is_register (some c) = ok (env.common_name c == cert_register_cn)

  is_register_of : Option (CertificateGroup C K) → Result Bool
  unfolding subject_is_register
  is_register_of none = err "Certificates are not imported"
  is_register_of (some g) = subject_is_register g.cert

  unfoldable pub is_register_cert : ClientCert C K → Result Bool
  unfolding is_register_of
  is_register_cert c = is_register_of c.cert_group

  -- The request for a certificate, and the key
  unfoldable pub renew : String → K → Exec W (String × String)
  renew device_id key = do
    request ← env.create_request device_id key
    key_pem ← wrap_error (λ e. "cannot encode new key: " ⧺ e) (lift (env.marshal_key key))
    pure (request, key_pem)

  unfoldable pub create_device_certs : String → Exec W (String × String)
  unfolding renew
  create_device_certs device_id = do key ← env.get_new_key; renew device_id key

  current_key : Option (CertificateGroup C K) → Option K
  current_key none = none
  current_key (some g) = g.key

  renew_current : String → Option K → Exec W (String × String)
  unfolding renew
  renew_current device_id none = raise "cannot retrieve current key"
  renew_current device_id (some key) = renew device_id key

  -- `renewCertificate`, with the results in the order key, request
  unfoldable pub renew_certificate : String → ClientCert C K → Exec W (String × String)
  unfolding is_register_cert create_device_certs renew_current current_key
  renew_certificate device_id c = do
    is_register ← lift (is_register_cert c)
    made ←
        (if is_register
          then wrap_error (λ e. "cannot create device certs: " ⧺ e) (create_device_certs device_id)
          else renew_current device_id (current_key c.cert_group))
    pure (made.1, made.0)

  -- "Write the cert back because cannot write the new key": an error of that is only logged.
  unfoldable pub key_written :
      ClientCert C K
      → CertificateGroup C K
      → CertificateGroup C K
      → Option Err × W
      → Option Err × ClientCert C K × W
  key_written c old new (none, w) = (none, record c { cert_group = some new }, w)
  key_written c old new (some e, w) =
      let (e', w') = env.write_file c.cert_path old.cert_pem w in (some e, c, w')

  unfoldable pub cert_written :
      ClientCert C K
      → CertificateGroup C K
      → CertificateGroup C K
      → Option Err × W
      → Option Err × ClientCert C K × W
  unfolding key_written
  cert_written c old new (some e, w) = (some e, c, w)
  cert_written c old new (none, w) = key_written c old new (env.write_file c.key_path new.key_pem w)

  unfoldable pub write_imported :
      ClientCert C K
      → CertificateGroup C K
      → Result (CertificateGroup C K)
      → W
      → Option Err × ClientCert C K × W
  unfolding cert_written
  write_imported c old (err e) w = (some ("failing on importing certificate: " ⧺ e), c, w)
  write_imported c old (ok new) w =
      cert_written c old new (env.write_file c.cert_path new.cert_pem w)

  -- `WriteCertificate`, for a `ClientCert` whose group is `old`
  unfoldable pub write_certificate :
      CertificateGroup C K → String → String → ClientCert C K → W → Option Err × ClientCert C K × W
  unfolding import_group write_imported
  write_certificate old cert key c w = write_imported c old (import_group cert key) w
