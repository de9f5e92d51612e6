-- ===== src/Registration/Composed.antt =====
-- The registration with the certificates on disk: `Registration` of registration.go with its
-- `clientCert` of certs.go.
use k4e_device_worker.Prelude.{
  ◌≡◌, ◌≢◌, sym, ap, ◌∙◌, Bool, true, Option, none, some, String, ok, Err, Exec,
}
use k4e_device_worker.Registration.{Env, register_device_once}
use k4e_device_worker.Registration.Registered.{register_device_once_leaves}
use k4e_device_worker.Registration.Certificates.{
  ClientCert, CertificateGroup, Env as CertEnv, renew_certificate, write_certificate, import_group,
}
use k4e_device_worker.Registration.Certificates.Pair.{
  WritesFiles, group_of-texts, write_certificate-pair,
}

module _ {W C K : Type 0} (certs : CertEnv W C K) (device_id key_path cert_path : String) where
  -- The certificate in use, beside the world.
  abbrev pub Device : Type 0
  Device = CertificateGroup C K × W

  abbrev pub client_cert : CertificateGroup C K → ClientCert C K
  client_cert g = record { key_path = key_path; cert_path = cert_path; cert_group = some g }

  abbrev pub outside : {A : Type 0} → Exec W A → Exec Device A
  outside act (g, w) = let (r, w') = act w in (r, (g, w'))

  abbrev pub group_or : CertificateGroup C K → Option (CertificateGroup C K) → CertificateGroup C K
  group_or g none = g
  group_or g (some new) = new

  abbrev pub store_certificate : String → String → Device → Option Err × Device
  store_certificate cert key (g, w) =
      let (e, c, w') = write_certificate certs g cert key (client_cert g) w in
      (e, (group_or g c.cert_group, w'))

  -- The calls of a registration whose certificates are those of certs.go; `rest` has the others.
  abbrev pub with_certificates : {H : Type 0} → Env W H → Env Device H
  with_certificates rest = record {
    renew_certificate =
        λ (g, w). outside (renew_certificate certs device_id (client_cert g)) (g, w);
    hardware_information = outside rest.hardware_information;
    marshal = rest.marshal;
    dispatch = λ content. outside (rest.dispatch content);
    certificate_of = rest.certificate_of;
    write_certificate = store_certificate;
    is_initial_config = λ (g, w). rest.is_initial_config w;
    status_text = rest.status_text;
  }

  -- The certificate in use is the pair of texts in the two files.
  abbrev pub IsOnDisk : Device → Type 0
  IsOnDisk (g, w) =
      (certs.read_file cert_path w ≡ ok g.cert_pem) × (certs.read_file key_path w ≡ ok g.key_pem)

  stored-IsOnDisk :
      WritesFiles certs
      → key_path ≢ cert_path
      → (cert key : String) (d : Device) → (store_certificate cert key d).0 ≡ none
      → IsOnDisk (store_certificate cert key d).1
  stored-IsOnDisk laws apart cert key (g, w) h =
      let (cert_read, key_read, (new, made, group)) =
        write_certificate-pair certs laws (client_cert g) g cert key w apart h in
      let texts =
        group_of-texts certs laws cert key (certs.import_from_pem cert key) new
          (unfold import_group in made) in
      let used = ap (group_or g) group in
      (
        cert_read ∙ ap (λ t. ok t) (sym texts.0 ∙ sym (ap (λ x. x.cert_pem) used)),
        key_read ∙ ap (λ t. ok t) (sym texts.1 ∙ sym (ap (λ x. x.key_pem) used)),
      )

  -- A registration without an error leaves the device registered, and the certificate that it uses
  -- is the pair of texts in its two files, if these are two files and the file system keeps what it
  -- was told to write.
  pub register_device_once-IsOnDisk :
      {H : Type 0}
      → WritesFiles certs
      → key_path ≢ cert_path
      → (rest : Env W H) (registered : Bool) (d : Device)
      → (register_device_once (with_certificates rest) registered d).0 ≡ none
      → ((register_device_once (with_certificates rest) registered d).1 ≡ true)
        × IsOnDisk (register_device_once (with_certificates rest) registered d).2
  register_device_once-IsOnDisk {H} laws apart rest =
      register_device_once_leaves (with_certificates rest) (λ d. IsOnDisk d)
        (λ c k d h. stored-IsOnDisk laws apart c k d h)
