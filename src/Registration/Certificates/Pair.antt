-- ===== src/Registration/Certificates/Pair.antt =====
-- What the two files hold after a certificate was written.
use k4e_device_worker.Prelude.{
  ◌≡◌, ◌≢◌, refl, sym, ap, ◌∙◌, Option, none, some, String, Result, ok, err, Err,
}
use k4e_device_worker.Registration.Certificates.{
  ClientCert, CertificateGroup, Env, import_group, group_of, key_written, cert_written,
  write_imported, write_certificate,
}

-- What a file system documents of writing: a file that was written without an error holds the text,
-- and other files stay as they are. A failed write may leave anything in its file.
pub record WritesFiles {W C K : Type 0} (env : Env W C K) : Type 0 where
  pub written :
      (p t : String) (w : W)
      → (env.write_file p t w).0 ≡ none
      → env.read_file p (env.write_file p t w).1 ≡ ok t
  pub others :
      (p q t : String) (w : W)
      → p ≢ q
      → env.read_file q (env.write_file p t w).1 ≡ env.read_file q w

module _ {W C K : Type 0} (env : Env W C K) (laws : WritesFiles env) where
  -- Both files hold the group.
  abbrev pub HoldsPair : ClientCert C K → CertificateGroup C K → W → Type 0
  HoldsPair c g w =
      (env.read_file c.cert_path w ≡ ok g.cert_pem) × (env.read_file c.key_path w ≡ ok g.key_pem)

  key_written-pair :
      (c : ClientCert C K) (old new : CertificateGroup C K) (x : Option Err × W)
      → (key_written env c old new x).0 ≡ none
      → (x.0 ≡ none)
        × ((key_written env c old new x).1.cert_group ≡ some new)
        × ((key_written env c old new x).2 ≡ x.1)
  unfolding key_written
  key_written-pair c old new (none, w) h = (refl, refl, refl)
  key_written-pair c old new (some e, w) h = cc

  cert_written-pair :
      (c : ClientCert C K) (old new : CertificateGroup C K) (x : Option Err × W)
      → c.key_path ≢ c.cert_path
      → (cert_written env c old new x).0 ≡ none
      → (x.0 ≡ none → env.read_file c.cert_path x.1 ≡ ok new.cert_pem)
      → ((cert_written env c old new x).1.cert_group ≡ some new)
        × HoldsPair c new (cert_written env c old new x).2
  unfolding cert_written
  cert_written-pair c old new (some e, w) apart h certs = cc
  cert_written-pair c old new (none, w) apart h certs =
      let y = env.write_file c.key_path new.key_pem w in
      let (wrote, group, world) = key_written-pair c old new y h in
      (
        group,
        (
          ap (env.read_file c.cert_path) world
              ∙ (laws.others c.key_path c.cert_path new.key_pem w apart ∙ certs refl),
          ap (env.read_file c.key_path) world ∙ laws.written c.key_path new.key_pem w wrote,
        ),
      )

  abbrev cert_of : Result (CertificateGroup C K) → String
  cert_of (err e) = ""
  cert_of (ok g) = g.cert_pem

  abbrev key_of : Result (CertificateGroup C K) → String
  key_of (err e) = ""
  key_of (ok g) = g.key_pem

  pub group_of-texts :
      (cert key : String) (x : Result (Option C × Option K)) (new : CertificateGroup C K)
      → group_of env cert key x ≡ ok new
      → (new.cert_pem ≡ cert) × (new.key_pem ≡ key)
  group_of-texts cert key (err e) new h = cc
  group_of-texts cert key (ok (a, b)) new h = (sym (ap cert_of h), sym (ap key_of h))

  write_imported-pair :
      (c : ClientCert C K) (old : CertificateGroup C K) (r : Result (CertificateGroup C K)) (w : W)
      → c.key_path ≢ c.cert_path
      → (write_imported env c old r w).0 ≡ none
      → (new : CertificateGroup C K) × (r ≡ ok new)
        × ((write_imported env c old r w).1.cert_group ≡ some new)
        × HoldsPair c new (write_imported env c old r w).2
  unfolding write_imported
  write_imported-pair c old (err e) w apart h = cc
  write_imported-pair c old (ok new) w apart h =
      let (group, pair) =
        cert_written-pair c old new (env.write_file c.cert_path new.cert_pem w) apart h
          (laws.written c.cert_path new.cert_pem w) in
      (new, refl, group, pair)

  -- A certificate that was written without an error is in one file and its key in the other, and
  -- both are what the device uses from then on, if the files are two and the file system keeps what
  -- it was told to write.
  pub write_certificate-pair :
      (c : ClientCert C K) (old : CertificateGroup C K) (cert key : String) (w : W)
      → c.key_path ≢ c.cert_path
      → (write_certificate env old cert key c w).0 ≡ none
      → (env.read_file c.cert_path (write_certificate env old cert key c w).2 ≡ ok cert)
        × (env.read_file c.key_path (write_certificate env old cert key c w).2 ≡ ok key)
        × ((new : CertificateGroup C K) × (import_group env cert key ≡ ok new)
            × ((write_certificate env old cert key c w).1.cert_group ≡ some new))
  unfolding write_certificate import_group
  write_certificate-pair c old cert key w apart h =
      let (new, made, group, (certs, keys)) =
        write_imported-pair c old (import_group env cert key) w apart h in
      let texts = group_of-texts cert key (env.import_from_pem cert key) new made in
      (certs ∙ ap (λ t. ok t) texts.0, keys ∙ ap (λ t. ok t) texts.1, (new, made, group))

  cert_of_failed :
      (c : ClientCert C K) (old new : CertificateGroup C K) (x : Option Err × W) (e : Err)
      → x.0 ≡ some e
      → (env.write_file c.cert_path old.cert_pem x.1).0 ≡ none
      → ((key_written env c old new x).0 ≡ some e)
        × ((key_written env c old new x).1 ≡ c)
        × (env.read_file c.cert_path (key_written env c old new x).2 ≡ ok old.cert_pem)
  unfolding key_written
  cert_of_failed c old new (none, w) e h back = cc
  cert_of_failed c old new (some d, w) e h back =
      (h, refl, laws.written c.cert_path old.cert_pem w back)

  cert_failed :
      (c : ClientCert C K) (old new : CertificateGroup C K) (x : Option Err × W) (e : Err)
      → x.0 ≡ none
      → (env.write_file c.key_path new.key_pem x.1).0 ≡ some e
      → (env.write_file c.cert_path old.cert_pem (env.write_file c.key_path new.key_pem x.1).1).0
        ≡ none
      → ((cert_written env c old new x).0 ≡ some e)
        × ((cert_written env c old new x).1 ≡ c)
        × (env.read_file c.cert_path (cert_written env c old new x).2 ≡ ok old.cert_pem)
  unfolding cert_written
  cert_failed c old new (some d, w) e h keys back = cc
  cert_failed c old new (none, w) e h keys back =
      cert_of_failed c old new (env.write_file c.key_path new.key_pem w) e keys back

  -- Where the new certificate could be read and was written, its key cannot be written, and the
  -- certificate of before is written again without an error (which is only logged), in a file system
  -- that reads what was written: the error of the key is reported, what the
  -- device uses is unchanged, and the file of the certificate holds the old one again.
  -- Nothing is said of the file of the key, which the failed write may have emptied.
  pub write_certificate_undone :
      (c : ClientCert C K) (old new : CertificateGroup C K) (cert key : String) (w : W) (e : Err)
      → import_group env cert key ≡ ok new
      → (env.write_file c.cert_path new.cert_pem w).0 ≡ none
      → (env.write_file c.key_path new.key_pem (env.write_file c.cert_path new.cert_pem w).1).0
        ≡ some e
      → (env.write_file c.cert_path old.cert_pem
          (env.write_file c.key_path new.key_pem (env.write_file c.cert_path new.cert_pem w).1).1).0
        ≡ none
      → ((write_certificate env old cert key c w).0 ≡ some e)
        × ((write_certificate env old cert key c w).1 ≡ c)
        × (env.read_file c.cert_path (write_certificate env old cert key c w).2 ≡ ok old.cert_pem)
  unfolding write_certificate write_imported
  write_certificate_undone c old new cert key w e made certs keys back =
      rw made (cert_failed c old new (env.write_file c.cert_path new.cert_pem w) e certs keys back)
