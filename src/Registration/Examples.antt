-- ===== src/Registration/Examples.antt =====
-- Tests of the registration (internal/registration), and its theorems at inputs.
use k4e_device_worker.Prelude.{
  ◌≡◌, refl, true, false, none, some, List, [], ◌∷◌, String, ok, text_key, ap, beq_refl, Option,
  Result, err, Map, get, put, get-put, if◌then◌else◌, ◌==◌, arith, ◌≢◌, Bool-cases, inl, inr,
}
use k4e_device_worker.Registration.{
  Deregistrable, Env, register_device_once, exchange, read_response, set_registered,
}
use k4e_device_worker.Registration.Certificates.{
  ClientCert, CertificateGroup, Env as CertEnv, renew_certificate, create_device_certs, renew,
  is_register_cert, write_certificate, write_imported, import_group, cert_written, key_written,
}
use k4e_device_worker.Registration.Certificates.Pair.{WritesFiles, write_certificate_undone}
use k4e_device_worker.Registration.Composed.{
  with_certificates, IsOnDisk, register_device_once-IsOnDisk,
}

-- An operator that sends a certificate, and a disk that keeps it.
abbrev operator : Env (List String) String
operator = record {
  renew_certificate = λ w. (ok ("key", "request"), w);
  hardware_information = λ w. (ok "cpu", w);
  marshal = λ h request. ok request;
  dispatch = λ content w. (ok (record { status_code = 200; body = "signed" }), w);
  certificate_of = λ body. ok body;
  write_certificate = λ c k w. (none, c ∷ w);
  is_initial_config = λ w. false;
  status_text = λ n. "200";
}

registers : register_device_once operator false [] ≡ (none, true, "signed" ∷ [])
unfolding register_device_once exchange read_response set_registered
registers = refl

abbrev stuck : Deregistrable (List String)
stuck = record { name = "workload manager"; deregister = λ w. (some "busy", "workloads" ∷ w) }

abbrev monitor : Deregistrable (List String)
monitor = record { name = "data transfer"; deregister = λ w. (none, "data" ∷ w) }

-- A disk that keeps every text, and keys and certificates that are their texts.
abbrev found : Option String → Result String
found none = err "no such file"
found (some t) = ok t

abbrev disk : CertEnv (Map String String) String String
disk = record {
  read_file = λ p w. found (get w p);
  write_file = λ p t w. (none, put w p t);
  import_from_pem = λ cert key. ok (some cert, some key);
  common_name = λ c. c;
  get_new_key = λ w. (ok "new key", w);
  create_request = λ name key w. (ok "request", w);
  marshal_key = λ k. ok k;
}

found-written : (p t : String) (w : Map String String) → found (get (put w p t) p) ≡ ok t
found-written p t w = rw (get-put w p p t, beq_refl p) refl

found-others :
    (p q t : String) (w : Map String String) → p ≢ q → found (get (put w p t) q) ≡ found (get w q)
found-others p q t w apart =
    ap found (ground (arith, get-put w p q t, text_key.same_iff p q, apart))

disk_laws : WritesFiles disk
disk_laws = record { written = λ p t w h. found-written p t w; others = found-others }

abbrev registering : CertificateGroup String String
registering = record {
  cert_pem = "register";
  key_pem = "key";
  cert = some "register";
  key = some "key";
}

abbrev controller : Env (Map String String) String
controller = record {
  renew_certificate = λ w. (ok ("", ""), w);
  hardware_information = λ w. (ok "cpu", w);
  marshal = λ h request. ok request;
  dispatch = λ content w. (ok (record { status_code = 200; body = "signed" }), w);
  certificate_of = λ body. ok body;
  write_certificate = λ c k w. (none, w);
  is_initial_config = λ w. false;
  status_text = λ n. "200";
}

abbrev signed : Env (CertificateGroup String String × Map String String) String
signed = with_certificates disk "device" "key.pem" "cert.pem" controller

signs : (register_device_once signed false (registering, [])).0 ≡ none
unfolding register_device_once exchange read_response set_registered renew_certificate
    create_device_certs renew is_register_cert write_certificate write_imported import_group
    cert_written key_written
signs = refl

register_device_once-IsOnDisk_example :
    ((register_device_once signed false (registering, [])).1 ≡ true)
    × IsOnDisk disk "device" "key.pem" "cert.pem"
        (register_device_once signed false (registering, [])).2
register_device_once-IsOnDisk_example =
    register_device_once-IsOnDisk disk "device" "key.pem" "cert.pem" disk_laws
      (ground (arith, text_key.same_iff "key.pem" "cert.pem")) controller false (registering, [])
      signs

-- A disk on which the file of the key cannot be written.
abbrev full_disk : CertEnv (Map String String) String String
full_disk = record disk {
  write_file = λ p t w. if p == "key.pem" then (some "no space", put w p "") else (none, put w p t);
}

full_disk_written :
    (p t : String) (w : Map String String)
    → (full_disk.write_file p t w).0 ≡ none
    → full_disk.read_file p (full_disk.write_file p t w).1 ≡ ok t
full_disk_written p t w h = elim (Bool-cases (p == "key.pem")) [
  | inl key ↦ (let bad = rw key at h in cc)
  | inr other ↦ rw other (found-written p t w)
]

full_disk_others :
    (p q t : String) (w : Map String String)
    → p ≢ q
    → full_disk.read_file q (full_disk.write_file p t w).1 ≡ full_disk.read_file q w
full_disk_others p q t w apart = elim (Bool-cases (p == "key.pem")) [
  | inl key ↦ rw key (found-others p q "" w apart)
  | inr other ↦ rw other (found-others p q t w apart)
]

full_disk_laws : WritesFiles full_disk
full_disk_laws = record { written = full_disk_written; others = full_disk_others }

abbrev renewed : CertificateGroup String String
renewed = record {
  cert_pem = "signed";
  key_pem = "new key";
  cert = some "signed";
  key = some "new key";
}

abbrev pair : ClientCert String String
pair = record { key_path = "key.pem"; cert_path = "cert.pem"; cert_group = some registering }

write_certificate_undone_example :
    ((write_certificate full_disk registering "signed" "new key" pair []).0 ≡ some "no space")
    × ((write_certificate full_disk registering "signed" "new key" pair []).1 ≡ pair)
    × (found (get (write_certificate full_disk registering "signed" "new key" pair []).2 "cert.pem")
        ≡ ok "register")
unfolding import_group
write_certificate_undone_example =
    write_certificate_undone full_disk full_disk_laws pair registering renewed "signed" "new key" []
      "no space" refl refl refl refl
