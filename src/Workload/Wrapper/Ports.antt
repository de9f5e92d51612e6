-- ===== src/Workload/Wrapper/Ports.antt =====
-- Which ports of a pod are opened.
use k4e_device_worker.Prelude.{
  ◌≡◌, refl, Bool, true, ◌&&◌, none, some, List, [], ◌∷◌, ◌++◌, if◌then◌else◌, ℤ, pos, negsuc, leb,
  false, arith, append_assoc, append-nil, Bool-cases, inl, inr,
}
use k4e_device_worker.Workload.Wrapper.{
  Container, Pod, is_legal_port, container_ports, all_ports, next_container, get_host_ports,
}

abbrev pub every_port : List Container → List ℤ
every_port [] = []
every_port (c ∷ rest) = c.host_ports ++ every_port rest

-- The ports of TCP, by their bounds
abbrev pub is_port : ℤ → Bool
is_port (pos n) = leb 1 n && leb n 65535
is_port (negsuc n) = false

is_legal_port-is_port : (p : ℤ) → is_legal_port p ≡ is_port p
is_legal_port-is_port (pos n) = ground arith
is_legal_port-is_port (negsuc n) = ground arith

abbrev pub all_legal : List ℤ → Bool
all_legal [] = true
all_legal (p ∷ rest) = is_port p && all_legal rest

all_legal-append : (xs ys : List ℤ) → all_legal (xs ++ ys) ≡ (all_legal xs && all_legal ys)
all_legal-append [] ys = refl
all_legal-append (x ∷ xs) ys = ground (arith, all_legal-append xs ys)

container_ports-eq :
    (ps seen : List ℤ)
    → container_ports ps seen ≡ (if all_legal ps then some (seen ++ ps) else none)
unfolding container_ports
container_ports-eq [] seen = rw append-nil
container_ports-eq (p ∷ rest) seen =
    rw (container_ports-eq rest (seen ++ p ∷ []), append_assoc, is_legal_port-is_port p)
      (ground arith)

all_ports-eq :
    (cs : List Container) (seen : List ℤ)
    → all_ports cs seen ≡ (if all_legal (every_port cs) then some (seen ++ every_port cs) else none)
unfolding all_ports next_container
all_ports-eq [] seen = rw append-nil
all_ports-eq (c ∷ rest) seen = elim (Bool-cases (all_legal c.host_ports)) [
  | inl good ↦
      rw (container_ports-eq c.host_ports seen, good, all_legal-append, good)
        (rw (all_ports-eq rest (seen ++ c.host_ports), append_assoc))
  | inr bad ↦ rw (container_ports-eq c.host_ports seen, bad, all_legal-append, bad)
]

-- The ports of all containers, in order, if every one lies between 1 and 65535, and an error
-- otherwise.
pub get_host_ports-eq :
    (pod : Pod)
    → get_host_ports pod
      ≡ (if all_legal (every_port pod.containers) then some (every_port pod.containers) else none)
unfolding get_host_ports
get_host_ports-eq pod = all_ports-eq pod.containers []
