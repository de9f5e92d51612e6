-- ===== src/Workload/Wrapper/Network.antt =====
-- The commands of `nft` that open the ports of a pod.
use k4e_device_worker.Prelude.{
  ◌≡◌, refl, Option, some, List, [], ◌∷◌, String, Result, ok, err, Err, Exec, continue, pure, ◌⧺◌,
  ℤ, ◌>>◌, wrap_error, if◌then◌else◌, Bool-cases, inl, inr,
}
use k4e_device_worker.Workload.Netfilter.{NftError, add_chain, add_rule, run_result}
use k4e_device_worker.Workload.Wrapper.{
  Pod, Wrapper, Env, State, rule, add_rules, open_ports, apply_network_configuration,
}
use k4e_device_worker.Workload.Wrapper.Ports.{all_legal, every_port, get_host_ports-eq}

-- A command, with what its error is put into.
abbrev Command : Type 0
Command = (Err → Err) × List String

-- A list of commands, each run if the ones before it went well.
unfoldable run_each :
    {W : Type 0} → (List String → W → Option NftError × W) → List Command → Exec W (Unit {0})
unfolding run_result
run_each nft [] = pure tt
run_each nft ((wrap, c) ∷ rest) =
    wrap_error wrap (λ w. run_result nft (nft c w)) >> run_each nft rest

abbrev rule_of : (ℤ → String) → ℤ → String
rule_of format p = "tcp dport " ⧺ (format p ⧺ " ct state new,established counter accept")

-- One rule of each port, after the chain of the pod.
abbrev port_rules : (ℤ → String) → String → List ℤ → List Command
port_rules format name [] = []
port_rules format name (p ∷ rest) =
    (
      (λ e. "failed to add rule " ⧺ (rule_of format p ⧺ (" for workload " ⧺ (name ⧺ (": " ⧺ e))))),
      "add" ∷ "rule" ∷ "inet" ∷ "edge" ∷ name ∷ rule_of format p ∷ [],
    )
    ∷ port_rules format name rest

abbrev pub port_commands : (ℤ → String) → String → List ℤ → List Command
port_commands format name [] = []
port_commands format name (p ∷ rest) =
    (
      (λ e. "failed to create chain for workload " ⧺ (name ⧺ (": " ⧺ e))),
      "add" ∷ "chain" ∷ "inet" ∷ "edge" ∷ name ∷ "{ type filter hook input priority 0 ; }" ∷ [],
    )
    ∷ port_rules format name (p ∷ rest)

module _ {W S : Type 0} (env : Env W S) where
  -- A step on the world, and the wrapper beside it as it was.
  abbrev beside : Wrapper S → Result (Unit {0}) × W → Result (Unit {0}) × State env
  beside s x = (x.0, (s, x.1))

  step_beside :
      (s : Wrapper S) (f : Unit {0} → Exec (State env) (Unit {0}))
      (g : Unit {0} → Exec W (Unit {0}))
      → ((a : Unit {0}) (w : W) → f a (s, w) ≡ beside s (g a w))
      → (x : Result (Unit {0}) × W) → continue x.0 (s, x.1) f ≡ beside s (continue x.0 x.1 g)
  step_beside s f g same (ok a, w) = same a w
  step_beside s f g same (err c, w) = refl

  add_rules-eq :
      (name : String) (ps : List ℤ) (s : Wrapper S) (w : W)
      → add_rules env name ps (s, w)
        ≡ beside s (run_each env.nft (port_rules env.format_port name ps) w)
  unfolding add_rules run_each add_rule
  add_rules-eq name [] s w = refl
  add_rules-eq name (p ∷ rest) s w =
      step_beside s (λ _. add_rules env name rest)
        (λ _. run_each env.nft (port_rules env.format_port name rest))
        (λ _. add_rules-eq name rest s)
        (wrap_error
          (λ e. "failed to add rule " ⧺ (rule env p ⧺ (" for workload " ⧺ (name ⧺ (": " ⧺ e)))))
          (add_rule env.nft "edge" name (rule env p)) w)

  -- What opening the ports of a pod should do: refuse a pod with an illegal port, and run the
  -- commands for the ports of all its containers otherwise.
  unfoldable pub open_all : Pod → Exec (State env) (Unit {0})
  unfolding run_each
  open_all pod (s, w) =
      if all_legal (every_port pod.containers)
      then beside s
          (run_each env.nft (port_commands env.format_port pod.name (every_port pod.containers)) w)
      else (err "illegal host port number", (s, w))

  open_ports-eq :
      (pod : Pod) (ps : List ℤ) (s : Wrapper S) (w : W)
      → open_ports env pod (some ps) (s, w)
        ≡ beside s (run_each env.nft (port_commands env.format_port pod.name ps) w)
  unfolding open_ports run_each add_chain
  open_ports-eq pod [] s w = refl
  open_ports-eq pod (p ∷ rest) s w =
      step_beside s (λ _. add_rules env pod.name (p ∷ rest))
        (λ _. run_each env.nft (port_rules env.format_port pod.name (p ∷ rest)))
        (λ _. add_rules-eq pod.name (p ∷ rest) s)
        (wrap_error (λ e. "failed to create chain for workload " ⧺ (pod.name ⧺ (": " ⧺ e)))
          (add_chain env.nft "edge" pod.name) w)

  -- The network configuration of a pod: if a host port is not between 1 and 65535, an error
  -- before any command is run; otherwise a chain and one rule for each host port of each
  -- container, in order, up to the first command that fails, and no command at all without ports.
  pub apply_network_configuration-open_all :
      (pod : Pod) (st : State env) → apply_network_configuration env pod st ≡ open_all pod st
  unfolding apply_network_configuration open_ports open_all
  apply_network_configuration-open_all pod (s, w) =
      elim (Bool-cases (all_legal (every_port pod.containers))) [
        | inl good ↦
            rw (get_host_ports-eq pod, good) (open_ports-eq pod (every_port pod.containers) s w)
        | inr bad ↦ rw (get_host_ports-eq pod, bad)
      ]
