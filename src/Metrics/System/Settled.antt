-- ===== src/Metrics/System/Settled.antt =====
-- The target of the system and the configuration that was applied.
use mathlib.Core.Path.{subst}
use k4e_device_worker.Prelude.{
  List, [], ◌∷◌, eq_of_beq, int_beq_iff, ◌==◌, number_key, ◌≡◌, ℕ, refl, ap, true, false, not,
  Option, none, some, String, Map, get, put, has, text_key, integer_key, Err, arith, Bool-cases,
  inl, inr, get-put_same, has_of_get,
}
use k4e_device_worker.Metrics.Daemon.{
  TargetMetric, new_target_metric, MetricsDaemon, add_target, delete_target,
}
use k4e_device_worker.Metrics.Daemon.Entries.{delete_target_fields}
use k4e_device_worker.Metrics.Allowed.{new_restrictive_allow_list, default_system_allow_list}
use k4e_device_worker.Metrics.Database.{times}
use k4e_device_worker.Metrics.System.{
  SystemConfig, SystemMetrics, Env, expected_configuration, config_beq, texts_beq, list_beq,
  get_sample_filter, is_latest, set_target, exporter_ensured, ensure_node_exporter_state,
  update_system,
}

-- The target of the system is the node exporter, at the interval of the configuration in seconds,
-- with the metrics of its list, or with those of the default list if it has none.
abbrev pub IsTarget : SystemConfig → TargetMetric → Type 0
IsTarget c t =
    (t.urls ≡ "http://localhost:9100/metrics" ∷ [])
    × (t.interval ≡ times c.interval 1000000000)
    × (c.allow_list ≡ none → t.allow_list ≡ default_system_allow_list)
    × ((names : List String)
        → c.allow_list ≡ some names
        → t.allow_list ≡ new_restrictive_allow_list (some names))

-- The daemon has the target of the system exactly if the configuration does not disable it, and then
-- as the configuration wants it.
abbrev pub IsScraped : SystemConfig → MetricsDaemon → Type 0
IsScraped c d =
    (has d.targets "system" ≡ not c.disabled)
    × (c.disabled ≡ false
        → (i : ℕ) × (t : TargetMetric) × (get d.targets "system" ≡ some i)
          × (get d.objects i ≡ some t)
          × IsTarget c t)

abbrev pub IsSettled : SystemMetrics → Type 0
IsSettled s = (c : SystemConfig) → s.latest_config ≡ some c → IsScraped c s.daemon

texts_beq-eq : (xs ys : List String) → texts_beq xs ys ≡ true → xs ≡ ys
unfolding texts_beq
texts_beq-eq [] [] h = refl
texts_beq-eq [] (y ∷ ys) h = cc
texts_beq-eq (x ∷ xs) [] h = cc
texts_beq-eq (x ∷ xs) (y ∷ ys) h =
    let both : ((x == y) ≡ true) × (texts_beq xs ys ≡ true) = ground (arith, h) in
    cc (eq_of_beq x y both.0, texts_beq-eq xs ys both.1)

list_beq-eq : (a b : Option (List String)) → list_beq a b ≡ true → a ≡ b
unfolding list_beq
list_beq-eq none none h = refl
list_beq-eq none (some ys) h = cc
list_beq-eq (some xs) none h = cc
list_beq-eq (some xs) (some ys) h = cc (texts_beq-eq xs ys h)

config_beq-eq : (a b : SystemConfig) → config_beq a b ≡ true → a ≡ b
unfolding config_beq
config_beq-eq a b h =
    ground (arith, int_beq_iff a.interval b.interval, list_beq-eq a.allow_list b.allow_list)

abbrev config_or : SystemConfig → Option SystemConfig → SystemConfig
config_or c none = c
config_or c (some d) = d

has-none : (m : Map String ℕ) → get m "system" ≡ none → has m "system" ≡ false
unfolding has
has-none m h = ground arith

module _ {W : Type 0} (env : Env W) where
  set_target-has :
      (c : SystemConfig) (d : MetricsDaemon)
      → has (set_target env c d).targets "system" ≡ not c.disabled
  unfolding set_target add_target
  set_target-has c d = elim (Bool-cases c.disabled) [
    | inl off ↦
        rw off (has-none (delete_target "system" d).targets (delete_target_fields "system" d).0)
    | inr on ↦ rw on (
        has_of_get
          (put (delete_target "system" d).targets "system" (delete_target "system" d).next_object)
          "system" (delete_target "system" d).next_object
          (get-put_same (delete_target "system" d).targets "system"
            (delete_target "system" d).next_object))
  ]

  get_sample_filter_cases :
      (o : Option (List String))
      → (o ≡ none → get_sample_filter o ≡ default_system_allow_list)
        × ((names : List String)
            → o ≡ some names
            → get_sample_filter o ≡ new_restrictive_allow_list (some names))
  unfolding get_sample_filter
  get_sample_filter_cases none = ((λ h. refl), λ names h. cc)
  get_sample_filter_cases (some xs) = ((λ h. cc), λ names h. ap (λ o. get_sample_filter o) h)

  set_target-IsScraped : (c : SystemConfig) (d : MetricsDaemon) → IsScraped c (set_target env c d)
  unfolding set_target add_target
  set_target-IsScraped c d = (
    set_target-has c d,
    λ on.
        let left = delete_target "system" d in
        let (default, listed) = get_sample_filter_cases c.allow_list in
        rw on (
          left.next_object,
          new_target_metric "system" (times c.interval 1000000000)
              ("http://localhost:9100/metrics" ∷ []) (get_sample_filter c.allow_list),
          get-put_same left.targets "system" left.next_object,
          get-put_same left.objects left.next_object _,
          (refl, refl, default, listed),
        ),
  )

  abbrev Settles : SystemConfig → SystemMetrics → Option Err × SystemMetrics × W → Type 0
  Settles c s x =
      IsSettled x.1 × (x.0 ≡ none → IsScraped c x.1.daemon) × ((e : Err) → x.0 ≡ some e → x.1 ≡ s)

  exporter_ensured-Settles :
      (c : SystemConfig) (s : SystemMetrics) (x : Option Err × W)
      → IsSettled s
      → Settles c s (exporter_ensured env c s x)
  unfolding exporter_ensured
  exporter_ensured-Settles c s (some e, w) settled = (settled, (λ h. cc), λ e h. refl)
  exporter_ensured-Settles c s (none, w) settled = (
    (λ d h.
        subst (λ x. IsScraped x (set_target env c s.daemon)) (ap (config_or c) h)
          (set_target-IsScraped c s.daemon)),
    (λ h. set_target-IsScraped c s.daemon),
    λ e h. cc,
  )

  is_latest-eq : (c : SystemConfig) (o : Option SystemConfig) → is_latest c o ≡ true → o ≡ some c
  unfolding is_latest
  is_latest-eq c none h = cc
  is_latest-eq c (some old) h = cc (config_beq-eq c old h)

  -- If the daemon has the node exporter as a target as the configuration that was applied last wants
  -- it (not at all if this disables it, and else at its interval and with the metrics of its list, or
  -- of the default list), an update leaves it so, also where it fails; without an error it is as the
  -- configuration of the update wants it; with one, nothing of the state has changed, so that the
  -- same configuration is tried again.
  pub update_system-IsSettled :
      (config : Option SystemConfig) (s : SystemMetrics) (w : W)
      → IsSettled s
      → IsSettled (update_system env config s w).1
        × ((update_system env config s w).0 ≡ none
            → IsScraped (expected_configuration config) (update_system env config s w).1.daemon)
        × ((e : Err)
            → (update_system env config s w).0 ≡ some e
            → (update_system env config s w).1 ≡ s)
  unfolding update_system
  update_system-IsSettled config s w settled =
      let c = expected_configuration config in
      elim (Bool-cases (is_latest c s.latest_config)) [
        | inl same ↦
            rw same (settled, (λ h. settled c (is_latest-eq c s.latest_config same)), λ e h. refl)
        | inr changed ↦
            rw changed (exporter_ensured-Settles c s (ensure_node_exporter_state env c w) settled)
      ]
