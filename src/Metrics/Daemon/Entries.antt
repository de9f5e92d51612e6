-- ===== src/Metrics/Daemon/Entries.antt =====
-- What the maps of the daemon have after an entry was put, removed or cancelled.
use k4e_device_worker.Prelude.{
  ◌≡◌, ◌≢◌, refl, sym, ap, ◌∙◌, ℕ, suc, ◌<◌, false, Option, none, some, String, Map, get, put,
  remove, if◌then◌else◌, ◌==◌, text_key, number_key, arith, get-put, get-remove, Bool-cases, inl,
  inr, eq_of_beq, beq_refl, beq_ne,
}
use k4e_device_worker.Metrics.Daemon.{
  TargetMetric, MetricsDaemon, stop_object, stop_target, delete_found, delete_target, cancel_loop,
}

abbrev pub number_or : ℕ → Option ℕ → ℕ
number_or n none = n
number_or n (some m) = m

pub not_equal : (b c : ℕ) → (b == c) ≡ false → ◌≢◌ {A = Option ℕ} (some b) (some c)
not_equal b c other bad = ground (arith, other, ap (number_or 0) bad)

-- a loop that is left when one is cancelled is another one
pub left_by_cancel :
    (o : Option ℕ) (loops : Map ℕ ℕ) (c i : ℕ)
    → get (cancel_loop o loops) c ≡ some i
    → (get loops c ≡ some i) × (o ≢ some c)
left_by_cancel none loops c i h = (h, λ bad. cc)
left_by_cancel (some b) loops c i h = elim (Bool-cases (b == c)) [
  | inl same ↦
      (let bad = sym h ∙ (get-remove loops b c ∙ ap (λ x. if x then none else get loops c) same) in
        cc)
  | inr other ↦ (
    sym (get-remove loops b c ∙ ap (λ x. if x then none else get loops c) other) ∙ h,
    λ bad. not_equal b c other bad,
  )
]

abbrev pub daemon_or : MetricsDaemon → Option MetricsDaemon → MetricsDaemon
daemon_or d none = d
daemon_or d (some v) = v

abbrev pub cancel_of : TargetMetric → Option TargetMetric → Option ℕ
cancel_of t none = t.cancel
cancel_of t (some u) = u.cancel

pub kept_target :
    (targets : Map String ℕ) (name other : String) (j : ℕ)
    → get (remove targets name) other ≡ some j
    → get targets other ≡ some j
kept_target targets name other j h = elim (Bool-cases (name == other)) [
  | inl same ↦
      (let bad =
          sym h
          ∙ (get-remove targets name other
              ∙ ap (λ x. if x then none else get targets other) same) in
        cc)
  | inr different ↦
      sym
        (get-remove targets name other ∙ ap (λ x. if x then none else get targets other) different)
      ∙ h
]

pub other_objects :
    (objects : Map ℕ TargetMetric) (i j : ℕ) (t u : TargetMetric)
    → i ≢ j
    → get objects j ≡ some u
    → get (put objects i t) j ≡ some u
other_objects objects i j t u apart h =
    get-put objects i j t ∙ (ap (λ x. if x then some t else get objects j) (beq_ne i j apart) ∙ h)

pub other_targets :
    (targets : Map String ℕ) (name other : String) (i j : ℕ)
    → get targets name ≡ some i
    → get targets other ≡ some j
    → i ≢ j
    → get (remove targets name) other ≡ some j
other_targets targets name other i j here there apart = elim (Bool-cases (name == other)) [
  | inl same ↦
      absurd (
        apart
          (ap (number_or 0) (sym here ∙ (ap (get targets) (eq_of_beq name other same) ∙ there))))
  | inr different ↦
      get-remove targets name other
      ∙ (ap (λ x. if x then none else get targets other) different ∙ there)
]

pub stop_object_fields :
    (i : ℕ) (o : Option TargetMetric) (d : MetricsDaemon)
    → ((stop_object i o d).targets ≡ d.targets)
      × ((stop_object i o d).next_object ≡ d.next_object)
      × ((stop_object i o d).next_context ≡ d.next_context)
      × ((stop_object i o d).waiting ≡ d.waiting)
stop_object_fields i none d = (refl, refl, refl, refl)
stop_object_fields i (some t) d = (refl, refl, refl, refl)

-- What a deletion leaves, besides the loops.
pub delete_found_fields :
    (name : String) (o : Option ℕ) (d : MetricsDaemon)
    → get d.targets name ≡ o
    → (get (delete_found name o d).targets name ≡ none)
      × ((delete_found name o d).next_object ≡ d.next_object)
      × ((delete_found name o d).next_context ≡ d.next_context)
      × ((delete_found name o d).waiting ≡ d.waiting)
unfolding stop_target
delete_found_fields name none d found = (found, refl, refl, refl)
delete_found_fields name (some i) d found =
    let (targets, objects, contexts, waiting) =
      stop_object_fields i (get d.objects i) (record d { targets = remove d.targets name }) in
    (
      ap (λ m. get m name) targets
          ∙ (get-remove d.targets name name
              ∙ ap (λ x. if x then none else get d.targets name) (beq_refl name)),
      objects,
      contexts,
      waiting,
    )

pub delete_target_fields :
    (name : String) (d : MetricsDaemon)
    → (get (delete_target name d).targets name ≡ none)
      × ((delete_target name d).next_object ≡ d.next_object)
      × ((delete_target name d).next_context ≡ d.next_context)
      × ((delete_target name d).waiting ≡ d.waiting)
unfolding delete_target
delete_target_fields name d = delete_found_fields name (get d.targets name) d refl

pub added_target :
    (targets : Map String ℕ) (name other : String) (n j : ℕ)
    → get targets name ≡ none
    → get targets other ≡ some j
    → get (put targets name n) other ≡ some j
added_target targets name other n j fresh there = elim (Bool-cases (name == other)) [
  | inl same ↦ (let bad = sym fresh ∙ (ap (get targets) (eq_of_beq name other same) ∙ there) in cc)
  | inr different ↦
      get-put targets name other n
      ∙ (ap (λ x. if x then some n else get targets other) different ∙ there)
]

pub target_below :
    (targets : Map String ℕ) (name other : String) (n j : ℕ)
    → (get targets other ≡ some j → j < n)
    → get (put targets name n) other ≡ some j
    → j < suc n
target_below targets name other n j below there = elim (Bool-cases (name == other)) [
  | inl same ↦
      let at = ap (number_or 0) (
        sym there
        ∙ (get-put targets name other n
            ∙ ap (λ x. if x then some n else get targets other) same)) in
      omega (arith, at)
  | inr different ↦
      let old = below (
        sym (
          get-put targets name other n
          ∙ ap (λ x. if x then some n else get targets other) different)
        ∙ there) in
      omega (arith, old)
]
