-- ===== src/Metrics/Daemon/Lost.antt =====
-- A loop that no target of the daemon owns.
use mathlib.Core.Path.{subst}
use k4e_device_worker.Prelude.{
  ◌≡◌, ◌≢◌, refl, sym, ap, ◌∙◌, ℕ, none, some, List, [], ◌∷◌, ◌++◌, String, get, put, remove,
  if◌then◌else◌, ◌==◌, text_key, number_key, ℤ, arith, get-put, get-put_same, get-remove,
  Bool-cases, inl, inr, beq_refl,
}
use k4e_device_worker.Metrics.Allowed.{SampleFilter}
use k4e_device_worker.Metrics.Daemon.{
  TargetMetric, MetricsDaemon, stop_object, stop_target, delete_found, delete_target, put_target,
  add_target, new_target_metric, begin_object, begin_waiting, begin_target, take_out, cancel_loop,
}
use k4e_device_worker.Metrics.Daemon.Entries.{kept_target, delete_target_fields}
use k4e_device_worker.Metrics.Daemon.Tracked.{IsTracked, Belongs, delete_target-IsTracked}

-- The last goroutine of a list is in it.
take_out_last : (i : ℕ) (l : List ℕ) → (rest : List ℕ) × (take_out i (l ++ i ∷ []) ≡ some rest)
take_out_last i [] = ([], rw (beq_refl i) refl)
take_out_last i (j ∷ l) =
    let (rest, taken) = take_out_last i l in
    elim (Bool-cases (j == i)) [
      | inl same ↦ (l ++ i ∷ [], rw same refl)
      | inr other ↦ (j ∷ rest, rw (other, taken) refl)
    ]

-- The loop of goroutine `i`, which begins with the context `c`, is out of reach of the daemon.
abbrev pub IsLost : MetricsDaemon → String → ℕ → ℕ → Type 0
IsLost p name i c =
    (v : MetricsDaemon) × (begin_target i p ≡ some v)
    × (get v.loops c ≡ some i)
    × (¬ Belongs v c i)
    × (delete_target name v ≡ v)

-- A target that the daemon does not have begins.
begin-IsLost :
    (name : String) (i : ℕ) (t : TargetMetric) (rest : List ℕ) (p : MetricsDaemon)
    → get p.objects i ≡ some t
    → take_out i p.waiting ≡ some rest
    → get p.targets name ≡ none
    → ((other : String) → get p.targets other ≢ some i)
    → IsLost p name i p.next_context
unfolding begin_target delete_target
begin-IsLost name i t rest p object taken gone nowhere =
    let v = begin_object i (some t) (record p { waiting = rest }) in
    let begun =
      ap (λ l. begin_waiting i l p) taken
      ∙ ap (λ o. some (begin_object i o (record p { waiting = rest }))) object in
    (
      v,
      begun,
      get-put_same (cancel_loop t.cancel p.loops) p.next_context i,
      (λ b. nowhere b.0 b.2),
      ap (λ o. delete_found name o v) gone,
    )

-- A target that was put and is deleted again.
module _ (name : String) (t : TargetMetric) (d : MetricsDaemon) (tracked : IsTracked d) where
  abbrev IsDeleted : MetricsDaemon → Type 0
  IsDeleted p =
      (get p.objects d.next_object ≡ some (record t { cancel = none }))
      × (p.waiting ≡ d.waiting ++ d.next_object ∷ [])
      × (p.targets ≡ remove (put d.targets name d.next_object) name)
      × (p.next_context ≡ d.next_context)

  abbrev taken_out : MetricsDaemon
  taken_out = record (put_target name t d) {
    targets = remove (put d.targets name d.next_object) name;
  }

  delete_again-IsDeleted : IsDeleted (delete_target name (put_target name t d))
  unfolding delete_target stop_target
  delete_again-IsDeleted =
      subst (λ o. IsDeleted (delete_found name o (put_target name t d)))
        (sym (get-put_same d.targets name d.next_object))
        (subst (λ o. IsDeleted (stop_object d.next_object o taken_out))
          (sym (get-put_same d.objects d.next_object t))
          (
            get-put_same (put d.objects d.next_object t) d.next_object (record t { cancel = none }),
            refl,
            refl,
            refl,
          ))

  not_again :
      (other : String)
      → get (remove (put d.targets name d.next_object) name) other ≢ some d.next_object
  not_again other found = elim (Bool-cases (name == other)) [
    | inl same ↦
        (let bad =
            sym found
            ∙ (get-remove (put d.targets name d.next_object) name other
                ∙ ap (λ x. if x then none else get (put d.targets name d.next_object) other)
                    same) in
          cc)
    | inr different ↦
        let old =
          sym (
            get-put d.targets name other d.next_object
            ∙ ap (λ x. if x then some d.next_object else get d.targets other) different)
          ∙ kept_target (put d.targets name d.next_object) name other d.next_object found in
        let made = tracked.target_made other d.next_object old in omega (arith, made)
  ]

  delete_again-IsLost :
      IsLost (delete_target name (put_target name t d)) name d.next_object d.next_context
  delete_again-IsLost =
      let p = delete_target name (put_target name t d) in
      let (object, waiting, targets, contexts) = delete_again-IsDeleted in
      let (rest, taken) = take_out_last d.next_object d.waiting in
      subst (λ n. IsLost p name d.next_object n) contexts
        (begin-IsLost name d.next_object (record t { cancel = none }) rest p object
          (ap (take_out d.next_object) waiting ∙ taken)
          (delete_target_fields name (put_target name t d)).0
          (λ other found. not_again other (ap (λ m. get m other) (sym targets) ∙ found)))

-- A target that is deleted before its goroutine has begun is scraped nevertheless from then on:
-- when the goroutine begins, its loop runs and belongs to no target of the daemon, and to delete the
-- target once more changes nothing.
pub add_target-IsLost :
    (name : String) (urls : List String) (interval : ℤ) (allow_list : SampleFilter)
    (d : MetricsDaemon)
    → IsTracked d
    → IsLost
        (delete_target name (add_target name urls interval allow_list d))
        name
        d.next_object
        d.next_context
unfolding add_target
add_target-IsLost name urls interval allow_list d tracked =
    let (gone, objects, contexts, waiting) = delete_target_fields name d in
    let t = new_target_metric name interval urls allow_list in
    let p = delete_target name (put_target name t (delete_target name d)) in
    subst (λ n. IsLost p name n d.next_context) objects
      (subst (λ n. IsLost p name (delete_target name d).next_object n) contexts
        (delete_again-IsLost name t (delete_target name d)
          (delete_target-IsTracked name d tracked)))
