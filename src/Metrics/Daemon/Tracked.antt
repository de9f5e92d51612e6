-- ===== src/Metrics/Daemon/Tracked.antt =====
-- The loops that run are those of the targets.
use mathlib.Core.Path.{subst}
use k4e_device_worker.Prelude.{
  ◌≡◌, ◌≢◌, refl, sym, ap, ◌∙◌, ℕ, ◌<◌, Option, none, some, List, [], ◌∷◌, String, Map, get, put,
  remove, if◌then◌else◌, ◌==◌, text_key, number_key, ℤ, arith, get-put, get-put_same, Bool-cases,
  inl, inr, eq_of_beq,
}
use k4e_device_worker.Metrics.Allowed.{SampleFilter}
use k4e_device_worker.Metrics.Daemon.{
  TargetMetric, MetricsDaemon, new_metrics_daemon, stop_object, stop_target, delete_found,
  delete_target, start_target, put_target, add_target, new_target_metric, start_each, start_daemon,
  begin_object, begin_waiting, begin_target, cancel_loop, take_out,
}
use k4e_device_worker.Metrics.Daemon.Entries.{
  number_or, daemon_or, cancel_of, left_by_cancel, kept_target, other_objects, other_targets,
  delete_target_fields, added_target, target_below,
}

-- The loop of a context belongs to a target that the daemon has, and the target can end it.
abbrev pub Belongs : MetricsDaemon → ℕ → ℕ → Type 0
Belongs d c i =
    (name : String) × (t : TargetMetric) × (get d.targets name ≡ some i)
    × (get d.objects i ≡ some t)
    × (t.cancel ≡ some c)

pub record IsTracked (d : MetricsDaemon) : Type 0 where
  pub loop_belongs : (c i : ℕ) → get d.loops c ≡ some i → Belongs d c i
  pub target_made : (name : String) (i : ℕ) → get d.targets name ≡ some i → i < d.next_object

pub new_metrics_daemon-IsTracked : IsTracked new_metrics_daemon
unfolding get
new_metrics_daemon-IsTracked = record { loop_belongs = λ c i h. cc; target_made = λ name i h. cc }

-- A target that was found is taken out and stopped.
stop_object-IsTracked :
    (name : String) (i : ℕ) (d : MetricsDaemon) (o : Option TargetMetric)
    → get d.objects i ≡ o
    → get d.targets name ≡ some i
    → IsTracked d
    → IsTracked (stop_object i o (record d { targets = remove d.targets name }))
stop_object-IsTracked name i d none object found tracked = record {
  loop_belongs = λ c j h.
      let (other, u, has_target, has_object, its) = tracked.loop_belongs c j h in
      let apart : i ≢ j =
        λ same. (let bad = sym object ∙ (ap (get d.objects) same ∙ has_object) in cc) in
      (other, u, other_targets d.targets name other i j found has_target apart, has_object, its);
  target_made = λ other j h. tracked.target_made other j (kept_target d.targets name other j h);
}
stop_object-IsTracked name i d (some t) object found tracked = record {
  loop_belongs = λ c j h.
      let (runs, uncancelled) = left_by_cancel t.cancel d.loops c j h in
      let (other, u, has_target, has_object, its) = tracked.loop_belongs c j runs in
      let apart : i ≢ j = λ same.
        uncancelled
          (ap (cancel_of t) (sym object ∙ (ap (get d.objects) same ∙ has_object)) ∙ its) in
      (
        other,
        u,
        other_targets d.targets name other i j found has_target apart,
        other_objects d.objects i j (record t { cancel = none }) u apart has_object,
        its,
      );
  target_made = λ other j h. tracked.target_made other j (kept_target d.targets name other j h);
}

delete_found-IsTracked :
    (name : String) (d : MetricsDaemon) (o : Option ℕ)
    → get d.targets name ≡ o
    → IsTracked d
    → IsTracked (delete_found name o d)
unfolding stop_target
delete_found-IsTracked name d none found tracked = tracked
delete_found-IsTracked name d (some i) found tracked =
    stop_object-IsTracked name i d (get d.objects i) refl found tracked

pub delete_target-IsTracked :
    (name : String) (d : MetricsDaemon) → IsTracked d → IsTracked (delete_target name d)
unfolding delete_target
delete_target-IsTracked name d tracked =
    delete_found-IsTracked name d (get d.targets name) refl tracked

put_target-IsTracked :
    (name : String) (t : TargetMetric) (d : MetricsDaemon)
    → get d.targets name ≡ none
    → IsTracked d
    → IsTracked (put_target name t d)
put_target-IsTracked name t d fresh tracked = record {
  loop_belongs = λ c j h.
      let (other, u, has_target, has_object, its) = tracked.loop_belongs c j h in
      let made = tracked.target_made other j has_target in
      (
        other,
        u,
        added_target d.targets name other d.next_object j fresh has_target,
        other_objects d.objects d.next_object j t u (λ same. absurd (omega (arith, same, made)))
            has_object,
        its,
      );
  target_made = λ other j h.
      target_below d.targets name other d.next_object j (tracked.target_made other j) h;
}

pub add_target-IsTracked :
    (name : String) (urls : List String) (interval : ℤ) (allow_list : SampleFilter)
    (d : MetricsDaemon)
    → IsTracked d
    → IsTracked (add_target name urls interval allow_list d)
unfolding add_target
add_target-IsTracked name urls interval allow_list d tracked =
    put_target-IsTracked name (new_target_metric name interval urls allow_list)
      (delete_target name d) (delete_target_fields name d).0
      (delete_target-IsTracked name d tracked)

start_each-IsTracked :
    (m : Map String ℕ) (d : MetricsDaemon) → IsTracked d → IsTracked (start_each m d)
unfolding start_each
start_each-IsTracked [] d tracked = tracked
start_each-IsTracked ((name, i) ∷ rest) d tracked =
    start_each-IsTracked rest (start_target i d)
      (record { loop_belongs = tracked.loop_belongs; target_made = tracked.target_made })

-- A target that the daemon has begins, or begins again.
begin_object-IsTracked :
    (name : String) (i : ℕ) (o : Option TargetMetric) (d : MetricsDaemon)
    → get d.objects i ≡ o
    → get d.targets name ≡ some i
    → IsTracked d
    → IsTracked (begin_object i o d)
begin_object-IsTracked name i none d object found tracked = tracked
begin_object-IsTracked name i (some t) d object found tracked = record {
  loop_belongs = λ c j h.
      let begun : TargetMetric = record t { cancel = some d.next_context } in
      let loops = cancel_loop t.cancel d.loops in
      elim (Bool-cases (d.next_context == c)) [
        | inl same ↦
            let mine =
              sym (
                get-put loops d.next_context c i ∙ ap (λ x. if x then some i else get loops c) same)
              ∙ h in
            let it : i ≡ j = ap (number_or 0) mine in
            (
              name,
              begun,
              found ∙ mine,
              ap (get (put d.objects i begun)) (sym it) ∙ get-put_same d.objects i begun,
              ap (λ n. some n) (eq_of_beq d.next_context c same),
            )
        | inr different ↦
            let (runs, uncancelled) = left_by_cancel t.cancel d.loops c j (
              sym (
                get-put loops d.next_context c i
                ∙ ap (λ x. if x then some i else get loops c) different)
              ∙ h) in
            let (other, u, has_target, has_object, its) = tracked.loop_belongs c j runs in
            let apart : i ≢ j = λ equal.
              uncancelled
                (ap (cancel_of t) (sym object ∙ (ap (get d.objects) equal ∙ has_object)) ∙ its) in
            (other, u, has_target, other_objects d.objects i j begun u apart has_object, its)
      ];
  target_made = tracked.target_made;
}

begin_waiting-IsTracked :
    (name : String) (i : ℕ) (l : Option (List ℕ)) (d v : MetricsDaemon)
    → get d.targets name ≡ some i
    → begin_waiting i l d ≡ some v
    → IsTracked d
    → IsTracked v
begin_waiting-IsTracked name i none d v found made tracked = cc
begin_waiting-IsTracked name i (some rest) d v found made tracked =
    subst (λ z. IsTracked z) (ap (daemon_or d) made)
      (begin_object-IsTracked name i (get d.objects i) (record d { waiting = rest }) refl found
        (record { loop_belongs = tracked.loop_belongs; target_made = tracked.target_made }))

-- The operations of the daemon, and a goroutine that begins while the daemon has its target.
pub data Moves : MetricsDaemon → MetricsDaemon → Type 0 where
  none_yet : {d : MetricsDaemon} → Moves d d
  adds :
      {d v : MetricsDaemon}
      → Moves d v
      → (name : String) (urls : List String) (interval : ℤ) (allow_list : SampleFilter)
      → Moves d (add_target name urls interval allow_list v)
  deletes : {d v : MetricsDaemon} → Moves d v → (name : String) → Moves d (delete_target name v)
  starts : {d v : MetricsDaemon} → Moves d v → Moves d (start_daemon v)
  begins :
      {d v z : MetricsDaemon}
      → Moves d v
      → (name : String) (i : ℕ) → get v.targets name ≡ some i
      → begin_target i v ≡ some z
      → Moves d z

-- Every loop that runs belongs to a target that the daemon has, which can end it, as long as no
-- goroutine begins after its target was deleted or replaced.
pub Moves-IsTracked : (d v : MetricsDaemon) → Moves d v → IsTracked d → IsTracked v
unfolding start_daemon begin_target
Moves-IsTracked d v (none_yet) tracked = tracked
Moves-IsTracked d v (adds {v = u} moves name urls interval allow_list) tracked =
    add_target-IsTracked name urls interval allow_list u (Moves-IsTracked d u moves tracked)
Moves-IsTracked d v (deletes {v = u} moves name) tracked =
    delete_target-IsTracked name u (Moves-IsTracked d u moves tracked)
Moves-IsTracked d v (starts {v = u} moves) tracked =
    start_each-IsTracked u.targets u (Moves-IsTracked d u moves tracked)
Moves-IsTracked d v (begins {v = u} moves name i found made) tracked =
    begin_waiting-IsTracked name i (take_out i u.waiting) u v found made
      (Moves-IsTracked d u moves tracked)
