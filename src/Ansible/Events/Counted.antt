-- ===== src/Ansible/Events/Counted.antt =====
-- Which events a playbook has, and how they are numbered.
use mathlib.Core.Path.{subst}
use k4e_device_worker.Prelude.{
  ◌≡◌, ◌≢◌, refl, ap, ◌∙◌, ℕ, suc, ◌+◌, List, [], ◌∷◌, ◌++◌, String, Map, if◌then◌else◌, pos, arith,
  map, length, length-append,
}
use k4e_device_worker.Ansible.Records.{JobEvent, Task, Play, HostItem, HostStats, Results}
use k4e_device_worker.Ansible.Kinds.{
  text_of, count_occurence, runner_on, runner_on_ok, runner_on_failed, runner_on_skipped,
  playbook_on_task_start, playbook_on_play_start, playbook_on_stats,
}
use k4e_device_worker.Ansible.Events.{
  Env, host_events, task_events, start_events, play_events, event_transformer, last_id, next_id,
}

-- The numbers from `n + 1` on, for a list of events.
abbrev pub IsNumbered : ℕ → List JobEvent → Type 0
IsNumbered n [] = Unit {0}
IsNumbered n (e ∷ rest) = (e.counter ≡ pos (suc n)) × IsNumbered (suc n) rest

add-zero : (n : ℕ) → n + 0 ≡ n
add-zero n = omega arith

add-suc : (n m : ℕ) → n + suc m ≡ suc n + m
add-suc n m = omega arith

IsNumbered-append :
    (n : ℕ) (xs ys : List JobEvent)
    → IsNumbered n xs
    → IsNumbered (n + length xs) ys
    → IsNumbered n (xs ++ ys)
IsNumbered-append n [] ys h k = subst (λ m. IsNumbered m ys) (add-zero n) k
IsNumbered-append n (x ∷ xs) ys (first, h) k = (
  first,
  IsNumbered-append (suc n) xs ys h (subst (λ m. IsNumbered m ys) (add-suc n (length xs)) k),
)

-- The kinds of the events of a host that ran a task, of the hosts, of the tasks and of the plays.
abbrev pub runner_name : HostItem → String
runner_name h =
    if h.failed
    then "v2_runner_on_failed"
    else if h.skipped
    then "v2_runner_on_skipped"
    else "v2_runner_on_ok"

abbrev pub host_names : Map String HostItem → List String
host_names [] = []
host_names ((host, h) ∷ rest) = "playbook_on_task_start" ∷ runner_name h ∷ host_names rest

abbrev pub task_names : List Task → List String
task_names [] = []
task_names (t ∷ rest) = host_names t.hosts ++ task_names rest

abbrev pub play_names : List Play → List String
play_names [] = []
play_names (p ∷ rest) =
    "playbook_on_play_start" ∷ (task_names p.tasks ++ "playbook_on_stats" ∷ play_names rest)

abbrev pub event_of : JobEvent → String
event_of e = e.event

names-append :
    (xs ys : List JobEvent) → map event_of (xs ++ ys) ≡ map event_of xs ++ map event_of ys
names-append [] ys = refl
names-append (x ∷ xs) ys = ap (λ l. x.event ∷ l) (names-append xs ys)

runner_on-event :
    (runner_id filename playbook_uuid : String) (n : ℕ) (host id shared : String) (t : Task)
    (h : HostItem)
    → ((runner_on runner_id filename playbook_uuid n host id shared t h).event ≡ runner_name h)
      × ((runner_on runner_id filename playbook_uuid n host id shared t h).counter ≡ pos n)
unfolding runner_on runner_on_ok runner_on_failed runner_on_skipped
runner_on-event runner_id filename playbook_uuid n host id shared t h = ground arith

-- What is shown of a loop: its events are numbered from `n + 1` on, up to the number that it ends
-- with, and are of these kinds.
abbrev pub Shows : ℕ → List String → List JobEvent → ℕ → Type 0
Shows n names events n' =
    IsNumbered n events × (n' ≡ n + length events) × (map event_of events ≡ names)

Shows-nil : (n : ℕ) → Shows n [] [] n
Shows-nil n = (tt, omega arith, refl)

Shows-cons :
    (n n' : ℕ) (name : String) (names : List String) (e : JobEvent) (events : List JobEvent)
    → e.event ≡ name
    → e.counter ≡ pos (suc n)
    → Shows (suc n) names events n'
    → Shows n (name ∷ names) (e ∷ events) n'
Shows-cons n n' name names e events kind number (numbered, ends, kinds) = (
  (number, numbered),
  omega (arith, ends),
  ap (λ s. s ∷ map event_of events) kind ∙ ap (λ l. name ∷ l) kinds,
)

Shows-append :
    (n m n' : ℕ) (names more : List String) (xs ys : List JobEvent)
    → Shows n names xs m
    → Shows m more ys n'
    → Shows n (names ++ more) (xs ++ ys) n'
Shows-append n m n' names more xs ys (numbered, ends, kinds) (numbered', ends', kinds') = (
  IsNumbered-append n xs ys numbered (subst (λ m. IsNumbered m ys) ends numbered'),
  omega (arith, ends, ends', length-append xs ys),
  names-append xs ys ∙ (ap (λ l. l ++ map event_of ys) kinds ∙ ap (λ l. names ++ l) kinds'),
)

-- One play: its start, the events of its tasks, its statistics, and the plays after it.
one_play :
    (n m : ℕ) (names later : List String) (play last : JobEvent) (tasks more : List JobEvent)
    → play.counter ≡ pos (suc n)
    → last.counter ≡ pos (suc m)
    → Shows (suc n) names tasks m
    → IsNumbered (suc m) more
    → map event_of more ≡ later
    → IsNumbered n (play ∷ (tasks ++ last ∷ more))
      × (map event_of (play ∷ (tasks ++ last ∷ more)) ≡ play.event ∷ (names ++ last.event ∷ later))
one_play n m names later play last tasks more first end (numbered, ends, kinds) others later_kinds =
    (
      (
        first,
        IsNumbered-append (suc n) tasks (last ∷ more) numbered
            (subst (λ k. IsNumbered k (last ∷ more)) ends (end, others)),
      ),
      ap (λ l. play.event ∷ l)
          (names-append tasks (last ∷ more)
            ∙ (ap (λ l. l ++ last.event ∷ map event_of more) kinds
                ∙ ap (λ l. names ++ last.event ∷ l) later_kinds)),
    )

module _ {W : Type 0} (env : Env W) (device_id filename : String) where
  host_events-Shows :
      (play : JobEvent) (uuids : Map String ℕ) (shared : String) (t : Task)
      (hosts : Map String HostItem) (id : String) (counts : Map String ℕ) (n : ℕ)
      → Shows n
          (host_names hosts)
          (host_events env device_id filename play uuids shared t hosts id counts n).0
          (host_events env device_id filename play uuids shared t hosts id counts n).2
  unfolding host_events playbook_on_task_start
  host_events-Shows play uuids shared t [] id counts n = Shows-nil n
  host_events-Shows play uuids shared t ((host, h) ∷ rest) id counts n =
      let (id', counts') = next_id env uuids id counts in
      let hosts = text_of play.event_data.host in
      let ran = runner_on device_id filename id' (suc (suc n)) hosts id' shared t h in
      let more =
        host_events env device_id filename play uuids shared t rest id' counts' (suc (suc n)) in
      let (kind, number) =
        runner_on-event device_id filename id' (suc (suc n)) hosts id' shared t h in
      Shows-cons n more.2 "playbook_on_task_start" (runner_name h ∷ host_names rest)
        (playbook_on_task_start device_id filename play.uuid (suc n) hosts id' t h) (ran ∷ more.0)
        refl refl
        (Shows-cons (suc n) more.2 (runner_name h) (host_names rest) ran more.0 kind number
          (host_events-Shows play uuids shared t rest id' counts' (suc (suc n))))

  task_events-Shows :
      (play : JobEvent) (uuids : Map String ℕ) (tasks : List Task) (counts : Map String ℕ) (n : ℕ)
      → Shows n
          (task_names tasks)
          (task_events env device_id filename play uuids tasks counts n).0
          (task_events env device_id filename play uuids tasks counts n).2
  unfolding task_events
  task_events-Shows play uuids [] counts n = Shows-nil n
  task_events-Shows play uuids (t ∷ rest) counts n =
      let shared = last_id env uuids t.hosts t.id counts in
      let here = host_events env device_id filename play uuids shared t t.hosts t.id counts n in
      let later = task_events env device_id filename play uuids rest here.1 here.2 in
      Shows-append n here.2 later.2 (host_names t.hosts) (task_names rest) here.0 later.0
        (host_events-Shows play uuids shared t t.hosts t.id counts n)
        (task_events-Shows play uuids rest here.1 here.2)

  -- No event for the start of the playbook, since the counter is never 1 where it is tested.
  start_events-none :
      (p : Play) (n : ℕ) (w : W) → n ≢ 1 → (start_events env device_id filename p n w).0 ≡ []
  unfolding start_events
  start_events-none p n w h = ground (arith, h)

  play_events-Shows :
      (stats : Map String HostStats) (plays : List Play) (counts : Map String ℕ) (n : ℕ) (w : W)
      → n ≢ 1
      → IsNumbered n (play_events env device_id filename stats plays counts n w).0
        × (map event_of (play_events env device_id filename stats plays counts n w).0
            ≡ play_names plays)
  unfolding play_events playbook_on_play_start playbook_on_stats
  play_events-Shows stats [] counts n w h = (tt, refl)
  play_events-Shows stats (p ∷ rest) counts n w h =
      let first = start_events env device_id filename p n w in
      let play = playbook_on_play_start device_id filename (suc n) p in
      let tasks =
        task_events env device_id filename play (count_occurence p.tasks) p.tasks counts (suc n) in
      let shown = task_events-Shows play (count_occurence p.tasks) p.tasks counts (suc n) in
      let last = playbook_on_stats device_id filename (suc tasks.2) p.end_time stats in
      let more = play_events env device_id filename stats rest tasks.1 (suc tasks.2) first.1 in
      let (numbered, kinds) =
        play_events-Shows stats rest tasks.1 (suc tasks.2) first.1 (omega (arith, shown.1)) in
      rw (start_events-none p n w h) (
        one_play n tasks.2 (task_names p.tasks) (play_names rest) play last tasks.0 more.0 refl refl
          shown numbered kinds)

  -- The events of a playbook are numbered 1, 2, 3 and so on with no gap. They are, for every play in
  -- turn, its start, for every task and host of it the start of the task and how it ended there,
  -- and its statistics. None is the start of the playbook.
  pub event_transformer-counted :
      (results : Results) (w : W)
      → IsNumbered 0 (event_transformer env device_id filename results w).0
        × (map event_of (event_transformer env device_id filename results w).0
            ≡ play_names results.plays)
  unfolding event_transformer
  event_transformer-counted results w =
      play_events-Shows results.stats results.plays [] 0 w (omega arith)
