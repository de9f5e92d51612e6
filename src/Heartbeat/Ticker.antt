-- ===== src/Heartbeat/Ticker.antt =====
-- The ticker of the heartbeat and its goroutines (internal/heartbeat/heartbeat.go).
use k4e_device_worker.Prelude.{
  ◌≡◌, refl, sym, ap, ◌∙◌, ℕ, suc, ◌+◌, ◌-◌, ◌*◌, ◌%◌, ◌≤◌, ◌<◌, Bool, true, false, Option, none,
  some, List, [], ◌∷◌, if◌then◌else◌, ℤ, pos, negsuc, ltb_ℤ, ltb, length, arith,
}
use k4e_device_worker.Heartbeat.{get_interval}

-- The number of an int64 whose bits are those of a number.
abbrev pub to_int64 : ℕ → ℤ
to_int64 n =
    let b = n % 18446744073709551616 in
    if ltb b 9223372036854775808 then pos b else negsuc (18446744073709551615 - b)

-- time.Second * time.Duration(periodSeconds), which wraps around
unfoldable pub period_duration : ℤ → ℤ
period_duration (pos p) = to_int64 (p * 1000000000)
period_duration (negsuc p) =
    to_int64 (18446744073709551616 - (suc p * 1000000000) % 18446744073709551616)

-- The ticker in use, by its duration, and whether it ticks; `goroutines` are all that were started.
-- None of them ends, since `Stop` does not close a ticker's channel.
pub record Ticking : Type 0 where
  pub ticker : Option ℤ
  pub ticks : Bool
  pub goroutines : ℕ

unfoldable pub new_heartbeat_service : Ticking
new_heartbeat_service = record { ticker = none; ticks = false; goroutines = 0 }

unfoldable pub has_started : Ticking → Bool
has_started h = elim h.ticker [ none ↦ false | some d ↦ true ]

-- `initTicker`; `none` is the panic of `time.NewTicker` on a duration that is not positive.
unfoldable pub init_ticker : ℤ → Ticking → Option Ticking
unfolding period_duration
init_ticker period h =
    let d = period_duration period in
    if ltb_ℤ (pos 0) d
    then some (record { ticker = some d; ticks = true; goroutines = suc h.goroutines })
    else none

-- `Start`, with the configuration of the device
unfoldable pub start_heartbeat : Option ℤ → Ticking → Option Ticking
unfolding init_ticker
start_heartbeat period h = init_ticker (get_interval period) h

unfoldable pub stop_ticker : Ticking → Ticking
stop_ticker h = record h { ticks = false }

-- `Update`
unfoldable pub update_heartbeat : Option ℤ → Ticking → Option Ticking
unfolding init_ticker stop_ticker
update_heartbeat period h = init_ticker (get_interval period) (stop_ticker h)

unfoldable pub deregister_heartbeat : Ticking → Ticking
unfolding stop_ticker
deregister_heartbeat h = stop_ticker h

unfoldable pub update_next : (Ticking → Option Ticking) → Option Ticking → Option Ticking
update_next more none = none
update_next more (some h) = more h

-- One update after the other
unfoldable pub update_each : List (Option ℤ) → Ticking → Option Ticking
unfolding update_heartbeat update_next
update_each [] h = some h
update_each (p ∷ rest) h = update_next (update_each rest) (update_heartbeat p h)

test_below : (a b : ℕ) → a < b → ltb a b ≡ true
test_below a b h = ground (arith, h)

test_not_below : (a b : ℕ) → b ≤ a → ltb a b ≡ false
test_not_below a b h = ground (arith, h)

to_int64_small : (n : ℕ) → n < 9223372036854775808 → to_int64 n ≡ pos n
to_int64_small n h =
    let whole : n % 18446744073709551616 ≡ n = omega (arith, h) in
    rw (whole, test_below n 9223372036854775808 h) refl

to_int64_wraps :
    (n : ℕ)
    → 9223372036854775808 ≤ n
    → n < 18446744073709551616
    → to_int64 n ≡ negsuc (18446744073709551615 - n)
to_int64_wraps n h k =
    let whole : n % 18446744073709551616 ≡ n = omega (arith, k) in
    rw (whole, test_not_below n 9223372036854775808 h) refl

get_interval-pos : (p : ℕ) → 1 ≤ p → get_interval (some (pos p)) ≡ pos p
unfolding get_interval
get_interval-pos p h = ground (arith, h)

init_ticker_at :
    (period d : ℤ) (h : Ticking)
    → period_duration period ≡ d
    → init_ticker period h ≡ (
        if ltb_ℤ (pos 0) d
        then some (record { ticker = some d; ticks = true; goroutines = suc h.goroutines })
        else none)
unfolding init_ticker
init_ticker_at period d h e =
    ap
      (λ x.
        if ltb_ℤ (pos 0) x
        then some (record { ticker = some x; ticks = true; goroutines = suc h.goroutines })
        else none)
      e

init_ticker_short :
    (p : ℕ) (h : Ticking)
    → 1 ≤ p
    → p ≤ 9223372036
    → init_ticker (pos p) (stop_ticker h)
      ≡ some (record {
        ticker = some (pos (p * 1000000000));
        ticks = true;
        goroutines = suc h.goroutines;
      })
unfolding period_duration stop_ticker
init_ticker_short p h positive short =
    let d = to_int64_small (p * 1000000000) (omega (arith, short)) in
    init_ticker_at (pos p) (pos (p * 1000000000)) (stop_ticker h) d
    ∙ rw (test_below 0 (p * 1000000000 + 0) (omega (arith, positive))) refl

init_ticker_long :
    (p : ℕ) (h : Ticking)
    → 9223372037 ≤ p
    → p ≤ 18446744073
    → init_ticker (pos p) (stop_ticker h) ≡ none
unfolding period_duration
init_ticker_long p h long bound =
    init_ticker_at (pos p) (negsuc (18446744073709551615 - p * 1000000000)) (stop_ticker h)
      (to_int64_wraps (p * 1000000000) (omega (arith, long)) (omega (arith, bound)))
    ∙ ground arith

-- A period up to 9223372036 seconds is the duration of the ticker; one that is longer, up to twice
-- that, wraps around to a negative duration, and the update panics.
pub update_heartbeat-wraps :
    (p : ℕ) (h : Ticking)
    → 1 ≤ p
    → (p ≤ 9223372036
        → update_heartbeat (some (pos p)) h
          ≡ some (record {
            ticker = some (pos (p * 1000000000));
            ticks = true;
            goroutines = suc h.goroutines;
          }))
      × (9223372037 ≤ p → p ≤ 18446744073 → update_heartbeat (some (pos p)) h ≡ none)
unfolding update_heartbeat
update_heartbeat-wraps p h positive = (
  λ short.
      ap (λ q. init_ticker q (stop_ticker h)) (get_interval-pos p positive)
      ∙ init_ticker_short p h positive short,
  λ long bound.
      ap (λ q. init_ticker q (stop_ticker h)) (get_interval-pos p positive)
      ∙ init_ticker_long p h long bound,
)

abbrev goroutines_or : ℕ → Option Ticking → ℕ
goroutines_or n none = n
goroutines_or n (some h) = h.goroutines

-- The goroutines after an update, where it does not panic.
counted :
    (n : ℕ) (b : Bool) (d : ℤ) (v : Ticking)
    → (if b then some (record { ticker = some d; ticks = true; goroutines = n }) else none) ≡ some v
    → v.goroutines ≡ n
counted n true d v made = sym (ap (goroutines_or n) made)
counted n false d v made = cc

update_heartbeat_counted :
    (p : Option ℤ) (h u : Ticking) → update_heartbeat p h ≡ some u → u.goroutines ≡ suc h.goroutines
unfolding update_heartbeat init_ticker stop_ticker
update_heartbeat_counted p h u made =
    let d = period_duration (get_interval p) in
    counted (suc h.goroutines) (ltb_ℤ (pos 0) d) d u made

next_counted :
    (rest : List (Option ℤ)) (n : ℕ) (o : Option Ticking) (v : Ticking)
    → ((u : Ticking) → o ≡ some u → u.goroutines ≡ suc n)
    → ((u : Ticking) → update_each rest u ≡ some v → v.goroutines ≡ u.goroutines + length rest)
    → update_next (update_each rest) o ≡ some v
    → v.goroutines ≡ n + suc (length rest)
unfolding update_next
next_counted rest n none v one more made = cc
next_counted rest n (some u) v one more made = omega (arith, one u refl, more u made)

-- Every update leaves one more goroutine, which waits for a ticker that has been stopped.
pub update_each-goroutines :
    (periods : List (Option ℤ)) (h v : Ticking)
    → update_each periods h ≡ some v
    → v.goroutines ≡ h.goroutines + length periods
unfolding update_each
update_each-goroutines [] h v made = omega (arith, ap (goroutines_or 0) made)
update_each-goroutines (p ∷ rest) h v made =
    next_counted rest h.goroutines (update_heartbeat p h) v (update_heartbeat_counted p h)
      (λ u. update_each-goroutines rest u v) made
