-- ===== src/Reboot/Stuck.antt =====
-- What follows after the wait for a graceful reboot has timed out.
use k4e_device_worker.Prelude.{
  ◌≡◌, ◌≢◌, refl, sym, ap, ◌∙◌, ℕ, zero, suc, Bool, true, false, Option, none, some, arith,
}
use k4e_device_worker.Reboot.{
  Flow, outside, signalling, awaiting, Listener, listening, stopping, completing, ended, Reboots,
  Turn, signals, times_out, reboot_step, Turns, done, then_step,
}

-- The listener was signalled and was not heard to be done in time.
abbrev pub is_late : Flow → Listener → Bool
is_late awaiting l = false
is_late outside listening = false
is_late outside stopping = true
is_late outside completing = true
is_late outside ended = true
is_late signalling listening = false
is_late signalling stopping = true
is_late signalling completing = true
is_late signalling ended = true

abbrev stays_late : Option Reboots → Bool
stays_late none = true
stays_late (some s) = is_late s.flow s.listener

step_late :
    (c : Turn) (f : Flow) (l : Listener)
    → is_late f l ≡ true
    → stays_late (reboot_step c f l) ≡ true
unfolding reboot_step
step_late c f l h = ground (arith, h)

late_or_none :
    (o : Option Reboots) (v : Reboots)
    → o ≡ some v
    → stays_late o ≡ true
    → is_late v.flow v.listener ≡ true
late_or_none o v h late = sym (ap stays_late h) ∙ late

timed_out_late :
    (l : Listener) (v : Reboots)
    → l ≢ listening
    → reboot_step times_out awaiting l ≡ some v
    → is_late v.flow v.listener ≡ true
unfolding reboot_step
timed_out_late listening v busy h = absurd (busy refl)
timed_out_late stopping v busy h =
    late_or_none (some (record { flow = outside; listener = stopping })) v h refl
timed_out_late completing v busy h =
    late_or_none (some (record { flow = outside; listener = completing })) v h refl
timed_out_late ended v busy h = cc

Turns-late :
    (n : ℕ) (v s : Reboots)
    → Turns n v s
    → is_late v.flow v.listener ≡ true
    → is_late s.flow s.listener ≡ true
Turns-late zero v s (done) late = late
Turns-late (suc n) v s (then_step {u = u} path c made) late =
    late_or_none (reboot_step c u.flow u.listener) s made
      (step_late c u.flow u.listener (Turns-late n v u path late))

not_signalled : (f : Flow) (l : Listener) → is_late f l ≡ true → reboot_step signals f l ≡ none
unfolding reboot_step
not_signalled f l h = ground (arith, h)

nothing_left : (t : Turn) → reboot_step t signalling completing ≡ none
unfolding reboot_step
nothing_left t = ground arith

-- Once the wait for a reboot has timed out while the listener was still busy, no later reboot gets its
-- signal through, whatever the two do: the listener waits to say that it is done, and nobody hears
-- it. When an upgrade then waits to send its signal, neither of the two has a turn left.
pub Turns_timed_out :
    (n : ℕ) (l : Listener) (v s : Reboots)
    → l ≢ listening
    → reboot_step times_out awaiting l ≡ some v
    → Turns n v s
    → (reboot_step signals s.flow s.listener ≡ none)
      × ((t : Turn)
          → s.flow ≡ signalling
          → s.listener ≡ completing
          → reboot_step t s.flow s.listener ≡ none)
Turns_timed_out n l v s busy late path = (
  not_signalled s.flow s.listener (Turns-late n v s path (timed_out_late l v busy late)),
  (λ t sends waits.
      ap (λ f. reboot_step t f s.listener) sends
      ∙ (ap (λ k. reboot_step t signalling k) waits ∙ nothing_left t)),
)
