-- ===== src/Examples/Debounces.antt =====
-- A sync during which a partial, a full and another partial caller come.
use ngrok_operator.Common.{
  ℕ, ◌≤◌, true, false, none, some, List, [], ◌∷◌, lookup, insert, nat_eq, ◌==◌, is_some, any,
  option_beq, if◌then◌else◌, ◌≡◌, ◌≢◌, refl,
}
use ngrok_operator.Driver.Debounce.{
  Debouncer, new_debouncer, proceed, wait_on, dismissed, sync_start, sync_done, wait_answer,
  success, failure, err_sync_requeue, handle_sync_result, sync_requeue_delay,
}
use ngrok_operator.Driver.Debounce.Traces.{
  Event, called, finished, World, new_world, Trace, done, then_step, Step, calls, finishes,
}
use ngrok_operator.Driver.Debounce.Batches.{chosen, is_call, waits_on}
use ngrok_operator.Driver.Debounce.Release.{all_released}
use ngrok_operator.Driver.Debounce.Outcomes.{never_stuck, one_requeue}

abbrev idle : Debouncer
idle = record {
  sync_running = false;
  sync_full_ch = none;
  sync_partial_ch = none;
  made = 0;
  chans = [];
}

abbrev first_running : Debouncer
first_running = record idle { sync_running = true }

abbrev partial_waits : Debouncer
partial_waits = record first_running {
  sync_partial_ch = some 0;
  made = 1;
  chans = (0, record { value = false; closed = false }) ∷ [];
}

abbrev full_waits : Debouncer
full_waits = record first_running {
  sync_full_ch = some 1;
  made = 2;
  chans =
      (0, record { value = false; closed = true })
      ∷ (1, record { value = false; closed = false })
      ∷ [];
}

abbrev all_through : Debouncer
all_through = record idle {
  made = 2;
  chans =
      (0, record { value = false; closed = true })
      ∷ (1, record { value = true; closed = true })
      ∷ [];
}

abbrev world : Debouncer → ℕ → World
world d n = record { debouncer = d; active = n }

abbrev turned_away : List Event
turned_away = called true (wait_on 0) ∷ called false (wait_on 1) ∷ called true dismissed ∷ []

run : Trace new_world (called false proceed ∷ turned_away) (world full_waits 1)
unfolding new_debouncer sync_start lookup insert
run = then_step {mid = world first_running 1} (calls refl) (
    then_step {mid = world partial_waits 1} (calls refl) (
      then_step {mid = world full_waits 1} (calls refl)
        (then_step {mid = world full_waits 1} (calls refl) done)))

last : Step (world full_waits 1) finished (world all_through 0)
unfolding sync_done lookup insert
last = finishes refl

whole_run :
    Trace new_world
      (called false proceed
        ∷ called true (wait_on 0)
        ∷ called false (wait_on 1)
        ∷ called true dismissed
        ∷ finished
        ∷ [])
      (world all_through 0)
unfolding new_debouncer sync_start sync_done lookup insert
whole_run = then_step {mid = world first_running 1} (calls refl) (
    then_step {mid = world partial_waits 1} (calls refl) (
      then_step {mid = world full_waits 1} (calls refl) (
        then_step {mid = world full_waits 1} (calls refl)
          (then_step {mid = world all_through 0} (finishes refl) done))))

requeue_tests :
    (handle_sync_result success ≡ (0, none))
    × (handle_sync_result (failure err_sync_requeue) ≡ (sync_requeue_delay, none))
unfolding handle_sync_result
requeue_tests = (refl, refl)

never_stuck_example : (1 ≤ 1) × (sync_start true full_waits ≢ none) × (sync_done full_waits ≢ none)
never_stuck_example = never_stuck (called false proceed ∷ turned_away) (world full_waits 1) true run

all_released_example : wait_answer (lookup 1 all_through.chans) ≢ none
all_released_example =
    all_released
      (called false proceed
        ∷ called true (wait_on 0)
        ∷ called false (wait_on 1)
        ∷ called true dismissed
        ∷ finished
        ∷ [])
      (world all_through 0) 1 whole_run refl refl

one_requeue_example :
    (is_some (chosen turned_away) ≡ any is_call turned_away)
    × ((c : ℕ)
        → any (waits_on c) turned_away ≡ true
        → wait_answer (lookup c all_through.chans)
          ≡ some (
              if option_beq ◌==◌ (chosen turned_away) (some c)
              then failure err_sync_requeue
              else success))
one_requeue_example =
    one_requeue [] turned_away new_world (world full_waits 1) (world all_through 0) false proceed
      done refl run refl last
