-- ===== src/Driver/Debounce.antt =====
-- `syncStart`, `syncDone`, the wait function that `syncStart` returns and `HandleSyncResult` of
-- pkg/managerdriver/driver.go. A channel is a number; it has a buffer of one value. A send on a
-- channel that is closed and a second close panic, and a send on a full channel would block with
-- the lock held: both are `none`.
pub mod Laws
pub mod Calls
pub mod Traces
pub mod Batches
pub mod Outcomes
pub mod Release
use ngrok_operator.Common.{
  ℕ, suc, String, Bool, true, false, Option, none, some, List, [], ◌∷◌, lookup, insert, nat_eq,
  ◌||◌, if◌then◌else◌,
}
use ngrok_operator.Common.Sorting.{◌>>=◌}

pub record Chan : Type 0 where
  pub value : Bool
  pub closed : Bool

-- The fields of the driver that the lock guards, with the channels made so far.
pub record Debouncer : Type 0 where
  pub sync_running : Bool
  pub sync_full_ch : Option ℕ
  pub sync_partial_ch : Option ℕ
  pub made : ℕ
  pub chans : List (ℕ × Chan)

unfoldable pub new_debouncer : Debouncer
new_debouncer = record {
  sync_running = false;
  sync_full_ch = none;
  sync_partial_ch = none;
  made = 0;
  chans = [];
}

-- `make(chan struct{}, 1)`
unfoldable pub make_chan : Debouncer → Debouncer
make_chan d = record d {
  made = suc d.made;
  chans = insert d.made (record { value = false; closed = false }) d.chans;
}

abbrev pub closed_chan : Option Chan → Option Chan
closed_chan none = none
closed_chan (some ch) = if ch.closed then none else some (record ch { closed = true })

abbrev pub filled_chan : Option Chan → Option Chan
filled_chan none = none
filled_chan (some ch) = if ch.closed || ch.value then none else some (record ch { value = true })

unfoldable pub put_chan : ℕ → Debouncer → Option Chan → Option Debouncer
put_chan c d none = none
put_chan c d (some ch) = some (record d { chans = insert c ch d.chans })

unfoldable pub close_chan : ℕ → Debouncer → Option Debouncer
unfolding put_chan
close_chan c d = put_chan c d (closed_chan (lookup c d.chans))

unfoldable pub send_chan : ℕ → Debouncer → Option Debouncer
unfolding put_chan
send_chan c d = put_chan c d (filled_chan (lookup c d.chans))

-- What `syncStart` tells its caller: to go on, to wait on a channel, or to return at once.
pub data Answer : Type 0 where
  proceed : Answer
  wait_on : ℕ → Answer
  dismissed : Answer

-- `close(d.syncFullCh)` and the assignment of nil, where a full sync waits.
unfoldable pub overtake_full : Option ℕ → Debouncer → Option Debouncer
overtake_full none d = some d
overtake_full (some c) d = close_chan c d >>= λ d'. some (record d' { sync_full_ch = none })

unfoldable pub overtake_partial : Option ℕ → Debouncer → Option Debouncer
overtake_partial none d = some d
overtake_partial (some c) d = close_chan c d >>= λ d'. some (record d' { sync_partial_ch = none })

-- The caller takes the waiting position.
unfoldable pub register : Bool → Debouncer → Answer × Debouncer
register true d = (wait_on d.made, record (make_chan d) { sync_partial_ch = some d.made })
register false d = (wait_on d.made, record (make_chan d) { sync_full_ch = some d.made })

unfoldable pub take_position : Bool → Debouncer → Option (Answer × Debouncer)
take_position is_partial d = overtake_full d.sync_full_ch d >>= λ e.
    overtake_partial e.sync_partial_ch e >>= λ f. some (register is_partial f)

-- The rest of `syncStart` while a sync runs.
unfoldable pub start_waiting : Bool → Option ℕ → Debouncer → Option (Answer × Debouncer)
start_waiting true (some c) d = some (dismissed, d)
start_waiting false (some c) d = take_position false d
start_waiting is_partial none d = take_position is_partial d

unfoldable pub start_when : Bool → Bool → Debouncer → Option (Answer × Debouncer)
start_when false is_partial d = some (proceed, record d { sync_running = true })
start_when true is_partial d = start_waiting is_partial d.sync_full_ch d

unfoldable pub sync_start : Bool → Debouncer → Option (Answer × Debouncer)
unfolding overtake_full overtake_partial register take_position start_waiting start_when close_chan
    make_chan
sync_start is_partial d = start_when d.sync_running is_partial d

-- A value is sent to the one who waits, and the channel closed.
unfoldable pub release_full : Option ℕ → Debouncer → Option Debouncer
release_full none d = some d
release_full (some c) d =
    send_chan c d >>= λ e. close_chan c e >>= λ f. some (record f { sync_full_ch = none })

unfoldable pub release_partial : Option ℕ → Debouncer → Option Debouncer
release_partial none d = some d
release_partial (some c) d =
    send_chan c d >>= λ e. close_chan c e >>= λ f. some (record f { sync_partial_ch = none })

unfoldable pub sync_done : Debouncer → Option Debouncer
unfolding release_full release_partial send_chan close_chan
sync_done d = release_full d.sync_full_ch d >>= λ e.
    release_partial e.sync_partial_ch e >>= λ f. some (record f { sync_running = false })

-- What a sync or a wait returns.
pub data SyncError : Type 0 where
  err_sync_requeue : SyncError
  other_error : String → SyncError

pub data Outcome : Type 0 where
  success : Outcome
  failure : SyncError → Outcome

-- The receive in the wait function: none while it blocks, else what is returned.
unfoldable pub wait_answer : Option Chan → Option Outcome
wait_answer none = none
wait_answer (some ch) =
    if ch.value then some (failure err_sync_requeue) else if ch.closed then some success else none

-- The receive takes the value out of the buffer.
unfoldable pub received : ℕ → Option Chan → Debouncer → Debouncer
received c none d = d
received c (some ch) d = record d { chans = insert c (record ch { value = false }) d.chans }

unfoldable pub receive : ℕ → Debouncer → Debouncer
receive c d = received c (lookup c d.chans) d

-- In milliseconds.
abbrev pub sync_requeue_delay : ℕ
sync_requeue_delay = 100

-- The delay before the next reconcile, and the error that is passed on.
unfoldable pub handle_sync_result : Outcome → ℕ × Option SyncError
handle_sync_result success = (0, none)
handle_sync_result (failure err_sync_requeue) = (sync_requeue_delay, none)
handle_sync_result (failure (other_error e)) = (0, some (other_error e))
