-- ===== src/Driver/Debounce/Outcomes.antt =====
-- What the callers of `Sync` and `SyncEndpoints` of pkg/managerdriver that were turned away get when
-- the sync ends.
use mathlib.Core.Option.{some-injective}
use ngrok_operator.Common.{
  first_of, ℕ, ◌≤◌, ◌<◌, Bool, true, false, Option, none, some, List, [], ◌∷◌, lookup, nat_eq, ◌==◌,
  is_some, if◌then◌else◌, ◌≡◌, ◌≢◌, refl, ap, arith, inl, inr, any, Option-cases, subst, sym, ◌∙◌,
  option_beq,
}
use ngrok_operator.Driver.Debounce.{
  Chan, Debouncer, Answer, sync_start, sync_done, wait_answer, success, failure, err_sync_requeue,
}
use ngrok_operator.Driver.Debounce.Laws.{waiting, IsValid, served, lookup-served, IsHeld}
use ngrok_operator.Driver.Debounce.Calls.{
  IsAnswered, goes_on, returns_at_once, waits, sync_start-IsAnswered, sync_done_lem,
}
use ngrok_operator.Driver.Debounce.Traces.{
  Event, called, finished, World, new_world, Step, calls, finishes, Trace, then_step, IsSound,
  Answered, Step-IsSound, Trace-IsSound, new-IsSound,
}
use ngrok_operator.Driver.Debounce.Batches.{
  last_wait, chosen, is_call, is_finish, waits_on, value_of, Trace-IsBatch,
}

pub Reached-IsSound : (es : List Event) (w : World) → Trace new_world es w → IsSound w
Reached-IsSound es w tr = Trace-IsSound new_world es w new-IsSound tr

goes_on_when_idle :
    (d : Debouncer) (is_partial : Bool) (o : Option (Answer × Debouncer)) (v : IsValid d)
    → d.sync_running ≡ false
    → IsAnswered d v is_partial o
    → Answered (λ a d'. d' ≡ record d { sync_running = true }) o
goes_on_when_idle d is_partial _ v off (goes_on _ _) = refl
goes_on_when_idle d is_partial _ v off (returns_at_once run _) = cc
goes_on_when_idle d is_partial _ v off (waits run _ _ _ _ _ _ _) = cc

first_call :
    (w : World) (p : Bool) (a : Answer) (w' : World)
    → IsSound w
    → w.active ≡ 0
    → Step w (called p a) w'
    → w'.debouncer ≡ record w.debouncer { sync_running = true }
first_call _ p a _ s free (calls {d} {d'} {n} h) =
    subst (Answered (λ a d'. d' ≡ record d { sync_running = true })) h (
      goes_on_when_idle d p _ s.valid (ground (arith, s.counted))
        (sync_start-IsAnswered d s.valid p))

last_done :
    (w w' : World)
    → IsSound w
    → Step w finished w'
    → w'.debouncer.chans ≡ served (waiting w.debouncer) w.debouncer.chans
last_done _ _ s (finishes {d} {d'} h) =
    ap (λ x. x.chans) (sym (some-injective _ _ (sym (sync_done_lem d s.valid) ∙ h)))

last_wait-is_call :
    (p : Bool) (es : List Event) → is_some (last_wait p es) ≡ true → any is_call es ≡ true
last_wait-is_call p [] h = cc
last_wait-is_call p (e ∷ es) h = ground (arith, last_wait-is_call p es)

-- What a waiter gets from a channel that was silent and is served, or was overtaken.
answer_of_served :
    (w : Option ℕ) (m : List (ℕ × Chan)) (made c : ℕ)
    → IsHeld w m made
    → c < made
    → value_of (lookup c m) ≡ false
    → wait_answer (lookup c (served w m))
      ≡ some (if option_beq ◌==◌ w (some c) then failure err_sync_requeue else success)
unfolding wait_answer
answer_of_served none m made c h below quiet = elim (Option-cases (lookup c m)) [
  | inl missing ↦ absurd (ground (arith, h.there c below))
  | inr (ch, at) ↦ ground (arith, h.shut c ch at)
]
answer_of_served (some w) m made c h below quiet = elim (Option-cases (lookup c m)) [
  | inl missing ↦ absurd (ground (arith, h.there c below))
  | inr (ch, at) ↦ ground (arith, h.shut c ch at, lookup-served w c m)
]

-- In every reachable state at most one sync runs, `syncStart` gives an answer, and so does the
-- `syncDone` of a sync that runs: none of their sends blocks or panics, and none of their closes
-- panics.
pub never_stuck :
    (es : List Event) (w : World) (is_partial : Bool)
    → Trace new_world es w
    → (w.active ≤ 1) × (sync_start is_partial w.debouncer ≢ none) × (sync_done w.debouncer ≢ none)
never_stuck es w is_partial tr =
    let s = Reached-IsSound es w tr in
    (
      ground (arith, s.counted),
      answers w.debouncer is_partial (sync_start is_partial w.debouncer) s.valid
          (sync_start-IsAnswered w.debouncer s.valid is_partial),
      λ h. ground (arith, sync_done_lem w.debouncer s.valid),
    )
  where
    answers :
        (d : Debouncer) (p : Bool) (o : Option (Answer × Debouncer)) (v : IsValid d)
        → IsAnswered d v p o
        → o ≢ none
    answers d p _ v (goes_on _ _) h = cc
    answers d p _ v (returns_at_once _ _) h = cc
    answers d p _ v (waits _ _ _ _ _ _ _ _) h = cc

-- A sync starts in a reachable state in which none runs, and ends with its `syncDone`; in between
-- `syncStart` is called any number of times and waits end. A caller that was turned away gets
-- `ErrSyncRequeue` from its wait function if it is the last of those that wait for a full sync, or
-- where there is none the last that waits, and success if it is another. There is such a caller
-- exactly if any was turned away.
pub one_requeue :
    (before es : List Event) (w0 w1 w2 : World) (is_partial : Bool) (a : Answer)
    → Trace new_world before w0
    → w0.active ≡ 0
    → Trace w0 (called is_partial a ∷ es) w1
    → any is_finish es ≡ false
    → Step w1 finished w2
    → (is_some (chosen es) ≡ any is_call es)
      × ((c : ℕ)
          → any (waits_on c) es ≡ true
          → wait_answer (lookup c w2.debouncer.chans)
            ≡ some (
                if option_beq ◌==◌ (chosen es) (some c) then failure err_sync_requeue else success))
one_requeue before es w0 w1 w2 p a reached free (then_step {mid = mid} start run) on stop =
    let s0 = Reached-IsSound before w0 reached in
    let s = Step-IsSound w0 (called p a) mid s0 start in
    let same = first_call w0 p a mid s0 free start in
    let batch = Trace-IsBatch mid es w1 s (ground (arith, same)) on run in
    let s1 = Trace-IsSound mid es w1 s run in
    let idle : first_of w0.debouncer.sync_full_ch w0.debouncer.sync_partial_ch ≡ none =
      s0.valid.idle (ground (arith, s0.counted)) in
    let who : waiting w1.debouncer ≡ chosen es =
      ground (arith, same, idle, batch.full, batch.part) in
    (
      ground (arith, who, batch.asked, last_wait-is_call false es, last_wait-is_call true es),
      λ c told.
          let (low, high) = batch.issued c told in
          let unmade = s0.valid.held.fresh c (ground (arith, same)) in
          let quiet = batch.silent c (ground (arith, same, unmade)) in
          simp (last_done w1 w2 s1 stop, ← who)
            (answer_of_served (waiting w1.debouncer) w1.debouncer.chans w1.debouncer.made c
              s1.valid.held high quiet),
    )
