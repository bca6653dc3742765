-- ===== src/Driver/Debounce/Traces.antt =====
-- Any number of callers of `Sync` and `SyncEndpoints` of pkg/managerdriver, in the order in which
-- the lock lets their steps in.
use mathlib.Core.Option.{some-injective}
use ngrok_operator.Common.{
  ℕ, suc, Bool, Option, none, some, List, [], ◌∷◌, lookup, nat_eq, if◌then◌else◌, ◌≡◌, refl, arith,
  subst, sym, ◌∙◌,
}
use ngrok_operator.Driver.Debounce.{
  Chan, Debouncer, new_debouncer, Answer, proceed, sync_start, sync_done, wait_answer, Outcome,
  receive, received,
}
use ngrok_operator.Driver.Debounce.Laws.{IsValid, new-IsValid, receive-IsValid}
use ngrok_operator.Driver.Debounce.Calls.{
  IsAnswered, goes_on, returns_at_once, waits, sync_start-IsAnswered, sync_done_lem, done-IsValid,
}

-- A caller was answered, the sync that ran ended, or the wait on a channel returned, through the
-- channel or because the context of the caller ended.
pub data Event : Type 0 where
  called : Bool → Answer → Event
  finished : Event
  returned : ℕ → Outcome → Event
  cancelled : ℕ → Event

-- The fields of the driver, and how many syncs run.
pub record World : Type 0 where
  pub debouncer : Debouncer
  pub active : ℕ

abbrev pub new_world : World
new_world = record { debouncer = new_debouncer; active = 0 }

abbrev pub admit : Answer → ℕ → ℕ
admit proceed n = suc n
admit _ n = n

-- A caller that was told to go on calls `syncDone` once, when it is through.
pub data Step : World → Event → World → Type 0 where
  calls :
      {d d' : Debouncer} {n : ℕ} {is_partial : Bool} {a : Answer}
      → sync_start is_partial d ≡ some (a, d')
      → Step
          (record { debouncer = d; active = n })
          (called is_partial a)
          (record { debouncer = d'; active = admit a n })
  finishes :
      {d d' : Debouncer} {n : ℕ}
      → sync_done d ≡ some d'
      → Step
          (record { debouncer = d; active = suc n })
          finished
          (record { debouncer = d'; active = n })
  returns :
      {d : Debouncer} {n c : ℕ} {o : Outcome}
      → wait_answer (lookup c d.chans) ≡ some o
      → Step
          (record { debouncer = d; active = n })
          (returned c o)
          (record { debouncer = receive c d; active = n })
  cancels : {w : World} {c : ℕ} → Step w (cancelled c) w

pub data Trace : World → List Event → World → Type 0 where
  done : {w : World} → Trace w [] w
  then_step :
      {w mid w' : World} {e : Event} {es : List Event}
      → Step w e mid
      → Trace mid es w'
      → Trace w (e ∷ es) w'

-- As many syncs run as the flag says.
pub record IsSound (w : World) : Type 0 where
  pub valid : IsValid w.debouncer
  pub counted : w.active ≡ (if w.debouncer.sync_running then 1 else 0)

-- What holds of every answer of a call.
abbrev pub Answered : (Answer → Debouncer → Type 0) → Option (Answer × Debouncer) → Type 0
Answered P none = Unit
Answered P (some (a, d)) = P a d

pub receive-sync_running : (c : ℕ) (d : Debouncer) → (receive c d).sync_running ≡ d.sync_running
unfolding receive received
receive-sync_running c d = same (lookup c d.chans)
  where
    same : (x : Option Chan) → (received c x d).sync_running ≡ d.sync_running
    same none = refl
    same (some ch) = refl

call-IsSound :
    (d : Debouncer) (n : ℕ) (is_partial : Bool) (o : Option (Answer × Debouncer))
    → (s : IsSound (record { debouncer = d; active = n })) → IsAnswered d s.valid is_partial o
    → Answered (λ a d'. IsSound (record { debouncer = d'; active = admit a n })) o
call-IsSound d n is_partial _ s (goes_on off v) = record {
  valid = v;
  counted = ground (arith, s.counted);
}
call-IsSound d n is_partial _ s (returns_at_once run behind) = s
call-IsSound d n is_partial _ s (waits run v on first full part at grown) = record {
  valid = v;
  counted = ground (arith, s.counted);
}

pub Step-IsSound : (w : World) (e : Event) (w' : World) → IsSound w → Step w e w' → IsSound w'
Step-IsSound _ _ _ s (calls {d} {d'} {n} {is_partial} {a} h) =
    subst (Answered (λ a d'. IsSound (record { debouncer = d'; active = admit a n }))) h
      (call-IsSound d n is_partial _ s (sync_start-IsAnswered d s.valid is_partial))
Step-IsSound _ _ _ s (finishes {d} {d'} {n} h) =
    subst (λ x. IsSound (record { debouncer = x; active = n }))
      (some-injective _ _ (sym (sync_done_lem d s.valid) ∙ h))
      (record { valid = done-IsValid d s.valid; counted = ground (arith, s.counted) })
Step-IsSound _ _ _ s (returns {d} {n} {c} {o} h) = record {
  valid = receive-IsValid d c o h s.valid;
  counted = ground (arith, s.counted, receive-sync_running c d);
}
Step-IsSound w _ _ s (cancels {c = c}) = s

pub Trace-IsSound :
    (w : World) (es : List Event) (w' : World) → IsSound w → Trace w es w' → IsSound w'
Trace-IsSound w [] _ s done = s
Trace-IsSound w (e ∷ es) w' s (then_step {mid = mid} st tr) =
    Trace-IsSound mid es w' (Step-IsSound w e mid s st) tr

pub new-IsSound : IsSound new_world
unfolding new_debouncer
new-IsSound = record { valid = new-IsValid; counted = refl }
