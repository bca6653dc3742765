-- ===== src/Driver/Debounce/Release.antt =====
-- The end of every wait on a channel of the debouncer of pkg/managerdriver/driver.go.
use ngrok_operator.Common.{
  first_of, ℕ, ◌≤◌, ◌<◌, Bool, true, Option, none, some, List, [], ◌∷◌, lookup, nat_eq, ◌≡◌, ◌≢◌,
  refl, arith, inl, inr, any, Option-cases, subst, sym, ◌∙◌,
}
use ngrok_operator.Driver.Debounce.{Chan, Debouncer, Answer, wait_answer, receive, received}
use ngrok_operator.Driver.Debounce.Laws.{IsValid}
use ngrok_operator.Driver.Debounce.Calls.{
  IsAnswered, goes_on, returns_at_once, waits, sync_start-IsAnswered, sync_done_lem,
}
use ngrok_operator.Driver.Debounce.Traces.{
  Event, called, World, new_world, Step, calls, finishes, returns, cancels, Trace, done, then_step,
  IsSound, Answered, Step-IsSound, new-IsSound,
}
use ngrok_operator.Driver.Debounce.Batches.{waits_on}
use ngrok_operator.Driver.Debounce.Outcomes.{Reached-IsSound}

-- A channel that a caller waits on has been made, and channels stay.
record IsTold (d : Debouncer) (es : List Event) (d' : Debouncer) : Type 0 where
  told : (c : ℕ) → any (waits_on c) es ≡ true → c < d'.made
  more : d.made ≤ d'.made

call-IsTold :
    (d : Debouncer) (p : Bool) (o : Option (Answer × Debouncer)) (v : IsValid d)
    → IsAnswered d v p o
    → Answered (λ a d'. IsTold d (called p a ∷ []) d') o
call-IsTold d p _ v (goes_on _ _) = record { told = λ c h. cc; more = omega arith }
call-IsTold d p _ v (returns_at_once _ _) = record { told = λ c h. cc; more = omega arith }
call-IsTold d p _ v (waits _ _ _ _ _ _ _ grown) = record {
  told = λ c h. ground (arith, grown);
  more = omega (arith, grown);
}

receive-made : (c : ℕ) (d : Debouncer) → (receive c d).made ≡ d.made
unfolding receive received
receive-made c d = same (lookup c d.chans)
  where
    same : (x : Option Chan) → (received c x d).made ≡ d.made
    same none = refl
    same (some ch) = refl

Step-IsTold :
    (w : World) (e : Event) (w' : World)
    → IsSound w
    → Step w e w'
    → IsTold w.debouncer (e ∷ []) w'.debouncer
Step-IsTold _ _ _ s (calls {d} {is_partial = p} h) =
    subst (Answered (λ a d'. IsTold d (called p a ∷ []) d')) h
      (call-IsTold d p _ s.valid (sync_start-IsAnswered d s.valid p))
Step-IsTold _ _ _ s (finishes {d} {d'} h) = record {
  told = λ c w. cc;
  more = ground (arith, sym (sync_done_lem d s.valid) ∙ h);
}
Step-IsTold _ _ _ s (returns {d} {c = c} {o} h) = record {
  told = λ j w. cc;
  more = omega (arith, receive-made c d);
}
Step-IsTold w _ _ s (cancels {c = c}) = record { told = λ j h. cc; more = omega arith }

Trace-IsTold :
    (w : World) (es : List Event) (w' : World)
    → IsSound w
    → Trace w es w'
    → IsTold w.debouncer es w'.debouncer
Trace-IsTold w [] _ s done = record { told = λ c h. cc; more = omega arith }
Trace-IsTold w (e ∷ es) w' s (then_step {mid = mid} st tr) =
    let h = Step-IsTold w e mid s st in
    let k = Trace-IsTold mid es w' (Step-IsSound w e mid s st) tr in
    record {
      told = λ c t. ground (arith, h.told c, k.told c, k.more);
      more = omega (arith, h.more, k.more);
    }

-- Once no sync runs, no caller that was ever told to wait on a channel blocks on it any more.
pub all_released :
    (es : List Event) (w : World) (c : ℕ)
    → Trace new_world es w
    → w.active ≡ 0
    → any (waits_on c) es ≡ true
    → wait_answer (lookup c w.debouncer.chans) ≢ none
unfolding wait_answer
all_released es w c tr free told h =
    let s = Reached-IsSound es w tr in
    let idle : first_of w.debouncer.sync_full_ch w.debouncer.sync_partial_ch ≡ none =
      s.valid.idle (ground (arith, s.counted)) in
    let below = (Trace-IsTold new_world es w new-IsSound tr).told c told in
    elim (Option-cases (lookup c w.debouncer.chans)) [
      | inl missing ↦ ground (arith, s.valid.held.there c below)
      | inr (ch, at) ↦ ground (arith, s.valid.held.shut c ch at)
    ]
