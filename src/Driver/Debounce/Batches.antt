-- ===== src/Driver/Debounce/Batches.antt =====
-- The callers that a running sync of pkg/managerdriver turns away, up to its `syncDone`.
use ngrok_operator.Common.{
  first_of, ℕ, ◌≤◌, ◌<◌, Bool, true, false, Option, none, some, List, [], ◌∷◌, lookup, insert,
  lookup-insert, nat_eq, ◌==◌, is_some, if◌then◌else◌, ◌≡◌, refl, arith, any, subst,
}
use ngrok_operator.Driver.Debounce.{
  Chan, Debouncer, Answer, wait_on, dismissed, Outcome, receive, received,
}
use ngrok_operator.Driver.Debounce.Laws.{waiting, IsValid, overtaken, lookup-overtaken, open_chan}
use ngrok_operator.Driver.Debounce.Calls.{
  IsAnswered, goes_on, returns_at_once, waits, sync_start-IsAnswered,
}
use ngrok_operator.Driver.Debounce.Traces.{
  Event, called, finished, returned, cancelled, World, Step, calls, finishes, returns, cancels,
  Trace, done, then_step, IsSound, Answered, Step-IsSound,
}

-- The channel of a caller of a full (`false`) or a partial (`true`) sync that has to wait.
abbrev pub wait_of : Bool → Event → Option ℕ
wait_of false (called false (wait_on c)) = some c
wait_of true (called true (wait_on c)) = some c
wait_of _ _ = none

abbrev pub last_wait : Bool → List Event → Option ℕ
last_wait is_partial [] = none
last_wait is_partial (e ∷ es) = first_of (last_wait is_partial es) (wait_of is_partial e)

-- The last one who waits for a full sync, or else the last one.
abbrev pub chosen : List Event → Option ℕ
chosen es = first_of (last_wait false es) (last_wait true es)

abbrev pub is_call : Event → Bool
is_call (called _ _) = true
is_call _ = false

abbrev pub is_finish : Event → Bool
is_finish finished = true
is_finish _ = false

abbrev pub waits_on : ℕ → Event → Bool
waits_on c (called _ (wait_on j)) = j == c
waits_on c _ = false

abbrev pub value_of : Option Chan → Bool
value_of none = false
value_of (some ch) = ch.value

-- What events while a sync runs do to the fields of the driver.
pub record IsBatch (d : Debouncer) (es : List Event) (d' : Debouncer) : Type 0 where
  pub running : d'.sync_running ≡ true
  pub full : d'.sync_full_ch ≡ first_of (last_wait false es) d.sync_full_ch
  pub part :
      d'.sync_partial_ch
      ≡ (if is_some d'.sync_full_ch then none else first_of (last_wait true es) d.sync_partial_ch)
  pub silent : (c : ℕ) → value_of (lookup c d.chans) ≡ false → value_of (lookup c d'.chans) ≡ false
  pub grows : d.made ≤ d'.made
  pub issued : (c : ℕ) → any (waits_on c) es ≡ true → (d.made ≤ c) × (c < d'.made)
  pub keeps : is_some (waiting d) ≡ true → is_some (waiting d') ≡ true
  pub asked : any is_call es ≡ true → is_some (waiting d') ≡ true

IsBatch-append :
    (d mid d' : Debouncer) (e : Event) (es : List Event)
    → IsBatch d (e ∷ []) mid
    → IsBatch mid es d'
    → IsBatch d (e ∷ es) d'
IsBatch-append d mid d' e es h k = record {
  running = k.running;
  full = ground (arith, h.full, k.full);
  part = ground (arith, h.full, k.full, h.part, k.part);
  silent = λ c quiet. k.silent c (h.silent c quiet);
  grows = omega (arith, h.grows, k.grows);
  issued = λ c w. ground (arith, h.issued c, k.issued c, h.grows, k.grows);
  keeps = λ w. k.keeps (h.keeps w);
  asked = λ w. ground (arith, k.asked, k.keeps, h.asked);
}

-- An event that makes no caller wait, and changes at most the values of channels.
IsBatch-of_same :
    (d : Debouncer) (e : Event) (m : List (ℕ × Chan))
    → IsValid d
    → d.sync_running ≡ true
    → ((p : Bool) → wait_of p e ≡ none)
    → ((c : ℕ) → waits_on c e ≡ false)
    → (is_call e ≡ true → is_some (waiting d) ≡ true)
    → ((c : ℕ) → value_of (lookup c d.chans) ≡ false → value_of (lookup c m) ≡ false)
    → IsBatch d (e ∷ []) (record d { chans = m })
IsBatch-of_same d e m v run alone unheard behind quiet = record {
  running = run;
  full = ground (arith, alone false);
  part = ground (arith, alone true, v.exclusive);
  silent = quiet;
  grows = omega arith;
  issued = λ c w. ground (arith, unheard c);
  keeps = λ w. w;
  asked = λ w. ground (arith, behind);
}

silent-overtaken :
    (w : Option ℕ) (m : List (ℕ × Chan)) (c : ℕ)
    → value_of (lookup c m) ≡ false
    → value_of (lookup c (overtaken w m)) ≡ false
silent-overtaken none m c q = q
silent-overtaken (some w) m c q = ground (arith, lookup-overtaken w c m)

call-IsBatch :
    (d : Debouncer) (is_partial : Bool) (o : Option (Answer × Debouncer)) (v : IsValid d)
    → d.sync_running ≡ true
    → IsAnswered d v is_partial o
    → Answered (λ a d'. IsBatch d (called is_partial a ∷ []) d') o
call-IsBatch d is_partial _ v run (goes_on off _) = cc
call-IsBatch d is_partial _ v run (returns_at_once _ behind) =
    IsBatch-of_same d (called is_partial dismissed) d.chans v run (λ p. ground arith) (λ c. refl)
      (λ _. ground (arith, behind)) (λ c q. q)
call-IsBatch d is_partial _ v run (waits {d' = d'} _ _ on first full part at grown) = record {
  running = on;
  full = ground (arith, full, first);
  part = ground (arith, full, part, first);
  silent = λ c q. ground (
    arith,
    at,
    lookup-insert d.made c open_chan (overtaken (waiting d) d.chans),
    silent-overtaken (waiting d) d.chans c q,
  );
  grows = omega (arith, grown);
  issued = λ c w. ground (arith, grown);
  keeps = λ w. ground (arith, full, part);
  asked = λ w. ground (arith, full, part);
}

receive-IsBatch :
    (d : Debouncer) (c : ℕ) (o : Outcome)
    → IsValid d
    → d.sync_running ≡ true
    → IsBatch d (returned c o ∷ []) (receive c d)
unfolding receive received
receive-IsBatch d c o v run = go (lookup c d.chans)
  where
    go : (x : Option Chan) → IsBatch d (returned c o ∷ []) (received c x d)
    go none =
        IsBatch-of_same d (returned c o) d.chans v run (λ p. ground arith) (λ j. refl) (λ h. cc)
          (λ j q. q)
    go (some ch) =
        IsBatch-of_same d (returned c o) (insert c (record ch { value = false }) d.chans) v run
          (λ p. ground arith) (λ j. refl) (λ h. cc)
          (λ j q. ground (arith, lookup-insert c j (record ch { value = false }) d.chans))

Step-IsBatch :
    (w : World) (e : Event) (w' : World)
    → IsSound w
    → w.debouncer.sync_running ≡ true
    → is_finish e ≡ false
    → Step w e w'
    → IsBatch w.debouncer (e ∷ []) w'.debouncer
Step-IsBatch _ _ _ s run on (calls {d} {is_partial = p} h) =
    subst (Answered (λ a d'. IsBatch d (called p a ∷ []) d')) h
      (call-IsBatch d p _ s.valid run (sync_start-IsAnswered d s.valid p))
Step-IsBatch _ _ _ s run on (finishes h) = cc
Step-IsBatch _ _ _ s run on (returns {d} {c = c} {o} h) = receive-IsBatch d c o s.valid run
Step-IsBatch w _ _ s run on (cancels {c = c}) =
    IsBatch-of_same w.debouncer (cancelled c) w.debouncer.chans s.valid run (λ p. ground arith)
      (λ j. refl) (λ h. cc) (λ j q. q)

pub Trace-IsBatch :
    (w : World) (es : List Event) (w' : World)
    → IsSound w
    → w.debouncer.sync_running ≡ true
    → any is_finish es ≡ false
    → Trace w es w'
    → IsBatch w.debouncer es w'.debouncer
Trace-IsBatch w [] _ s run on done = record {
  running = run;
  full = refl;
  part = ground (arith, s.valid.exclusive);
  silent = λ c q. q;
  grows = omega arith;
  issued = λ c h. cc;
  keeps = λ h. h;
  asked = λ h. cc;
}
Trace-IsBatch w (e ∷ es) w' s run on (then_step {mid = mid} st tr) =
    let h = Step-IsBatch w e mid s run (ground arith) st in
    IsBatch-append w.debouncer mid.debouncer w'.debouncer e es h
      (Trace-IsBatch mid es w' (Step-IsSound w e mid s st) h.running (ground arith) tr)
