-- ===== src/Driver/Debounce/Calls.antt =====
-- What `syncStart` and `syncDone` of pkg/managerdriver/driver.go make of a valid state.
use ngrok_operator.Common.{
  ℕ, suc, Bool, true, false, ◌&&◌, Option, none, some, insert, lookup-insert, nat_eq, is_some,
  ==_refl, if◌then◌else◌, ◌≡◌, refl, ap, ◌∙◌, sym, subst, Bool-cases, arith, inl, inr,
}
use ngrok_operator.Driver.Debounce.{
  Debouncer, put_chan, close_chan, send_chan, make_chan, Answer, proceed, wait_on, dismissed,
  overtake_full, overtake_partial, register, take_position, start_when, start_waiting, sync_start,
  release_full, release_partial, sync_done,
}
use ngrok_operator.Driver.Debounce.Laws.{
  Chans, open_chan, waiting, IsValid, IsSettled, overtaken, served, overtaken-IsSettled,
  served-IsSettled, open_next-IsHeld, IsHeld-of_IsSettled,
}

abbrev cleared : Debouncer → Chans → Debouncer
cleared d m = record d { sync_full_ch = none; sync_partial_ch = none; chans = m }

module _ (d : Debouncer) (v : IsValid d) where
  cleared_same : d.sync_full_ch ≡ none → d.sync_partial_ch ≡ none → cleared d d.chans ≡ d
  cleared_same ef ep = ground arith

  take_position_when :
      (is_partial : Bool) (f p : Option ℕ)
      → d.sync_full_ch ≡ f
      → d.sync_partial_ch ≡ p
      → take_position is_partial d
        ≡ some (register is_partial (cleared d (overtaken (waiting d) d.chans)))
  unfolding take_position overtake_full overtake_partial close_chan put_chan
  take_position_when is_partial none none ef ep = simp (ef, ep, cleared_same ef ep)
  take_position_when is_partial (some c) none ef ep =
      simp (ef, ep, v.held.opened c (ground (arith, ef)))
  take_position_when is_partial none (some c) ef ep =
      simp (ef, ep, v.held.opened c (ground (arith, ef)))
  take_position_when is_partial (some c) (some c') ef ep = absurd (ground (arith, v.exclusive))

  done_when :
      (f p : Option ℕ)
      → d.sync_full_ch ≡ f
      → d.sync_partial_ch ≡ p
      → sync_done d
        ≡ some (record (cleared d (served (waiting d) d.chans)) { sync_running = false })
  unfolding sync_done release_full release_partial send_chan close_chan put_chan
  done_when none none ef ep = simp (ef, ep)
  done_when (some c) none ef ep =
      simp (ef, ep, v.held.opened c (ground (arith, ef)), lookup-insert, ==_refl)
  done_when none (some c) ef ep =
      simp (ef, ep, v.held.opened c (ground (arith, ef)), lookup-insert, ==_refl)
  done_when (some c) (some c') ef ep = absurd (ground (arith, v.exclusive))

  register-IsValid :
      (is_partial : Bool) (m : Chans)
      → d.sync_running ≡ true
      → IsSettled m d.made
      → IsValid (register is_partial (cleared d m)).1
  unfolding register make_chan
  register-IsValid true m run s = record {
    exclusive = refl;
    idle = λ h. cc;
    held = open_next-IsHeld m d.made s;
  }
  register-IsValid false m run s = record {
    exclusive = refl;
    idle = λ h. cc;
    held = open_next-IsHeld m d.made s;
  }

  start_idle :
      (is_partial : Bool)
      → d.sync_running ≡ false
      → sync_start is_partial d ≡ some (proceed, record d { sync_running = true })
  unfolding sync_start start_when
  start_idle is_partial off = rw off refl

  dismissed_when :
      (p : Bool) (f : Option ℕ)
      → (p && is_some f) ≡ true
      → start_waiting p f d ≡ some (dismissed, d)
  unfolding start_waiting
  dismissed_when true (some c) h = refl
  dismissed_when true none h = cc
  dismissed_when false f h = cc

  start_dismissed :
      (is_partial : Bool)
      → d.sync_running ≡ true
      → (is_partial && is_some d.sync_full_ch) ≡ true
      → sync_start is_partial d ≡ some (dismissed, d)
  unfolding sync_start start_when
  start_dismissed is_partial run behind =
      ap (λ b. start_when b is_partial d) run ∙ dismissed_when is_partial d.sync_full_ch behind

  waiting_when :
      (p : Bool) (f : Option ℕ)
      → (p && is_some f) ≡ false
      → start_waiting p f d ≡ some (register p (cleared d (overtaken (waiting d) d.chans)))
  unfolding start_waiting
  waiting_when p none h = take_position_when p d.sync_full_ch d.sync_partial_ch refl refl
  waiting_when false (some c) h =
      take_position_when false d.sync_full_ch d.sync_partial_ch refl refl
  waiting_when true (some c) h = cc

  start_waits :
      (is_partial : Bool)
      → d.sync_running ≡ true
      → (is_partial && is_some d.sync_full_ch) ≡ false
      → sync_start is_partial d
        ≡ some (register is_partial (cleared d (overtaken (waiting d) d.chans)))
  unfolding sync_start start_when
  start_waits is_partial run first =
      ap (λ b. start_when b is_partial d) run ∙ waiting_when is_partial d.sync_full_ch first

  pub sync_done_lem :
      sync_done d ≡ some (record (cleared d (served (waiting d) d.chans)) { sync_running = false })
  sync_done_lem = done_when d.sync_full_ch d.sync_partial_ch refl refl

  pub done-IsValid :
      IsValid (record (cleared d (served (waiting d) d.chans)) { sync_running = false })
  done-IsValid = record {
    exclusive = refl;
    idle = λ h. refl;
    held =
        IsHeld-of_IsSettled (served (waiting d) d.chans) d.made
          (served-IsSettled (waiting d) d.chans d.made v.held);
  }

  -- The three ways in which `syncStart` answers.
  pub data IsAnswered (is_partial : Bool) : Option (Answer × Debouncer) → Type 0 where
    goes_on :
        d.sync_running ≡ false
        → IsValid (record d { sync_running = true })
        → IsAnswered is_partial (some (proceed, record d { sync_running = true }))
    returns_at_once :
        d.sync_running ≡ true
        → (is_partial && is_some d.sync_full_ch) ≡ true
        → IsAnswered is_partial (some (dismissed, d))
    waits :
        {d' : Debouncer}
        → d.sync_running ≡ true
        → IsValid d'
        → d'.sync_running ≡ true
        → (is_partial && is_some d.sync_full_ch) ≡ false
        → d'.sync_full_ch ≡ (if is_partial then none else some d.made)
        → d'.sync_partial_ch ≡ (if is_partial then some d.made else none)
        → d'.chans ≡ insert d.made open_chan (overtaken (waiting d) d.chans)
        → d'.made ≡ suc d.made
        → IsAnswered is_partial (some (wait_on d.made, d'))

  running-IsValid : d.sync_running ≡ false → IsValid (record d { sync_running = true })
  running-IsValid off = record { exclusive = v.exclusive; idle = λ h. cc; held = v.held }

  registered :
      (is_partial : Bool)
      → d.sync_running ≡ true
      → (is_partial && is_some d.sync_full_ch) ≡ false
      → IsAnswered is_partial
          (some (register is_partial (cleared d (overtaken (waiting d) d.chans))))
  unfolding register make_chan
  registered true run first =
      waits run
        (register-IsValid true _ run (overtaken-IsSettled (waiting d) d.chans d.made v.held)) run
        first refl refl refl refl
  registered false run first =
      waits run
        (register-IsValid false _ run (overtaken-IsSettled (waiting d) d.chans d.made v.held)) run
        first refl refl refl refl

  pub sync_start-IsAnswered : (is_partial : Bool) → IsAnswered is_partial (sync_start is_partial d)
  sync_start-IsAnswered is_partial = elim (Bool-cases d.sync_running) [
    | inr off ↦
        subst (IsAnswered is_partial) (sym (start_idle is_partial off))
          (goes_on off (running-IsValid off))
    | inl run ↦ elim (Bool-cases (is_partial && is_some d.sync_full_ch)) [
      | inl behind ↦
          subst (IsAnswered is_partial) (sym (start_dismissed is_partial run behind))
            (returns_at_once run behind)
      | inr first ↦
          subst (IsAnswered is_partial) (sym (start_waits is_partial run first))
            (registered is_partial run first)
    ]
  ]
