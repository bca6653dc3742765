-- ===== src/Driver/Debounce/Laws.antt =====
-- The invariant of the channels that the lock of the driver guards, in
-- pkg/managerdriver/driver.go.
use ngrok_operator.Common.{
  first_of, ℕ, suc, ◌≤◌, ◌<◌, true, false, ◌&&◌, Option, none, some, List, lookup, insert,
  lookup-insert, nat_eq, ◌==◌, is_some, if◌then◌else◌, ◌≡◌, refl, arith, ◌⊎◌, inr,
}
use ngrok_operator.Driver.Debounce.{
  Chan, Debouncer, new_debouncer, receive, received, wait_answer, Outcome,
}

abbrev pub Chans : Type 0
Chans = List (ℕ × Chan)

abbrev pub open_chan : Chan
open_chan = record { value = false; closed = false }

-- Every channel made is closed, and the next number is free.
pub record IsSettled (m : Chans) (made : ℕ) : Type 0 where
  pub fresh : (c : ℕ) → made ≤ c → lookup c m ≡ none
  pub there : (c : ℕ) → c < made → is_some (lookup c m) ≡ true
  pub shut : (c : ℕ) (ch : Chan) → lookup c m ≡ some ch → ch.closed ≡ true

-- The one who waits, if any.
abbrev pub waiting : Debouncer → Option ℕ
waiting d = first_of d.sync_full_ch d.sync_partial_ch

-- At most one channel is open: the one that is waited on.
pub record IsHeld (w : Option ℕ) (m : Chans) (made : ℕ) : Type 0 where
  pub fresh : (c : ℕ) → made ≤ c → lookup c m ≡ none
  pub there : (c : ℕ) → c < made → is_some (lookup c m) ≡ true
  pub opened : (c : ℕ) → w ≡ some c → lookup c m ≡ some open_chan
  pub shut : (c : ℕ) (ch : Chan) → lookup c m ≡ some ch → (w ≡ some c) ⊎ (ch.closed ≡ true)

pub record IsValid (d : Debouncer) : Type 0 where
  pub exclusive : (is_some d.sync_full_ch && is_some d.sync_partial_ch) ≡ false
  pub idle : d.sync_running ≡ false → waiting d ≡ none
  pub held : IsHeld (waiting d) d.chans d.made

pub new-IsValid : IsValid new_debouncer
unfolding new_debouncer lookup
new-IsValid = record {
  exclusive = refl;
  idle = λ h. refl;
  held = record {
    fresh = λ c h. refl;
    there = λ c h. absurd (omega (arith, h));
    opened = λ c h. cc;
    shut = λ c ch h. cc;
  };
}

-- The channels once the one who waits is overtaken, or served.
abbrev pub overtaken : Option ℕ → Chans → Chans
overtaken none m = m
overtaken (some c) m = insert c (record { value = false; closed = true }) m

abbrev pub served : Option ℕ → Chans → Chans
served none m = m
served (some c) m =
    insert c (record { value = true; closed = true })
      (insert c (record { value = true; closed = false }) m)

pub lookup-overtaken :
    (w c : ℕ) (m : Chans)
    → lookup c (overtaken (some w) m)
      ≡ (if w == c then some (record { value = false; closed = true }) else lookup c m)
lookup-overtaken w c m = lookup-insert w c _ m

pub lookup-served :
    (w c : ℕ) (m : Chans)
    → lookup c (served (some w) m)
      ≡ (if w == c then some (record { value = true; closed = true }) else lookup c m)
lookup-served w c m = ground (
  arith,
  lookup-insert w c (record { value = true; closed = true })
      (insert w (record { value = true; closed = false }) m),
  lookup-insert w c (record { value = true; closed = false }) m,
)

pub overtaken-IsSettled :
    (w : Option ℕ) (m : Chans) (made : ℕ) → IsHeld w m made → IsSettled (overtaken w m) made
overtaken-IsSettled none m made h = record {
  fresh = h.fresh;
  there = h.there;
  shut = λ c ch e. ground (arith, h.shut c ch e);
}
overtaken-IsSettled (some w) m made h = record {
  fresh = λ c above. ground (arith, h.fresh c above, h.opened w refl, lookup-overtaken w c m);
  there = λ c below. ground (arith, h.there c below, lookup-overtaken w c m);
  shut = λ c ch e. ground (arith, h.shut c ch, lookup-overtaken w c m);
}

pub served-IsSettled :
    (w : Option ℕ) (m : Chans) (made : ℕ) → IsHeld w m made → IsSettled (served w m) made
served-IsSettled none m made h = record {
  fresh = h.fresh;
  there = h.there;
  shut = λ c ch e. ground (arith, h.shut c ch e);
}
served-IsSettled (some w) m made h = record {
  fresh = λ c above. ground (arith, h.fresh c above, h.opened w refl, lookup-served w c m);
  there = λ c below. ground (arith, h.there c below, lookup-served w c m);
  shut = λ c ch e. ground (arith, h.shut c ch, lookup-served w c m);
}

pub open_next-IsHeld :
    (m : Chans) (made : ℕ)
    → IsSettled m made
    → IsHeld (some made) (insert made open_chan m) (suc made)
open_next-IsHeld m made s = record {
  fresh = λ c above. ground (arith, s.fresh c, lookup-insert made c open_chan m);
  there = λ c below. ground (arith, s.there c, lookup-insert made c open_chan m);
  opened = λ c e. ground (arith, lookup-insert made c open_chan m);
  shut = λ c ch e. ground (arith, s.shut c ch, lookup-insert made c open_chan m);
}

pub IsHeld-of_IsSettled : (m : Chans) (made : ℕ) → IsSettled m made → IsHeld none m made
IsHeld-of_IsSettled m made s = record {
  fresh = s.fresh;
  there = s.there;
  opened = λ c e. cc;
  shut = λ c ch e. inr (s.shut c ch e);
}

emptied-IsHeld :
    (w : Option ℕ) (m : Chans) (made c : ℕ) (ch : Chan) (o : Outcome)
    → lookup c m ≡ some ch
    → wait_answer (some ch) ≡ some o
    → IsHeld w m made
    → IsHeld w (insert c (record ch { value = false }) m) made
unfolding wait_answer
emptied-IsHeld w m made c ch o at e h =
    let put = λ (j : ℕ). lookup-insert c j (record ch { value = false }) m in
    record {
      fresh = λ j above. ground (arith, h.fresh j above, put j);
      there = λ j below. ground (arith, h.there j below, put j);
      opened = λ j held. ground (arith, h.opened j held, put j);
      shut = λ j x held. ground (arith, h.shut j x, h.shut c ch at, put j);
    }

-- A receive that does not block leaves the channel that is waited on alone.
pub receive-IsValid :
    (d : Debouncer) (c : ℕ) (o : Outcome)
    → wait_answer (lookup c d.chans) ≡ some o
    → IsValid d
    → IsValid (receive c d)
unfolding receive received
receive-IsValid d c o e v = received-IsValid (lookup c d.chans) refl e
  where
    received-IsValid :
        (x : Option Chan) → lookup c d.chans ≡ x → wait_answer x ≡ some o → IsValid (received c x d)
    received-IsValid none at h = v
    received-IsValid (some ch) at h = record {
      exclusive = v.exclusive;
      idle = v.idle;
      held = emptied-IsHeld (waiting d) d.chans d.made c ch o at h v.held;
    }
