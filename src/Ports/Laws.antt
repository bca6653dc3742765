-- ===== src/Ports/Laws.antt =====
-- Single operations of internal/controller/bindings/port_allocator.go.
use ngrok_operator.Common.{
  ℕ, ◌+◌, ◌-◌, ◌%◌, ◌<◌, ◌≤◌, Bool, true, false, Option, none, some, ltb, ◌==◌, nat_eq,
  if◌then◌else◌, ◌≡◌, ◌≢◌, refl, arith, subst, Bool-cases, inl, inr, not, ◌&&◌,
}
use ngrok_operator.Ports.{
  Bitmap, BitmapLaws, PortBitmap, uint16, new_port_bitmap, set, set_any, taken, with_ports,
}

module _ {B : Type 0} (ops : Bitmap B) (laws : BitmapLaws ops) where
  -- A port is handed out, by the bitmap alone.
  abbrev pub has : PortBitmap B → ℕ → Bool
  has pb p = not (ltb p pb.start) && ops.is_set pb.ports (p - pb.start)

  -- A range of uint16 ports, as `newPortBitmap start end` makes it.
  pub record InRange (start end : ℕ) (pb : PortBitmap B) : Type 0 where
    pub first : pb.start ≡ start
    pub fits : end < uint16
    pub size : start + laws.bits pb.ports ≡ end

  pub new_port_bitmap-InRange :
      (start end : ℕ)
      → start ≤ end
      → end < uint16
      → InRange start end (new_port_bitmap ops start end)
  unfolding new_port_bitmap
  new_port_bitmap-InRange start end h k = record {
    first = refl;
    fits = k;
    size = omega (arith, laws.bits_new ((end + (uint16 - start)) % uint16));
  }

  -- What one allocation promises.
  pub record IsFresh (start end : ℕ) (pb : PortBitmap B) (p : ℕ) (pb' : PortBitmap B) : Type 0 where
    pub low : start ≤ p
    pub high : p < end
    pub free : has pb p ≡ false
    pub only_it : (q : ℕ) → has pb' q ≡ (if p == q then true else has pb q)
    pub still : InRange start end pb'

  -- Setting a clear bit hands out its port.
  IsFresh-bit :
      (start end : ℕ) (pb : PortBitmap B) (i : ℕ) (b : B)
      → InRange start end pb
      → ops.set pb.ports i ≡ some b
      → IsFresh start end pb (i + pb.start) (record pb { ports = b })
  IsFresh-bit start end pb i b r e = record {
    low = omega (arith, r.first);
    high = omega (arith, r.first, r.size, laws.set_range pb.ports i b e);
    free = ground (arith, laws.set_clear pb.ports i b e);
    only_it = λ q. ground (arith, laws.set_after pb.ports i b e (q - pb.start));
    still = record {
      first = r.first;
      fits = r.fits;
      size = omega (arith, r.size, laws.set_bits pb.ports i b e);
    };
  }

  no_wrap :
      (start end : ℕ) (pb : PortBitmap B) (i : ℕ) (b : B)
      → InRange start end pb
      → ops.set pb.ports i ≡ some b
      → (i % uint16 + pb.start) % uint16 ≡ i + pb.start
  no_wrap start end pb i b r e =
      omega (arith, r.first, r.size, r.fits, laws.set_range pb.ports i b e)

  taken-IsFresh :
      (start end : ℕ) (pb : PortBitmap B) (o : Option (ℕ × B)) (p : ℕ) (pb' : PortBitmap B)
      → InRange start end pb
      → ops.set_any pb.ports ≡ o
      → taken ops pb o ≡ some (p, pb')
      → IsFresh start end pb p pb'
  taken-IsFresh start end pb none p pb' r at e = cc
  taken-IsFresh start end pb (some (i, b)) p pb' r at e =
      let done = laws.set_any_set pb.ports i b at in
      let here : ℕ × PortBitmap B = (i + pb.start, record pb { ports = b }) in
      let same : here ≡ (p, pb') = ground (arith, no_wrap start end pb i b r done) in
      subst (λ x. IsFresh start end pb x.0 x.1) same (IsFresh-bit start end pb i b r done)

  -- On a bitmap with the documented laws and of the size of its range: a port from `SetAny` is in the
  -- range, was free, is the only one that changes, and the range
  -- stays as it is.
  pub set_any-IsFresh :
      (start end : ℕ) (pb : PortBitmap B) (p : ℕ) (pb' : PortBitmap B)
      → InRange start end pb
      → set_any ops pb ≡ some (p, pb')
      → IsFresh start end pb p pb'
  unfolding set_any
  set_any-IsFresh start end pb p pb' r e =
      taken-IsFresh start end pb (ops.set_any pb.ports) p pb' r refl e

  -- On a bitmap with the documented laws and of the size of its range, `SetAny` does not fail while a
  -- port of the range is free.
  pub set_any_total :
      (start end : ℕ) (pb : PortBitmap B) (p : ℕ)
      → InRange start end pb
      → start ≤ p
      → p < end
      → has pb p ≡ false
      → set_any ops pb ≢ none
  unfolding set_any
  set_any_total start end pb p r low high free e =
      laws.set_any_free pb.ports (p - pb.start) (omega (arith, r.first, r.size))
        (ground (arith, r.first)) (taken_none (ops.set_any pb.ports) e)
    where
      taken_none : (o : Option (ℕ × B)) → taken ops pb o ≡ none → o ≡ none
      taken_none none h = refl
      taken_none (some (i, b)) h = cc

  with_ports-IsFresh :
      (start end : ℕ) (pb : PortBitmap B) (o : Option B) (p : ℕ) (pb' : PortBitmap B)
      → InRange start end pb
      → pb.start ≤ p
      → ops.set pb.ports (p - pb.start) ≡ o
      → with_ports ops pb o ≡ some pb'
      → IsFresh start end pb p pb'
  with_ports-IsFresh start end pb none p pb' r low at e = cc
  with_ports-IsFresh start end pb (some b) p pb' r low at e =
      let here : ℕ × PortBitmap B = ((p - pb.start) + pb.start, record pb { ports = b }) in
      let same : here ≡ (p, pb') = ground arith in
      subst (λ x. IsFresh start end pb x.0 x.1) same
        (IsFresh-bit start end pb (p - pb.start) b r at)

  -- What `Set` is given and takes is in the range and was free.
  pub set-IsFresh :
      (start end : ℕ) (pb : PortBitmap B) (p : ℕ) (pb' : PortBitmap B)
      → InRange start end pb
      → set ops pb p ≡ some pb'
      → IsFresh start end pb p pb'
  unfolding set
  set-IsFresh start end pb p pb' r e = elim (Bool-cases (ltb p pb.start)) [
    | inl below ↦ absurd (ground arith)
    | inr above ↦
        with_ports-IsFresh start end pb (ops.set pb.ports (p - pb.start)) p pb' r (ground arith)
          refl (rw above at e)
  ]
