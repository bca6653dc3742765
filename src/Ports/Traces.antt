-- ===== src/Ports/Traces.antt =====
-- Sequences of operations on one port bitmap, in the order in which its lock lets them in.
use ngrok_operator.Common.{
  ℕ, ◌-◌, ◌<◌, ◌≤◌, Bool, true, false, Option, none, some, List, [], ◌∷◌, ltb, ◌==◌, nat_eq,
  if◌then◌else◌, ◌≡◌, ◌≢◌, refl, arith, Bool-cases, inl, inr, subst, any, not,
}
use ngrok_operator.Ports.{Bitmap, BitmapLaws, PortBitmap, set_any, set, unset, replace, with_ports}
use ngrok_operator.Ports.Laws.{has, InRange, IsFresh, set_any-IsFresh, set-IsFresh}

-- A port that was handed out, by choice or on demand, or given back; or the whole bitmap replaced by
-- one that holds the ports of a test.
pub data Event : Type 0 where
  allocated : ℕ → Event
  reserved : ℕ → Event
  released : ℕ → Event
  swapped : (ℕ → Bool) → Event

-- The event gives the port back: by name, or with a bitmap that does not hold it.
abbrev pub gives_back : ℕ → Event → Bool
gives_back p (released q) = q == p
gives_back p (swapped held) = not (held p)
gives_back p _ = false

abbrev pub hands_out : ℕ → Event → Bool
hands_out p (allocated q) = q == p
hands_out p (reserved q) = q == p
hands_out p _ = false

module _ {B : Type 0} (ops : Bitmap B) (laws : BitmapLaws ops) where
  -- The successful operations; one that fails changes nothing. A bitmap is replaced by one for a range
  -- of the same size, as the poller does.
  pub data Step : PortBitmap B → Event → PortBitmap B → Type 0 where
    allocates :
        {pb pb' : PortBitmap B} {p : ℕ} → set_any ops pb ≡ some (p, pb') → Step pb (allocated p) pb'
    reserves : {pb pb' : PortBitmap B} {p : ℕ} → set ops pb p ≡ some pb' → Step pb (reserved p) pb'
    releases :
        {pb pb' : PortBitmap B} {p : ℕ} → unset ops pb p ≡ some pb' → Step pb (released p) pb'
    replaces :
        {pb : PortBitmap B} (other : PortBitmap B)
        → laws.bits other.ports ≡ laws.bits pb.ports
        → Step pb (swapped (has ops laws (replace ops pb other))) (replace ops pb other)

  pub data Trace : PortBitmap B → List Event → PortBitmap B → Type 0 where
    done : {pb : PortBitmap B} → Trace pb [] pb
    then_step :
        {pb mid pb' : PortBitmap B} {e : Event} {es : List Event}
        → Step pb e mid
        → Trace mid es pb'
        → Trace pb (e ∷ es) pb'

  -- Giving a port back frees it and no other, and keeps the range.
  pub record IsReleased (start end : ℕ) (pb : PortBitmap B) (p : ℕ) (pb' : PortBitmap B)
      : Type 0 where
    pub only_it : (q : ℕ) → has ops laws pb' q ≡ (if p == q then false else has ops laws pb q)
    pub still : InRange ops laws start end pb'

  with_ports-IsReleased :
      (start end : ℕ) (pb : PortBitmap B) (o : Option B) (p : ℕ) (pb' : PortBitmap B)
      → InRange ops laws start end pb
      → pb.start ≤ p
      → ops.unset pb.ports (p - pb.start) ≡ o
      → with_ports ops pb o ≡ some pb'
      → IsReleased start end pb p pb'
  with_ports-IsReleased start end pb none p pb' r low at e = cc
  with_ports-IsReleased start end pb (some b) p pb' r low at e =
      let same : record pb { ports = b } ≡ pb' = ground arith in
      subst (λ x. IsReleased start end pb p x) same
        (record {
          only_it =
              λ q. ground (arith, laws.unset_after pb.ports (p - pb.start) b at (q - pb.start));
          still = record {
            first = r.first;
            fits = r.fits;
            size = omega (arith, r.size, laws.unset_bits pb.ports (p - pb.start) b at);
          };
        })

  pub unset-IsReleased :
      (start end : ℕ) (pb : PortBitmap B) (p : ℕ) (pb' : PortBitmap B)
      → InRange ops laws start end pb
      → unset ops pb p ≡ some pb'
      → IsReleased start end pb p pb'
  unfolding unset
  unset-IsReleased start end pb p pb' r e = elim (Bool-cases (ltb p pb.start)) [
    | inl below ↦ absurd (ground arith)
    | inr above ↦
        with_ports-IsReleased start end pb (ops.unset pb.ports (p - pb.start)) p pb' r
          (ground arith) refl (rw above at e)
  ]

  -- A port of the range can be given back.
  pub unset_total :
      (start end : ℕ) (pb : PortBitmap B) (p : ℕ)
      → InRange ops laws start end pb
      → start ≤ p
      → p < end
      → unset ops pb p ≢ none
  unfolding unset
  unset_total start end pb p r low high e =
      laws.unset_in_range pb.ports (p - pb.start) (omega (arith, r.first, r.size))
        (none_inside (ops.unset pb.ports (p - pb.start)) (ground (arith, r.first)))
    where
      none_inside : (o : Option B) → with_ports ops pb o ≡ none → o ≡ none
      none_inside none h = refl
      none_inside (some b) h = cc

  -- What one step does to a port p.
  record Effect (start end p : ℕ) (pb : PortBitmap B) (e : Event) (pb' : PortBitmap B)
      : Type 0 where
    still : InRange ops laws start end pb'
    ranges : hands_out p e ≡ true → (start ≤ p) × (p < end)
    frees : hands_out p e ≡ true → has ops laws pb p ≡ false
    takes : hands_out p e ≡ true → has ops laws pb' p ≡ true
    keeps : gives_back p e ≡ false → has ops laws pb p ≡ true → has ops laws pb' p ≡ true

  -- Both ways of handing out a port have the same effect.
  Effect-of_IsFresh :
      (start end p q : ℕ) (pb pb' : PortBitmap B) (e : Event)
      → IsFresh ops laws start end pb q pb'
      → (hands_out p e ≡ (q == p))
      → Effect start end p pb e pb'
  Effect-of_IsFresh start end p q pb pb' e f same = record {
    still = f.still;
    ranges = λ h. (omega (arith, f.low, named h), omega (arith, f.high, named h));
    frees = λ h. subst (λ x. has ops laws pb x ≡ false) (named h) f.free;
    takes = λ h. ground (arith, f.only_it p);
    keeps = λ g t. ground (arith, f.only_it p);
  }
    where
      named : hands_out p e ≡ true → q ≡ p
      named h = ground arith

  Step-Effect :
      (start end p : ℕ) (pb : PortBitmap B) (e : Event) (pb' : PortBitmap B)
      → InRange ops laws start end pb
      → Step pb e pb'
      → Effect start end p pb e pb'
  unfolding replace
  Step-Effect start end p pb _ pb' r (allocates {p = q} s) =
      Effect-of_IsFresh start end p q pb pb' (allocated q)
        (set_any-IsFresh ops laws start end pb q pb' r s) refl
  Step-Effect start end p pb _ pb' r (reserves {p = q} s) =
      Effect-of_IsFresh start end p q pb pb' (reserved q)
        (set-IsFresh ops laws start end pb q pb' r s) refl
  Step-Effect start end p pb _ pb' r (releases {p = q} s) =
      let d = unset-IsReleased start end pb q pb' r s in
      record {
        still = d.still;
        ranges = λ h. cc;
        frees = λ h. cc;
        takes = λ h. cc;
        keeps = λ g t. ground (arith, d.only_it p);
      }
  Step-Effect start end p pb _ _ r (replaces other same) = record {
    still = record { first = r.first; fits = r.fits; size = omega (arith, r.size, same) };
    ranges = λ h. cc;
    frees = λ h. cc;
    takes = λ h. cc;
    keeps = λ g t. ground (arith, g);
  }

  kept_out :
      (start end p : ℕ) (pb : PortBitmap B) (es : List Event) (pb' : PortBitmap B)
      → InRange ops laws start end pb
      → has ops laws pb p ≡ true
      → any (gives_back p) es ≡ false
      → Trace pb es pb'
      → any (hands_out p) es ≡ false
  kept_out start end p pb [] pb' r t g tr = refl
  kept_out start end p pb (e ∷ es) pb' r t g (then_step {mid = mid} s tr) =
      let d = Step-Effect start end p pb e mid r s in
      let here : hands_out p e ≡ false = ground (arith, d.frees) in
      let later =
        kept_out start end p mid es pb' d.still (d.keeps (ground arith) t) (ground arith) tr in
      ground arith

  -- However SetAny, Set, Unset and Replace interleave, on a bitmap with the documented laws and of the
  -- size of its range, which Replace keeps: once a port is handed out, it is not handed out again,
  -- neither by `SetAny` nor by `Set`, as long as neither `Unset` gives it back nor `Replace` puts a
  -- bitmap without it in place.
  pub never_twice :
      (start end p : ℕ) (pb : PortBitmap B) (e : Event) (es : List Event) (pb' : PortBitmap B)
      → InRange ops laws start end pb
      → Trace pb (e ∷ es) pb'
      → hands_out p e ≡ true
      → any (gives_back p) es ≡ false
      → any (hands_out p) es ≡ false
  never_twice start end p pb e es pb' r (then_step {mid = mid} s tr) out g =
      let d = Step-Effect start end p pb e mid r s in
      kept_out start end p mid es pb' d.still (d.takes out) g tr

  -- On a bitmap with the documented laws and of the size of its range, which Replace keeps: every port
  -- that is handed out in a sequence of SetAny, Set, Unset and Replace is at least the first of the range and below its end, which is itself
  -- never handed out.
  pub handed_out_range :
      (start end p : ℕ) (pb : PortBitmap B) (es : List Event) (pb' : PortBitmap B)
      → InRange ops laws start end pb
      → Trace pb es pb'
      → any (hands_out p) es ≡ true
      → (start ≤ p) × (p < end)
  handed_out_range start end p pb [] pb' r tr h = cc
  handed_out_range start end p pb (e ∷ es) pb' r (then_step {mid = mid} s tr) h =
      let d = Step-Effect start end p pb e mid r s in
      elim (Bool-cases (hands_out p e)) [
        | inl out ↦ d.ranges out
        | inr other ↦ handed_out_range start end p mid es pb' d.still tr (ground arith)
      ]
