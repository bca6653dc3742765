-- ===== src/Ports/Capacity.antt =====
-- How many ports internal/controller/bindings/port_allocator.go can hand out.
use ngrok_operator.Common.{
  ℕ, zero, suc, ◌+◌, ◌-◌, ◌%◌, ◌≤◌, ◌<◌, Bool, true, false, Option, none, some, List, [], ◌∷◌, leb,
  ltb, ◌==◌, nat_eq, is_some, if◌then◌else◌, ◌≡◌, refl, ◌∙◌, arith, Bool-cases, Option-cases, inl,
  inr, nat_beq_iff,
}
use ngrok_operator.Ports.{Bitmap, BitmapLaws, PortBitmap, uint16, new_port_bitmap, set_any}
use ngrok_operator.Ports.Laws.{
  has, InRange, IsFresh, new_port_bitmap-InRange, set_any-IsFresh, set_any_total,
}

-- How many numbers below a bound pass a test.
abbrev passing : (ℕ → Bool) → ℕ → ℕ
passing f zero = 0
passing f (suc n) = let rest = passing f n in if f n then suc rest else rest

count_le : (f : ℕ → Bool) (n : ℕ) → passing f n ≤ n
count_le f zero = omega arith
count_le f (suc n) = ground (arith, count_le f n)

count_none : (f : ℕ → Bool) (n : ℕ) → ((i : ℕ) → f i ≡ false) → passing f n ≡ 0
count_none f zero h = refl
count_none f (suc n) h = ground (arith, h n, count_none f n h)

-- One more number passes.
count_beyond :
    (f g : ℕ → Bool) (p n : ℕ)
    → ((i : ℕ) → g i ≡ (if p == i then true else f i))
    → n ≤ p
    → passing g n ≡ passing f n
count_beyond f g p zero h k = refl
count_beyond f g p (suc n) h k =
    ground (arith, h n, nat_beq_iff p n, count_beyond f g p n h (omega (arith, k)))

count_added :
    (f g : ℕ → Bool) (p n : ℕ)
    → ((i : ℕ) → g i ≡ (if p == i then true else f i))
    → f p ≡ false
    → p < n
    → passing g n ≡ suc (passing f n)
count_added f g p zero h new k = absurd (omega arith)
count_added f g p (suc n) h new k = elim (Bool-cases (p == n)) [
  | inl this ↦
      let at : p ≡ n = (nat_beq_iff p n).0 this in
      let same = count_beyond f g p n h (omega (arith, at)) in
      let off : f n ≡ false = rw at at new in ground (arith, h n, same, off, this)
  | inr other ↦
      let rest = count_added f g p n h new (ground (arith, nat_beq_iff p n)) in
      ground (arith, h n, rest, other)
]

record FreeBelow (f : ℕ → Bool) (n : ℕ) : Type 0 where
  at : ℕ
  below : at < n
  free : f at ≡ false

free_below : (f : ℕ → Bool) (n : ℕ) → passing f n < n → FreeBelow f n
free_below f zero h = absurd (omega arith)
free_below f (suc n) h = elim (Bool-cases (f n)) [
  | inr off ↦ record { at = n; below = omega arith; free = off }
  | inl on ↦
      let rest = free_below f n (ground (arith, on)) in
      record { at = rest.at; below = omega (arith, rest.below); free = rest.free }
]

module _ {B : Type 0} (ops : Bitmap B) (laws : BitmapLaws ops) where
  abbrev collect : ℕ → Option (List ℕ × PortBitmap B) → Option (List ℕ × PortBitmap B)
  collect p none = none
  collect p (some (ps, pb)) = some (p ∷ ps, pb)

  -- That many calls of `SetAny`, none if one of them fails.
  abbrev pub take_ports : ℕ → PortBitmap B → Option (List ℕ × PortBitmap B)
  take_ports zero pb = some ([], pb)
  take_ports (suc n) pb = elim (set_any ops pb) [
    | none ↦ none
    | some (p, pb') ↦ collect p (take_ports n pb')
  ]

  -- The ports of a range that are handed out.
  abbrev used : ℕ → ℕ → PortBitmap B → ℕ
  used start end pb = passing (λ i. has ops laws pb (i + start)) (end - start)

  used_one_more :
      (start end p : ℕ) (pb pb' : PortBitmap B)
      → IsFresh ops laws start end pb p pb'
      → used start end pb' ≡ suc (used start end pb)
  used_one_more start end p pb pb' f =
      count_added (λ i. has ops laws pb (i + start)) (λ i. has ops laws pb' (i + start)) (p - start)
        (end - start)
        (λ i. ground (
          arith,
          f.only_it (i + start),
          nat_beq_iff p (i + start),
          nat_beq_iff (p - start) i,
          f.low,
        ))
        (let at : (p - start) + start ≡ p = omega (arith, f.low) in rw at f.free)
        (omega (arith, f.low, f.high))

  is_some-collect : (p : ℕ) (o : Option (List ℕ × PortBitmap B)) → is_some (collect p o) ≡ is_some o
  is_some-collect p none = refl
  is_some-collect p (some (ps, pb)) = refl

  take_ports_from :
      (start end n : ℕ) (pb : PortBitmap B)
      → InRange ops laws start end pb
      → is_some (take_ports n pb) ≡ leb (used start end pb + n) (end - start)
  take_ports_from start end zero pb r =
      ground (arith, count_le (λ i. has ops laws pb (i + start)) (end - start))
  take_ports_from start end (suc n) pb r = elim (Option-cases (set_any ops pb)) [
    | inl full ↦ elim (Bool-cases (ltb (used start end pb) (end - start))) [
      | inr all_used ↦ rw (is_some, full) (ground arith)
      | inl some_free ↦
          let f = free_below (λ i. has ops laws pb (i + start)) (end - start) (ground arith) in
          absurd (
            set_any_total ops laws start end pb (f.at + start) r (omega arith)
              (omega (arith, f.below)) f.free full)
    ]
    | inr ((p, pb'), went) ↦
        let f = set_any-IsFresh ops laws start end pb p pb' r went in
        let rest = take_ports_from start end n pb' f.still in
        let more = used_one_more start end p pb pb' f in
        rw (is_some, went) (is_some-collect p (take_ports n pb') ∙ rest ∙ rw more (ground arith))
  ]

  -- From a new bitmap with the documented laws, for any range of uint16 ports: exactly as many calls of
  -- `SetAny` in a row succeed as there are ports from the first of the range up to, and without, its
  -- end.
  pub set_any_capacity :
      (start end n : ℕ)
      → start ≤ end
      → end < uint16
      → is_some (take_ports n (new_port_bitmap ops start end)) ≡ leb n (end - start)
  unfolding new_port_bitmap
  set_any_capacity start end n h k =
      let pb = new_port_bitmap ops start end in
      let none_used : used start end pb ≡ 0 =
        count_none (λ i. has ops laws pb (i + start)) (end - start)
          (λ i.
            ground
              (arith, laws.is_set_new ((end + (uint16 - start)) % uint16) ((i + start) - start))) in
      take_ports_from start end n pb (new_port_bitmap-InRange ops laws start end h k)
      ∙ rw none_used (ground arith)
