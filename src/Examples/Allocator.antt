-- ===== src/Examples/Allocator.antt =====
-- The port allocator on a bitmap of three bits.
use ngrok_operator.Common.{true, false, [], ◌∷◌, any, is_some, ◌≡◌, ◌≤◌, ◌<◌, refl, arith}
use ngrok_operator.Ports.{PortBitmap, set_any, set, replace, new_port_bitmap}
use ngrok_operator.Ports.Laws.{has, InRange, IsFresh, set_any-IsFresh}
use ngrok_operator.Ports.Capacity.{take_ports, set_any_capacity}
use ngrok_operator.Ports.Traces.{
  allocated, reserved, swapped, replaces, hands_out, Trace, done, then_step, allocates, reserves,
  never_twice, handed_out_range,
}
use ngrok_operator.Examples.Bits.{Bits, bits_ops, bits_laws}

-- The ports 5000, 5001 (taken) and 5002.
abbrev pub pool : PortBitmap Bits
pool = record { start = 5000; ports = false ∷ (true ∷ (false ∷ [])) }

abbrev pub pool_after : PortBitmap Bits
pool_after = record { start = 5000; ports = true ∷ (true ∷ (false ∷ [])) }

abbrev full : PortBitmap Bits
full = record { start = 5000; ports = true ∷ (true ∷ (true ∷ [])) }

pub pool-InRange : InRange bits_ops bits_laws 5000 5003 pool
pool-InRange = record { first = refl; fits = omega arith; size = refl }

-- With an end of 5002, two ports are free.
new_port_bitmap_test :
    new_port_bitmap bits_ops 5000 5002 ≡ record { start = 5000; ports = false ∷ (false ∷ []) }
unfolding new_port_bitmap
new_port_bitmap_test = refl

set_any-IsFresh_example : IsFresh bits_ops bits_laws 5000 5003 pool 5000 pool_after
unfolding set_any
set_any-IsFresh_example =
    set_any-IsFresh bits_ops bits_laws 5000 5003 pool 5000 pool_after pool-InRange refl

-- All three ports of the range can be taken.
set_any_capacity_example :
    is_some (take_ports bits_ops bits_laws 3 (new_port_bitmap bits_ops 5000 5003)) ≡ true
set_any_capacity_example =
    set_any_capacity bits_ops bits_laws 5000 5003 3 (omega arith) (omega arith)

-- 5000 is chosen, then 5002 is asked for.
two_steps : Trace bits_ops bits_laws pool (allocated 5000 ∷ (reserved 5002 ∷ [])) full
unfolding set_any set
two_steps = then_step (allocates refl) (then_step (reserves refl) done)

-- The bitmap is replaced by one that holds 5000 and 5001, and 5002 is asked for.
abbrev refreshed : PortBitmap Bits
refreshed = record { start = 5000; ports = true ∷ (true ∷ (false ∷ [])) }

refresh_steps :
    Trace bits_ops bits_laws pool
      (allocated 5000 ∷ (swapped (has bits_ops bits_laws refreshed) ∷ (reserved 5002 ∷ [])))
      full
unfolding set_any set replace
refresh_steps =
    then_step (allocates refl)
      (then_step (replaces refreshed refl) (then_step (reserves refl) done))

never_twice_example :
    any (hands_out 5000) (swapped (has bits_ops bits_laws refreshed) ∷ (reserved 5002 ∷ [])) ≡ false
never_twice_example =
    never_twice bits_ops bits_laws 5000 5003 5000 pool (allocated 5000)
      (swapped (has bits_ops bits_laws refreshed) ∷ (reserved 5002 ∷ [])) full pool-InRange
      refresh_steps refl refl

handed_out_range_example : (5000 ≤ 5002) × (5002 < 5003)
handed_out_range_example =
    handed_out_range bits_ops bits_laws 5000 5003 5002 pool (allocated 5000 ∷ (reserved 5002 ∷ []))
      full pool-InRange two_steps refl
