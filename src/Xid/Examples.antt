-- ===== src/Xid/Examples.antt =====
-- Runs and instances of the circular order.
use paradedb.Common.{ℕ, ◌+◌, ◌%◌, ◌≤◌, ◌≡◌, refl, ◌⊎◌, ◌↔◌, true, arith}
use paradedb.Xid.{u32_mod, i32_sign, transaction_id_precedes_or_equals}
use paradedb.Xid.Circle.{precedes_or_equals-iff-steps, precedes_or_equals_total}

-- An id near the top of the range precedes a small one.
wraps_around : transaction_id_precedes_or_equals 4294967290 5 ≡ true
unfolding transaction_id_precedes_or_equals
wraps_around = refl

precedes_or_equals-iff-steps_example :
    (transaction_id_precedes_or_equals 4294967290 5 ≡ true)
    ↔ ((steps : ℕ) × (steps ≤ i32_sign) × ((4294967290 + steps) % u32_mod ≡ 5))
precedes_or_equals-iff-steps_example =
    precedes_or_equals-iff-steps 4294967290 5 (omega arith) (omega arith) (omega arith)
      (omega arith)

precedes_or_equals_total_example :
    ((transaction_id_precedes_or_equals 7 9 ≡ true)
      ⊎ (transaction_id_precedes_or_equals 9 7 ≡ true))
    × (transaction_id_precedes_or_equals 7 9 ≡ true
        → transaction_id_precedes_or_equals 9 7 ≡ true
        → (◌≡◌ {A = ℕ} 7 9) ⊎ ((7 + i32_sign ≡ 9) ⊎ (9 + i32_sign ≡ 7)))
precedes_or_equals_total_example = precedes_or_equals_total 7 9 (omega arith) (omega arith)
