-- ===== src/Xid/Circle.antt =====
-- What the circular order of transaction ids promises.
use paradedb.Common.{ℕ, ◌+◌, ◌-◌, ◌%◌, ◌≤◌, ◌<◌, ◌≡◌, ◌⊎◌, ◌↔◌, true, arith}
use paradedb.Xid.{u32_mod, i32_sign, transaction_id_precedes_or_equals}

-- For two normal ids, `id1` precedes or equals `id2` exactly when some number of increments, at
-- most 2 ^ 31, takes `id1` to `id2` on the circle of 2 ^ 32 ids.
pub precedes_or_equals-iff-steps :
    (id1 id2 : ℕ)
    → 3 ≤ id1
    → 3 ≤ id2
    → id1 < u32_mod
    → id2 < u32_mod
    → (transaction_id_precedes_or_equals id1 id2 ≡ true)
      ↔ ((steps : ℕ) × (steps ≤ i32_sign) × ((id1 + steps) % u32_mod ≡ id2))
unfolding transaction_id_precedes_or_equals
precedes_or_equals-iff-steps id1 id2 n1 n2 b1 b2 = (
  λ h. ((id2 + u32_mod - id1) % u32_mod, ground arith, ground arith),
  λ s. ground (arith, s.1, s.2),
)

-- Any two ids are ordered one way or the other; both ways only if they are equal or lie half the
-- circle apart.
pub precedes_or_equals_total :
    (id1 id2 : ℕ)
    → id1 < u32_mod
    → id2 < u32_mod
    → ((transaction_id_precedes_or_equals id1 id2 ≡ true)
        ⊎ (transaction_id_precedes_or_equals id2 id1 ≡ true))
      × (transaction_id_precedes_or_equals id1 id2 ≡ true
          → transaction_id_precedes_or_equals id2 id1 ≡ true
          → (id1 ≡ id2) ⊎ ((id1 + i32_sign ≡ id2) ⊎ (id2 + i32_sign ≡ id1)))
unfolding transaction_id_precedes_or_equals
precedes_or_equals_total id1 id2 b1 b2 = (ground arith, λ h k. ground arith)
