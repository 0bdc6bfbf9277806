-- ===== src/Xid.antt =====
-- Transaction ids and their circular order: TransactionIdPrecedesOrEquals of
-- pg_search/src/postgres/utils.rs. An id is a `u32`, a number below 2 ^ 32.
pub mod Circle
mod Examples
use paradedb.Common.{ℕ, ◌+◌, ◌-◌, ◌%◌, Bool, ◌||◌, not, leb, ◌==◌, if◌then◌else◌}

-- Constants of Postgres (`pg_sys`).
abbrev pub invalid_transaction_id : ℕ
invalid_transaction_id = 0

abbrev pub frozen_transaction_id : ℕ
frozen_transaction_id = 2

abbrev pub first_normal_transaction_id : ℕ
first_normal_transaction_id = 3

abbrev pub u32_mod : ℕ
u32_mod = 4294967296

abbrev pub i32_sign : ℕ
i32_sign = 2147483648

unfoldable pub is_transaction_id_normal : ℕ → Bool
is_transaction_id_normal xid = leb first_normal_transaction_id xid

-- The bit pattern of the wrapping difference of two ids, read as an `i32`, is at most 0 when it is
-- zero or has its sign bit set.
unfoldable pub wrapping_sub_le_zero : ℕ → ℕ → Bool
wrapping_sub_le_zero id1 id2 =
    let diff = (id1 + u32_mod - id2) % u32_mod in diff == 0 || leb i32_sign diff

unfoldable pub transaction_id_precedes_or_equals : ℕ → ℕ → Bool
unfolding is_transaction_id_normal wrapping_sub_le_zero
transaction_id_precedes_or_equals id1 id2 =
    if not (is_transaction_id_normal id1) || not (is_transaction_id_normal id2)
    then leb id1 id2
    else wrapping_sub_le_zero id1 id2
