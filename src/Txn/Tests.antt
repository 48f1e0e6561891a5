-- ===== src/Txn/Tests.antt =====
-- The theorems on timestamps and transactions at small values.
use ledger_database.Prelude.{ℕ, ◌≡◌, refl, [], ◌∷◌}
use ledger_database.Txn.{Timestamp, Transaction}
use ledger_database.Txn.Codec.{read_transaction, serialize, read_transaction-serialize}

abbrev at : ℕ → ℕ → Timestamp
at t i = record { timestamp = t; id = i }

abbrev transfer : Transaction
transfer = record {
  read_set = ((97 ∷ []), at 4 1) ∷ ((98 ∷ []), at 5 1) ∷ [];
  write_set = ((98 ∷ []), (1 ∷ 2 ∷ [])) ∷ [];
}

read_transaction-serialize_example : read_transaction (serialize transfer) ≡ transfer
read_transaction-serialize_example =
    read_transaction-serialize transfer ((refl, tt), (tt, tt)) (tt, tt)
