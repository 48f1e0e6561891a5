-- ===== src/Buffer/Tests.antt =====
-- The theorem on the buffering client at one transaction that puts a key twice.
use ledger_database.Prelude.{refl, List, [], ◌∷◌, true}
use ledger_database.Txn.{Timestamp, no_transaction}
use ledger_database.Buffer.{Answer, BufferClient, begin}
use ledger_database.Buffer.Sets.{
  Op, op_batch_get, op_buffer_key, op_get, op_put, exec_all, Sends, prepare-Sends,
}

abbrev at_nine : Timestamp
at_nine = record { timestamp = 9; id = 0 }

abbrev found_a : Answer
found_a = record { is_ok = true; values = ((97 ∷ []), (1 ∷ [])) ∷ []; timestamps = at_nine ∷ [] }

abbrev old_client : BufferClient
old_client = record { tid = 3; txn = no_transaction; history = []; buffer = (98 ∷ []) ∷ [] }

abbrev puts_twice : List Op
puts_twice =
    op_buffer_key (97 ∷ [])
    ∷ op_batch_get found_a
    ∷ op_put (98 ∷ []) (1 ∷ [])
    ∷ op_get (98 ∷ [])
    ∷ op_put (98 ∷ []) (2 ∷ [])
    ∷ []

prepare-Sends_example : Sends 4 puts_twice at_nine (exec_all (begin old_client 4).0 puts_twice)
prepare-Sends_example = prepare-Sends old_client 4 puts_twice at_nine (refl, tt)
