-- ===== src/Replication/Client/Tests.antt =====
-- The theorems on the client at one that sends two requests, with answers that come twice.
use ledger_database.Prelude.{List, [], ◌∷◌, some, true, arith}
use ledger_database.Panic.{Ensures}
use ledger_database.Replication.Messages
use ledger_database.Replication.Client.{
  new_client, Event, invokes, invokes_unlogged, resends, times_out, receives, run,
}
use ledger_database.Replication.Client.Waiting.{Distinct}
use ledger_database.Replication.Client.Once.{run-Distinct}

abbrev answer : Event
answer =
    receives (Messages.reply (record { view = 0; opnum = 1; clientreqid = 1; reply = 66 ∷ [] }))

abbrev events : List Event
events =
    invokes (65 ∷ []) 5 true
    ∷ invokes_unlogged 2 (67 ∷ []) 6 (some 7) true
    ∷ resends 1 true
    ∷ answer
    ∷ times_out 2
    ∷ answer
    ∷ []

run-Distinct_example : Ensures (λ c. Distinct c.outcomes) (run (new_client 3) events)
run-Distinct_example = run-Distinct 3 events (omega arith)
