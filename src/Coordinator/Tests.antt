-- ===== src/Coordinator/Tests.antt =====
-- The theorems on the client of all shards at two shards, of which one may refuse a transaction.
use mathlib.Core.Option
use ledger_database.Prelude.{
  some, ℕ, ◌+◌, ◌≡◌, refl, List, [], ◌∷◌, true, ◌==◌, if◌then◌else◌, arith,
}
use ledger_database.Txn.{no_transaction}
use ledger_database.Buffer.{BufferClient}
use ledger_database.Coordinator.{
  Gathered, mode_occ, Coordinator, ShardAnswer, members, begin, put, get, get_range,
}
use ledger_database.Coordinator.TwoPhase.{Round, commit}
use ledger_database.Coordinator.TwoPhase.Decide.{Decided, commit-Decided}
use ledger_database.Coordinator.Shards.{
  Op, begins, gets, puts, batch_gets, gets_range, commits, aborts, perform_all, IsInRange, IfSome,
  called,
}
use ledger_database.Coordinator.Shards.Apart.{blanked}
use ledger_database.Coordinator.Shards.Confined.{perform_all-confined}
use ledger_database.Coordinator.Ranges.{get_range-commit}

abbrev client : Coordinator
client = record {
  mode = mode_occ;
  t_id = 70000;
  nshards = 2;
  participants = [];
  bclient = λ i. record { tid = 0; txn = no_transaction; history = []; buffer = [] };
  calls = [];
}

-- The second shard answers that it is to be tried again.
abbrev rounds : ℕ → Round
rounds i = record {
  stamp = 500;
  votes = λ shard. record { reply = if shard == 1 then 2 else 0; timestamp = 600 + shard };
}

abbrev found : ℕ → ShardAnswer
found i = record {
  reply = 0;
  values = (65 ∷ i ∷ [], 66 ∷ []) ∷ [];
  timestamps = record { timestamp = 40; id = 1 } ∷ [];
  unverified = (3, 65 ∷ i ∷ []) ∷ [];
}

abbrev busy : Coordinator
busy = put (get (begin client) (65 ∷ [])) (66 ∷ []) (67 ∷ [])

commit-Decided_example : Decided busy (rounds 0) 800 (commit busy rounds 800)
commit-Decided_example = commit-Decided busy rounds 800

abbrev ops : List Op
ops =
    begins
    ∷ gets (65 ∷ [])
    ∷ puts (66 ∷ []) (67 ∷ [])
    ∷ batch_gets found [] []
    ∷ gets_range (65 ∷ []) (70 ∷ []) found [] []
    ∷ commits rounds 800
    ∷ aborts
    ∷ []

client-IsInRange : IsInRange client.bclient 2 client
unfolding members called
client-IsInRange = record { count = refl; joined = tt; made = tt; others = λ i far. refl }

perform_all-confined_example :
    IfSome (IsInRange client.bclient 2) (perform_all client ops)
    × ((blank : BufferClient)
        → perform_all (blanked 2 blank client) ops
          ≡ Option.map (blanked 2 blank) (perform_all client ops))
perform_all-confined_example = perform_all-confined 2 client ops (omega arith) client-IsInRange

get_range-commit_example :
    (out : Coordinator × Gathered) × (get_range (begin busy) (65 ∷ []) (70 ∷ []) found [] []
      ≡ some out)
    × (commit out.0 rounds 800 ≡ (out.0, true))
get_range-commit_example =
    get_range-commit busy (65 ∷ []) (70 ∷ []) found [] [] rounds 800 (λ i. tt)
