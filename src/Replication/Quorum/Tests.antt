-- ===== src/Replication/Quorum/Tests.antt =====
-- The theorems on quorums at three replicas, of which one sends twice.
use ledger_database.Prelude.{ℕ, ◌≡◌, List, [], ◌∷◌, some, none, leb, if◌then◌else◌}
use ledger_database.Maps.{number_order, assign_all}
use ledger_database.Replication.Quorum.{QuorumSet, check_for_quorum, clear_at}
use ledger_database.Replication.Quorum.Count.{add_all, senders, check_for_quorum-senders}

-- Acknowledgements, as the numbers that they carry.
abbrev sent : List (ℕ × ℕ)
sent = (0, 5) ∷ (2, 5) ∷ (0, 6) ∷ []

abbrev waiting : QuorumSet ℕ ℕ
waiting = record { num_required = 2; messages = (4, (1, 4) ∷ []) ∷ [] }

check_for_quorum-senders_example :
    (check_for_quorum (add_all (clear_at waiting 7) 7 sent) 7).1
    ≡ (if leb 2 (senders [] sent) then some (assign_all [] sent) else none)
check_for_quorum-senders_example = check_for_quorum-senders waiting 7 sent
