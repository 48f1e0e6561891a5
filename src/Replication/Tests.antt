-- ===== src/Replication/Tests.antt =====
-- The theorems on the replication log at two short logs, hashed by a sum of the bytes.
use ledger_database.Prelude.{
  ℕ, zero, suc, ◌+◌, ◌%◌, ◌≡◌, refl, List, [], ◌∷◌, some, false, get_elem?, arith,
}
use ledger_database.Panic.{◌>>=◌}
use ledger_database.Replication.{Viewstamp, Request}
use ledger_database.Replication.Log.{LogEntry, Log, prepared, append, remove_after, install, dump}
use ledger_database.Replication.Log.Entries.{IsLog, Appended, append-Appended}
use ledger_database.Replication.Log.Removal.{Removed, remove_after-Removed}
use ledger_database.Replication.Log.Transfer.{Installed, install-Installed}
use ledger_database.Replication.Log.Shipped.{Shipped, dump-install-Shipped}

abbrev sum_hash : List ℕ → List ℕ
sum_hash [] = 0 ∷ []
sum_hash (x ∷ xs) = elim (sum_hash xs) [ [] ↦ [] | y ∷ ys ↦ (x + y) % 256 ∷ ys ]

abbrev stamp : ℕ → ℕ → Viewstamp
stamp v n = record { view = v; opnum = n }

abbrev get_a : Request
get_a = record { clientid = 7; clientreqid = 1; op = 65 ∷ [] }

abbrev entry_at : ℕ → ℕ → LogEntry
entry_at v n = record { viewstamp = stamp v n; state = prepared; request = get_a; hash = [] }

-- Two entries of view 0, and three entries of which the last two are of view 1.
abbrev short_log : Log
short_log = record {
  entries = entry_at 0 1 ∷ entry_at 0 2 ∷ [];
  initial_hash = [];
  start = 1;
  use_hash = false;
}

abbrev long_log : Log
long_log = record {
  entries = entry_at 0 1 ∷ entry_at 1 2 ∷ entry_at 1 3 ∷ [];
  initial_hash = [];
  start = 1;
  use_hash = false;
}

short_numbered :
    (i : ℕ) (e : LogEntry) → get_elem? short_log.entries i ≡ some e → e.viewstamp.opnum ≡ 1 + i
short_numbered zero e h = cc
short_numbered (suc zero) e h = cc
short_numbered (suc (suc i)) e h = absurd (cc)

long_numbered :
    (i : ℕ) (e : LogEntry) → get_elem? long_log.entries i ≡ some e → e.viewstamp.opnum ≡ 1 + i
long_numbered zero e h = cc
long_numbered (suc zero) e h = cc
long_numbered (suc (suc zero)) e h = cc
long_numbered (suc (suc (suc i))) e h = absurd (cc)

short-IsLog : IsLog short_log
short-IsLog = record { from_one = omega arith; room = omega arith; numbered = short_numbered }

long-IsLog : IsLog long_log
long-IsLog = record { from_one = omega arith; room = omega arith; numbered = long_numbered }

append-Appended_example :
    Appended short_log
      (stamp 1 3)
      get_a
      prepared
      (append sum_hash short_log (stamp 1 3) get_a prepared)
append-Appended_example =
    append-Appended sum_hash short_log (stamp 1 3) get_a prepared short-IsLog refl (omega arith)

remove_after-Removed_example : Removed long_log 2 (remove_after long_log 2)
remove_after-Removed_example = remove_after-Removed long_log 2 long-IsLog (omega arith)

install-Installed_example :
    Installed short_log short_log 2
      (entry_at 1 2 ∷ entry_at 1 3 ∷ [])
      (install sum_hash short_log (entry_at 1 2 ∷ entry_at 1 3 ∷ []))
install-Installed_example =
    install-Installed sum_hash (entry_at 1 2 ∷ entry_at 1 3 ∷ []) short_log 2 short-IsLog
      (omega arith) (omega arith) (refl, (refl, tt)) (omega arith)

dump-install-Shipped_example :
    Shipped long_log short_log 2 (dump long_log 2 >>= install sum_hash short_log)
dump-install-Shipped_example =
    dump-install-Shipped sum_hash long_log short_log 2 long-IsLog short-IsLog (omega arith)
      (omega arith) (omega arith)
