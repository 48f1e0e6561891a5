-- ===== src/Replication/Replica/Tests.antt =====
-- The theorems on the replica at three replicas, the first of which leads view 0, with a service
-- that answers with the operation.
use ledger_database.Prelude.{
  ℕ, zero, suc, ◌+◌, ◌-◌, ◌≤◌, ◌<◌, ◌≡◌, refl, List, [], ◌∷◌, some, true, false, get_elem?, arith,
}
use ledger_database.Panic.{ok, panic}
use ledger_database.Configuration.{get_leader_index, quorum_size}
use ledger_database.Replication.{Request}
use ledger_database.Replication.Messages.{
  Prepare, PrepareOk, DoViewChange, StartViewChange, Message, commit,
}
use ledger_database.Replication.Log.{Log, LogEntry, prepared, committed, last_viewstamp, find}
use ledger_database.Replication.Quorum.{messages_at}
use ledger_database.Maps.{number_order, lookup, assign}
use ledger_database.Replication.Log.Entries.{IsLog, seen, seen_beyond}
use ledger_database.Replication.Replica.{AppReplica, Host, Replica, update_client_table, empty_hash}
use ledger_database.Replication.Replica.Methods.{am_leader, new_replica, commit_up_to, close_batch}
use ledger_database.Replication.Messages.{prepare, to_all}
use ledger_database.Replication.Replica.{
  ClientTableEntry, empty_reply, entry_of, batch_requests, view_change,
}
use ledger_database.Replication.Replica.Handlers.{
  handle_prepare, handle_prepare_ok, handle_request, handle_commit,
}
use ledger_database.Replication.Replica.Views.{handle_do_view_change}
use ledger_database.Replication.Replica.Receive.{receive_message}
use ledger_database.Replication.Replica.Later.{Later}
use ledger_database.Replication.Replica.Forward.{receive_message-Later}
use ledger_database.Replication.Replica.Commits.{Committed, commit_up_to-Committed}
use ledger_database.Replication.Replica.Missing.{commit_up_to-panic}
use ledger_database.Replication.Replica.Prepares.{IsReady, record_all}
use ledger_database.Replication.Replica.Backup.{
  IsNext, Extends, new_requests, handle_prepare-Extends,
}
use ledger_database.Replication.Replica.Invariant.{new_replica-IsReady}
use ledger_database.Replication.Replica.Step.{receive_message-IsReady}
use ledger_database.Replication.Replica.Batch.{InView, Follows, Copied, close_batch-handle_prepare}
use ledger_database.Replication.Replica.Majority.{Decided, handle_prepare_ok-Decided}
use ledger_database.Replication.Replica.Requests.{Repeated, handle_request-Repeated}
use ledger_database.Replication.Replica.Unlogged.{IsNew, OutOfStep, handle_request-OutOfStep}
use ledger_database.Replication.Replica.Leads.{Leads, handle_do_view_change-Leads}

abbrev echo : AppReplica
echo = record {
  on_leader = λ calls n op. (true, op);
  on_replica = λ calls n op. op;
  on_unlogged = λ calls op. op;
}

abbrev host : ℕ → Host
host i = record {
  configuration = record { n = 3; f = 1 };
  my_idx = i;
  app = echo;
  sha1 = λ bytes. bytes;
}

abbrev get_a : Request
get_a = record { clientid = 7; clientreqid = 1; op = 65 ∷ [] }

abbrev first_entry : LogEntry
first_entry = record {
  viewstamp = record { view = 0; opnum = 1 };
  state = prepared;
  request = get_a;
  hash = [];
}

abbrev one_log : Log
one_log = record {
  entries = first_entry ∷ [];
  initial_hash = empty_hash;
  start = 1;
  use_hash = false;
}

-- The leader with one operation that is not committed.
abbrev leader : Replica
leader = record (new_replica (host 0)) { log = one_log; last_op = 1 }

abbrev backup : Replica
backup = new_replica (host 1)

one_numbered :
    (i : ℕ) (e : LogEntry) → get_elem? one_log.entries i ≡ some e → e.viewstamp.opnum ≡ 1 + i
one_numbered zero e there = cc
one_numbered (suc i) e there = absurd (cc)

one-IsLog : IsLog one_log
one-IsLog = record { from_one = omega arith; room = omega arith; numbered = one_numbered }

one_below : (n : ℕ) (e : LogEntry) → seen one_log n ≡ some e → n ≤ 0 → e.state ≡ committed
one_below zero e there le = absurd (cc)
one_below (suc n) e there le = absurd (omega arith)

one_above : (n : ℕ) (e : LogEntry) → seen one_log n ≡ some e → 0 < n → e.state ≡ prepared
one_above zero e there lt = absurd (omega arith)
one_above (suc zero) e there lt = cc
one_above (suc (suc n)) e there lt =
    absurd (cc (there, seen_beyond one_log (suc (suc n)) (omega arith)))

leader-IsReady : IsReady leader
unfolding new_replica
leader-IsReady = record {
  log = one-IsLog;
  ends = omega arith;
  from = omega arith;
  within = omega arith;
  below = one_below;
  above = one_above;
}

backup-IsReady : IsReady backup
backup-IsReady = new_replica-IsReady (host 1)

commit_up_to-Committed_example :
    Committed leader (1 - leader.last_committed) (commit_up_to (host 0) leader 1)
unfolding new_replica
commit_up_to-Committed_example =
    commit_up_to-Committed (host 0) leader 1 one-IsLog (omega arith) (omega arith) (omega arith)

commit_up_to-panic_example : commit_up_to (host 0) leader 2 ≡ panic
unfolding new_replica
commit_up_to-panic_example =
    commit_up_to-panic (host 0) leader 2 one-IsLog (omega arith) (omega arith) (omega arith)

-- A commit of nothing, which a backup takes as a sign of life.
abbrev nothing_yet : Message
nothing_yet = commit (record { view = 0; opnum = 0 })

alive : receive_message (host 1) backup 100 nothing_yet ≡ ok backup
unfolding receive_message handle_commit new_replica am_leader get_leader_index
alive = refl

receive_message-Later_example : Later backup backup
unfolding new_replica
receive_message-Later_example =
    receive_message-Later (host 1) backup backup 100 nothing_yet (omega arith) alive

receive_message-IsReady_example : IsReady backup
receive_message-IsReady_example =
    receive_message-IsReady (host 1) backup backup 100 nothing_yet backup-IsReady tt alive

-- The batch of the leader's operation.
abbrev batch : Prepare
batch = record { view = 0; opnum = 1; batchstart = 1; requests = get_a ∷ [] }

abbrev seven : List (ℕ × ClientTableEntry)
seven = (7, record { last_req_id = 1; replied = false; reply = empty_reply }) ∷ []

accepts : record_all backup.client_table (new_requests backup batch) ≡ ok seven
unfolding update_client_table entry_of lookup assign new_replica
accepts = refl

batch-IsNext : IsNext (host 1) backup batch
unfolding new_replica am_leader get_leader_index
batch-IsNext = record {
  normal = refl;
  view = refl;
  backup = refl;
  numbered = omega arith;
  no_gap = omega arith;
  beyond = omega arith;
  counted = omega arith;
  room = omega arith;
}

handle_prepare-Extends_example :
    Extends (host 1) backup batch seven (handle_prepare (host 1) backup 100 batch)
handle_prepare-Extends_example =
    handle_prepare-Extends (host 1) backup 100 batch batch-IsNext seven backup-IsReady accepts

leader-InView : InView leader 0 1
unfolding new_replica
leader-InView zero lo hi = absurd (omega arith)
leader-InView (suc zero) lo hi = (first_entry, refl, refl)
leader-InView (suc (suc n)) lo hi = absurd (omega arith)

leads : am_leader (host 0) leader ≡ true
unfolding new_replica am_leader get_leader_index
leads = refl

abbrev closed : Replica
closed = record leader {
  last_prepare = batch;
  sent = to_all (prepare batch) ∷ [];
  last_batch_end = 1;
  timeouts = record leader.timeouts { resend_prepare = true; close_batch = false };
}

closes : close_batch (host 0) leader ≡ ok closed
unfolding close_batch new_replica am_leader get_leader_index batch_requests find
closes = refl

backup-Follows : Follows (host 1) leader backup
unfolding new_replica am_leader get_leader_index
backup-Follows = record {
  normal = refl;
  view = refl;
  backup = refl;
  has_last_batch = omega arith;
  behind = omega arith;
}

close_batch-handle_prepare_example :
    Copied
      (host 0)
      (host 1)
      leader
      closed
      backup
      100
      (handle_prepare (host 1) backup 100 closed.last_prepare)
unfolding new_replica
close_batch-handle_prepare_example =
    close_batch-handle_prepare (host 0) (host 1) leader closed backup 100 leader-IsReady leads
      (omega arith) (omega arith) leader-InView closes backup-IsReady backup-Follows accepts

abbrev ack : PrepareOk
ack = record { view = 0; opnum = 1; replica_idx = 1 }

handle_prepare_ok-Decided_example : Decided leader ack (handle_prepare_ok (host 0) leader 101 ack)
unfolding new_replica
handle_prepare_ok-Decided_example =
    handle_prepare_ok-Decided (host 0) leader 101 ack leader-IsReady refl leads refl (omega arith)

-- A second request of the client.
abbrev get_b : Request
get_b = record { clientid = 7; clientreqid = 2; op = 66 ∷ [] }

get_b-IsNew : IsNew (host 0) leader get_b
unfolding new_replica entry_of lookup
get_b-IsNew = record { normal = refl; leads = leads; fresh = omega arith }

handle_request-OutOfStep_example :
    OutOfStep (host 0) leader get_b (handle_request (host 0) leader 55 get_b)
unfolding new_replica
handle_request-OutOfStep_example =
    handle_request-OutOfStep (host 0) leader 55 get_b leader-IsReady get_b-IsNew refl (omega arith)

first_run : OutOfStep (host 0) leader get_b (handle_request (host 0) leader 55 get_b)
unfolding new_replica
first_run =
    handle_request-OutOfStep (host 0) leader 55 get_b leader-IsReady get_b-IsNew refl (omega arith)

-- A leader that has answered the client.
abbrev answered : Replica
answered = first_run.after

handle_request-Repeated_example :
    Repeated (host 0) answered 56 get_b (handle_request (host 0) answered 56 get_b)
handle_request-Repeated_example =
    handle_request-Repeated (host 0) leader answered 55 56 get_b first_run.returns

-- A replica that is to lead view 1, with a StartViewChange of one replica.
abbrev changing : StartViewChange
changing = record { view = 1; replica_idx = 2; last_committed = 0 }

abbrev vote : DoViewChange
vote = record {
  view = 1;
  last_normal_view = 0;
  last_op = 0;
  last_committed = 0;
  entries = [];
  replica_idx = 2;
}

abbrev candidate : Replica
candidate = record backup {
  status = view_change;
  view = 1;
  start_view_change_quorum = record { num_required = 1; messages = (1, (2, changing) ∷ []) ∷ [] };
}

handle_do_view_change-Leads_example :
    Leads candidate 1 (handle_do_view_change (host 1) candidate 102 vote)
unfolding new_replica get_leader_index messages_at lookup assign last_viewstamp quorum_size
handle_do_view_change-Leads_example =
    handle_do_view_change-Leads (host 1) candidate 102 vote 2 changing [] backup-IsReady refl refl
      refl (refl, tt) refl
