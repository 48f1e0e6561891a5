-- ===== src/Replication/Replica.antt =====
-- distributed/replication/vr/replica.cc and replica.h, with the calls of common/replica.cc: the
-- state of a replica, and the methods that its handlers share. What it sends is a list, and the
-- service above it answers from the calls it has had. A failed `ASSERT` and `RPanic` are `panic`.
pub mod Methods
pub mod Handlers
pub mod Views
pub mod Receive
pub mod Later
pub mod Monotone
pub mod Advance
pub mod Forward
pub mod Commits
pub mod Missing
pub mod Prepares
pub mod Backup
pub mod Ready
pub mod Keeps
pub mod Invariant
pub mod Step
pub mod Batch
pub mod Majority
pub mod Requests
pub mod Unlogged
pub mod Leads
pub mod Overlap
mod Tests
use ledger_database.Prelude.{
  ℕ, zero, suc, ◌+◌, ◌-◌, ◌%◌, ◌^◌, List, [], ◌∷◌, ◌++◌, Option, none, some, Bool, true, false, not,
  ◌&&◌, ltb, leb, ◌==◌, if◌then◌else◌,
}
use ledger_database.Panic.{Run, ok, panic, ◌>>=◌, ◌>>◌, assert, or_panic}
use ledger_database.Maps.{Order, number_order, lookup, assign}
use ledger_database.Configuration.{Configuration, get_leader_index, quorum_size}
use ledger_database.Replication.{Viewstamp, Request, inc64, viewstamp_order}
use ledger_database.Replication.Messages.{
  ReplyMessage, Prepare, PrepareOk, StartViewChange, DoViewChange, Message, Sent, to_address,
  to_replica, to_all,
}
use ledger_database.Replication.Messages
use ledger_database.Replication.Log.{
  Log, LogEntry, LogEntryState, committed, prepared, find, set_status,
}
use ledger_database.Replication.Quorum.{QuorumSet, clear}

-- A call of the service, and the service: its answer after the calls before.
pub data Upcall : Type 0 where
  leader_upcall replica_upcall : ℕ → List ℕ → Upcall
  unlogged_upcall : List ℕ → Upcall

pub record AppReplica : Type 0 where
  pub on_leader : List Upcall → ℕ → List ℕ → Bool × List ℕ
  pub on_replica : List Upcall → ℕ → List ℕ → List ℕ
  pub on_unlogged : List Upcall → List ℕ → List ℕ

-- What the constructor fixes, and OpenSSL's SHA-1.
pub record Host : Type 0 where
  pub configuration : Configuration
  pub my_idx : ℕ
  pub app : AppReplica
  pub sha1 : List ℕ → List ℕ

pub data ReplicaStatus : Type 0 where
  normal view_change recovering : ReplicaStatus

pub record ClientTableEntry : Type 0 where
  pub last_req_id : ℕ
  pub replied : Bool
  pub reply : ReplyMessage

-- Which of the five timers run.
pub record Timeouts : Type 0 where
  pub view_change : Bool
  pub null_commit : Bool
  pub state_transfer : Bool
  pub resend_prepare : Bool
  pub close_batch : Bool

-- The five timers. A timer that goes off is started again first.
pub data Timer : Type 0 where
  view_change_timer null_commit_timer state_transfer_timer : Timer
  resend_prepare_timer close_batch_timer : Timer

pub record Replica : Type 0 where
  pub status : ReplicaStatus
  pub view : ℕ
  pub last_committed : ℕ
  pub last_op : ℕ
  pub last_request_state_transfer_view : ℕ
  pub last_request_state_transfer_opnum : ℕ
  pub pending_prepares : List (ℕ × Prepare)
  pub last_prepare : Prepare
  pub last_batch_end : ℕ
  pub log : Log
  pub client_addresses : List (ℕ × ℕ)
  pub client_table : List (ℕ × ClientTableEntry)
  pub prepare_ok_quorum : QuorumSet Viewstamp PrepareOk
  pub start_view_change_quorum : QuorumSet ℕ StartViewChange
  pub do_view_change_quorum : QuorumSet ℕ DoViewChange
  pub timeouts : Timeouts
  pub sent : List Sent
  pub calls : List Upcall

abbrev pub is_normal : ReplicaStatus → Bool
is_normal normal = true
is_normal view_change = false
is_normal recovering = false

abbrev pub is_view_change : ReplicaStatus → Bool
is_view_change normal = false
is_view_change view_change = true
is_view_change recovering = false

abbrev pub is_prepared : LogEntryState → Bool
is_prepared prepared = true
is_prepared _ = false

-- `Log::EMPTY_HASH`: SHA_DIGEST_LENGTH zero bytes.
abbrev pub empty_hash : List ℕ
empty_hash = zeros 20
  where
    zeros : ℕ → List ℕ
    zeros zero = []
    zeros (suc n) = 0 ∷ zeros n

-- `Clear`: a message's fields unset.
abbrev pub empty_reply : ReplyMessage
empty_reply = record { view = 0; opnum = 0; clientreqid = 0; reply = [] }

abbrev pub empty_prepare : Prepare
empty_prepare = record { view = 0; opnum = 0; batchstart = 0; requests = [] }

-- What `clientTable[id]` makes where there is no entry.
abbrev pub empty_entry : ClientTableEntry
empty_entry = record { last_req_id = 0; replied = false; reply = empty_reply }

unfoldable pub entry_of : List (ℕ × ClientTableEntry) → ℕ → ClientTableEntry
entry_of table id = elim (lookup table id) [ none ↦ empty_entry | some entry ↦ entry ]

abbrev pub send : Replica → Sent → Replica
send r m = record r { sent = r.sent ++ m ∷ [] }

-- `UpdateClientTable`, on the table.
unfoldable pub update_client_table :
    List (ℕ × ClientTableEntry) → Request → Run (List (ℕ × ClientTableEntry))
update_client_table table req =
    let entry = entry_of table req.clientid in
    let same = assign table req.clientid entry in
    let new =
      assign table req.clientid
        (record { last_req_id = req.clientreqid; replied = false; reply = empty_reply }) in
    do
      assert (leb entry.last_req_id req.clientreqid)
      if entry.last_req_id == req.clientreqid then ok same else ok new

-- The client table after an operation of that client is executed.
abbrev pub record_reply :
    List (ℕ × ClientTableEntry) → Request → ReplyMessage → List (ℕ × ClientTableEntry)
record_reply table req answer =
    let cte = entry_of table req.clientid in
    if leb cte.last_req_id req.clientreqid
    then assign table req.clientid
        (record { last_req_id = req.clientreqid; replied = true; reply = answer })
    else assign table req.clientid cte

abbrev pub reply_to : Replica → Request → ReplyMessage → Replica
reply_to r req answer = elim (lookup r.client_addresses req.clientid) [
  | none ↦ r
  | some address ↦ send r (to_address address (Messages.reply answer))
]

-- Whether the request was sent before, for the same view and operation.
abbrev pub asked_before : Replica → Bool
asked_before r =
    not (r.last_request_state_transfer_opnum == 0)
    && r.last_request_state_transfer_view == r.view
    && r.last_request_state_transfer_opnum == r.last_committed

pub request_state_transfer : Replica → Replica
request_state_transfer r =
    if asked_before r
    then r
    else send
        (record r {
          last_request_state_transfer_view = r.view;
          last_request_state_transfer_opnum = r.last_committed;
        })
        (to_all
          (Messages.request_state_transfer (record { view = r.view; opnum = r.last_committed })))

-- The timers of `EnterView`.
abbrev pub timeouts_in_view : Bool → Timeouts → Timeouts
timeouts_in_view leads t =
    if leads then record t { view_change = false; null_commit = true } else record t {
      view_change = true;
      null_commit = false;
      resend_prepare = false;
      close_batch = false;
    }

-- The loop of `CloseBatch`, over the operations left: their requests.
unfoldable pub batch_requests : ℕ → ℕ → Replica → Run (List Request)
batch_requests zero i r = ok []
batch_requests (suc rounds) i r = do
  found ← find r.log i
  entry ← or_panic found
  assert (entry.viewstamp.view == r.view)
  assert (entry.viewstamp.opnum == i)
  rest ← batch_requests rounds (i + 1) r
  ok (entry.request ∷ rest)
