-- ===== src/Replication/Messages.antt =====
-- distributed/proto/vr-proto.proto: the messages of viewstamped replication, and where the replica
-- sends them. A message's log entries are entries of the log.
use ledger_database.Prelude.{ℕ, List}
use ledger_database.Replication.{Request}
use ledger_database.Replication.Log.{LogEntry}

pub record ReplyMessage : Type 0 where
  pub view : ℕ
  pub opnum : ℕ
  pub clientreqid : ℕ
  pub reply : List ℕ

pub record UnloggedRequest : Type 0 where
  pub clientid : ℕ
  pub clientreqid : ℕ
  pub op : List ℕ

pub record UnloggedReply : Type 0 where
  pub reply : List ℕ
  pub clientreqid : ℕ

pub record Prepare : Type 0 where
  pub view : ℕ
  pub opnum : ℕ
  pub batchstart : ℕ
  pub requests : List Request

pub record PrepareOk : Type 0 where
  pub view : ℕ
  pub opnum : ℕ
  pub replica_idx : ℕ

pub record Commit : Type 0 where
  pub view : ℕ
  pub opnum : ℕ

pub record RequestStateTransfer : Type 0 where
  pub view : ℕ
  pub opnum : ℕ

pub record StateTransfer : Type 0 where
  pub view : ℕ
  pub opnum : ℕ
  pub entries : List LogEntry

pub record StartViewChange : Type 0 where
  pub view : ℕ
  pub replica_idx : ℕ
  pub last_committed : ℕ

pub record DoViewChange : Type 0 where
  pub view : ℕ
  pub last_normal_view : ℕ
  pub last_op : ℕ
  pub last_committed : ℕ
  pub entries : List LogEntry
  pub replica_idx : ℕ

pub record StartView : Type 0 where
  pub view : ℕ
  pub last_op : ℕ
  pub last_committed : ℕ
  pub entries : List LogEntry

pub data Message : Type 0 where
  request : Request → Message
  reply : ReplyMessage → Message
  unlogged_request : UnloggedRequest → Message
  unlogged_reply : UnloggedReply → Message
  prepare : Prepare → Message
  prepare_ok : PrepareOk → Message
  commit : Commit → Message
  request_state_transfer : RequestStateTransfer → Message
  state_transfer : StateTransfer → Message
  start_view_change : StartViewChange → Message
  do_view_change : DoViewChange → Message
  start_view : StartView → Message

-- `SendMessage`, `SendMessageToReplica` and `SendMessageToAll`.
pub data Sent : Type 0 where
  to_address : ℕ → Message → Sent
  to_replica : ℕ → Message → Sent
  to_all : Message → Sent
