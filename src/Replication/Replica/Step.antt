-- ===== src/Replication/Replica/Step.antt =====
-- `ReceiveMessage` of distributed/replication/vr/replica.cc and the invariant of a replica's log and counts.
use ledger_database.Prelude.{ℕ, ◌+◌, ◌^◌, ◌<◌, ◌≡◌, not, Bool-cases, inl, inr}
use ledger_database.Panic.{ok, Ensures, returns, panics, ensured}
use ledger_database.Maps.{number_order}
use ledger_database.Replication.{viewstamp_order}
use ledger_database.Replication.Messages.{
  UnloggedRequest, to_all, Prepare, PrepareOk, Commit, RequestStateTransfer, StateTransfer,
  StartViewChange, Message, request, reply, unlogged_request, unlogged_reply, prepare, prepare_ok,
  commit, state_transfer, do_view_change, start_view,
}
use ledger_database.Replication.Messages
use ledger_database.Replication.Replica.{Host, Replica, is_normal}
use ledger_database.Replication.Replica.Handlers.{handle_unlogged_request}
use ledger_database.Replication.Replica.Receive.{receive_message}
use ledger_database.Replication.Replica.Prepares.{IsReady}
use ledger_database.Replication.Replica.Keeps.{
  handle_prepare-IsReady, handle_prepare_ok-IsReady, handle_request_state_transfer-IsReady,
  handle_start_view_change-IsReady,
}
use ledger_database.Replication.Replica.Ready.{handle_commit-IsReady}
use ledger_database.Replication.Replica.Invariant.{Numbers, handle_state_transfer-IsReady}

-- The messages that the invariant is shown for: all but a Request and the two that bring another
-- replica's log, with numbers of operations that can be followed by another.
abbrev pub Fits : Message → Type 0
Fits (request m) = ⊥
Fits (do_view_change m) = ⊥
Fits (start_view m) = ⊥
Fits (prepare m) = (0 < m.batchstart) × (m.opnum + 1 < 2 ^ 64)
Fits (state_transfer m) = Numbers m.entries
Fits (unlogged_request m) = Unit
Fits (prepare_ok m) = Unit
Fits (commit m) = Unit
Fits (Messages.request_state_transfer m) = Unit
Fits (Messages.start_view_change m) = Unit
Fits (reply m) = Unit
Fits (unlogged_reply m) = Unit

module _ (h : Host) where
  handle_unlogged_request-IsReady :
      (r : Replica) (remote : ℕ) (m : UnloggedRequest)
      → IsReady r
      → IsReady (handle_unlogged_request h r remote m)
  unfolding handle_unlogged_request
  handle_unlogged_request-IsReady r remote m ready = elim (Bool-cases (not (is_normal r.status))) [
    | inl e ↦ rw e ready
    | inr e ↦ rw e ready
  ]

  -- A message other than a Request, a DoViewChange and a StartView, whose numbers of operations can
  -- be followed by another, and whose batch starts above 0 if it is a Prepare, leaves the log, the last operation and the count of committed
  -- operations in step: the log is numbered without gaps up to the last operation, no more is
  -- committed than there is, the entries up to the count are marked committed and those beyond
  -- are marked prepared.
  pub receive_message-IsReady :
      (r r' : Replica) (remote : ℕ) (m : Message)
      → IsReady r
      → Fits m
      → receive_message h r remote m ≡ ok r'
      → IsReady r'
  unfolding receive_message
  receive_message-IsReady r r' remote m ready fits e = ensured IsReady (go m fits) e
    where
      go : (m : Message) → Fits m → Ensures IsReady (receive_message h r remote m)
      go (request m) f = absurd f
      go (unlogged_request m) f = returns (handle_unlogged_request-IsReady r remote m ready)
      go (prepare m) f = handle_prepare-IsReady h r ready remote m f.0 f.1
      go (prepare_ok m) f = handle_prepare_ok-IsReady h r ready remote m
      go (commit m) f = handle_commit-IsReady h r remote m ready
      go (Messages.request_state_transfer m) f =
          handle_request_state_transfer-IsReady h r ready remote m
      go (state_transfer m) f = handle_state_transfer-IsReady h r remote m ready f
      go (Messages.start_view_change m) f = handle_start_view_change-IsReady h r ready remote m
      go (do_view_change m) f = absurd f
      go (start_view m) f = absurd f
      go (reply m) f = panics
      go (unlogged_reply m) f = panics
