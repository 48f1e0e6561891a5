-- ===== src/Replication/Replica/Receive.antt =====
-- `ReceiveMessage` of distributed/replication/vr/replica.cc. A message stands for its type and the
-- text that is parsed.
use ledger_database.Prelude.{ℕ}
use ledger_database.Panic.{Run, ok, panic}
use ledger_database.Replication.Messages.{
  Message, request, reply, unlogged_request, unlogged_reply, prepare, prepare_ok, commit,
  request_state_transfer, state_transfer, start_view_change, do_view_change, start_view,
}
use ledger_database.Replication.Replica.{Host, Replica}
use ledger_database.Replication.Replica.Handlers.{
  handle_request, handle_unlogged_request, handle_prepare, handle_prepare_ok, handle_commit,
  handle_request_state_transfer,
}
use ledger_database.Replication.Replica.Views.{
  handle_state_transfer, handle_start_view_change, handle_do_view_change, handle_start_view,
}

module _ (h : Host) where
  unfoldable pub receive_message : Replica → ℕ → Message → Run Replica
  receive_message r remote (request m) = handle_request h r remote m
  receive_message r remote (unlogged_request m) = ok (handle_unlogged_request h r remote m)
  receive_message r remote (prepare m) = handle_prepare h r remote m
  receive_message r remote (prepare_ok m) = handle_prepare_ok h r remote m
  receive_message r remote (commit m) = handle_commit h r remote m
  receive_message r remote (request_state_transfer m) = handle_request_state_transfer h r remote m
  receive_message r remote (state_transfer m) = handle_state_transfer h r remote m
  receive_message r remote (start_view_change m) = handle_start_view_change h r remote m
  receive_message r remote (do_view_change m) = handle_do_view_change h r remote m
  receive_message r remote (start_view m) = handle_start_view h r remote m
  receive_message r remote (reply m) = panic
  receive_message r remote (unlogged_reply m) = panic
