-- ===== src/Replication/Replica/Handlers.antt =====
-- The handlers of distributed/replication/vr/replica.cc, and `ReceiveMessage`. The arguments are
-- the replica, the sender's address and the message.
use ledger_database.Prelude.{
  ℕ, ◌+◌, ◌-◌, ◌%◌, ◌^◌, List, [], ◌∷◌, ◌++◌, true, not, ◌||◌, length, ltb, leb, ◌==◌,
  if◌then◌else◌,
}
use ledger_database.Panic.{Run, ok, ◌>>=◌, ◌>>◌, assert, when_some}
use ledger_database.Maps.{number_order, lookup, assign, erase}
use ledger_database.Configuration.{get_leader_index, quorum_size}
use ledger_database.Replication.{Viewstamp, Request, inc64, dec64, viewstamp_order}
use ledger_database.Replication.Messages.{
  ReplyMessage, UnloggedRequest, UnloggedReply, Prepare, PrepareOk, Commit, RequestStateTransfer,
  StateTransfer, StartViewChange, DoViewChange, StartView, Message, Sent, to_address, to_replica,
  to_all,
}
use ledger_database.Replication.Messages
use ledger_database.Replication.Log.{prepared, append, dump}
use ledger_database.Replication.Quorum.{add_and_check_for_quorum}
use ledger_database.Replication.Replica.{
  Host, Replica, ClientTableEntry, leader_upcall, unlogged_upcall, is_normal, entry_of, send,
  update_client_table, request_state_transfer,
}
use ledger_database.Replication.Replica.Methods.{am_leader, commit_up_to}

abbrev pub await_transfer : Replica → ℕ → Prepare → Replica
await_transfer r remote msg =
    let asked = request_state_transfer r in
    record asked { pending_prepares = asked.pending_prepares ++ (remote, msg) ∷ [] }

-- The reply to a request that the client table has.
abbrev pub resend_reply : Replica → ℕ → ClientTableEntry → Replica
resend_reply r remote entry =
    if entry.replied then send r (to_address remote (Messages.reply entry.reply)) else r

module _ (h : Host) where
  -- The answers of `HandleRequest`, once the table has the request.
  unfoldable pub answer_request : Replica → ℕ → Request → Replica
  answer_request r remote req =
      let (replicate, res) = h.app.on_leader r.calls r.last_committed req.op in
      let called = record r { calls = r.calls ++ leader_upcall r.last_committed req.op ∷ [] } in
      let op = inc64 r.last_op in
      let answer : ReplyMessage =
        if replicate
        then record { view = r.view; opnum = op; clientreqid = req.clientreqid; reply = res }
        else record { view = 0; opnum = 0; clientreqid = req.clientreqid; reply = res } in
      let cte = entry_of r.client_table req.clientid in
      let counted =
        if replicate
        then record called { last_op = op; last_committed = inc64 r.last_committed }
        else called in
      send
        (record counted {
          client_table =
              assign r.client_table req.clientid (record cte { replied = true; reply = answer });
        })
        (to_address remote (Messages.reply answer))

  unfoldable pub accept_request : Replica → ℕ → Request → Run Replica
  accept_request r remote req = do
    table ← update_client_table r.client_table req
    ok (answer_request (record r { client_table = table }) remote req)

  unfoldable pub handle_request : Replica → ℕ → Request → Run Replica
  unfolding am_leader accept_request
  handle_request r remote req =
      let known = record r {
        client_addresses = assign (erase r.client_addresses req.clientid) req.clientid remote;
      } in
      if not (is_normal r.status) || not (am_leader h r)
      then ok r
      else when_some (lookup r.client_table req.clientid)
          (λ entry.
            if ltb req.clientreqid entry.last_req_id
            then ok known
            else if req.clientreqid == entry.last_req_id
            then ok (resend_reply known remote entry)
            else accept_request known remote req)
          (accept_request known remote req)

  unfoldable pub handle_unlogged_request : Replica → ℕ → UnloggedRequest → Replica
  handle_unlogged_request r remote req =
      let answer : UnloggedReply = record {
        reply = h.app.on_unlogged r.calls req.op;
        clientreqid = req.clientreqid;
      } in
      if not (is_normal r.status)
      then r
      else send (record r { calls = r.calls ++ unlogged_upcall req.op ∷ [] })
          (to_address remote (Messages.unlogged_reply answer))

  -- A PrepareOK to the leader for the last operation of a Prepare.
  abbrev pub answer_prepare : Replica → Prepare → Replica
  answer_prepare r msg = send r (
      to_replica (get_leader_index h.configuration r.view) (
        Messages.prepare_ok
          (record { view = msg.view; opnum = msg.opnum; replica_idx = h.my_idx })))

  -- The loop of `HandlePrepare` over the requests, and the `op` that it ends with.
  unfoldable pub prepare_requests : ℕ → ℕ → List Request → Replica → Run (Replica × ℕ)
  prepare_requests view op [] r = ok (r, op)
  prepare_requests view op (req ∷ requests) r =
      let op' = inc64 op in
      let vs : Viewstamp = record { view = view; opnum = op' } in
      let skipped = prepare_requests view op' requests r in
      if leb op' r.last_op then skipped else do
        log ← append h.sha1 r.log vs req prepared
        table ← update_client_table r.client_table req
        prepare_requests view op' requests
            (record r { last_op = inc64 r.last_op; log = log; client_table = table })

  -- `HandlePrepare` from the test of `lastOp` on.
  unfoldable pub extend_log : Replica → ℕ → Prepare → Run Replica
  unfolding request_state_transfer
  extend_log r remote msg =
      if leb msg.opnum r.last_op
      then ok (answer_prepare r msg)
      else if ltb (inc64 r.last_op) msg.batchstart
      then ok (await_transfer r remote msg)
      else do
        (extended, op) ← prepare_requests msg.view (dec64 msg.batchstart) msg.requests r
        assert (op == msg.opnum)
        ok (answer_prepare extended msg)

  -- `HandlePrepare` in the replica's own view.
  unfoldable pub prepare_in_view : Replica → ℕ → Prepare → Run Replica
  unfolding am_leader extend_log
  prepare_in_view r remote msg =
      let heard = record r { timeouts = record r.timeouts { view_change = true } } in
      do
        assert (not (am_leader h r))
        assert (leb msg.batchstart msg.opnum)
        assert ((msg.opnum - msg.batchstart + 1) % 2 ^ 64 == length msg.requests)
        extend_log heard remote msg

  unfoldable pub handle_prepare : Replica → ℕ → Prepare → Run Replica
  unfolding request_state_transfer
  handle_prepare r remote msg =
      if not (is_normal r.status) || ltb msg.view r.view
      then ok r
      else if ltb r.view msg.view
      then ok (await_transfer r remote msg)
      else prepare_in_view r remote msg

  -- `HandlePrepareOK` with a quorum for the operation.
  unfoldable pub commit_quorum : Replica → PrepareOk → List (ℕ × PrepareOk) → Run Replica
  commit_quorum r msg msgs = do
    r' ← commit_up_to h r msg.opnum
    if leb (quorum_size h.configuration) (length msgs)
        then ok r'
        else ok (
            send (record r' { timeouts = record r'.timeouts { null_commit = true } })
              (to_all (Messages.commit (record { view = r'.view; opnum = r'.last_committed }))))

  unfoldable pub handle_prepare_ok : Replica → ℕ → PrepareOk → Run Replica
  unfolding am_leader request_state_transfer
  handle_prepare_ok r remote msg =
      let vs : Viewstamp = record { view = msg.view; opnum = msg.opnum } in
      let (q, msgs) = add_and_check_for_quorum r.prepare_ok_quorum vs msg.replica_idx msg in
      let counted = record r { prepare_ok_quorum = q } in
      if not (is_normal r.status) || ltb msg.view r.view
      then ok r
      else if ltb r.view msg.view
      then ok (request_state_transfer r)
      else if not (am_leader h r)
      then ok r
      else when_some msgs (commit_quorum counted msg) (ok counted)

  unfoldable pub handle_commit : Replica → ℕ → Commit → Run Replica
  unfolding am_leader request_state_transfer
  handle_commit r remote msg =
      let heard = record r { timeouts = record r.timeouts { view_change = true } } in
      if not (is_normal r.status) || ltb msg.view r.view
      then ok r
      else if ltb r.view msg.view
      then ok (request_state_transfer r)
      else do
        assert (not (am_leader h r))
        if leb msg.opnum r.last_committed
            then ok heard
            else if ltb r.last_op msg.opnum
            then ok (request_state_transfer heard)
            else commit_up_to h heard msg.opnum

  unfoldable pub handle_request_state_transfer : Replica → ℕ → RequestStateTransfer → Run Replica
  unfolding request_state_transfer
  handle_request_state_transfer r remote msg =
      if not (is_normal r.status)
      then ok r
      else if ltb r.view msg.view
      then ok (request_state_transfer r)
      else do
        entries ← dump r.log (inc64 msg.opnum)
        ok (
            send r (
              to_address remote (
                Messages.state_transfer
                  (record { view = r.view; opnum = r.last_committed; entries = entries }))))
