-- ===== src/Replication/Replica/Monotone.antt =====
-- The handlers never take the view or the count of committed operations back.
use ledger_database.Prelude.{
  ℕ, ◌+◌, ◌-◌, ◌%◌, ◌^◌, ◌<◌, refl, List, [], ◌∷◌, true, not, ◌||◌, length, ltb, leb, ◌==◌, arith,
}
use ledger_database.Panic.{
  Ensures, returns, Ensures->>=, bind_any, either, either_some, after_assert, weaken,
}
use ledger_database.Maps.{number_order, lookup, assign, erase}
use ledger_database.Configuration.{quorum_size}
use ledger_database.Replication.{Request, inc64, dec64, viewstamp_order}
use ledger_database.Replication.Messages.{
  Prepare, PrepareOk, Commit, RequestStateTransfer, UnloggedRequest,
}
use ledger_database.Replication.Log.{prepared, append, dump}
use ledger_database.Replication.Quorum.{add_and_check_for_quorum}
use ledger_database.Replication.Replica.{Host, Replica, is_normal, update_client_table}
use ledger_database.Replication.Replica.Methods.{am_leader}
use ledger_database.Replication.Replica.Handlers.{
  accept_request, answer_request, handle_request, handle_unlogged_request, prepare_requests,
  await_transfer, prepare_in_view, extend_log, handle_prepare, commit_quorum, handle_prepare_ok,
  handle_commit, handle_request_state_transfer,
}
use ledger_database.Replication.Replica.Later.{
  Later, Later-refl, Later-trans, same, chosen, commit_up_to-Later, request_state_transfer-Later,
}

module _ (h : Host) where
  answer_request-Later :
      (r : Replica) (remote : ℕ) (req : Request)
      → r.last_committed + 1 < 2 ^ 64
      → Later r (answer_request h r remote req)
  unfolding answer_request
  answer_request-Later r remote req room = record { view = ground arith; committed = ground arith }

  accept_request-Later :
      (r : Replica) (remote : ℕ) (req : Request)
      → r.last_committed + 1 < 2 ^ 64
      → Ensures (Later r) (accept_request h r remote req)
  unfolding accept_request
  accept_request-Later r remote req room =
      bind_any (Later r) (update_client_table r.client_table req) _
        λ table. returns (Later-trans (same refl refl) (answer_request-Later _ remote req room))

  pub handle_request-Later :
      (r : Replica) (remote : ℕ) (req : Request)
      → r.last_committed + 1 < 2 ^ 64
      → Ensures (Later r) (handle_request h r remote req)
  unfolding handle_request
  handle_request-Later r remote req room =
      let known = record r {
        client_addresses = assign (erase r.client_addresses req.clientid) req.clientid remote;
      } in
      let accepted =
        weaken (λ r' p. Later-trans (same refl refl) p)
          (accept_request-Later known remote req room) in
      either (Later r) (not (is_normal r.status) || not (am_leader h r)) (returns (Later-refl r)) (
        either_some (Later r) (lookup r.client_table req.clientid)
          (λ entry.
            either (Later r) (ltb req.clientreqid entry.last_req_id) (returns (same refl refl)) (
              either (Later r) (req.clientreqid == entry.last_req_id)
                (returns (chosen entry.replied (same refl refl) (same refl refl))) accepted))
          accepted)

  prepare_requests-Later :
      (view op : ℕ) (reqs : List Request) (r : Replica)
      → Ensures (λ out. Later r out.0) (prepare_requests h view op reqs r)
  unfolding prepare_requests
  prepare_requests-Later view op [] r = returns (Later-refl r)
  prepare_requests-Later view op (req ∷ reqs) r =
      let P = λ (out : Replica × ℕ). Later r out.0 in
      either P (leb (inc64 op) r.last_op) (prepare_requests-Later view (inc64 op) reqs r) (
        bind_any P (append h.sha1 r.log (record { view = view; opnum = inc64 op }) req prepared) _
          λ log. bind_any P (update_client_table r.client_table req) _ λ table.
            weaken (λ out p. Later-trans (same refl refl) p)
              (prepare_requests-Later view (inc64 op) reqs _))

  await_transfer-Later :
      (r : Replica) (remote : ℕ) (msg : Prepare) → Later r (await_transfer r remote msg)
  await_transfer-Later r remote msg = Later-trans (request_state_transfer-Later r) (same refl refl)

  pub handle_commit-Later :
      (r : Replica) (remote : ℕ) (msg : Commit) → Ensures (Later r) (handle_commit h r remote msg)
  unfolding handle_commit
  handle_commit-Later r remote msg =
      let heard = record r { timeouts = record r.timeouts { view_change = true } } in
      either (Later r) (not (is_normal r.status) || ltb msg.view r.view) (returns (Later-refl r)) (
        either (Later r) (ltb r.view msg.view) (returns (request_state_transfer-Later r)) (
          after_assert (Later r) (not (am_leader h r)) (
            either (Later r) (leb msg.opnum r.last_committed) (returns (same refl refl)) (
              either (Later r) (ltb r.last_op msg.opnum)
                (returns (Later-trans (same refl refl) (request_state_transfer-Later heard)))
                (weaken (λ r' p. Later-trans (same refl refl) p)
                  (commit_up_to-Later h heard msg.opnum))))))

  pub handle_unlogged_request-Later :
      (r : Replica) (remote : ℕ) (req : UnloggedRequest)
      → Later r (handle_unlogged_request h r remote req)
  unfolding handle_unlogged_request
  handle_unlogged_request-Later r remote req =
      chosen (not (is_normal r.status)) (Later-refl r) (same refl refl)

  extend_log-Later :
      (r : Replica) (remote : ℕ) (msg : Prepare) → Ensures (Later r) (extend_log h r remote msg)
  unfolding extend_log
  extend_log-Later r remote msg =
      either (Later r) (leb msg.opnum r.last_op) (returns (same refl refl)) (
        either (Later r) (ltb (inc64 r.last_op) msg.batchstart)
          (returns (await_transfer-Later r remote msg))
          (Ensures->>= (Later r) (λ (out : Replica × ℕ). Later r out.0) _
            (prepare_requests-Later msg.view (dec64 msg.batchstart) msg.requests r)
            λ (r', op) p.
              after_assert (Later r) (op == msg.opnum) (returns (Later-trans p (same refl refl)))))

  pub handle_prepare-Later :
      (r : Replica) (remote : ℕ) (msg : Prepare) → Ensures (Later r) (handle_prepare h r remote msg)
  unfolding handle_prepare prepare_in_view
  handle_prepare-Later r remote msg =
      let heard = record r { timeouts = record r.timeouts { view_change = true } } in
      either (Later r) (not (is_normal r.status) || ltb msg.view r.view) (returns (Later-refl r)) (
        either (Later r) (ltb r.view msg.view) (returns (await_transfer-Later r remote msg)) (
          after_assert (Later r) (not (am_leader h r)) (
            after_assert (Later r) (leb msg.batchstart msg.opnum) (
              after_assert (Later r)
                ((msg.opnum - msg.batchstart + 1) % 2 ^ 64 == length msg.requests)
                (weaken (λ r' p. Later-trans (same refl refl) p)
                  (extend_log-Later heard remote msg))))))

  commit_quorum-Later :
      (r : Replica) (msg : PrepareOk) (msgs : List (ℕ × PrepareOk))
      → Ensures (Later r) (commit_quorum h r msg msgs)
  unfolding commit_quorum
  commit_quorum-Later r msg msgs =
      Ensures->>= (Later r) (Later r) _ (commit_up_to-Later h r msg.opnum) λ r' p.
        either (Later r) (leb (quorum_size h.configuration) (length msgs)) (returns p)
          (returns (Later-trans p (same refl refl)))

  pub handle_prepare_ok-Later :
      (r : Replica) (remote : ℕ) (msg : PrepareOk)
      → Ensures (Later r) (handle_prepare_ok h r remote msg)
  unfolding handle_prepare_ok
  handle_prepare_ok-Later r remote msg =
      let added =
        add_and_check_for_quorum r.prepare_ok_quorum (record { view = msg.view; opnum = msg.opnum })
          msg.replica_idx msg in
      either (Later r) (not (is_normal r.status) || ltb msg.view r.view) (returns (Later-refl r)) (
        either (Later r) (ltb r.view msg.view) (returns (request_state_transfer-Later r)) (
          either (Later r) (not (am_leader h r)) (returns (Later-refl r)) (
            either_some (Later r) added.1
              (λ quorum.
                weaken (λ r' p. Later-trans (same refl refl) p)
                  (commit_quorum-Later (record r { prepare_ok_quorum = added.0 }) msg quorum))
              (returns (same refl refl)))))

  pub handle_request_state_transfer-Later :
      (r : Replica) (remote : ℕ) (msg : RequestStateTransfer)
      → Ensures (Later r) (handle_request_state_transfer h r remote msg)
  unfolding handle_request_state_transfer
  handle_request_state_transfer-Later r remote msg =
      either (Later r) (not (is_normal r.status)) (returns (Later-refl r)) (
        either (Later r) (ltb r.view msg.view) (returns (request_state_transfer-Later r))
          (bind_any (Later r) (dump r.log (inc64 msg.opnum)) _ λ entries. returns (same refl refl)))
