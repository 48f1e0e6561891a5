-- ===== src/Replication/Replica/Keeps.antt =====
-- The remaining handlers of distributed/replication/vr/replica.cc that keep a replica's log in step
-- with its counts, and its timers.
use ledger_database.Prelude.{
  ℕ, ◌+◌, ◌-◌, ◌%◌, ◌^◌, ◌<◌, subst, min, not, ◌||◌, length, ltb, leb, ◌==◌, arith, Bool-cases, inl,
  inr,
}
use ledger_database.Panic.{
  or_panic, Ensures, returns, Ensures->>=, bind_any, either, either_if, either_some, after_assert,
  if_asserted,
}
use ledger_database.Maps.{number_order}
use ledger_database.Configuration.{get_leader_index, quorum_size}
use ledger_database.Replication.{inc64, viewstamp_order}
use ledger_database.Replication.Messages.{Prepare, PrepareOk, RequestStateTransfer, StartViewChange}
use ledger_database.Replication.Log.{dump}
use ledger_database.Replication.Quorum.{add_and_check_for_quorum}
use ledger_database.Replication.Replica.{Host, Replica, is_normal, is_view_change}
use ledger_database.Replication.Replica.Methods.{am_leader, start_view_change}
use ledger_database.Replication.Replica.Handlers.{
  await_transfer, extend_log, prepare_in_view, handle_prepare, commit_quorum, handle_prepare_ok,
  handle_request_state_transfer,
}
use ledger_database.Replication.Replica.Views.{
  is_stale, join, min_element, send_do_view_change, handle_start_view_change,
}
use ledger_database.Replication.Replica.Prepares.{
  Held, IsReady, record_all, append_requests-AppendedAll,
}
use ledger_database.Replication.Replica.Backup.{
  IsNext, heard, new_requests, length-new_requests, new_requests_room, prepare_requests-IsNext,
}
use ledger_database.Replication.Replica.Ready.{commit_up_to-IsReady, request_state_transfer-IsReady}

module _ (h : Host) (r : Replica) (ready : IsReady r) where
  await_transfer-IsReady : (remote : ℕ) (msg : Prepare) → IsReady (await_transfer r remote msg)
  await_transfer-IsReady remote msg = request_state_transfer-IsReady r ready

  pub handle_prepare-IsReady :
      (remote : ℕ) (msg : Prepare)
      → 0 < msg.batchstart
      → msg.opnum + 1 < 2 ^ 64
      → Ensures IsReady (handle_prepare h r remote msg)
  unfolding handle_prepare prepare_in_view extend_log
  handle_prepare-IsReady remote msg numbered room =
      either_if IsReady (not (is_normal r.status) || ltb msg.view r.view) (λ e. returns ready)
        λ normally.
          either_if IsReady (ltb r.view msg.view) (λ e. returns (await_transfer-IsReady remote msg))
            λ same_view. if_asserted IsReady (not (am_leader h r)) λ backup.
              if_asserted IsReady (leb msg.batchstart msg.opnum) λ ordered.
                if_asserted IsReady
                  ((msg.opnum - msg.batchstart + 1) % 2 ^ 64 == length msg.requests)
                  λ counts.
                    either_if IsReady (leb msg.opnum r.last_op) (λ e. returns ready)
                      λ new.
                        either_if IsReady (ltb (inc64 r.last_op) msg.batchstart)
                          (λ e. returns (request_state_transfer-IsReady (heard r) ready))
                          λ no_gap.
                            let n : IsNext h r msg = record {
                              normal = ground (arith, normally);
                              view = ground (arith, normally, same_view);
                              backup = ground (arith, backup);
                              numbered = numbered;
                              no_gap = ground (arith, no_gap, ready.log.room, ready.ends);
                              beyond = ground (arith, new);
                              counted = ground (arith, counts, ordered);
                              room = room;
                            } in
                            let all =
                              append_requests-AppendedAll h msg.view r.log r.last_op
                                (new_requests r msg) r.last_committed ready
                                (new_requests_room h r remote msg n) in
                            rw (prepare_requests-IsNext h r remote msg n all.log ready all.returns)
                              (let P = λ (out : Replica × ℕ). IsReady out.0 in
                                let held : Held all.log msg.opnum r.last_committed =
                                  subst (λ e. Held all.log e r.last_committed)
                                    (length-new_requests h r remote msg n) all.held in
                                Ensures->>= IsReady P _
                                  (bind_any P (record_all r.client_table (new_requests r msg)) _
                                    λ t. returns held)
                                  λ (r', op) p. after_assert IsReady (op == msg.opnum) (returns p))

  pub handle_prepare_ok-IsReady :
      (remote : ℕ) (msg : PrepareOk) → Ensures IsReady (handle_prepare_ok h r remote msg)
  unfolding handle_prepare_ok commit_quorum
  handle_prepare_ok-IsReady remote msg =
      let added =
        add_and_check_for_quorum r.prepare_ok_quorum (record { view = msg.view; opnum = msg.opnum })
          msg.replica_idx msg in
      either IsReady (not (is_normal r.status) || ltb msg.view r.view) (returns ready) (
        either IsReady (ltb r.view msg.view) (returns (request_state_transfer-IsReady r ready)) (
          either IsReady (not (am_leader h r)) (returns ready) (
            either_some IsReady added.1
              (λ quorum.
                Ensures->>= IsReady IsReady _
                  (commit_up_to-IsReady h (record r { prepare_ok_quorum = added.0 }) msg.opnum
                    ready)
                  λ r' p.
                    either IsReady (leb (quorum_size h.configuration) (length quorum)) (returns p)
                      (returns p))
              (returns ready))))

  pub handle_request_state_transfer-IsReady :
      (remote : ℕ) (msg : RequestStateTransfer)
      → Ensures IsReady (handle_request_state_transfer h r remote msg)
  unfolding handle_request_state_transfer
  handle_request_state_transfer-IsReady remote msg =
      either IsReady (not (is_normal r.status)) (returns ready) (
        either IsReady (ltb r.view msg.view) (returns (request_state_transfer-IsReady r ready))
          (bind_any IsReady (dump r.log (inc64 msg.opnum)) _ λ entries. returns ready))

  join-IsReady : (view : ℕ) → IsReady (join h r view)
  unfolding start_view_change
  join-IsReady view = elim (Bool-cases (not (is_view_change r.status) || ltb r.view view)) [
    | inl e ↦ rw e ready
    | inr e ↦ rw e ready
  ]

  pub handle_start_view_change-IsReady :
      (remote : ℕ) (msg : StartViewChange)
      → Ensures IsReady (handle_start_view_change h r remote msg)
  unfolding handle_start_view_change send_do_view_change
  handle_start_view_change-IsReady remote msg =
      let joined = join h r msg.view in
      let added =
        add_and_check_for_quorum joined.start_view_change_quorum msg.view msg.replica_idx msg in
      let ready' : IsReady joined = join-IsReady msg.view in
      either IsReady (is_stale r msg.view) (returns ready) (
        after_assert IsReady (msg.view == joined.view) (
          either_some IsReady added.1
            (λ quorum.
              either IsReady (get_leader_index h.configuration joined.view == h.my_idx)
                (returns ready')
                (bind_any IsReady (or_panic (min_element (λ m. m.last_committed) quorum)) _ λ least.
                  bind_any IsReady (dump joined.log (min least joined.last_committed)) _
                    λ entries. returns ready'))
            (returns ready')))
