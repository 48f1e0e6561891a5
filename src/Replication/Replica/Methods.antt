-- ===== src/Replication/Replica/Methods.antt =====
-- distributed/replication/vr/replica.cc: the methods that the handlers share, the constructor and the
-- timers.
use ledger_database.Prelude.{
  ℕ, zero, suc, ◌+◌, ◌-◌, List, [], ◌∷◌, ◌++◌, Bool, true, false, not, ltb, leb, ◌==◌,
  if◌then◌else◌,
}
use ledger_database.Panic.{Run, ok, ◌>>=◌, ◌>>◌, assert, or_panic}
use ledger_database.Maps.{number_order}
use ledger_database.Configuration.{get_leader_index, quorum_size}
use ledger_database.Replication.{Request, inc64, viewstamp_order}
use ledger_database.Replication.Messages.{
  ReplyMessage, Prepare, PrepareOk, StartViewChange, DoViewChange, Message, Sent, to_address,
  to_replica, to_all,
}
use ledger_database.Replication.Messages
use ledger_database.Replication.Log.{LogEntry, committed, find, set_status}
use ledger_database.Replication.Quorum.{clear}
use ledger_database.Replication.Replica.{
  Host, Replica, Timer, batch_requests, close_batch_timer, empty_hash, empty_prepare, is_prepared,
  normal, null_commit_timer, record_reply, replica_upcall, reply_to, resend_prepare_timer, send,
  state_transfer_timer, timeouts_in_view, update_client_table, view_change, view_change_timer,
}

module _ (h : Host) where
  unfoldable pub am_leader : Replica → Bool
  am_leader r = get_leader_index h.configuration r.view == h.my_idx

  abbrev pub execute : Replica → ℕ → Request → Replica × List ℕ
  execute r opnum req = (
    record r { calls = r.calls ++ replica_upcall opnum req.op ∷ [] },
    h.app.on_replica r.calls opnum req.op,
  )

  -- The rest of a round of the loop of `CommitUpTo`, once the entry is found.
  unfoldable pub commit_entry : Replica → LogEntry → Run Replica
  commit_entry r entry =
      let n = r.last_committed in
      let (called, result) = execute r n entry.request in
      let answer : ReplyMessage = record {
        view = entry.viewstamp.view;
        opnum = entry.viewstamp.opnum;
        clientreqid = entry.request.clientreqid;
        reply = result;
      } in
      do
        (marked, _) ← set_status called.log n committed
        ok (
            reply_to
              (record called {
                log = marked;
                client_table = record_reply called.client_table entry.request answer;
              })
              entry.request answer)

  -- A round of the loop. It runs where the number is below `upto`, so adding 1 does not wrap.
  unfoldable pub commit_next : Replica → Run Replica
  commit_next r =
      let counted = record r { last_committed = r.last_committed + 1 } in
      do
        found ← find r.log (r.last_committed + 1)
        entry ← or_panic found
        commit_entry counted entry

  -- `while (lastCommitted < upto)`, over the rounds left.
  unfoldable pub commit_loop : ℕ → ℕ → Replica → Run Replica
  commit_loop zero upto r = ok r
  commit_loop (suc rounds) upto r =
      if ltb r.last_committed upto
      then (do r' ← commit_next r; commit_loop rounds upto r')
      else ok r

  -- `CommitUpTo`
  unfoldable pub commit_up_to : Replica → ℕ → Run Replica
  commit_up_to r upto = commit_loop (upto - r.last_committed) upto r

  -- A round of the loop of `SendPrepareOKs`.
  unfoldable pub send_prepare_ok : Replica → ℕ → Run Replica
  send_prepare_ok r i =
      let answer : PrepareOk = record { view = r.view; opnum = i; replica_idx = h.my_idx } in
      let leader = get_leader_index h.configuration r.view in
      if leb i r.last_committed then ok r else do
        found ← find r.log i
        entry ← or_panic found
        assert (is_prepared entry.state)
        table ← update_client_table r.client_table entry.request
        ok (
            send (record r { client_table = table })
              (to_replica leader (Messages.prepare_ok answer)))

  unfoldable pub send_prepare_ok_loop : ℕ → ℕ → Replica → Run Replica
  send_prepare_ok_loop zero i r = ok r
  send_prepare_ok_loop (suc rounds) i r = do
    r' ← send_prepare_ok r i
    send_prepare_ok_loop rounds (i + 1) r'

  -- `SendPrepareOKs`: from `oldLastOp` to `lastOp`, which the rounds leave alone.
  unfoldable pub send_prepare_oks : Replica → ℕ → Run Replica
  send_prepare_oks r old_last_op = send_prepare_ok_loop (r.last_op + 1 - old_last_op) old_last_op r

  unfoldable pub enter_view : Replica → ℕ → Replica
  enter_view r newview = record r {
    view = newview;
    status = normal;
    last_batch_end = r.last_op;
    timeouts = timeouts_in_view (get_leader_index h.configuration newview == h.my_idx) r.timeouts;
    prepare_ok_quorum = clear r.prepare_ok_quorum;
    start_view_change_quorum = clear r.start_view_change_quorum;
    do_view_change_quorum = clear r.do_view_change_quorum;
  }

  unfoldable pub start_view_change : Replica → ℕ → Replica
  start_view_change r newview =
      send
        (record r {
          view = newview;
          status = view_change;
          timeouts = record r.timeouts {
            view_change = true;
            null_commit = false;
            resend_prepare = false;
            close_batch = false;
          };
        })
        (to_all (
          Messages.start_view_change
            (record { view = newview; replica_idx = h.my_idx; last_committed = r.last_committed })))

  unfoldable pub send_null_commit : Replica → Run Replica
  unfolding am_leader
  send_null_commit r = do
    assert (am_leader r)
    ok (send r (to_all (Messages.commit (record { view = r.view; opnum = r.last_committed }))))

  unfoldable pub resend_prepare : Replica → Run Replica
  unfolding am_leader
  resend_prepare r = do
    assert (am_leader r)
    ok (
        if r.last_op == r.last_committed
        then r
        else send r (to_all (Messages.prepare r.last_prepare)))

  unfoldable pub close_batch : Replica → Run Replica
  unfolding am_leader
  close_batch r = do
    assert (am_leader r)
    assert (ltb r.last_batch_end r.last_op)
    requests ← batch_requests (r.last_op - r.last_batch_end) (r.last_batch_end + 1) r
    let p : Prepare = record {
      view = r.view;
      opnum = r.last_op;
      batchstart = r.last_batch_end + 1;
      requests = requests;
    }
    let batched = send (record r { last_prepare = p }) (to_all (Messages.prepare p))
    ok (record batched {
      last_batch_end = r.last_op;
      timeouts = record r.timeouts { resend_prepare = true; close_batch = false };
    })

  -- The replica as it is constructed, with its log from number 1 and no hashes.
  unfoldable pub new_replica : Replica
  new_replica =
      let leads = get_leader_index h.configuration 0 == h.my_idx in
      let required = quorum_size h.configuration - 1 in
      record {
        status = normal;
        view = 0;
        last_committed = 0;
        last_op = 0;
        last_request_state_transfer_view = 0;
        last_request_state_transfer_opnum = 0;
        pending_prepares = [];
        last_prepare = empty_prepare;
        last_batch_end = 0;
        log = record { entries = []; initial_hash = empty_hash; start = 1; use_hash = false };
        client_addresses = [];
        client_table = [];
        prepare_ok_quorum = record { num_required = required; messages = [] };
        start_view_change_quorum = record { num_required = required; messages = [] };
        do_view_change_quorum = record { num_required = required; messages = [] };
        timeouts = record {
          view_change = not leads;
          null_commit = leads;
          state_transfer = true;
          resend_prepare = false;
          close_batch = false;
        };
        sent = [];
        calls = [];
      }

  -- What the timers do.
  unfoldable pub on_timeout : Replica → Timer → Run Replica
  unfolding start_view_change
  on_timeout r view_change_timer = ok (start_view_change r (inc64 r.view))
  on_timeout r null_commit_timer = send_null_commit r
  on_timeout r state_transfer_timer =
      ok (record r { last_request_state_transfer_view = 0; last_request_state_transfer_opnum = 0 })
  on_timeout r resend_prepare_timer = resend_prepare r
  on_timeout r close_batch_timer = close_batch r
