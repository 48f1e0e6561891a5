-- ===== src/Replication/Replica/Views.antt =====
-- distributed/replication/vr/replica.cc: the handlers that change the view, and the state
-- transfer. `NULL` and an iterator at the end are not to be read: where the code reads through
-- one the model has `panic`.
use ledger_database.Prelude.{
  ℕ, min, List, [], ◌∷◌, Option, none, some, Bool, true, false, not, ◌&&◌, ◌||◌, length, ltb, leb,
  ◌==◌, if◌then◌else◌,
}
use ledger_database.Panic.{Run, ok, ◌>>=◌, ◌>>◌, assert, or_panic, when_some}
use ledger_database.Maps.{number_order}
use ledger_database.Configuration.{get_leader_index}
use ledger_database.Replication.{inc64}
use ledger_database.Replication.Messages.{
  Prepare, StateTransfer, StartViewChange, DoViewChange, StartView, to_replica, to_all,
}
use ledger_database.Replication.Messages
use ledger_database.Replication.Log.{
  LogEntry, LogEntryState, committed, prepared, find, append, remove_after, install, dump,
  last_viewstamp,
}
use ledger_database.Replication.Quorum.{add_and_check_for_quorum, get_messages}
use ledger_database.Replication.Replica.{Host, Replica, is_view_change, is_prepared, send}
use ledger_database.Replication.Replica.Methods.{
  am_leader, commit_up_to, send_prepare_oks, enter_view, start_view_change,
}
use ledger_database.Replication.Replica.Handlers.{handle_prepare}

abbrev pub is_committed : LogEntryState → Bool
is_committed committed = true
is_committed _ = false

-- `std::min_element` by a count of the messages: the least count.
unfoldable pub min_element : {M : Type 0} → (M → ℕ) → List (ℕ × M) → Option ℕ
min_element count [] = none
min_element count ((i, m) ∷ messages) = elim (min_element count messages) [
  | none ↦ some (count m)
  | some least ↦ some (min (count m) least)
]

-- Whether a message of a view change is for a view that the replica is done with.
abbrev pub is_stale : Replica → ℕ → Bool
is_stale r view = ltb view r.view || (view == r.view && not (is_view_change r.status))

-- The loop of `HandleDoViewChange` over the messages: the latest view, operation and message. The
-- message is kept by value, where the code keeps the address of the loop's own copy.
abbrev pub Latest : Type 0
Latest = ℕ × ℕ × Option DoViewChange

unfoldable pub find_latest : List (ℕ × DoViewChange) → Latest → Latest
find_latest [] best = best
find_latest ((i, x) ∷ messages) (view, op, message) = find_latest messages (
    if ltb view x.last_normal_view || (x.last_normal_view == view && ltb op x.last_op)
    then (x.last_normal_view, x.last_op, some x)
    else (view, op, message))

module _ (h : Host) where
  -- The log of a StartView or of the latest DoViewChange: its last operation, the committed ones
  -- of the message at hand, and its entries.
  unfoldable pub install_log : Replica → ℕ → List LogEntry → Run Replica
  install_log r last_op [] = ok r
  install_log r last_op (e ∷ es) = do
    assert (not (ltb (inc64 r.last_committed) e.viewstamp.opnum))
    cut ← remove_after r.log (inc64 last_op)
    log ← install h.sha1 cut (e ∷ es)
    ok (record r { log = log })

  -- The replica in the message's view, and in the view change.
  abbrev pub join : Replica → ℕ → Replica
  join r view =
      if not (is_view_change r.status) || ltb r.view view then start_view_change h r view else r

  -- `HandleStartViewChange` with a quorum: the DoViewChange to the leader of the view.
  unfoldable pub send_do_view_change : Replica → List (ℕ × StartViewChange) → Run Replica
  send_do_view_change r msgs =
      let leader = get_leader_index h.configuration r.view in
      if leader == h.my_idx then ok r else do
        least ← or_panic (min_element (λ m. m.last_committed) msgs)
        entries ← dump r.log (min least r.last_committed)
        ok (
            send r (
              to_replica leader (
                Messages.do_view_change (record {
                  view = r.view;
                  last_normal_view = (last_viewstamp r.log).view;
                  last_op = r.last_op;
                  last_committed = r.last_committed;
                  entries = entries;
                  replica_idx = h.my_idx;
                }))))

  unfoldable pub handle_start_view_change : Replica → ℕ → StartViewChange → Run Replica
  unfolding start_view_change
  handle_start_view_change r remote msg =
      let joined = join r msg.view in
      let (q, msgs) =
        add_and_check_for_quorum joined.start_view_change_quorum msg.view msg.replica_idx msg in
      let counted = record joined { start_view_change_quorum = q } in
      if is_stale r msg.view then ok r else do
        assert (msg.view == joined.view)
        when_some msgs (send_do_view_change counted) (ok counted)

  -- `HandleDoViewChange` once the log is installed: the new view begins.
  unfoldable pub begin_view : Replica → DoViewChange → ℕ → Option DoViewChange → ℕ → Run Replica
  unfolding enter_view am_leader
  begin_view r msg latest_op latest least =
      let entered = record (enter_view h r msg.view) { last_op = latest_op } in
      do
        assert (am_leader h entered)
        r' ← when_some latest (λ m. commit_up_to h entered m.last_committed) (ok entered)
        entries ← dump r'.log least
        ok (
            send r' (
              to_all (
                Messages.start_view (record {
                  view = r'.view;
                  last_op = r'.last_op;
                  last_committed = r'.last_committed;
                  entries = entries;
                }))))

  -- The log of the latest message, if there is one later than the replica's own.
  unfoldable pub install_latest : Replica → DoViewChange → Option DoViewChange → Run Replica
  install_latest r msg none = ok r
  install_latest r msg (some latest) = do
    assert (
        not (length latest.entries == 0)
        || (r.last_committed == msg.last_committed && msg.last_op == msg.last_committed))
    install_log r latest.last_op latest.entries

  -- `HandleDoViewChange` with a quorum.
  unfoldable pub lead_view : Replica → DoViewChange → List (ℕ × DoViewChange) → Run Replica
  lead_view r msg msgs =
      let own = last_viewstamp r.log in
      let (latest_view, latest_op, latest) = find_latest msgs (own.view, own.opnum, none) in
      do
        installed ← install_latest r msg latest
        let asked = get_messages installed.start_view_change_quorum installed.view
        least_svc ← or_panic (min_element (λ m. m.last_committed) asked.1)
        least_dvc ← or_panic (min_element (λ m. m.last_committed) msgs)
        begin_view (record installed { start_view_change_quorum = asked.0 }) msg latest_op latest
            (min (min least_svc least_dvc) installed.last_committed)

  unfoldable pub handle_do_view_change : Replica → ℕ → DoViewChange → Run Replica
  unfolding start_view_change
  handle_do_view_change r remote msg =
      let joined = join r msg.view in
      let (q, msgs) =
        add_and_check_for_quorum joined.do_view_change_quorum msg.view msg.replica_idx msg in
      let counted = record joined { do_view_change_quorum = q } in
      if is_stale r msg.view then ok r else do
        assert (get_leader_index h.configuration msg.view == h.my_idx)
        when_some msgs (lead_view counted msg) (ok counted)

  unfoldable pub handle_start_view : Replica → ℕ → StartView → Run Replica
  unfolding enter_view am_leader
  handle_start_view r remote msg = if is_stale r msg.view then ok r else do
    assert (not (get_leader_index h.configuration msg.view == h.my_idx))
    assert (
        not (length msg.entries == 0)
        || (msg.last_committed == r.last_committed && msg.last_op == msg.last_committed))
    installed ← install_log r msg.last_op msg.entries
    let entered = enter_view h installed msg.view
    let old_last_op = entered.last_op
    let ended = record entered { last_op = msg.last_op }
    assert (not (am_leader h ended))
    r' ← commit_up_to h ended msg.last_committed
    send_prepare_oks h r' old_last_op

  -- An entry of the replica's own under a number that comes from another replica.
  unfoldable pub replace_entry : Replica → ℕ → LogEntry → LogEntry → Run (Replica × ℕ)
  replace_entry r old_last_op entry new = do
    assert (entry.viewstamp.opnum == new.viewstamp.opnum)
    assert (leb entry.viewstamp.view new.viewstamp.view)
    if entry.viewstamp.view == new.viewstamp.view
        then (do assert (is_prepared entry.state); ok (r, old_last_op))
        else (do
          assert (not (is_committed entry.state))
          cut ← remove_after r.log new.viewstamp.opnum
          log ← append h.sha1 cut new.viewstamp new.request prepared
          ok (record r { last_op = new.viewstamp.opnum; log = log }, new.viewstamp.opnum))

  -- A round of the loop of `HandleStateTransfer`, with its `oldLastOp`.
  unfoldable pub transfer_entry : Replica → ℕ → LogEntry → Run (Replica × ℕ)
  transfer_entry r old_last_op new =
      let op = new.viewstamp.opnum in
      if leb op r.last_committed
      then ok (r, old_last_op)
      else if leb op r.last_op
      then (do found ← find r.log op; entry ← or_panic found; replace_entry r old_last_op entry new)
      else do
        assert (op == inc64 r.last_op)
        log ← append h.sha1 r.log new.viewstamp new.request prepared
        ok (record r { last_op = inc64 r.last_op; log = log }, old_last_op)

  unfoldable pub transfer_entries : Replica → ℕ → List LogEntry → Run (Replica × ℕ)
  transfer_entries r old_last_op [] = ok (r, old_last_op)
  transfer_entries r old_last_op (e ∷ es) = do
    (r', old') ← transfer_entry r old_last_op e
    transfer_entries r' old' es

  unfoldable pub handle_prepares : List (ℕ × Prepare) → Replica → Run Replica
  handle_prepares [] r = ok r
  handle_prepares ((remote, msg) ∷ rest) r = do
    r' ← handle_prepare h r remote msg
    handle_prepares rest r'

  unfoldable pub handle_state_transfer : Replica → ℕ → StateTransfer → Run Replica
  unfolding enter_view
  handle_state_transfer r remote msg = if ltb msg.view r.view then ok r else do
    (installed, old_last_op) ← transfer_entries r r.last_op msg.entries
    let entered = if ltb installed.view msg.view then enter_view h installed msg.view else installed
    assert (leb msg.opnum entered.last_op)
    executed ← commit_up_to h entered msg.opnum
    answered ← send_prepare_oks h executed old_last_op
    let cleared = record answered { pending_prepares = [] }
    handle_prepares cleared.pending_prepares cleared
