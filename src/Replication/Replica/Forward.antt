-- ===== src/Replication/Replica/Forward.antt =====
-- The state transfer and `ReceiveMessage` of distributed/replication/vr/replica.cc never take the
-- view or the count of committed operations back.
use ledger_database.Prelude.{
  ℕ, ◌+◌, ◌^◌, ◌<◌, ◌≡◌, refl, List, [], ◌∷◌, not, ltb, leb, ◌==◌, if◌then◌else◌, arith, Bool-cases,
  inl, inr,
}
use ledger_database.Panic.{
  ok, or_panic, Ensures, returns, panics, Ensures->>=, bind_any, either, after_assert, weaken,
  ensured,
}
use ledger_database.Maps.{number_order}
use ledger_database.Replication.{inc64}
use ledger_database.Replication.Messages.{
  Prepare, StateTransfer, StartViewChange, DoViewChange, StartView, Message, request, reply,
  unlogged_request, unlogged_reply, prepare, prepare_ok, commit, state_transfer, do_view_change,
  start_view,
}
use ledger_database.Replication.Messages
use ledger_database.Replication.Log.{LogEntry, prepared, find, append, remove_after}
use ledger_database.Replication.Replica.{Host, Replica, is_prepared}
use ledger_database.Replication.Replica.Methods.{enter_view}
use ledger_database.Replication.Replica.Views.{
  is_committed, replace_entry, transfer_entry, transfer_entries, handle_prepares,
  handle_state_transfer,
}
use ledger_database.Replication.Replica.Receive.{receive_message}
use ledger_database.Replication.Replica.Later.{
  Later, Later-refl, Later-trans, same, commit_up_to-Later, send_prepare_oks-Later,
}
use ledger_database.Replication.Replica.Monotone.{
  handle_request-Later, handle_unlogged_request-Later, handle_prepare-Later,
  handle_prepare_ok-Later, handle_commit-Later, handle_request_state_transfer-Later,
}
use ledger_database.Replication.Replica.Advance.{
  enter_view-Later, handle_start_view_change-Later, handle_do_view_change-Later,
  handle_start_view-Later,
}

module _ (h : Host) where
  replace_entry-Later :
      (r : Replica) (old : ℕ) (entry new : LogEntry)
      → Ensures (λ (out : Replica × ℕ). Later r out.0) (replace_entry h r old entry new)
  unfolding replace_entry
  replace_entry-Later r old entry new =
      let P = λ (out : Replica × ℕ). Later r out.0 in
      after_assert P (entry.viewstamp.opnum == new.viewstamp.opnum) (
        after_assert P (leb entry.viewstamp.view new.viewstamp.view) (
          either P (entry.viewstamp.view == new.viewstamp.view)
            (after_assert P (is_prepared entry.state) (returns (Later-refl r)))
            (after_assert P (not (is_committed entry.state)) (
              bind_any P (remove_after r.log new.viewstamp.opnum) _ λ cut.
                bind_any P (append h.sha1 cut new.viewstamp new.request prepared) _
                  λ log. returns (same refl refl)))))

  transfer_entry-Later :
      (r : Replica) (old : ℕ) (new : LogEntry)
      → Ensures (λ (out : Replica × ℕ). Later r out.0) (transfer_entry h r old new)
  unfolding transfer_entry
  transfer_entry-Later r old new =
      let P = λ (out : Replica × ℕ). Later r out.0 in
      let op = new.viewstamp.opnum in
      either P (leb op r.last_committed) (returns (Later-refl r)) (
        either P (leb op r.last_op)
          (bind_any P (find r.log op) _
            λ found. bind_any P (or_panic found) _ λ entry. replace_entry-Later r old entry new)
          (after_assert P (op == inc64 r.last_op) (
            bind_any P (append h.sha1 r.log new.viewstamp new.request prepared) _
              λ log. returns (same refl refl))))

  transfer_entries-Later :
      (r : Replica) (old : ℕ) (es : List LogEntry)
      → Ensures (λ (out : Replica × ℕ). Later r out.0) (transfer_entries h r old es)
  unfolding transfer_entries
  transfer_entries-Later r old [] = returns (Later-refl r)
  transfer_entries-Later r old (e ∷ es) =
      Ensures->>= (λ (out : Replica × ℕ). Later r out.0) (λ (out : Replica × ℕ). Later r out.0) _
        (transfer_entry-Later r old e)
        λ (r', old') p. weaken (λ out q. Later-trans p q) (transfer_entries-Later r' old' es)

  enter_newer-Later :
      (r : Replica) (view : ℕ) → Later r (if ltb r.view view then enter_view h r view else r)
  enter_newer-Later r view = elim (Bool-cases (ltb r.view view)) [
    | inl e ↦ rw e (enter_view-Later h r view (ground arith))
    | inr e ↦ rw e (Later-refl r)
  ]

  handle_state_transfer-Later :
      (r : Replica) (remote : ℕ) (msg : StateTransfer)
      → Ensures (Later r) (handle_state_transfer h r remote msg)
  unfolding handle_state_transfer handle_prepares
  handle_state_transfer-Later r remote msg =
      either (Later r) (ltb msg.view r.view) (returns (Later-refl r)) (
        Ensures->>= (Later r) (λ (out : Replica × ℕ). Later r out.0) _
          (transfer_entries-Later r r.last_op msg.entries)
          λ (installed, old) p.
            let entered =
              if ltb installed.view msg.view then enter_view h installed msg.view else installed in
            let q : Later installed entered = enter_newer-Later installed msg.view in
            after_assert (Later r) (leb msg.opnum entered.last_op) (
              Ensures->>= (Later r) (Later entered) _ (commit_up_to-Later h entered msg.opnum)
                λ executed c.
                  Ensures->>= (Later r) (Later executed) _ (send_prepare_oks-Later h executed old)
                    λ answered s. returns (
                      Later-trans p
                        (Later-trans q (Later-trans c (Later-trans s (same refl refl)))))))

  -- A message that a replica receives never takes it back to an earlier view, and never lowers its
  -- count of committed operations, as long as the count fits 64 bits.
  pub receive_message-Later :
      (r r' : Replica) (remote : ℕ) (m : Message)
      → r.last_committed + 1 < 2 ^ 64
      → receive_message h r remote m ≡ ok r'
      → Later r r'
  unfolding receive_message
  receive_message-Later r r' remote m room e = ensured (Later r) (go m) e
    where
      go : (m : Message) → Ensures (Later r) (receive_message h r remote m)
      go (request m) = handle_request-Later h r remote m room
      go (unlogged_request m) = returns (handle_unlogged_request-Later h r remote m)
      go (prepare m) = handle_prepare-Later h r remote m
      go (prepare_ok m) = handle_prepare_ok-Later h r remote m
      go (commit m) = handle_commit-Later h r remote m
      go (Messages.request_state_transfer m) = handle_request_state_transfer-Later h r remote m
      go (state_transfer m) = handle_state_transfer-Later r remote m
      go (Messages.start_view_change m) = handle_start_view_change-Later h r remote m
      go (do_view_change m) = handle_do_view_change-Later h r remote m
      go (start_view m) = handle_start_view-Later h r remote m
      go (reply m) = panics
      go (unlogged_reply m) = panics
