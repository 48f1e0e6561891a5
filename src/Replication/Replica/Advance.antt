-- ===== src/Replication/Replica/Advance.antt =====
-- The handlers that change the view and the state transfer never take the view or the count of
-- committed operations back, and so does no message and no timer.
use ledger_database.Prelude.{
  ℕ, ◌≤◌, ◌≡◌, refl, min, List, [], ◌∷◌, Option, none, some, false, not, ◌&&◌, ◌||◌, length, ltb,
  ◌==◌, arith,
}
use ledger_database.Panic.{
  or_panic, Ensures, returns, Ensures->>=, bind_any, either, either_if, either_some, after_assert,
  weaken,
}
use ledger_database.Maps.{number_order}
use ledger_database.Configuration.{get_leader_index}
use ledger_database.Replication.{inc64}
use ledger_database.Replication.Messages.{StartViewChange, DoViewChange, StartView}
use ledger_database.Replication.Log.{LogEntry, remove_after, install, dump, last_viewstamp}
use ledger_database.Replication.Quorum.{add_and_check_for_quorum, get_messages}
use ledger_database.Replication.Replica.{Host, Replica}
use ledger_database.Replication.Replica.Methods.{am_leader, enter_view, start_view_change}
use ledger_database.Replication.Replica.Views.{
  min_element, is_stale, join, find_latest, install_log, install_latest, send_do_view_change,
  handle_start_view_change, begin_view, lead_view, handle_do_view_change, handle_start_view,
}
use ledger_database.Replication.Replica.Later.{
  Later, Later-refl, Later-trans, same, commit_up_to-Later, send_prepare_oks-Later,
}

-- The same view and the same count.
abbrev Alike : Replica → Replica → Type 0
Alike r s = (s.view ≡ r.view) × (s.last_committed ≡ r.last_committed)

module _ (h : Host) where
  enter_view-view : (r : Replica) (view : ℕ) → (enter_view h r view).view ≡ view
  unfolding enter_view
  enter_view-view r view = refl

  enter_view-last_committed :
      (r : Replica) (view : ℕ) → (enter_view h r view).last_committed ≡ r.last_committed
  unfolding enter_view
  enter_view-last_committed r view = refl

  pub enter_view-Later : (r : Replica) (view : ℕ) → r.view ≤ view → Later r (enter_view h r view)
  unfolding enter_view
  enter_view-Later r view le = record { view = le; committed = omega arith }

  join-Later :
      (r : Replica) (view : ℕ)
      → is_stale r view ≡ false
      → Later r (join h r view) × ((join h r view).view ≡ view)
  unfolding start_view_change
  join-Later r view fresh = (record { view = ground arith; committed = ground arith }, ground arith)

  install_log-Alike :
      (r : Replica) (last_op : ℕ) (es : List LogEntry)
      → Ensures (Alike r) (install_log h r last_op es)
  unfolding install_log
  install_log-Alike r last_op [] = returns (refl, refl)
  install_log-Alike r last_op (e ∷ es) =
      after_assert (Alike r) (not (ltb (inc64 r.last_committed) e.viewstamp.opnum)) (
        bind_any (Alike r) (remove_after r.log (inc64 last_op)) _
          λ cut. bind_any (Alike r) (install h.sha1 cut (e ∷ es)) _ λ log. returns (refl, refl))

  send_do_view_change-Later :
      (r : Replica) (msgs : List (ℕ × StartViewChange))
      → Ensures (Later r) (send_do_view_change h r msgs)
  unfolding send_do_view_change
  send_do_view_change-Later r msgs =
      either (Later r) (get_leader_index h.configuration r.view == h.my_idx)
        (returns (Later-refl r))
        (bind_any (Later r) (or_panic (min_element (λ m. m.last_committed) msgs)) _ λ least.
          bind_any (Later r) (dump r.log (min least r.last_committed)) _
            λ entries. returns (same refl refl))

  pub handle_start_view_change-Later :
      (r : Replica) (remote : ℕ) (msg : StartViewChange)
      → Ensures (Later r) (handle_start_view_change h r remote msg)
  unfolding handle_start_view_change
  handle_start_view_change-Later r remote msg =
      let joined = join h r msg.view in
      let added =
        add_and_check_for_quorum joined.start_view_change_quorum msg.view msg.replica_idx msg in
      either_if (Later r) (is_stale r msg.view) (λ e. returns (Later-refl r))
        λ fresh.
          let later = (join-Later r msg.view fresh).0 in
          after_assert (Later r) (msg.view == joined.view) (
            either_some (Later r) added.1
              (λ quorum.
                weaken (λ r' p. Later-trans later (Later-trans (same refl refl) p))
                  (send_do_view_change-Later (record joined { start_view_change_quorum = added.0 })
                    quorum))
              (returns (Later-trans later (same refl refl))))

  begin_view-Later :
      (r : Replica) (msg : DoViewChange) (op : ℕ) (latest : Option DoViewChange) (least : ℕ)
      → r.view ≤ msg.view
      → Ensures (Later r) (begin_view h r msg op latest least)
  unfolding begin_view
  begin_view-Later r msg op latest least le =
      let entered = record (enter_view h r msg.view) { last_op = op } in
      let start = enter_view-Later r msg.view le in
      after_assert (Later r) (am_leader h entered) (
        Ensures->>= (Later r) (Later entered) _
          (either_some (Later entered) latest (λ m. commit_up_to-Later h entered m.last_committed)
            (returns (Later-refl entered)))
          λ r' p. bind_any (Later r) (dump r'.log least) _ λ entries.
            returns
              (Later-trans start (Later-trans (same refl refl) (Later-trans p (same refl refl)))))

  install_latest-Alike :
      (r : Replica) (msg : DoViewChange) (latest : Option DoViewChange)
      → Ensures (Alike r) (install_latest h r msg latest)
  unfolding install_latest
  install_latest-Alike r msg none = returns (refl, refl)
  install_latest-Alike r msg (some m) =
      after_assert (Alike r)
        (not (length m.entries == 0)
          || (r.last_committed == msg.last_committed && msg.last_op == msg.last_committed))
        (install_log-Alike r m.last_op m.entries)

  lead_view-Later :
      (r : Replica) (msg : DoViewChange) (msgs : List (ℕ × DoViewChange))
      → r.view ≤ msg.view
      → Ensures (Later r) (lead_view h r msg msgs)
  unfolding lead_view
  lead_view-Later r msg msgs le =
      let own = last_viewstamp r.log in
      let found = find_latest msgs (own.view, own.opnum, none) in
      Ensures->>= (Later r) (Alike r) _ (install_latest-Alike r msg found.2) λ installed alike.
        let asked = get_messages installed.start_view_change_quorum installed.view in
        bind_any (Later r) (or_panic (min_element (λ m. m.last_committed) asked.1)) _ λ svc.
          bind_any (Later r) (or_panic (min_element (λ m. m.last_committed) msgs)) _ λ dvc.
            weaken (λ r' p. Later-trans (same alike.0 alike.1) p)
              (begin_view-Later (record installed { start_view_change_quorum = asked.0 }) msg
                found.1 found.2 (min (min svc dvc) installed.last_committed)
                (omega (arith, alike.0)))

  pub handle_do_view_change-Later :
      (r : Replica) (remote : ℕ) (msg : DoViewChange)
      → Ensures (Later r) (handle_do_view_change h r remote msg)
  unfolding handle_do_view_change
  handle_do_view_change-Later r remote msg =
      let joined = join h r msg.view in
      let added =
        add_and_check_for_quorum joined.do_view_change_quorum msg.view msg.replica_idx msg in
      either_if (Later r) (is_stale r msg.view) (λ e. returns (Later-refl r))
        λ fresh.
          let (later, at) = join-Later r msg.view fresh in
          let counted = record joined { do_view_change_quorum = added.0 } in
          after_assert (Later r) (get_leader_index h.configuration msg.view == h.my_idx) (
            either_some (Later r) added.1
              (λ quorum.
                weaken (λ r' p. Later-trans later (Later-trans (same refl refl) p))
                  (lead_view-Later counted msg quorum (omega (arith, at))))
              (returns (Later-trans later (same refl refl))))

  pub handle_start_view-Later :
      (r : Replica) (remote : ℕ) (msg : StartView)
      → Ensures (Later r) (handle_start_view h r remote msg)
  unfolding handle_start_view
  handle_start_view-Later r remote msg =
      either_if (Later r) (is_stale r msg.view) (λ e. returns (Later-refl r))
        λ fresh.
          after_assert (Later r) (not (get_leader_index h.configuration msg.view == h.my_idx)) (
            after_assert (Later r)
              (not (length msg.entries == 0)
                || (msg.last_committed == r.last_committed && msg.last_op == msg.last_committed))
              (Ensures->>= (Later r) (Alike r) _ (install_log-Alike r msg.last_op msg.entries)
                λ installed alike.
                  let entered = enter_view h installed msg.view in
                  let ended = record entered { last_op = msg.last_op } in
                  let start = Later-trans (same alike.0 alike.1) (
                    Later-trans (enter_view-Later installed msg.view (ground (arith, alike.0)))
                      (same refl refl)) in
                  after_assert (Later r) (not (am_leader h ended)) (
                    Ensures->>= (Later r) (Later ended) _
                      (commit_up_to-Later h ended msg.last_committed)
                      λ r' p.
                        weaken (λ t q. Later-trans start (Later-trans p q))
                          (send_prepare_oks-Later h r' entered.last_op))))
