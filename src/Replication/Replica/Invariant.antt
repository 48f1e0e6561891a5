-- ===== src/Replication/Replica/Invariant.antt =====
-- The invariant of a replica's log and counts, over every message but three kinds, and over the
-- timers of distributed/replication/vr/replica.cc.
use ledger_database.Prelude.{
  ℕ, zero, suc, ◌+◌, ◌-◌, ◌^◌, ◌≤◌, ◌<◌, ◌≡◌, sym, subst, ◌∙◌, List, [], ◌∷◌, Bool, true, false,
  not, ltb, leb, ◌==◌, if◌then◌else◌, arith, Bool-cases, inl, inr,
}
use native.Mathlib.Decide.{dec_lt}
use ledger_database.Panic.{
  Run, ok, or_panic, Ensures, returns, Ensures->>=, bind_any, either, either_if, after_assert,
  if_asserted, ensured,
}
use ledger_database.Maps.{number_order}
use ledger_database.Replication.{inc64, viewstamp_order}
use ledger_database.Replication.Messages.{
  UnloggedRequest, to_all, Prepare, PrepareOk, Commit, RequestStateTransfer, StateTransfer,
  StartViewChange, Message, request, reply, unlogged_request, unlogged_reply, prepare, prepare_ok,
  commit, state_transfer, do_view_change, start_view,
}
use ledger_database.Replication.Messages
use ledger_database.Replication.Log.{Log, LogEntry, prepared, find}
use ledger_database.Replication.Log.Entries.{append-Appended}
use ledger_database.Replication.Log.Removal.{Removed, remove_after-Removed}
use ledger_database.Replication.Replica.{
  Host, send, Replica, Timer, batch_requests, view_change_timer, null_commit_timer,
  state_transfer_timer, resend_prepare_timer, close_batch_timer, is_prepared, update_client_table,
}
use ledger_database.Replication.Replica.Methods.{
  on_timeout, new_replica, close_batch, resend_prepare, send_null_commit, am_leader, enter_view,
  send_prepare_oks, send_prepare_ok, send_prepare_ok_loop,
}
use ledger_database.Replication.Replica.Views.{
  is_committed, replace_entry, transfer_entry, transfer_entries, handle_prepares,
  handle_state_transfer,
}
use ledger_database.Replication.Replica.Prepares.{Held, IsReady, append-Held}
use ledger_database.Replication.Replica.Ready.{commit_up_to-IsReady}

-- Every entry of a list has a number that can be followed by another.
abbrev pub Numbers : List LogEntry → Type 0
Numbers [] = Unit
Numbers (e ∷ es) = (e.viewstamp.opnum + 1 < 2 ^ 64) × Numbers es

remove_after-Held :
    (l : Log) (op n c : ℕ) {out : Run Log}
    → Held l op c
    → c < n
    → n ≤ op
    → (cut : Removed l n out) → Held cut.log (n - 1) c
remove_after-Held l op n c held lo hi cut = record {
  log = cut.valid;
  ends = omega (arith, cut.ends, held.ends);
  from = omega (arith, cut.start, held.from);
  within = omega arith;
  below = λ k x there le. held.below k x (sym (cut.before k (omega arith)) ∙ there) le;
  above = λ k x there lt. elim (dec_lt k n) [
    | yes inside ↦ held.above k x (sym (cut.before k inside) ∙ there) lt
    | no outside ↦ absurd (cc (cut.gone k (omega arith), there))
  ];
}

module _ (h : Host) where
  replace_entry-IsReady :
      (r : Replica) (old : ℕ) (entry new : LogEntry)
      → IsReady r
      → r.last_committed < new.viewstamp.opnum
      → new.viewstamp.opnum ≤ r.last_op
      → new.viewstamp.opnum + 1 < 2 ^ 64
      → Ensures (λ (out : Replica × ℕ). IsReady out.0) (replace_entry h r old entry new)
  unfolding replace_entry
  replace_entry-IsReady r old entry new ready lo hi room =
      let P = λ (out : Replica × ℕ). IsReady out.0 in
      let n = new.viewstamp.opnum in
      let cut = remove_after-Removed r.log n ready.log (omega (arith, ready.from)) in
      let held = remove_after-Held r.log r.last_op n r.last_committed ready lo hi cut in
      let a =
        append-Appended h.sha1 cut.log new.viewstamp new.request prepared cut.valid
          (omega (arith, held.ends)) (omega (arith, held.ends)) in
      let held' : Held a.log n r.last_committed =
        subst (λ e. Held a.log e r.last_committed) (omega arith)
          (append-Held cut.log (n - 1) r.last_committed new.viewstamp new.request (omega arith) held
            a) in
      after_assert P (entry.viewstamp.opnum == new.viewstamp.opnum) (
        after_assert P (leb entry.viewstamp.view new.viewstamp.view) (
          either P (entry.viewstamp.view == new.viewstamp.view)
            (after_assert P (is_prepared entry.state) (returns ready))
            (after_assert P (not (is_committed entry.state))
              (rw cut.returns (rw a.returns (returns held'))))))

  transfer_entry-IsReady :
      (r : Replica) (old : ℕ) (new : LogEntry)
      → IsReady r
      → new.viewstamp.opnum + 1 < 2 ^ 64
      → Ensures (λ (out : Replica × ℕ). IsReady out.0) (transfer_entry h r old new)
  unfolding transfer_entry
  transfer_entry-IsReady r old new ready room =
      let P = λ (out : Replica × ℕ). IsReady out.0 in
      let op = new.viewstamp.opnum in
      either_if P (leb op r.last_committed) (λ e. returns ready)
        λ later.
          either_if P (leb op r.last_op)
            (λ known. bind_any P (find r.log op) _ λ found. bind_any P (or_panic found) _ λ entry.
              replace_entry-IsReady r old entry new ready (ground arith) (ground arith) room)
            λ unknown. if_asserted P (op == inc64 r.last_op) λ next_one.
              let e : op ≡ r.last_op + 1 = ground (arith, ready.log.room, ready.ends) in
              let a =
                append-Appended h.sha1 r.log new.viewstamp new.request prepared ready.log
                  (omega (arith, ready.ends)) (omega (arith, ready.ends)) in
              let step : inc64 r.last_op ≡ r.last_op + 1 = omega arith in
              rw step (
                rw a.returns (
                  returns (
                    append-Held r.log r.last_op r.last_committed new.viewstamp new.request e ready
                      a)))

  transfer_entries-IsReady :
      (r : Replica) (old : ℕ) (es : List LogEntry)
      → IsReady r
      → Numbers es
      → Ensures (λ (out : Replica × ℕ). IsReady out.0) (transfer_entries h r old es)
  unfolding transfer_entries
  transfer_entries-IsReady r old [] ready room = returns ready
  transfer_entries-IsReady r old (e ∷ es) ready room =
      let P = λ (out : Replica × ℕ). IsReady out.0 in
      Ensures->>= P P _ (transfer_entry-IsReady r old e ready room.0)
        λ (r', old') p. transfer_entries-IsReady r' old' es p room.1

  send_prepare_ok-IsReady :
      (r : Replica) (i : ℕ) → IsReady r → Ensures IsReady (send_prepare_ok h r i)
  unfolding send_prepare_ok
  send_prepare_ok-IsReady r i ready = either IsReady (leb i r.last_committed) (returns ready) (
      bind_any IsReady (find r.log i) _ λ found. bind_any IsReady (or_panic found) _ λ e.
        after_assert IsReady (is_prepared e.state) (
          bind_any IsReady (update_client_table r.client_table e.request) _ λ table. returns ready))

  send_prepare_ok_loop-IsReady :
      (rounds i : ℕ) (r : Replica) → IsReady r → Ensures IsReady (send_prepare_ok_loop h rounds i r)
  unfolding send_prepare_ok_loop
  send_prepare_ok_loop-IsReady zero i r ready = returns ready
  send_prepare_ok_loop-IsReady (suc rounds) i r ready =
      Ensures->>= IsReady IsReady _ (send_prepare_ok-IsReady r i ready)
        λ r' p. send_prepare_ok_loop-IsReady rounds (i + 1) r' p

  send_prepare_oks-IsReady :
      (r : Replica) (old : ℕ) → IsReady r → Ensures IsReady (send_prepare_oks h r old)
  unfolding send_prepare_oks
  send_prepare_oks-IsReady r old ready = send_prepare_ok_loop-IsReady _ old r ready

  enter_newer-IsReady :
      (r : Replica) (view : ℕ)
      → IsReady r
      → IsReady (if ltb r.view view then enter_view h r view else r)
  unfolding enter_view
  enter_newer-IsReady r view ready = elim (Bool-cases (ltb r.view view)) [
    | inl e ↦ rw e ready
    | inr e ↦ rw e ready
  ]

  pub handle_state_transfer-IsReady :
      (r : Replica) (remote : ℕ) (msg : StateTransfer)
      → IsReady r
      → Numbers msg.entries
      → Ensures IsReady (handle_state_transfer h r remote msg)
  unfolding handle_state_transfer handle_prepares
  handle_state_transfer-IsReady r remote msg ready room =
      either IsReady (ltb msg.view r.view) (returns ready) (
        Ensures->>= IsReady (λ (out : Replica × ℕ). IsReady out.0) _
          (transfer_entries-IsReady r r.last_op msg.entries ready room)
          λ (installed, old) p.
            let entered =
              if ltb installed.view msg.view then enter_view h installed msg.view else installed in
            let q : IsReady entered = enter_newer-IsReady installed msg.view p in
            after_assert IsReady (leb msg.opnum entered.last_op) (
              Ensures->>= IsReady IsReady _ (commit_up_to-IsReady h entered msg.opnum q)
                λ executed c.
                  Ensures->>= IsReady IsReady _ (send_prepare_oks-IsReady executed old c)
                    λ answered s. returns s))

  pub new_replica-IsReady : IsReady (new_replica h)
  unfolding new_replica
  new_replica-IsReady = record {
    log = record {
      from_one = omega arith;
      room = omega arith;
      numbered = λ i e there. absurd (cc);
    };
    ends = omega arith;
    from = omega arith;
    within = omega arith;
    below = λ n e there le. absurd (ground arith);
    above = λ n e there lt. absurd (ground arith);
  }

  null_commit-IsReady : (r : Replica) → IsReady r → Ensures IsReady (send_null_commit h r)
  unfolding send_null_commit
  null_commit-IsReady r ready = after_assert IsReady (am_leader h r) (returns ready)

  resend_prepare-IsReady : (r : Replica) → IsReady r → Ensures IsReady (resend_prepare h r)
  unfolding resend_prepare
  resend_prepare-IsReady r ready =
      after_assert IsReady (am_leader h r) (returns (resent (r.last_op == r.last_committed)))
    where
      resent :
          (b : Bool) → IsReady (if b then r else send r (to_all (Messages.prepare r.last_prepare)))
      resent true = ready
      resent false = ready

  close_batch-IsReady : (r : Replica) → IsReady r → Ensures IsReady (close_batch h r)
  unfolding close_batch
  close_batch-IsReady r ready = after_assert IsReady (am_leader h r) (
      after_assert IsReady (ltb r.last_batch_end r.last_op) (
        bind_any IsReady (batch_requests (r.last_op - r.last_batch_end) (r.last_batch_end + 1) r) _
          λ requests. returns ready))

  -- Whatever a timer does, the log, the last operation and the count of committed operations stay
  -- in step.
  pub on_timeout-IsReady :
      (r r' : Replica) (t : Timer) → IsReady r → on_timeout h r t ≡ ok r' → IsReady r'
  unfolding on_timeout
  on_timeout-IsReady r r' t ready e = ensured IsReady (go t) e
    where
      go : (t : Timer) → Ensures IsReady (on_timeout h r t)
      go view_change_timer = returns ready
      go null_commit_timer = null_commit-IsReady r ready
      go state_transfer_timer = returns ready
      go resend_prepare_timer = resend_prepare-IsReady r ready
      go close_batch_timer = close_batch-IsReady r ready
