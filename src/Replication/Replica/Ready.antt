-- ===== src/Replication/Replica/Ready.antt =====
-- The handlers of distributed/replication/vr/replica.cc keep the log, the last operation and the
-- count of committed operations in step. `HandleRequest` does not, and the two handlers that
-- install another replica's log are left out.
use ledger_database.Prelude.{
  ℕ, ◌+◌, ◌-◌, ◌≤◌, ◌≡◌, sym, ◌∙◌, Option, none, some, not, ◌||◌, ltb, leb, arith, Bool-cases, inl,
  inr,
}
use native.Mathlib.Decide.{dec_lt}
use mathlib.Core.Option
use ledger_database.Panic.{Run, Ensures, returns, panics, either, after_assert}
use ledger_database.Replication.{viewstamp_order}
use ledger_database.Replication.Messages.{Commit}
use ledger_database.Replication.Log.{LogEntry, committed}
use ledger_database.Replication.Log.Entries.{seen}
use ledger_database.Replication.Replica.{
  Host, Replica, is_normal, request_state_transfer, asked_before,
}
use ledger_database.Replication.Replica.Methods.{am_leader, commit_up_to}
use ledger_database.Replication.Replica.Handlers.{handle_commit}
use ledger_database.Replication.Replica.Commits.{Committed, commit_mark, commit_up_to-Committed}
use ledger_database.Replication.Replica.Missing.{commit_up_to-panic}
use ledger_database.Replication.Replica.Prepares.{Held, IsReady}
use ledger_database.Replication.Replica.Backup.{heard}

marked_state :
    (o : Option LogEntry) {e : LogEntry} → Option.map commit_mark o ≡ some e → e.state ≡ committed
marked_state none h = cc
marked_state (some x) h = cc

-- What `CommitUpTo` leaves is in step.
Committed-Held :
    (r : Replica) (rounds : ℕ) {out : Run Replica}
    → IsReady r
    → r.last_committed + rounds ≤ r.last_op
    → (c : Committed r rounds out) → Held c.log r.last_op (r.last_committed + rounds)
Committed-Held r rounds ready le c = record {
  log = c.valid;
  ends = ready.ends ∙ sym c.same_end;
  from = omega (arith, c.start, ready.from);
  within = le;
  below = λ n e there hi. elim (dec_lt r.last_committed n) [
    | yes new ↦ marked_state (seen r.log n) (sym (c.marked n new hi) ∙ there)
    | no old ↦ ready.below n e (sym (c.others n (inl (omega arith))) ∙ there) (omega arith)
  ];
  above = λ n e there lo. ready.above n e (sym (c.others n (inr lo)) ∙ there) (omega arith);
}

module _ (h : Host) where
  pub commit_up_to-IsReady :
      (r : Replica) (upto : ℕ) → IsReady r → Ensures IsReady (commit_up_to h r upto)
  commit_up_to-IsReady r upto ready = elim (dec_lt r.last_op upto) [
    | yes beyond ↦
        rw
          (commit_up_to-panic h r upto ready.log ready.from (omega (arith, ready.within))
            (omega (arith, ready.ends)))
          panics
    | no inside ↦
        let c =
          commit_up_to-Committed h r upto ready.log ready.from
            (omega (arith, ready.within, ready.ends)) (omega (arith, ready.ends)) in
        rw c.returns (
          returns
            (Committed-Held r (upto - r.last_committed) ready (omega (arith, ready.within)) c))
  ]

pub request_state_transfer-IsReady : (r : Replica) → IsReady r → IsReady (request_state_transfer r)
unfolding request_state_transfer
request_state_transfer-IsReady r ready = elim (Bool-cases (asked_before r)) [
  | inl e ↦ rw e ready
  | inr e ↦ rw e ready
]

module _ (h : Host) where
  pub handle_commit-IsReady :
      (r : Replica) (remote : ℕ) (msg : Commit)
      → IsReady r
      → Ensures IsReady (handle_commit h r remote msg)
  unfolding handle_commit
  handle_commit-IsReady r remote msg ready =
      either IsReady (not (is_normal r.status) || ltb msg.view r.view) (returns ready) (
        either IsReady (ltb r.view msg.view) (returns (request_state_transfer-IsReady r ready)) (
          after_assert IsReady (not (am_leader h r)) (
            either IsReady (leb msg.opnum r.last_committed) (returns ready) (
              either IsReady (ltb r.last_op msg.opnum)
                (returns (request_state_transfer-IsReady (heard r) ready))
                (commit_up_to-IsReady h (heard r) msg.opnum ready)))))
