-- ===== src/Replication/Replica/Majority.antt =====
-- `HandlePrepareOK` of distributed/replication/vr/replica.cc at the leader.
use ledger_database.Prelude.{
  ℕ, ◌+◌, ◌-◌, ◌≤◌, ◌≡◌, refl, sym, ◌∙◌, max, List, [], ◌++◌, none, some, Bool, true, false, not,
  ◌||◌, length, ltb, leb, if◌then◌else◌, arith, Bool-cases, inl, inr,
}
use mathlib.Core.List.{append-nil}
use ledger_database.Panic.{Run, ok}
use ledger_database.Maps.{number_order, assign}
use ledger_database.Configuration.{quorum_size}
use ledger_database.Replication.{Viewstamp, viewstamp_order}
use ledger_database.Replication.Messages.{PrepareOk, Commit, to_all}
use ledger_database.Replication.Messages
use ledger_database.Replication.Quorum.{QuorumSet, messages_at, add_and_check_for_quorum}
use ledger_database.Replication.Quorum.Count.{
  add_and_check_for_quorum-quorum_of, quorum_of-enough, quorum_of-few,
}
use ledger_database.Replication.Replica.{Host, Replica, is_normal, send}
use ledger_database.Replication.Replica.Methods.{am_leader}
use ledger_database.Replication.Replica.Handlers.{commit_quorum, handle_prepare_ok}
use ledger_database.Replication.Replica.Commits.{upcalls, changed, commit_up_to-Committed}
use ledger_database.Replication.Replica.Prepares.{IsReady}

-- The acknowledgements of an operation, with a new one: one for each replica.
abbrev pub acks : Replica → PrepareOk → List (ℕ × PrepareOk)
acks r msg =
    assign
      (messages_at r.prepare_ok_quorum.messages (record { view = msg.view; opnum = msg.opnum }))
      msg.replica_idx msg

abbrev pub enough : Replica → PrepareOk → Bool
enough r msg = leb r.prepare_ok_quorum.num_required (length (acks r msg))

-- What the leader does on an acknowledgement: it commits if the acknowledgements are enough.
pub record Decided (r : Replica) (msg : PrepareOk) (out : Run Replica) : Type 0 where
  pub after : Replica
  pub returns : out ≡ ok after
  pub count :
      after.last_committed
      ≡ (if enough r msg then max r.last_committed msg.opnum else r.last_committed)
  pub calls :
      after.calls
      ≡ r.calls
        ++ (if enough r msg
            then upcalls r.log (msg.opnum - r.last_committed) (r.last_committed + 1)
            else [])
  pub same_view : after.view ≡ r.view
  pub same_op : after.last_op ≡ r.last_op

module _ (h : Host) where
  commit_quorum-Decided :
      (r : Replica) (q : QuorumSet Viewstamp PrepareOk) (msg : PrepareOk)
      → (quorum : List (ℕ × PrepareOk)) → IsReady r
      → msg.opnum ≤ r.last_op
      → enough r msg ≡ true
      → Decided r msg (commit_quorum h (record r { prepare_ok_quorum = q }) msg quorum)
  unfolding commit_quorum
  commit_quorum-Decided r q msg quorum ready le test =
      let s = record r { prepare_ok_quorum = q } in
      let c =
        commit_up_to-Committed h s msg.opnum ready.log ready.from
          (omega (arith, ready.within, ready.ends)) (omega (arith, ready.ends)) in
      let rounds = msg.opnum - r.last_committed in
      let done =
        changed s (r.last_committed + rounds)
          (r.calls ++ upcalls r.log rounds (r.last_committed + 1)) c.log c.table c.sent in
      let cm =
        to_all (Messages.commit (record { view = r.view; opnum = r.last_committed + rounds })) in
      let told = send (record done { timeouts = record done.timeouts { null_commit = true } }) cm in
      let count : r.last_committed + rounds
          ≡ (if enough r msg then max r.last_committed msg.opnum else r.last_committed) =
        rw test (omega arith) in
      let calls : r.calls ++ upcalls r.log rounds (r.last_committed + 1)
          ≡ r.calls ++ (if enough r msg then upcalls r.log rounds (r.last_committed + 1) else []) =
        rw test refl in
      elim (Bool-cases (leb (quorum_size h.configuration) (length quorum))) [
        | inl all ↦ record {
          after = done;
          returns = rw c.returns (rw all refl);
          count = count;
          calls = calls;
          same_view = refl;
          same_op = refl;
        }
        | inr some_left ↦ record {
          after = told;
          returns = rw c.returns (rw some_left refl);
          count = count;
          calls = calls;
          same_view = refl;
          same_op = refl;
        }
      ]

  -- At the leader of a view, a PrepareOK of that view for an operation of its log commits if and
  -- only if, with it, as many replicas have acknowledged the operation as the quorum set requires.
  -- Then everything up to the operation is committed and executed, once each and in order;
  -- otherwise nothing is. The handler returns in either case, with the view and the last operation
  -- as they were.
  pub handle_prepare_ok-Decided :
      (r : Replica) (remote : ℕ) (msg : PrepareOk)
      → IsReady r
      → is_normal r.status ≡ true
      → am_leader h r ≡ true
      → msg.view ≡ r.view
      → msg.opnum ≤ r.last_op
      → Decided r msg (handle_prepare_ok h r remote msg)
  unfolding handle_prepare_ok
  handle_prepare_ok-Decided r remote msg ready normally leads view le =
      let vs : Viewstamp = record { view = msg.view; opnum = msg.opnum } in
      let added = add_and_check_for_quorum r.prepare_ok_quorum vs msg.replica_idx msg in
      let answer = add_and_check_for_quorum-quorum_of r.prepare_ok_quorum vs msg.replica_idx msg in
      let current : (not (is_normal r.status) || ltb msg.view r.view) ≡ false =
        ground (arith, normally, view) in
      let same_view : ltb r.view msg.view ≡ false = ground (arith, view) in
      elim (Bool-cases (enough r msg)) [
        | inl test ↦
            let yields : added.1 ≡ some (acks r msg) =
              answer ∙ quorum_of-enough _ (acks r msg) test in
            rw current (
              rw same_view (
                rw leads
                  (rw yields (commit_quorum-Decided r added.0 msg (acks r msg) ready le test))))
        | inr test ↦
            let yields : added.1 ≡ none = answer ∙ quorum_of-few _ (acks r msg) test in
            rw current (
              rw same_view (
                rw leads (
                  rw yields (record {
                    after = record r { prepare_ok_quorum = added.0 };
                    returns = refl;
                    count = rw test refl;
                    calls = rw test (sym (append-nil r.calls));
                    same_view = refl;
                    same_op = refl;
                  }))))
      ]
