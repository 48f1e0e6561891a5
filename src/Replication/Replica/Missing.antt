-- ===== src/Replication/Replica/Missing.antt =====
-- `CommitUpTo` of distributed/replication/vr/replica.cc past the end of the log.
use ledger_database.Prelude.{
  ℕ, zero, suc, ◌+◌, ◌-◌, ◌≤◌, ◌<◌, ◌≡◌, refl, sym, subst, ◌++◌, none, true, ltb, arith,
  Option-cases, inl, inr,
}
use native.Mathlib.Decide.{dec_lt}
use ledger_database.Panic.{panic}
use ledger_database.Maps.{number_order}
use ledger_database.Replication.Log.Entries.{IsLog, next, seen, find-seen, seen_beyond}
use ledger_database.Replication.Replica.{Host, Replica}
use ledger_database.Replication.Replica.Methods.{commit_next, commit_loop, commit_up_to}
use ledger_database.Replication.Replica.Commits.{changed, upcalls, commit_next-Committed}

module _ (h : Host) where
  commit_next-panic :
      (r : Replica)
      → IsLog r.log
      → seen r.log (r.last_committed + 1) ≡ none
      → commit_next h r ≡ panic
  unfolding commit_next
  commit_next-panic r i gone = rw (find-seen r.log i (r.last_committed + 1)) (rw gone refl)

  commit_loop-panic :
      (rounds : ℕ) (r : Replica)
      → IsLog r.log
      → r.log.start ≤ r.last_committed + 1
      → 0 < rounds
      → next r.log ≤ r.last_committed + rounds
      → commit_loop h rounds (r.last_committed + rounds) r ≡ panic
  unfolding commit_loop
  commit_loop-panic zero r i from some_round beyond = absurd (omega arith)
  commit_loop-panic (suc rounds) r i from some_round beyond =
      let n = r.last_committed + 1 in
      let more : ltb r.last_committed (r.last_committed + suc rounds) ≡ true = ground arith in
      elim (Option-cases (seen r.log n)) [
        | inl gone ↦ rw more (rw (commit_next-panic r i gone) refl)
        | inr (e, there) ↦
            let one = commit_next-Committed h r e i there in
            let mid = changed r n (r.calls ++ upcalls r.log 1 n) one.log one.table one.sent in
            let upto : n + rounds ≡ r.last_committed + suc rounds = omega arith in
            elim (dec_lt 0 rounds) [
              | yes left ↦ rw more (
                  rw one.returns (
                    rw (sym upto) (
                      commit_loop-panic rounds mid one.valid (omega (arith, one.start)) left
                        (omega (arith, one.same_end)))))
              | no last ↦ absurd (cc (there, seen_beyond r.log n (omega arith)))
            ]
      ]

  -- `CommitUpTo` a number that is not committed and that the log does not reach ends in a panic:
  -- it never returns with the number uncommitted.
  pub commit_up_to-panic :
      (r : Replica) (upto : ℕ)
      → IsLog r.log
      → r.log.start ≤ r.last_committed + 1
      → r.last_committed < upto
      → next r.log ≤ upto
      → commit_up_to h r upto ≡ panic
  unfolding commit_up_to
  commit_up_to-panic r upto i from new beyond =
      let rounds = upto - r.last_committed in
      subst (λ u. commit_loop h rounds u r ≡ panic) (omega arith)
        (commit_loop-panic rounds r i from (omega arith) (omega arith))
