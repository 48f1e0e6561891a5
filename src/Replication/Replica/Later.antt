-- ===== src/Replication/Replica/Later.antt =====
-- What the replica's methods and handlers do to its view and to its count of committed operations.
use ledger_database.Prelude.{
  ℕ, zero, suc, ◌+◌, ◌≤◌, ◌≡◌, refl, Bool, true, false, ltb, leb, if◌then◌else◌, arith, Bool-cases,
  Option-cases, inl, inr,
}
use ledger_database.Panic.{
  Ensures, returns, Ensures->>=, bind_any, either, or_panic, after_assert, weaken,
}
use ledger_database.Maps.{number_order, lookup}
use ledger_database.Replication.{Request}
use ledger_database.Replication.Messages.{ReplyMessage}
use ledger_database.Replication.Log.{LogEntry, find, set_status, committed}
use ledger_database.Replication.Replica.{
  Host, Replica, reply_to, asked_before, update_client_table, request_state_transfer,
}
use ledger_database.Replication.Replica.Methods.{
  commit_entry, commit_next, commit_loop, commit_up_to, send_prepare_ok, send_prepare_ok_loop,
  send_prepare_oks,
}

pub record Later (r r' : Replica) : Type 0 where
  pub view : r.view ≤ r'.view
  pub committed : r.last_committed ≤ r'.last_committed

pub Later-refl : (r : Replica) → Later r r
Later-refl r = record { view = omega arith; committed = omega arith }

pub Later-trans : {r s t : Replica} → Later r s → Later s t → Later r t
Later-trans p q = record { view = omega arith; committed = omega arith }

-- The same view and count.
pub same : {r s : Replica} → s.view ≡ r.view → s.last_committed ≡ r.last_committed → Later r s
same p q = record { view = omega arith; committed = omega arith }

pub chosen :
    {r : Replica} (b : Bool) {s t : Replica} → Later r s → Later r t → Later r (if b then s else t)
chosen true p q = p
chosen false p q = q

pub request_state_transfer-Later : (r : Replica) → Later r (request_state_transfer r)
unfolding request_state_transfer
request_state_transfer-Later r = elim (Bool-cases (asked_before r)) [
  | inl e ↦ rw e (Later-refl r)
  | inr e ↦ rw e (same refl refl)
]

module _ (h : Host) where
  reply_to-Later :
      (r : Replica) (req : Request) (answer : ReplyMessage) → Later r (reply_to r req answer)
  reply_to-Later r req answer = elim (Option-cases (lookup r.client_addresses req.clientid)) [
    | inl e ↦ rw (e, reply_to) (Later-refl r)
    | inr (a, e) ↦ rw (e, reply_to) (same refl refl)
  ]

  commit_entry-Later : (r : Replica) (e : LogEntry) → Ensures (Later r) (commit_entry h r e)
  unfolding commit_entry
  commit_entry-Later r e =
      bind_any (Later r) (set_status r.log r.last_committed committed) _
        λ (marked, b). returns (Later-trans (same refl refl) (reply_to-Later _ e.request _))

  commit_next-Later : (r : Replica) → Ensures (Later r) (commit_next h r)
  unfolding commit_next
  commit_next-Later r = bind_any (Later r) (find r.log (r.last_committed + 1)) _ λ found.
      bind_any (Later r) (or_panic found) _ λ e.
        weaken (λ r' p. Later-trans (record { view = omega arith; committed = omega arith }) p)
          (commit_entry-Later _ e)

  commit_loop-Later :
      (rounds upto : ℕ) (r : Replica) → Ensures (Later r) (commit_loop h rounds upto r)
  unfolding commit_loop
  commit_loop-Later zero upto r = returns (Later-refl r)
  commit_loop-Later (suc rounds) upto r =
      either (Later r) (ltb r.last_committed upto)
        (Ensures->>= (Later r) (Later r) _ (commit_next-Later r)
          (λ r' p. weaken (λ t. Later-trans p) (commit_loop-Later rounds upto r')))
        (returns (Later-refl r))

  pub commit_up_to-Later : (r : Replica) (upto : ℕ) → Ensures (Later r) (commit_up_to h r upto)
  unfolding commit_up_to
  commit_up_to-Later r upto = commit_loop-Later _ upto r

  send_prepare_ok-Later : (r : Replica) (i : ℕ) → Ensures (Later r) (send_prepare_ok h r i)
  unfolding send_prepare_ok
  send_prepare_ok-Later r i = either (Later r) (leb i r.last_committed) (returns (Later-refl r)) (
      bind_any (Later r) (find r.log i) _ λ found. bind_any (Later r) (or_panic found) _ λ e.
        after_assert (Later r) _ (
          bind_any (Later r) (update_client_table r.client_table e.request) _
            λ table. returns (same refl refl)))

  send_prepare_ok_loop-Later :
      (rounds i : ℕ) (r : Replica) → Ensures (Later r) (send_prepare_ok_loop h rounds i r)
  unfolding send_prepare_ok_loop
  send_prepare_ok_loop-Later zero i r = returns (Later-refl r)
  send_prepare_ok_loop-Later (suc rounds) i r =
      (Ensures->>= (Later r) (Later r) _ (send_prepare_ok-Later r i)
        (λ r' p. weaken (λ t. Later-trans p) (send_prepare_ok_loop-Later rounds (i + 1) r')))

  pub send_prepare_oks-Later :
      (r : Replica) (old : ℕ) → Ensures (Later r) (send_prepare_oks h r old)
  unfolding send_prepare_oks
  send_prepare_oks-Later r old = send_prepare_ok_loop-Later _ old r
