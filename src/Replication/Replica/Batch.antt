-- ===== src/Replication/Replica/Batch.antt =====
-- `CloseBatch` of distributed/replication/vr/replica.cc at the leader, and `HandlePrepare` of what
-- it sends at a backup.
use ledger_database.Prelude.{
  ℕ, zero, suc, ◌+◌, ◌-◌, ◌^◌, ◌≤◌, ◌<◌, ◌≡◌, refl, sym, ap, ap₂, some-inj, ◌∙◌, List, [], ◌∷◌,
  ◌++◌, some, true, false, length, get_elem?, ltb, ◌==◌, arith, ==_iff,
}
use mathlib.Core.Option
use ledger_database.Panic.{Run, ok, ok-inj}
use ledger_database.Replication.{Request}
use ledger_database.Replication.Messages.{Prepare, to_all}
use ledger_database.Replication.Messages
use ledger_database.Replication.Log.{Log, LogEntry}
use ledger_database.Replication.Log.Entries.{IsLog, seen, find-seen, seen_number}
use ledger_database.Replication.Replica.{Host, Replica, ClientTableEntry, is_normal, batch_requests}
use ledger_database.Replication.Replica.Methods.{am_leader, close_batch}
use ledger_database.Replication.Replica.Handlers.{answer_prepare, handle_prepare}
use ledger_database.Replication.Replica.Prepares.{extended, IsReady, record_all}
use ledger_database.Replication.Replica.Backup.{
  heard, IsNext, Extends, new_requests, handle_prepare-Extends,
}

-- The operations of a range are in the log, from the replica's view.
abbrev pub InView : Replica → ℕ → ℕ → Type 0
InView r from to =
    (n : ℕ)
    → from < n
    → n ≤ to
    → (e : LogEntry) × (seen r.log n ≡ some e) × (e.viewstamp.view ≡ r.view)

-- What the loop of `CloseBatch` gathers.
record Gathered (r : Replica) (rounds i : ℕ) (out : Run (List Request)) : Type 0 where
  pub requests : List Request
  pub returns : out ≡ ok requests
  pub size : length requests ≡ rounds
  pub each :
      (k : ℕ) → k < rounds → get_elem? requests k ≡ Option.map (λ e. e.request) (seen r.log (i + k))

batch_requests-Gathered :
    (rounds i : ℕ) (r : Replica)
    → IsLog r.log
    → 0 < i
    → InView r (i - 1) (i - 1 + rounds)
    → Gathered r rounds i (batch_requests rounds i r)
unfolding batch_requests
batch_requests-Gathered zero i r valid pos here = record {
  requests = [];
  returns = refl;
  size = refl;
  each = λ k lt. absurd (omega arith);
}
batch_requests-Gathered (suc rounds) i r valid pos here =
    let (e, there, in_view) = here i (omega arith) (omega arith) in
    let rest =
      batch_requests-Gathered rounds (i + 1) r valid (omega arith)
        (λ n lo hi. here n (omega arith) (omega arith)) in
    let same_view : (e.viewstamp.view == r.view) ≡ true = (==_iff _ _).1 in_view in
    let same_number : (e.viewstamp.opnum == i) ≡ true =
      (==_iff _ _).1 (seen_number r.log i valid there) in
    record {
      requests = e.request ∷ rest.requests;
      returns =
          rw (find-seen r.log valid i)
            (rw there (rw same_view (rw same_number (rw rest.returns refl))));
      size = ap suc rest.size;
      each = each_of e rest there;
    }
  where
    each_of :
        (e : LogEntry)
        → (rest : Gathered r rounds (i + 1) (batch_requests rounds (i + 1) r))
        → seen r.log i ≡ some e
        → (k : ℕ) → k < suc rounds
        → get_elem? (e.request ∷ rest.requests) k ≡ Option.map (λ e. e.request) (seen r.log (i + k))
    each_of e rest there zero lt = let z : i + 0 ≡ i = omega arith in rw z (rw there refl)
    each_of e rest there (suc k) lt =
        let z : i + suc k ≡ i + 1 + k = omega arith in rw z (rest.each k (omega arith))

-- The Prepare of a batch: its operations are those of the log after the last batch.
pub record Batched (h : Host) (r : Replica) (out : Run Replica) : Type 0 where
  pub msg : Prepare
  pub returns :
      out
      ≡ ok (record r {
        last_prepare = msg;
        sent = r.sent ++ to_all (Messages.prepare msg) ∷ [];
        last_batch_end = r.last_op;
        timeouts = record r.timeouts { resend_prepare = true; close_batch = false };
      })
  pub view : msg.view ≡ r.view
  pub opnum : msg.opnum ≡ r.last_op
  pub batchstart : msg.batchstart ≡ r.last_batch_end + 1
  pub size : msg.batchstart + length msg.requests ≡ msg.opnum + 1
  pub each :
      (n : ℕ)
      → r.last_batch_end < n
      → n ≤ r.last_op
      → get_elem? msg.requests (n - msg.batchstart) ≡ Option.map (λ e. e.request) (seen r.log n)

module _ (h : Host) (r : Replica) where
  pub close_batch-Batched :
      IsReady r
      → am_leader h r ≡ true
      → r.last_batch_end < r.last_op
      → InView r r.last_batch_end r.last_op
      → Batched h r (close_batch h r)
  unfolding close_batch
  close_batch-Batched ready leads more here =
      let rounds = r.last_op - r.last_batch_end in
      let all =
        batch_requests-Gathered rounds (r.last_batch_end + 1) r ready.log (omega arith)
          (λ n lo hi. here n (omega arith) (omega arith)) in
      let some_left : ltb r.last_batch_end r.last_op ≡ true = ground arith in
      record {
        msg = record {
          view = r.view;
          opnum = r.last_op;
          batchstart = r.last_batch_end + 1;
          requests = all.requests;
        };
        returns = rw leads (rw some_left (rw all.returns refl));
        view = refl;
        opnum = refl;
        batchstart = refl;
        size = omega (arith, all.size);
        each = λ n lo hi.
            all.each (n - (r.last_batch_end + 1)) (omega arith)
            ∙ ap (λ k. Option.map (λ e. e.request) (seen r.log k)) (omega arith);
      }

-- The same operation in two logs.
pub record SameAt (l m : Log) (n : ℕ) : Type 0 where
  pub own : LogEntry
  pub copy : LogEntry
  pub at_own : seen l n ≡ some own
  pub at_copy : seen m n ≡ some copy
  pub stamp : copy.viewstamp ≡ own.viewstamp
  pub request : copy.request ≡ own.request

-- A backup after the batch of a leader.
pub record Copied (h k : Host) (r r' b : Replica) (remote : ℕ) (out : Run Replica) : Type 0 where
  pub after : Replica
  pub returns : out ≡ ok after
  pub told : r'.sent ≡ r.sent ++ to_all (Messages.prepare r'.last_prepare) ∷ []
  pub ends : after.last_op ≡ r.last_op
  pub ready : IsReady after
  pub kept : (n : ℕ) → n ≤ b.last_op → seen after.log n ≡ seen b.log n
  pub copied : (n : ℕ) → b.last_op < n → n ≤ r.last_op → SameAt r.log after.log n

-- A backup that the batch finds in the leader's view.
pub record Follows (k : Host) (r b : Replica) : Type 0 where
  pub normal : is_normal b.status ≡ true
  pub view : b.view ≡ r.view
  pub backup : am_leader k b ≡ false
  pub has_last_batch : r.last_batch_end ≤ b.last_op
  pub behind : b.last_op < r.last_op

module _ (h k : Host) (r r' b : Replica) (remote : ℕ) where
  copied_of :
      (batch : Batched h r (close_batch h r)) {table : List (ℕ × ClientTableEntry)}
      {out : Run Replica}
      → IsReady r
      → InView r r.last_batch_end r.last_op
      → Follows k r b
      → (x : Extends k b batch.msg table out) → (n : ℕ) → b.last_op < n
      → n ≤ r.last_op
      → SameAt r.log x.log n
  copied_of batch ready here follows x n lo hi =
      let (own, at_own, in_view) = here n (omega (arith, follows.has_last_batch)) hi in
      let copy = x.new n lo (omega (arith, batch.opnum)) in
      let req = batch.each n (omega (arith, follows.has_last_batch)) hi in
      record {
        own = own;
        copy = copy.entry;
        at_own = at_own;
        at_copy = copy.there;
        stamp =
            copy.stamp
            ∙ ap₂ (λ v o. record { view = v; opnum = o }) (batch.view ∙ sym in_view)
                (sym (seen_number r.log n ready.log at_own));
        request = some-inj (copy.request ∙ req ∙ ap (Option.map (λ e. e.request)) at_own);
      }

  -- What the leader sends when it closes a batch makes a backup's log agree with the leader's up
  -- to the leader's last operation: the backup is of the same view and has all operations before the
  -- batch, its client table takes the new requests, and the leader's log holds operations of its
  -- own view in the batch. The backup keeps what it had, and its log stays in step with its counts.
  pub close_batch-handle_prepare :
      {table : List (ℕ × ClientTableEntry)}
      → IsReady r
      → am_leader h r ≡ true
      → r.last_batch_end < r.last_op
      → r.last_op + 1 < 2 ^ 64
      → InView r r.last_batch_end r.last_op
      → close_batch h r ≡ ok r'
      → IsReady b
      → Follows k r b
      → record_all b.client_table (new_requests b r'.last_prepare) ≡ ok table
      → Copied h k r r' b remote (handle_prepare k b remote r'.last_prepare)
  close_batch-handle_prepare {table} ready leads more room here closed b_ready follows accepted =
      let batch = close_batch-Batched h r ready leads more here in
      let after = ok-inj (sym closed ∙ batch.returns) in
      let sends : r'.last_prepare ≡ batch.msg = ap (λ x. x.last_prepare) after in
      let n : IsNext k b batch.msg = record {
        normal = follows.normal;
        view = batch.view ∙ sym follows.view;
        backup = follows.backup;
        numbered = omega (arith, batch.batchstart);
        no_gap = omega (arith, batch.batchstart, follows.has_last_batch);
        beyond = omega (arith, batch.opnum, follows.behind);
        counted = sym batch.size;
        room = omega (arith, batch.opnum);
      } in
      let accepted' : record_all b.client_table (new_requests b batch.msg) ≡ ok table =
        rw sends at accepted in
      let x = handle_prepare-Extends k b remote batch.msg n table b_ready accepted' in
      record {
        after = answer_prepare k (extended (heard b) batch.msg.opnum x.log table) batch.msg;
        returns = ap (handle_prepare k b remote) sends ∙ x.returns;
        told =
            ap (λ y. y.sent) after
            ∙ ap (λ m. r.sent ++ to_all (Messages.prepare m) ∷ []) (sym sends);
        ends = batch.opnum;
        ready = x.held;
        kept = x.kept;
        copied = copied_of batch ready here follows x;
      }
