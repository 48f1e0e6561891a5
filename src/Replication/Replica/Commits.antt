-- ===== src/Replication/Replica/Commits.antt =====
-- `CommitUpTo` of distributed/replication/vr/replica.cc against the log that it commits.
use ledger_database.Prelude.{
  ℕ, zero, suc, ◌+◌, ◌-◌, ◌≤◌, ◌<◌, ◌≡◌, ◌⊎◌, refl, sym, ap, ap₂, subst, ◌∙◌, List, [], ◌∷◌, ◌++◌,
  none, some, true, ltb, arith, Option-cases, inl, inr,
}
use mathlib.Core.List.{append_assoc, append-nil}
use native.Mathlib.Decide.{dec_lt}
use mathlib.Core.Option
use ledger_database.Panic.{Run, ok}
use ledger_database.Maps.{number_order, lookup}
use ledger_database.Replication.{Request}
use ledger_database.Replication.Messages.{ReplyMessage, Sent, to_address}
use ledger_database.Replication.Messages
use ledger_database.Replication.Log.{Log, LogEntry, committed}
use ledger_database.Replication.Log.Entries.{IsLog, next, seen, find-seen, seen_inside}
use ledger_database.Replication.Log.Marks.{set_status-Marked}
use ledger_database.Replication.Replica.{
  Host, Replica, ClientTableEntry, Upcall, replica_upcall, record_reply, reply_to,
}
use ledger_database.Replication.Replica.Methods.{
  execute, commit_entry, commit_next, commit_loop, commit_up_to,
}

-- The replica with the parts replaced that committing changes.
abbrev pub changed :
    Replica → ℕ → List Upcall → Log → List (ℕ × ClientTableEntry) → List Sent → Replica
changed r count calls log table sent = record r {
  last_committed = count;
  calls = calls;
  log = log;
  client_table = table;
  sent = sent;
}

abbrev pub commit_mark : LogEntry → LogEntry
commit_mark e = record e { state = committed }

-- The calls that executing so many operations of the log makes, from a number on.
abbrev pub upcalls : Log → ℕ → ℕ → List Upcall
upcalls l zero n = []
upcalls l (suc rounds) n = elim (seen l n) [
  | none ↦ []
  | some e ↦ replica_upcall n e.request.op ∷ upcalls l rounds (n + 1)
]

upcalls-same :
    (l m : Log) (rounds n : ℕ)
    → ((k : ℕ) → n ≤ k → seen l k ≡ seen m k)
    → upcalls l rounds n ≡ upcalls m rounds n
upcalls-same l m zero n h = refl
upcalls-same l m (suc rounds) n h =
    let rest = upcalls-same l m rounds (n + 1) (λ k le. h k (omega arith)) in
    elim (Option-cases (seen m n)) [
      | inl e ↦ rw (h n (omega arith), upcalls) (rw (e, upcalls) refl)
      | inr (x, e) ↦
          rw (h n (omega arith), upcalls)
            (rw (e, upcalls) (ap (λ t. replica_upcall n x.request.op ∷ t) rest))
    ]

upcalls-suc :
    (l m : Log) (rounds n : ℕ) (e : LogEntry)
    → seen l n ≡ some e
    → ((k : ℕ) → n < k → seen m k ≡ seen l k)
    → upcalls l 1 n ++ upcalls m rounds (n + 1) ≡ upcalls l (suc rounds) n
upcalls-suc l m rounds n e there h =
    let rest = upcalls-same m l rounds (n + 1) (λ k le. h k (omega arith)) in
    rw (there, upcalls) (ap (λ t. replica_upcall n e.request.op ∷ t) rest)

-- What committing up to a number leaves.
pub record Committed (r : Replica) (rounds : ℕ) (out : Run Replica) : Type 0 where
  pub log : Log
  pub table : List (ℕ × ClientTableEntry)
  pub sent : List Sent
  pub returns :
      out
      ≡ ok (
          changed r
            (r.last_committed + rounds)
            (r.calls ++ upcalls r.log rounds (r.last_committed + 1))
            log
            table
            sent)
  pub valid : IsLog log
  pub start : log.start ≡ r.log.start
  pub same_end : next log ≡ next r.log
  pub marked :
      (n : ℕ)
      → r.last_committed < n
      → n ≤ r.last_committed + rounds
      → seen log n ≡ Option.map commit_mark (seen r.log n)
  pub others :
      (n : ℕ) → (n ≤ r.last_committed) ⊎ (r.last_committed + rounds < n) → seen log n ≡ seen r.log n

module _ (h : Host) where
  reply_to-sent :
      (r : Replica) (req : Request) (answer : ReplyMessage)
      → (sent : List Sent) × (reply_to r req answer ≡ record r { sent = sent })
  reply_to-sent r req answer = elim (Option-cases (lookup r.client_addresses req.clientid)) [
    | inl e ↦ (r.sent, rw (e, reply_to) refl)
    | inr (a, e) ↦ (r.sent ++ to_address a (Messages.reply answer) ∷ [], rw (e, reply_to) refl)
  ]

  -- One round.
  pub commit_next-Committed :
      (r : Replica) (e : LogEntry)
      → IsLog r.log
      → seen r.log (r.last_committed + 1) ≡ some e
      → Committed r 1 (commit_next h r)
  unfolding commit_next commit_entry
  commit_next-Committed r e i there =
      let n = r.last_committed + 1 in
      let mark = set_status-Marked r.log n i committed in
      let counted = record r { last_committed = n } in
      let called = (execute h counted n e.request).0 in
      let answer : ReplyMessage = record {
        view = e.viewstamp.view;
        opnum = e.viewstamp.opnum;
        clientreqid = e.request.clientreqid;
        reply = (execute h counted n e.request).1;
      } in
      let table = record_reply called.client_table e.request answer in
      let ended = record called { log = mark.log; client_table = table } in
      let ups : upcalls r.log 1 n ≡ replica_upcall n e.request.op ∷ [] = rw (there, upcalls) refl in
      let (sent, shape) = reply_to-sent ended e.request answer in
      record {
        log = mark.log;
        table = table;
        sent = sent;
        returns = rw (find-seen r.log i n) (
            rw there (
              rw mark.returns (
                rw shape
                  (ap (λ cs. ok (changed r n (r.calls ++ cs) mark.log table sent)) (sym ups)))));
        valid = mark.valid;
        start = mark.start;
        same_end = mark.same_end;
        marked = λ k lo hi. let e : k ≡ n = omega arith in rw e mark.changed;
        others = λ k out. mark.others k (ground arith);
      }

  -- So many rounds of the loop.
  commit_loop-Committed :
      (rounds : ℕ) (r : Replica)
      → IsLog r.log
      → r.log.start ≤ r.last_committed + 1
      → r.last_committed + rounds < next r.log
      → Committed r rounds (commit_loop h rounds (r.last_committed + rounds) r)
  unfolding commit_loop
  commit_loop-Committed zero r i from inside = record {
    log = r.log;
    table = r.client_table;
    sent = r.sent;
    returns =
        ap₂ (λ c cs. ok (changed r c cs r.log r.client_table r.sent)) (omega arith)
          (sym (append-nil r.calls));
    valid = i;
    start = refl;
    same_end = refl;
    marked = λ n lo hi. absurd (omega arith);
    others = λ n out. refl;
  }
  commit_loop-Committed (suc rounds) r i from inside =
      let n = r.last_committed + 1 in
      let (e, there) = seen_inside r.log n from (omega arith) in
      let one = commit_next-Committed r e i there in
      let mid = changed r n (r.calls ++ upcalls r.log 1 n) one.log one.table one.sent in
      let rest =
        commit_loop-Committed rounds mid one.valid (omega (arith, one.start))
          (omega (arith, one.same_end)) in
      let upto : n + rounds ≡ r.last_committed + suc rounds = omega arith in
      let more : ltb r.last_committed (r.last_committed + suc rounds) ≡ true = ground arith in
      let turn : commit_loop h (suc rounds) (r.last_committed + suc rounds) r
          ≡ commit_loop h rounds (r.last_committed + suc rounds) mid =
        rw more (rw one.returns refl) in
      record {
        log = rest.log;
        table = rest.table;
        sent = rest.sent;
        returns =
            turn
            ∙ ap (λ u. commit_loop h rounds u mid) (sym upto)
            ∙ rest.returns
            ∙ ap₂ (λ c cs. ok (changed r c cs rest.log rest.table rest.sent)) upto
                (append_assoc r.calls (upcalls r.log 1 n) (upcalls one.log rounds (n + 1))
                  ∙ ap (λ cs. r.calls ++ cs)
                      (upcalls-suc r.log one.log rounds n e there (λ k lt. one.others k (inr lt))));
        valid = rest.valid;
        start = rest.start ∙ one.start;
        same_end = rest.same_end ∙ one.same_end;
        marked = λ k lo hi. elim (dec_lt n k) [
          | yes above ↦
              rest.marked k above (omega arith)
              ∙ ap (Option.map commit_mark) (one.others k (inr above))
          | no at ↦ rest.others k (inl (omega arith)) ∙ one.marked k lo (omega arith)
        ];
        others = λ k out. rest.others k (ground arith) ∙ one.others k (ground arith);
      }

  no_rounds :
      (rounds u v : ℕ) (r : Replica)
      → rounds ≡ 0
      → commit_loop h rounds u r ≡ commit_loop h rounds v r
  unfolding commit_loop
  no_rounds rounds u v r e = rw e refl

  -- `CommitUpTo` a number that the log reaches returns, after one round for each number between.
  -- It executes the operations of the log under those numbers, each once and in order, and counts
  -- them as committed; their entries are marked committed and no other entry changes, the log ends
  -- where it did, and of the replica only the count, the calls, the log, the client table and the
  -- messages sent change.
  pub commit_up_to-Committed :
      (r : Replica) (upto : ℕ)
      → IsLog r.log
      → r.log.start ≤ r.last_committed + 1
      → r.last_committed < next r.log
      → upto < next r.log
      → Committed r (upto - r.last_committed) (commit_up_to h r upto)
  unfolding commit_up_to
  commit_up_to-Committed r upto i from own inside =
      let rounds = upto - r.last_committed in
      let done = commit_loop-Committed rounds r i from (omega arith) in
      elim (dec_lt r.last_committed upto) [
        | yes more ↦ subst (λ u. Committed r rounds (commit_loop h rounds u r)) (omega arith) done
        | no past ↦
            subst (λ out. Committed r rounds out)
              (no_rounds rounds (r.last_committed + rounds) upto r (omega arith)) done
      ]
