-- ===== src/Replication/Replica/Prepares.antt =====
-- `HandlePrepare` of distributed/replication/vr/replica.cc: what a backup's log is after a Prepare.
use ledger_database.Prelude.{
  ℕ, suc, ◌+◌, ◌-◌, ◌^◌, ◌≤◌, ◌<◌, ◌≡◌, refl, sym, ap, ap₂, subst, ◌∙◌, List, [], ◌∷◌, Option, some,
  true, false, length, drop, get_elem?, leb, arith, ℕ_discrete, inl, inr,
}
use native.Mathlib.Decide.{dec_lt}
use ledger_database.Panic.{Run, ok, ◌>>=◌, Run-cases, ok-inj}
use ledger_database.Replication.{Viewstamp, Request, inc64}
use ledger_database.Replication.Log.{Log, LogEntry, prepared, committed, append}
use ledger_database.Replication.Log.Entries.{IsLog, next, seen, Appended, append-Appended}
use ledger_database.Replication.Replica.{Host, Replica, ClientTableEntry, update_client_table}
use ledger_database.Replication.Replica.Handlers.{prepare_requests}

-- What a replica's log, its last operation and its count of committed operations are to each
-- other outside `HandleRequest`.
pub record Held (l : Log) (last_op last_committed : ℕ) : Type 0 where
  pub log : IsLog l
  pub ends : last_op + 1 ≡ next l
  pub from : l.start ≤ last_committed + 1
  pub within : last_committed ≤ last_op
  pub below : (n : ℕ) (e : LogEntry) → seen l n ≡ some e → n ≤ last_committed → e.state ≡ committed
  pub above : (n : ℕ) (e : LogEntry) → seen l n ≡ some e → last_committed < n → e.state ≡ prepared

abbrev pub IsReady : Replica → Type 0
IsReady r = Held r.log r.last_op r.last_committed

-- An entry that holds a request of a view.
pub record Holds (l : Log) (n view : ℕ) (req : Option Request) : Type 0 where
  pub entry : LogEntry
  pub there : seen l n ≡ some entry
  pub stamp : entry.viewstamp ≡ record { view = view; opnum = n }
  pub request : some entry.request ≡ req
  pub state : entry.state ≡ prepared

pub append-Held :
    (l : Log) (op c : ℕ) (vs : Viewstamp) (req : Request) {out : Run Log}
    → vs.opnum ≡ op + 1
    → Held l op c
    → (a : Appended l vs req prepared out) → Held a.log (op + 1) c
append-Held l op c vs req e held a = record {
  log = a.valid;
  ends = omega (arith, a.grows, held.ends);
  from = omega (arith, a.start, held.from);
  within = omega (arith, held.within);
  below =
      λ n x there le. held.below n x (sym (a.others n (ground (arith, held.within))) ∙ there) le;
  above = λ n x there lt. elim (ℕ_discrete n vs.opnum) [
    | yes here ↦ cc (a.new, a.marked)
    | no other ↦ held.above n x (sym (a.others n other) ∙ there) lt
  ];
}

-- The requests in the client table, one after the other.
abbrev pub record_all :
    List (ℕ × ClientTableEntry) → List Request → Run (List (ℕ × ClientTableEntry))
record_all table [] = ok table
record_all table (req ∷ reqs) = do table' ← update_client_table table req; record_all table' reqs

abbrev pub extended : Replica → ℕ → Log → List (ℕ × ClientTableEntry) → Replica
extended r op log table = record r { last_op = op; log = log; client_table = table }

module _ (h : Host) (view : ℕ) where
  -- The requests appended to the log one after the other, after the operation `op`.
  abbrev pub append_requests : Log → ℕ → List Request → Run Log
  append_requests l op [] = ok l
  append_requests l op (req ∷ reqs) = do
    l' ← append h.sha1 l (record { view = view; opnum = op + 1 }) req prepared
    append_requests l' (op + 1) reqs

  pub record AppendedAll (l : Log) (op : ℕ) (reqs : List Request) (committed_op : ℕ) (out : Run Log)
      : Type 0 where
    pub log : Log
    pub returns : out ≡ ok log
    pub held : Held log (op + length reqs) committed_op
    pub kept : (n : ℕ) → n ≤ op → seen log n ≡ seen l n
    pub new :
        (n : ℕ) → op < n → n ≤ op + length reqs → Holds log n view (get_elem? reqs (n - op - 1))

  pub append_requests-AppendedAll :
      (l : Log) (op : ℕ) (reqs : List Request) (c : ℕ)
      → Held l op c
      → op + length reqs + 1 < 2 ^ 64
      → AppendedAll l op reqs c (append_requests l op reqs)
  append_requests-AppendedAll l op [] c held room = record {
    log = l;
    returns = refl;
    held = subst (λ n. Held l n c) (omega arith) held;
    kept = λ n le. refl;
    new = λ n lo hi. absurd (omega arith);
  }
  append_requests-AppendedAll l op (req ∷ reqs) c held room =
      let vs : Viewstamp = record { view = view; opnum = op + 1 } in
      let a =
        append-Appended h.sha1 l vs req prepared held.log held.ends (omega (arith, held.ends)) in
      let held' : Held a.log (op + 1) c = append-Held l op c vs req refl held a in
      let rest = append_requests-AppendedAll a.log (op + 1) reqs c held' (omega arith) in
      record {
        log = rest.log;
        returns = rw a.returns rest.returns;
        held = subst (λ n. Held rest.log n c) (omega arith) rest.held;
        kept = λ n le. rest.kept n (omega arith) ∙ a.others n (omega arith);
        new = λ n lo hi. elim (dec_lt (op + 1) n) [
          | yes later ↦
              let e : n - op - 1 ≡ suc (n - (op + 1) - 1) = omega arith in
              subst (λ i. Holds rest.log n view (get_elem? (req ∷ reqs) i)) (sym e)
                (rest.new n later (omega arith))
          | no first ↦
              let e : n ≡ op + 1 = omega arith in
              let z : n - op - 1 ≡ 0 = omega arith in
              record {
                entry = a.entry;
                there = rest.kept n (omega arith) ∙ ap (seen a.log) e ∙ a.new;
                stamp = a.stamp ∙ ap (λ k. record { view = view; opnum = k }) (sym e);
                request = rw z (ap some a.request);
                state = a.marked;
              }
        ];
      }

  -- The loop from the last operation on: every request is appended and recorded.
  pub prepare_requests-new :
      (reqs : List Request) (r : Replica)
      → IsReady r
      → r.last_op + length reqs + 1 < 2 ^ 64
      → {log : Log} → append_requests r.log r.last_op reqs ≡ ok log
      → prepare_requests h view r.last_op reqs r ≡ (
          record_all r.client_table reqs >>= λ t.
          ok (extended r (r.last_op + length reqs) log t, r.last_op + length reqs))
  unfolding prepare_requests
  prepare_requests-new [] r ready room {log} all =
      ap₂ (λ l n. ok (extended r n l r.client_table, n)) (ok-inj all) (omega arith)
  prepare_requests-new (req ∷ reqs) r ready room {log} all =
      let op = r.last_op in
      let vs : Viewstamp = record { view = view; opnum = op + 1 } in
      let a =
        append-Appended h.sha1 r.log vs req prepared ready.log (omega (arith, ready.ends))
          (omega (arith, ready.ends)) in
      let step : inc64 op ≡ op + 1 = omega arith in
      let beyond : leb (op + 1) r.last_op ≡ false = ground arith in
      let all' : append_requests a.log (op + 1) reqs ≡ ok log = rw (a.returns) at all in
      elim (Run-cases (update_client_table r.client_table req)) [
        | inl p ↦ rw step (rw beyond (rw a.returns (rw p refl)))
        | inr (t, p) ↦
            let mid = extended r (op + 1) a.log t in
            let rest =
              prepare_requests-new reqs mid
                (append-Held r.log op r.last_committed vs req refl ready a) (omega arith) all' in
            rw step (
              rw beyond (
                rw a.returns (
                  rw p (
                    rest
                    ∙ ap (λ n. record_all t reqs >>= λ t'. ok (extended r n log t', n))
                        (omega arith)))))
      ]

  -- The loop up to the last operation: those requests are passed over.
  pub prepare_requests-skip :
      (reqs : List Request) (r : Replica) (op : ℕ)
      → op + length reqs + 1 < 2 ^ 64
      → r.last_op < 2 ^ 64
      → op ≤ r.last_op
      → r.last_op ≤ op + length reqs
      → prepare_requests h view op reqs r
        ≡ prepare_requests h view r.last_op (drop (r.last_op - op) reqs) r
  unfolding prepare_requests
  prepare_requests-skip [] r op room small le ge =
      let z : r.last_op - op ≡ 0 = omega arith in rw z (ap (λ n. ok (r, n)) (omega arith))
  prepare_requests-skip (req ∷ reqs) r op room small le ge = elim (dec_lt op r.last_op) [
    | yes skips ↦
        let step : inc64 op ≡ op + 1 = omega arith in
        let old : leb (inc64 op) r.last_op ≡ true = ground arith in
        let e : r.last_op - op ≡ suc (r.last_op - (op + 1)) = omega arith in
        rw old (
          rw step (
            prepare_requests-skip reqs r (op + 1) (omega arith) small (omega arith) (omega arith)
            ∙ rw e refl))
    | no reached ↦
        let e : op ≡ r.last_op = omega arith in
        let z : r.last_op - op ≡ 0 = omega arith in
        rw z (ap (λ o. prepare_requests h view o (req ∷ reqs) r) e)
  ]
