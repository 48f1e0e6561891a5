-- ===== src/Replication/Replica/Backup.antt =====
-- `HandlePrepare` of distributed/replication/vr/replica.cc at a backup, for the batch that follows
-- its log.
use ledger_database.Prelude.{
  ℕ, ◌+◌, ◌-◌, ◌%◌, ◌^◌, ◌≤◌, ◌<◌, ◌≡◌, refl, ap, subst, ◌∙◌, List, true, false, not, ◌||◌, length,
  drop, get_elem?, ltb, leb, ◌==◌, ==_iff, arith, ==_iff, length-drop, get_elem?-drop,
}
use ledger_database.Panic.{Run, ok, ◌>>=◌}
use ledger_database.Replication.{Request, inc64, dec64}
use ledger_database.Replication.Messages.{Prepare}
use ledger_database.Replication.Log.{Log}
use ledger_database.Replication.Log.Entries.{seen}
use ledger_database.Replication.Replica.{Host, Replica, ClientTableEntry, is_normal}
use ledger_database.Replication.Replica.Methods.{am_leader}
use ledger_database.Replication.Replica.Handlers.{
  answer_prepare, prepare_requests, extend_log, prepare_in_view, handle_prepare,
}
use ledger_database.Replication.Replica.Prepares.{
  Held, IsReady, Holds, record_all, extended, append_requests, append_requests-AppendedAll,
  prepare_requests-new, prepare_requests-skip,
}

-- A Prepare in the replica's view that leaves no gap after its log and goes beyond it, at a backup
-- whose timers and table are whatever they are.
pub record IsNext (h : Host) (r : Replica) (msg : Prepare) : Type 0 where
  pub normal : is_normal r.status ≡ true
  pub view : msg.view ≡ r.view
  pub backup : am_leader h r ≡ false
  pub numbered : 0 < msg.batchstart
  pub no_gap : msg.batchstart ≤ r.last_op + 1
  pub beyond : r.last_op < msg.opnum
  pub counted : msg.opnum + 1 ≡ msg.batchstart + length msg.requests
  pub room : msg.opnum + 1 < 2 ^ 64

-- The requests of a batch that the replica does not have.
abbrev pub new_requests : Replica → Prepare → List Request
new_requests r msg = drop (r.last_op - (msg.batchstart - 1)) msg.requests

abbrev pub heard : Replica → Replica
heard r = record r { timeouts = record r.timeouts { view_change = true } }

-- What the handler leaves: the log's end at the message's number, what was there, and the new
-- operations of the message.
pub record Extends (h : Host) (r : Replica) (msg : Prepare) (table : List (ℕ × ClientTableEntry))
    (out : Run Replica) : Type 0 where
  pub log : Log
  pub returns : out ≡ ok (answer_prepare h (extended (heard r) msg.opnum log table) msg)
  pub held : Held log msg.opnum r.last_committed
  pub kept : (n : ℕ) → n ≤ r.last_op → seen log n ≡ seen r.log n
  pub new :
      (n : ℕ)
      → r.last_op < n
      → n ≤ msg.opnum
      → Holds log n msg.view (get_elem? msg.requests (n - msg.batchstart))

module _ (h : Host) (r : Replica) (remote : ℕ) (msg : Prepare) (n : IsNext h r msg) where
  -- How many operations are new.
  pub length-new_requests : r.last_op + length (new_requests r msg) ≡ msg.opnum
  length-new_requests = omega (
    arith,
    length-drop (r.last_op - (msg.batchstart - 1)) msg.requests,
    n.counted,
    n.no_gap,
    n.numbered,
    n.beyond,
  )

  pub new_requests_room : r.last_op + length (new_requests r msg) + 1 < 2 ^ 64
  new_requests_room = omega (arith, length-new_requests, n.room)

  same_request :
      (i : ℕ)
      → r.last_op < i
      → get_elem? (new_requests r msg) (i - r.last_op - 1)
        ≡ get_elem? msg.requests (i - msg.batchstart)
  same_request i lo =
      get_elem?-drop (r.last_op - (msg.batchstart - 1)) msg.requests (i - r.last_op - 1)
      ∙ ap (get_elem? msg.requests) (omega (arith, n.no_gap, n.numbered))

  -- The loop over the batch: the new requests are recorded, and the log is the extended one.
  pub prepare_requests-IsNext :
      (log : Log)
      → IsReady r
      → append_requests h msg.view r.log r.last_op (new_requests r msg) ≡ ok log
      → prepare_requests h msg.view (dec64 msg.batchstart) msg.requests (heard r) ≡ (
          record_all r.client_table (new_requests r msg) >>= λ t.
          ok (extended (heard r) msg.opnum log t, msg.opnum))
  prepare_requests-IsNext log ready appended =
      let first : dec64 msg.batchstart ≡ msg.batchstart - 1 =
        omega (arith, n.numbered, n.no_gap, n.room, n.beyond) in
      let skip =
        prepare_requests-skip h msg.view msg.requests (heard r) (msg.batchstart - 1)
          (omega (arith, n.counted, n.room, n.numbered)) (omega (arith, n.room, n.beyond))
          (omega (arith, n.no_gap)) (omega (arith, n.counted, n.beyond)) in
      let run =
        prepare_requests-new h msg.view (new_requests r msg) (heard r) ready new_requests_room
          appended in
      rw first (
        rw skip (
          run
          ∙ ap
              (λ e. record_all r.client_table (new_requests r msg) >>= λ t.
                ok (extended (heard r) e log t, e))
              length-new_requests))

  -- A backup that gets the batch after its log, with no gap, ends with the operations of the batch
  -- in its log, under the message's view and numbers and in order, each prepared; what it had stays,
  -- and its log, last operation and count of committed operations still fit each other. It
  -- starts the view change timer anew and answers the leader. The only thing left to
  -- ask is that the client table takes the new requests.
  pub handle_prepare-Extends :
      (table : List (ℕ × ClientTableEntry))
      → IsReady r
      → record_all r.client_table (new_requests r msg) ≡ ok table
      → Extends h r msg table (handle_prepare h r remote msg)
  unfolding handle_prepare prepare_in_view extend_log
  handle_prepare-Extends table ready accepted =
      let all =
        append_requests-AppendedAll h msg.view r.log r.last_op (new_requests r msg) r.last_committed
          ready new_requests_room in
      let run = prepare_requests-IsNext all.log ready all.returns in
      let normally : (not (is_normal r.status) || ltb msg.view r.view) ≡ false =
        ground (arith, n.normal, n.view) in
      let same_view : ltb r.view msg.view ≡ false = ground (arith, n.view) in
      let ordered : leb msg.batchstart msg.opnum ≡ true = ground (arith, n.no_gap, n.beyond) in
      let counts : ((msg.opnum - msg.batchstart + 1) % 2 ^ 64 == length msg.requests) ≡ true =
        (==_iff _ _).1 (omega (arith, n.counted, n.room, n.numbered, n.no_gap, n.beyond)) in
      let old : leb msg.opnum r.last_op ≡ false = ground (arith, n.beyond) in
      let gap : ltb (inc64 r.last_op) msg.batchstart ≡ false =
        ground (arith, n.no_gap, n.room, n.beyond) in
      let whole : (msg.opnum == msg.opnum) ≡ true = ground arith in
      record {
        log = all.log;
        returns = rw normally (
            rw same_view (
              rw n.backup
                (rw ordered (rw counts (rw old (rw gap (rw run (rw accepted (rw whole refl)))))))));
        held = subst (λ e. Held all.log e r.last_committed) length-new_requests all.held;
        kept = all.kept;
        new = λ i lo hi.
            subst (λ q. Holds all.log i msg.view q) (same_request i lo)
              (all.new i lo (omega (arith, length-new_requests)));
      }
