-- ===== src/Replication/Replica/Unlogged.antt =====
-- `HandleRequest` of distributed/replication/vr/replica.cc at the leader: what a new request does to
-- the counts and to the log.
use ledger_database.Prelude.{
  ℕ, ◌+◌, ◌^◌, ◌<◌, ◌≡◌, refl, ap, ◌∙◌, List, [], ◌∷◌, ◌++◌, none, true, false, not, ◌||◌, ltb, leb,
  ◌==◌, arith, Option-cases, inl, inr,
}
use ledger_database.Panic.{Run, ok}
use ledger_database.Maps.{number_order, lookup, assign, erase}
use ledger_database.Replication.{Request}
use ledger_database.Replication.Log.Entries.{next, seen, seen_beyond}
use ledger_database.Replication.Replica.{
  Host, Replica, ClientTableEntry, leader_upcall, is_normal, entry_of, empty_reply,
  update_client_table,
}
use ledger_database.Replication.Replica.Methods.{am_leader}
use ledger_database.Replication.Replica.Handlers.{answer_request, accept_request, handle_request}
use ledger_database.Replication.Replica.Prepares.{IsReady}

-- A request that its client sends for the first time, at the leader.
pub record IsNew (h : Host) (r : Replica) (req : Request) : Type 0 where
  pub normal : is_normal r.status ≡ true
  pub leads : am_leader h r ≡ true
  pub fresh : (entry_of r.client_table req.clientid).last_req_id < req.clientreqid

-- What it leaves: the operation is counted as the last and as committed, but is not in the log.
pub record OutOfStep (h : Host) (r : Replica) (req : Request) (out : Run Replica) : Type 0 where
  pub after : Replica
  pub returns : out ≡ ok after
  pub called : after.calls ≡ r.calls ++ leader_upcall r.last_committed req.op ∷ []
  pub last_op : after.last_op ≡ r.last_op + 1
  pub last_committed : after.last_committed ≡ r.last_committed + 1
  pub log : after.log ≡ r.log
  pub absent : seen after.log after.last_op ≡ none
  pub out_of_step : ¬ IsReady after

module _ (h : Host) (r : Replica) (remote : ℕ) (req : Request) where
  abbrev recorded : List (ℕ × ClientTableEntry)
  recorded =
      assign r.client_table req.clientid
        (record { last_req_id = req.clientreqid; replied = false; reply = empty_reply })

  update_fresh :
      (entry_of r.client_table req.clientid).last_req_id < req.clientreqid
      → update_client_table r.client_table req ≡ ok recorded
  unfolding update_client_table
  update_fresh fresh =
      let last = (entry_of r.client_table req.clientid).last_req_id in
      let grows : leb last req.clientreqid ≡ true = ground arith in
      let differs : (last == req.clientreqid) ≡ false = ground arith in rw grows (rw differs refl)

  abbrev known : Replica
  known = record r {
    client_addresses = assign (erase r.client_addresses req.clientid) req.clientid remote;
  }

  accepted :
      IsNew h r req
      → handle_request h r remote req
        ≡ ok (answer_request h (record known { client_table = recorded }) remote req)
  unfolding handle_request accept_request entry_of
  accepted new =
      let takes : (not (is_normal r.status) || not (am_leader h r)) ≡ false =
        ground (arith, new.normal, new.leads) in
      let updates = update_fresh new.fresh in
      elim (Option-cases (lookup r.client_table req.clientid)) [
        | inl missing ↦ rw takes (rw missing (rw updates refl))
        | inr (e, there) ↦
            let fresh : e.last_req_id < req.clientreqid = rw (there, entry_of) at new.fresh in
            let no_older : ltb req.clientreqid e.last_req_id ≡ false = ground arith in
            let differs : (req.clientreqid == e.last_req_id) ≡ false = ground arith in
            rw takes (rw there (rw no_older (rw differs (rw updates refl))))
      ]

  -- A new request that the service wants replicated is executed and counted at the leader, as the
  -- last operation and as committed, but it is not appended to the log: under the number of the
  -- last operation the log has nothing, and the log is out of step with the counts, where it was in
  -- step before.
  pub handle_request-OutOfStep :
      IsReady r
      → IsNew h r req
      → (h.app.on_leader r.calls r.last_committed req.op).0 ≡ true
      → r.last_op + 2 < 2 ^ 64
      → OutOfStep h r req (handle_request h r remote req)
  unfolding answer_request
  handle_request-OutOfStep ready new replicates room =
      let after = answer_request h (record known { client_table = recorded }) remote req in
      let op : after.last_op ≡ r.last_op + 1 = rw replicates (omega arith) in
      let count : after.last_committed ≡ r.last_committed + 1 =
        rw replicates (omega (arith, ready.within)) in
      let log : after.log ≡ r.log = rw replicates refl in
      record {
        after = after;
        returns = accepted new;
        called = rw replicates refl;
        last_op = op;
        last_committed = count;
        log = log;
        absent = rw log (rw op (seen_beyond r.log (r.last_op + 1) (omega (arith, ready.ends))));
        out_of_step = λ still.
            let end : after.last_op + 1 ≡ next r.log = still.ends ∙ ap next log in
            omega (arith, end, op, ready.ends);
      }
