-- ===== src/Replication/Replica/Requests.antt =====
-- `HandleRequest` of distributed/replication/vr/replica.cc: a request is executed once, and what it
-- does to the counts.
use ledger_database.Prelude.{
  ℕ, ◌≤◌, ◌≡◌, ◌⊎◌, refl, sym, ap, ◌∙◌, List, [], ◌∷◌, ◌++◌, some, true, false, not, ◌||◌, ltb, leb,
  ◌==◌, arith, Bool-cases, Option-cases, inl, inr,
}
use ledger_database.Panic.{Run, ok, Ensures, returns, Ensures->>=, either_if, after_assert, ensured}
use ledger_database.Maps.{number_order, lookup, assign, erase, lookup-assign_same}
use ledger_database.Replication.{Request}
use ledger_database.Replication.Messages.{ReplyMessage, to_address}
use ledger_database.Replication.Messages
use ledger_database.Replication.Replica.{
  Host, Replica, ClientTableEntry, is_normal, entry_of, update_client_table, send,
}
use ledger_database.Replication.Replica.Methods.{am_leader}
use ledger_database.Replication.Replica.Handlers.{
  answer_request, accept_request, resend_reply, handle_request,
}

abbrev Table : Type 0
Table = List (ℕ × ClientTableEntry)

entry_of-assign : (t : Table) (id : ℕ) (e : ClientTableEntry) → entry_of (assign t id e) id ≡ e
unfolding entry_of
entry_of-assign t id e = rw (lookup-assign_same t id e, entry_of) refl

-- After `UpdateClientTable` the client's last request is this one.
update_client_table-last :
    (t : Table) (req : Request)
    → Ensures
        (λ t'. (entry_of t' req.clientid).last_req_id ≡ req.clientreqid)
        (update_client_table t req)
unfolding update_client_table
update_client_table-last t req =
    let Q = λ (t' : Table). (entry_of t' req.clientid).last_req_id ≡ req.clientreqid in
    let entry = entry_of t req.clientid in
    after_assert Q (leb entry.last_req_id req.clientreqid) (
      either_if Q (entry.last_req_id == req.clientreqid)
        (λ e. returns (rw (entry_of-assign t req.clientid entry) (ground arith)))
        (λ e. returns (rw (entry_of-assign t req.clientid _) refl)))

module _ (h : Host) where
  -- The replica does not take requests, or has this one or a later one of the client.
  abbrev Done : Request → Replica → Type 0
  Done req r =
      ((not (is_normal r.status) || not (am_leader h r)) ≡ true)
      ⊎ ((e : ClientTableEntry) × (lookup r.client_table req.clientid ≡ some e)
          × (req.clientreqid ≤ e.last_req_id))

  answer_request-Done :
      (r : Replica) (remote : ℕ) (req : Request)
      → (entry_of r.client_table req.clientid).last_req_id ≡ req.clientreqid
      → Done req (answer_request h r remote req)
  unfolding answer_request
  answer_request-Done r remote req e =
      inr (_, lookup-assign_same r.client_table req.clientid _, omega (arith, e))

  accept_request-Done :
      (r : Replica) (remote : ℕ) (req : Request)
      → Ensures (Done req) (accept_request h r remote req)
  unfolding accept_request
  accept_request-Done r remote req =
      Ensures->>= (Done req) (λ t'. (entry_of t' req.clientid).last_req_id ≡ req.clientreqid) _
        (update_client_table-last r.client_table req)
        λ t e. returns (answer_request-Done (record r { client_table = t }) remote req e)

  handle_request-Done :
      (r : Replica) (remote : ℕ) (req : Request)
      → Ensures (Done req) (handle_request h r remote req)
  unfolding handle_request
  handle_request-Done r remote req =
      let known = record r {
        client_addresses = assign (erase r.client_addresses req.clientid) req.clientid remote;
      } in
      either_if (Done req) (not (is_normal r.status) || not (am_leader h r)) (λ e. returns (inl e))
        λ takes. elim (Option-cases (lookup r.client_table req.clientid)) [
          | inl missing ↦ rw (missing) (accept_request-Done known remote req)
          | inr (entry, there) ↦ rw (there) (
              either_if (Done req) (ltb req.clientreqid entry.last_req_id)
                (λ e. returns (inr (entry, there, ground (arith, e))))
                λ no_older.
                  either_if (Done req) (req.clientreqid == entry.last_req_id)
                    (λ e. returns (resent entry there e))
                    (λ e. accept_request-Done known remote req))
        ]
    where
      resent :
          (entry : ClientTableEntry)
          → lookup r.client_table req.clientid ≡ some entry
          → (req.clientreqid == entry.last_req_id) ≡ true
          → Done req (
              resend_reply
                (record r {
                  client_addresses =
                      assign (erase r.client_addresses req.clientid) req.clientid remote;
                })
                remote
                entry)
      resent entry there e = elim (Bool-cases entry.replied) [
        | inl b ↦ rw b (inr (entry, there, ground (arith, e)))
        | inr b ↦ rw b (inr (entry, there, ground (arith, e)))
      ]

-- What a second delivery of a request leaves.
pub record Repeated (h : Host) (r : Replica) (remote : ℕ) (req : Request) (out : Run Replica)
    : Type 0 where
  pub after : Replica
  pub returns : out ≡ ok after
  pub calls : after.calls ≡ r.calls
  pub table : after.client_table ≡ r.client_table
  pub log : after.log ≡ r.log
  pub last_op : after.last_op ≡ r.last_op
  pub last_committed : after.last_committed ≡ r.last_committed
  pub resent :
      (e : ClientTableEntry)
      → lookup r.client_table req.clientid ≡ some e
      → is_normal r.status ≡ true
      → am_leader h r ≡ true
      → e.last_req_id ≡ req.clientreqid
      → e.replied ≡ true
      → after.sent ≡ r.sent ++ to_address remote (Messages.reply e.reply) ∷ []

module _ (h : Host) (r : Replica) (remote : ℕ) (req : Request) where
  -- A replica that has the request in its table.
  known_again :
      (e : ClientTableEntry)
      → lookup r.client_table req.clientid ≡ some e
      → req.clientreqid ≤ e.last_req_id
      → (not (is_normal r.status) || not (am_leader h r)) ≡ false
      → Repeated h r remote req (handle_request h r remote req)
  unfolding handle_request
  known_again e there le takes =
      let known = record r {
        client_addresses = assign (erase r.client_addresses req.clientid) req.clientid remote;
      } in
      elim (Bool-cases (ltb req.clientreqid e.last_req_id)) [
        | inl older ↦ record {
          after = known;
          returns = rw takes (rw there (rw older refl));
          calls = refl;
          table = refl;
          log = refl;
          last_op = refl;
          last_committed = refl;
          resent = λ x at n l i b.
              absurd
                (let same : some x ≡ some e = sym at ∙ there in ground (arith, same, i, older));
        }
        | inr no_older ↦
            let equal : (req.clientreqid == e.last_req_id) ≡ true = ground arith in
            elim (Bool-cases e.replied) [
              | inl done ↦ record {
                after = send known (to_address remote (Messages.reply e.reply));
                returns = rw takes (rw there (rw no_older (rw equal (rw done refl))));
                calls = refl;
                table = refl;
                log = refl;
                last_op = refl;
                last_committed = refl;
                resent = λ x at n l i b.
                    ap (λ y. r.sent ++ to_address remote (Messages.reply y) ∷ []) (cc (at, there));
              }
              | inr waits ↦ record {
                after = known;
                returns = rw takes (rw there (rw no_older (rw equal (rw waits refl))));
                calls = refl;
                table = refl;
                log = refl;
                last_op = refl;
                last_committed = refl;
                resent = λ x at n l i b. absurd (cc (at, there, b, waits));
              }
            ]
      ]

  untaken_again :
      (not (is_normal r.status) || not (am_leader h r)) ≡ true
      → Repeated h r remote req (handle_request h r remote req)
  unfolding handle_request
  untaken_again gate = record {
    after = r;
    returns = rw gate refl;
    calls = refl;
    table = refl;
    log = refl;
    last_op = refl;
    last_committed = refl;
    resent = λ x at n l i b. absurd (ground (arith, gate, n, l));
  }

-- A request that comes again, from any address, is not executed again: the handler returns and the
-- service is not called, and the client table, the log, the last operation and the count of
-- committed operations stay as the first delivery left them. At a leader in its view that has
-- replied, the same reply is sent again, to the address that the request came from.
pub handle_request-Repeated :
    (h : Host) (r r' : Replica) (remote again : ℕ) (req : Request)
    → handle_request h r remote req ≡ ok r'
    → Repeated h r' again req (handle_request h r' again req)
handle_request-Repeated h r r' remote again req first =
    elim (ensured (Done h req) (handle_request-Done h r remote req) first) [
      | inl gate ↦ untaken_again h r' again req gate
      | inr (e, there, le) ↦ elim (Bool-cases (not (is_normal r'.status) || not (am_leader h r'))) [
        | inl gate ↦ untaken_again h r' again req gate
        | inr takes ↦ known_again h r' again req e there le takes
      ]
    ]
