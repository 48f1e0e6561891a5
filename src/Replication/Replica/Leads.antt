-- ===== src/Replication/Replica/Leads.antt =====
-- `HandleDoViewChange` of distributed/replication/vr/replica.cc at the leader of the new view, where
-- its own log is the latest.
use ledger_database.Prelude.{
  ℕ, ◌≤◌, ◌≡◌, refl, ap, ◌∙◌, min, List, [], ◌∷◌, ◌++◌, none, some, true, false, not, ◌&&◌, ◌||◌,
  length, ltb, leb, ◌==◌, arith, Bool-cases, Option-cases, inl, inr, ==_iff,
}
use ledger_database.Panic.{Run, ok}
use ledger_database.Maps.{number_order, assign}
use ledger_database.Configuration.{get_leader_index}
use ledger_database.Replication.Messages.{DoViewChange, StartViewChange, StartView, Sent, to_all}
use ledger_database.Replication.Messages
use ledger_database.Replication.Log.{Log, LogEntry, dump, last_viewstamp}
use ledger_database.Replication.Log.Entries.{last_viewstamp-next}
use ledger_database.Replication.Log.Shipped.{dump-Dumped}
use ledger_database.Replication.Quorum.{messages_at, get_messages, add_and_check_for_quorum}
use ledger_database.Replication.Quorum.Count.{add_and_check_for_quorum-quorum_of, quorum_of-enough}
use ledger_database.Replication.Replica.{Host, Replica, normal, is_view_change, send}
use ledger_database.Replication.Replica.Methods.{am_leader, enter_view, start_view_change}
use ledger_database.Replication.Replica.Views.{
  is_stale, min_element, find_latest, install_latest, begin_view, lead_view, handle_do_view_change,
}
use ledger_database.Replication.Replica.Prepares.{IsReady}

-- No message is later than a view and an operation.
abbrev pub NoneLater : ℕ → ℕ → List (ℕ × DoViewChange) → Type 0
NoneLater view op [] = Unit
NoneLater view op ((i, x) ∷ messages) =
    ((ltb view x.last_normal_view || (x.last_normal_view == view && ltb op x.last_op)) ≡ false)
    × NoneLater view op messages

find_latest-none :
    (messages : List (ℕ × DoViewChange)) (view op : ℕ)
    → NoneLater view op messages
    → find_latest messages (view, op, none) ≡ (view, op, none)
unfolding find_latest
find_latest-none [] view op h = refl
find_latest-none ((i, x) ∷ messages) view op h = rw (h.0) (find_latest-none messages view op h.1)

module _ {M : Type 0} (count : M → ℕ) where
  min_element-some :
      (i : ℕ) (m : M) (messages : List (ℕ × M))
      → (least : ℕ) × (min_element count ((i, m) ∷ messages) ≡ some least)
  unfolding min_element
  min_element-some i m messages = elim (Option-cases (min_element count messages)) [
    | inl e ↦ (count m, rw (e, min_element) refl)
    | inr (x, e) ↦ (min (count m) x, rw (e, min_element) refl)
  ]

  min_element-assign :
      (messages : List (ℕ × M)) (i : ℕ) (m : M)
      → (least : ℕ) × (min_element count (assign messages i m) ≡ some least)
  unfolding assign
  min_element-assign [] i m = min_element-some i m []
  min_element-assign ((j, x) ∷ messages) i m = elim (Bool-cases (ltb i j)) [
    | inl first ↦ let (l, e) = min_element-some i m ((j, x) ∷ messages) in (l, rw first e)
    | inr no_first ↦ elim (Bool-cases (ltb j i)) [
      | inl later ↦
          let (l, e) = min_element-some j x (assign messages i m) in (l, rw no_first (rw later e))
      | inr here ↦ let (l, e) = min_element-some j m messages in (l, rw no_first (rw here e))
    ]
  ]

-- The new leader in its view.
-- Its log, its counts and its view.
pub record LeadsWith (own_log : Log) (op committed_op view : ℕ) (out : Run Replica) : Type 0 where
  pub after : Replica
  pub returns : out ≡ ok after
  pub status : after.status ≡ normal
  pub in_view : after.view ≡ view
  pub log : after.log ≡ own_log
  pub last_op : after.last_op ≡ op
  pub last_committed : after.last_committed ≡ committed_op
  pub forgotten :
      (after.prepare_ok_quorum.messages ≡ [])
      × (after.start_view_change_quorum.messages ≡ [])
      × (after.do_view_change_quorum.messages ≡ [])
  pub before : List Sent
  pub entries : List LogEntry
  pub from : ℕ
  pub low : from ≤ committed_op
  pub dumped : dump own_log from ≡ ok entries
  pub told :
      after.sent
      ≡ before
        ++ to_all (
            Messages.start_view (record {
              view = view;
              last_op = op;
              last_committed = committed_op;
              entries = entries;
            }))
          ∷ []

abbrev pub Leads : Replica → ℕ → Run Replica → Type 0
Leads r view out = LeadsWith r.log r.last_op r.last_committed view out

module _ (h : Host) where
  -- The leader that begins the view with its own log.
  abbrev led : Replica → ℕ → ℕ → List LogEntry → Replica
  led r view op entries =
      let entered = record (enter_view h r view) { last_op = op } in
      send entered (
        to_all (
          Messages.start_view (record {
            view = entered.view;
            last_op = entered.last_op;
            last_committed = entered.last_committed;
            entries = entries;
          })))

  begin_view-led :
      (r : Replica) (msg : DoViewChange) (op least : ℕ) {entries : List LogEntry}
      → get_leader_index h.configuration msg.view ≡ h.my_idx
      → dump r.log least ≡ ok entries
      → begin_view h r msg op none least ≡ ok (led r msg.view op entries)
  unfolding begin_view enter_view am_leader
  begin_view-led r msg op least leads dumped =
      let test : (get_leader_index h.configuration msg.view == h.my_idx) ≡ true =
        (==_iff _ _).1 leads in
      rw test (rw dumped refl)

  lead_view-Leads :
      (r : Replica) (msg : DoViewChange) (acks : List (ℕ × DoViewChange)) (i least : ℕ)
      (m : StartViewChange) (ms : List (ℕ × StartViewChange))
      → IsReady r
      → r.view ≡ msg.view
      → get_leader_index h.configuration msg.view ≡ h.my_idx
      → NoneLater (last_viewstamp r.log).view (last_viewstamp r.log).opnum acks
      → min_element (λ x. x.last_committed) acks ≡ some least
      → messages_at r.start_view_change_quorum.messages r.view ≡ (i, m) ∷ ms
      → Leads r msg.view (lead_view h r msg acks)
  unfolding lead_view install_latest enter_view
  lead_view-Leads r msg acks i least m ms ready in_view leads own dvc svc =
      let (least_svc, svc_min) =
        min_element-some (λ (x : StartViewChange). x.last_committed) i m ms in
      let low = min (min least_svc least) r.last_committed in
      let d =
        dump-Dumped r.log low ready.log (omega (arith, ready.from, ready.within, ready.ends)) in
      let asked = get_messages r.start_view_change_quorum r.view in
      let s = record r { start_view_change_quorum = asked.0 } in
      let op : (last_viewstamp r.log).opnum ≡ r.last_op =
        omega (arith, last_viewstamp-next r.log ready.log, ready.ends) in
      let begun = begin_view-led s msg (last_viewstamp r.log).opnum low leads d.returns in
      record {
        after = led s msg.view (last_viewstamp r.log).opnum d.entries;
        returns = rw (find_latest-none acks _ _ own) (rw svc (rw svc_min (rw dvc begun)));
        status = refl;
        in_view = refl;
        log = refl;
        last_op = op;
        last_committed = refl;
        forgotten = (refl, refl, refl);
        before = r.sent;
        entries = d.entries;
        from = low;
        low = omega arith;
        dumped = d.returns;
        told =
            ap
              (λ o.
                r.sent
                ++ to_all (
                    Messages.start_view (record {
                      view = msg.view;
                      last_op = o;
                      last_committed = r.last_committed;
                      entries = d.entries;
                    }))
                  ∷ [])
              op;
      }

  -- The messages of the view change with a new one: one for each replica.
  abbrev pub votes : Replica → DoViewChange → List (ℕ × DoViewChange)
  votes r msg = assign (messages_at r.do_view_change_quorum.messages msg.view) msg.replica_idx msg

  -- With enough messages the handler comes to leading the view.
  counted_votes :
      (s : Replica) (msg : DoViewChange)
      → leb s.do_view_change_quorum.num_required (length (votes s msg)) ≡ true
      → (add_and_check_for_quorum s.do_view_change_quorum msg.view msg.replica_idx msg).1
        ≡ some (votes s msg)
  counted_votes s msg test =
      add_and_check_for_quorum-quorum_of s.do_view_change_quorum msg.view msg.replica_idx msg
      ∙ quorum_of-enough _ (votes s msg) test

  -- The leader of a later view, or of the view that it is changing to, begins the view once enough
  -- replicas have sent a DoViewChange, if none of them has a later log than its own and it has a
  -- StartViewChange for the view: it is in normal operation in that view with its log, its last
  -- operation and its count as they were, it has forgotten the messages counted in the old view, and
  -- it sends all replicas a StartView with its log from a number that is no greater than its
  -- count of committed operations.
  pub handle_do_view_change-Leads :
      (r : Replica) (remote : ℕ) (msg : DoViewChange) (i : ℕ) (m : StartViewChange)
      → (ms : List (ℕ × StartViewChange)) → IsReady r
      → is_stale r msg.view ≡ false
      → get_leader_index h.configuration msg.view ≡ h.my_idx
      → leb r.do_view_change_quorum.num_required (length (votes r msg)) ≡ true
      → NoneLater (last_viewstamp r.log).view (last_viewstamp r.log).opnum (votes r msg)
      → messages_at r.start_view_change_quorum.messages msg.view ≡ (i, m) ∷ ms
      → Leads r msg.view (handle_do_view_change h r remote msg)
  unfolding handle_do_view_change start_view_change
  handle_do_view_change-Leads r remote msg i m ms ready current leads test own svc =
      let mine : (get_leader_index h.configuration msg.view == h.my_idx) ≡ true =
        (==_iff _ _).1 leads in
      let (least, dvc) =
        min_element-assign (λ (x : DoViewChange). x.last_committed)
          (messages_at r.do_view_change_quorum.messages msg.view) msg.replica_idx msg in
      let q = (add_and_check_for_quorum r.do_view_change_quorum msg.view msg.replica_idx msg).0 in
      elim (Bool-cases (not (is_view_change r.status) || ltb r.view msg.view)) [
        | inl joins ↦
            let s = start_view_change h r msg.view in
            let l =
              lead_view-Leads (record s { do_view_change_quorum = q }) msg (votes r msg) i least m
                ms ready refl leads own dvc svc in
            rw current (rw mine (rw joins (rw (counted_votes r msg test) l)))
        | inr stays ↦
            let same : r.view ≡ msg.view = ground (arith, current, stays) in
            let l =
              lead_view-Leads (record r { do_view_change_quorum = q }) msg (votes r msg) i least m
                ms ready same leads own dvc
                (ap (messages_at r.start_view_change_quorum.messages) same ∙ svc) in
            rw current (rw mine (rw stays (rw (counted_votes r msg test) l)))
      ]
