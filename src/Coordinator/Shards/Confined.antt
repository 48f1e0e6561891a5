-- ===== src/Coordinator/Shards/Confined.antt =====
-- The operations of distributed/store/strongstore/client.cc reach the clients of its shards alone.
use mathlib.Core.Option
use ledger_database.Prelude.{
  ℕ, ◌+◌, ◌%◌, ◌^◌, ◌<◌, ◌≡◌, refl, ap, ◌∙◌, subst, List, [], ◌∷◌, some, ◌>>=◌, Option-cases, inl,
  inr, arith,
}
use ledger_database.Txn.{Text}
use ledger_database.Buffer.{BufferClient}
use ledger_database.Buffer
use ledger_database.Coordinator.{
  members, key_to_shard, Coordinator, ShardAnswer, Unverified, Gathered, gather, all_shards, begin,
  get_n_versions, get, buffer_key, put, batch_get_loop, batch_get, get_range_loop, get_range,
}
use ledger_database.Coordinator.TwoPhase.{Round, Prepared, prepare_loop, finish, commit}
use ledger_database.Coordinator.Shards.{
  Op, begins, gets, gets_versions, buffers, puts, batch_gets, gets_range, commits, aborts, perform,
  perform_all, IsInRange, IfSome, key_to_shard-bound,
}
use ledger_database.Coordinator.Shards.Apart.{
  blanked, begin_loop-blanked, at_shard-blanked, abort-blanked, prepare_loop-blanked,
  finish-blanked, bind-map, map-bind, batch_get_loop-blanked, get_range_loop-blanked,
}
use ledger_database.Coordinator.Shards.Keep.{
  all_shards-Within, perform-IsInRange, perform_all-IsInRange, prepare_loop-IsInRange,
}

module _ {start : ℕ → BufferClient} (n : ℕ) (blank : BufferClient) (c : Coordinator)
    (s : IsInRange start n c) where
  begin-blanked : begin (blanked n blank c) ≡ blanked n blank (begin c)
  unfolding begin members
  begin-blanked =
      let c1 = record c { t_id = (c.t_id + 1) % 2 ^ 64; participants = [] } in
      begin_loop-blanked n blank (all_shards c1) c1 (all_shards-Within c s)

  own_shard : (key : Text) → 0 < n → key_to_shard key c.nshards < n
  own_shard key some_shard =
      let same = s.count in
      let below = key_to_shard-bound key c.nshards (omega (arith, same)) in
      omega (arith, same, below)

  batch_get-blanked :
      (answers : ℕ → ShardAnswer) (values : List (Text × Text)) (keys : Unverified)
      → batch_get (blanked n blank c) answers values keys
        ≡ Option.map (λ out. (blanked n blank out.0, out.1)) (batch_get c answers values keys)
  unfolding batch_get
  batch_get-blanked answers values keys =
      let is = members c.participants in
      let g = gather is answers (record { status = 0; values = values; keys = keys }) in
      let end = λ (d : Coordinator). some (d, g) in
      ap (λ o. o >>= end) (batch_get_loop-blanked n blank is answers c s.joined)
      ∙ map-bind (blanked n blank) end (batch_get_loop is answers c)
      ∙ bind-map (λ d. end (blanked n blank d)) end (λ out. (blanked n blank out.0, out.1))
          (batch_get_loop is answers c) (λ d. refl)

  get_range-blanked :
      (from to : Text) (answers : ℕ → ShardAnswer) (values : List (Text × Text)) (keys : Unverified)
      → get_range (blanked n blank c) from to answers values keys
        ≡ Option.map
            (λ out. (blanked n blank out.0, out.1))
            (get_range c from to answers values keys)
  unfolding get_range
  get_range-blanked from to answers values keys =
      let is = all_shards c in
      let g = gather is answers (record { status = 0; values = values; keys = keys }) in
      let end = λ (d : Coordinator). some (d, g) in
      ap (λ o. o >>= end)
        (get_range_loop-blanked n blank is from to answers c (all_shards-Within c s))
      ∙ map-bind (blanked n blank) end (get_range_loop is from to answers c)
      ∙ bind-map (λ d. end (blanked n blank d)) end (λ out. (blanked n blank out.0, out.1))
          (get_range_loop is from to answers c) (λ d. refl)

  commit-blanked :
      (rounds : ℕ → Round) (now : ℕ)
      → (commit (blanked n blank c) rounds now).0 ≡ blanked n blank (commit c rounds now).0
  unfolding commit
  commit-blanked rounds now =
      let first : Prepared = record { client = c; status = 1; ts = 0 } in
      let last = prepare_loop 1 0 rounds first in
      let kept = prepare_loop-IsInRange 1 0 rounds first s in
      ap (λ p. (finish p now).0) (prepare_loop-blanked n blank 1 0 rounds first s.joined)
      ∙ ap (λ out. out.0) (finish-blanked n blank last now kept.joined)

perform-blanked :
    {start : ℕ → BufferClient} (n : ℕ) (blank : BufferClient) (c : Coordinator) (op : Op)
    → IsInRange start n c
    → 0 < n
    → perform (blanked n blank c) op ≡ Option.map (blanked n blank) (perform c op)
unfolding perform get_n_versions get buffer_key put
perform-blanked n blank c begins s h = ap some (begin-blanked n blank c s)
perform-blanked n blank c (gets key) s h =
    ap some (at_shard-blanked n blank c key (λ b. Buffer.get b key) (own_shard n blank c s key h))
perform-blanked n blank c (gets_versions key k) s h = ap some (
    at_shard-blanked n blank c key (λ b. Buffer.get_n_versions b key k)
      (own_shard n blank c s key h))
perform-blanked n blank c (buffers key) s h =
    ap some
      (at_shard-blanked n blank c key (λ b. Buffer.buffer_key b key) (own_shard n blank c s key h))
perform-blanked n blank c (puts key value) s h =
    ap some
      (at_shard-blanked n blank c key (λ b. Buffer.put b key value) (own_shard n blank c s key h))
perform-blanked n blank c (batch_gets answers values keys) s h =
    let first = λ (out : Coordinator × Gathered). some out.0 in
    ap (λ o. o >>= first) (batch_get-blanked n blank c s answers values keys)
    ∙ map-bind (λ out. (blanked n blank out.0, out.1)) first (batch_get c answers values keys)
    ∙ bind-map (λ out. some (blanked n blank out.0)) first (blanked n blank)
        (batch_get c answers values keys) (λ out. refl)
perform-blanked n blank c (gets_range from to answers values keys) s h =
    let first = λ (out : Coordinator × Gathered). some out.0 in
    ap (λ o. o >>= first) (get_range-blanked n blank c s from to answers values keys)
    ∙ map-bind (λ out. (blanked n blank out.0, out.1)) first
        (get_range c from to answers values keys)
    ∙ bind-map (λ out. some (blanked n blank out.0)) first (blanked n blank)
        (get_range c from to answers values keys) (λ out. refl)
perform-blanked n blank c (commits rounds now) s h = ap some (commit-blanked n blank c s rounds now)
perform-blanked n blank c aborts s h = ap some (abort-blanked n blank c s.joined)

perform_all-blanked :
    {start : ℕ → BufferClient} (n : ℕ) (blank : BufferClient) (c : Coordinator) (ops : List Op)
    → IsInRange start n c
    → 0 < n
    → perform_all (blanked n blank c) ops ≡ Option.map (blanked n blank) (perform_all c ops)
unfolding perform_all
perform_all-blanked n blank c [] s h = refl
perform_all-blanked {start = start} n blank c (op ∷ ops) s h =
    ap (λ o. o >>= λ d. perform_all d ops) (perform-blanked n blank c op s h)
    ∙ elim (Option-cases (perform c op)) [
      | inl stuck ↦ rw stuck refl
      | inr (c', e) ↦
          let s' = subst (IfSome (IsInRange start n)) e (perform-IsInRange c op s h) in
          rw e (perform_all-blanked n blank c' ops s' h)
    ]

-- Whatever a client of at least one shard is asked for, in any order, the shards that take part in
-- its transaction, and those to which calls go, are numbered below the number of its shards, and so is
-- every place of `bclient` that changes. What comes of it does not depend on what the other places
-- hold: with anything else in them it is the same, but for what they hold.
pub perform_all-confined :
    (n : ℕ) (c : Coordinator) (ops : List Op)
    → 0 < n
    → IsInRange c.bclient n c
    → IfSome (IsInRange c.bclient n) (perform_all c ops)
      × ((blank : BufferClient)
          → perform_all (blanked n blank c) ops ≡ Option.map (blanked n blank) (perform_all c ops))
perform_all-confined n c ops h s =
    (perform_all-IsInRange n c ops h s, λ blank. perform_all-blanked n blank c ops s h)
