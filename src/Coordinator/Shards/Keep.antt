-- ===== src/Coordinator/Shards/Keep.antt =====
-- What every operation of distributed/store/strongstore/client.cc keeps of the shards it calls.
use ledger_database.Prelude.{
  refl, false, ◌≡◌, ◌∙◌, ℕ, zero, suc, ◌+◌, ◌%◌, ◌^◌, ◌<◌, List, [], ◌∷◌, some, ◌==◌, ◌||◌, is_some,
  Bool-cases, inl, inr, arith,
}
use ledger_database.Maps.{number_order, lookup, assign}
use ledger_database.Txn.{Text}
use ledger_database.Buffer.{BufferClient, Call}
use ledger_database.Buffer
use ledger_database.Coordinator.{
  members, key_to_shard, Coordinator, ShardAnswer, Unverified, all_shards, call, begin_loop, begin,
  put_client, join_shard, at_shard, get_n_versions, get, buffer_key, put, batch_get_loop, batch_get,
  get_range_loop, get_range,
}
use ledger_database.Coordinator.TwoPhase.{
  Round, Prepared, tell, prepare, prepare_loop, finish, abort, commit,
}
use ledger_database.Coordinator.Shards.{
  Op, begins, gets, gets_versions, buffers, puts, batch_gets, gets_range, commits, aborts, perform,
  perform_all, Within, IsInRange, IfSome, IfSome->>=, IfSome-any, key_to_shard-bound, assign-Within,
  shards_from-Within, called-append, called-map, called-each,
}

put_client-other :
    (bclient : ℕ → BufferClient) (i : ℕ) (b : BufferClient) (j : ℕ)
    → i < j
    → put_client bclient i b j ≡ bclient j
unfolding put_client
put_client-other bclient i b j h = let test : (j == i) ≡ false = ground arith in rw test refl

call-IsInRange :
    {start : ℕ → BufferClient} {n : ℕ} (c : Coordinator) (i : ℕ) (b : BufferClient)
    (calls : List Call)
    → IsInRange start n c
    → i < n
    → IsInRange start n (call c i b calls)
unfolding call
call-IsInRange {start = start} {n = n} c i b calls s small = record {
  count = s.count;
  joined = s.joined;
  made = called-append n c.calls _ s.made (called-map n i calls small);
  others = λ j far. put_client-other c.bclient i b j (omega arith) ∙ s.others j far;
}

tell-IsInRange :
    {start : ℕ → BufferClient} {n : ℕ} (c : Coordinator) (is : List ℕ) (made : ℕ → Call)
    → IsInRange start n c
    → Within n is
    → IsInRange start n (tell c is made)
unfolding tell
tell-IsInRange {start = start} {n = n} c is made s h = record {
  count = s.count;
  joined = s.joined;
  made = called-append n c.calls _ s.made (called-each n is made h);
  others = s.others;
}

begin_loop-IsInRange :
    {start : ℕ → BufferClient} {n : ℕ} (is : List ℕ) (c : Coordinator)
    → IsInRange start n c
    → Within n is
    → IsInRange start n (begin_loop is c)
unfolding begin_loop
begin_loop-IsInRange [] c s h = s
begin_loop-IsInRange (i ∷ is) c s h =
    let (b, made) = Buffer.begin (c.bclient i) c.t_id in
    begin_loop-IsInRange is (call c i b (made ∷ [])) (call-IsInRange c i b (made ∷ []) s h.0) h.1

pub all_shards-Within :
    {start : ℕ → BufferClient} {n : ℕ} (c : Coordinator)
    → IsInRange start n c
    → Within n (all_shards c)
all_shards-Within {n = n} c s =
    let same = s.count in shards_from-Within n c.nshards 0 (omega (arith, same))

begin-IsInRange :
    {start : ℕ → BufferClient} {n : ℕ} (c : Coordinator)
    → IsInRange start n c
    → IsInRange start n (begin c)
unfolding begin members
begin-IsInRange {start = start} {n = n} c s =
    let c1 = record c { t_id = (c.t_id + 1) % 2 ^ 64; participants = [] } in
    let s1 : IsInRange start n c1 = record {
      count = s.count;
      joined = tt;
      made = s.made;
      others = s.others;
    } in
    begin_loop-IsInRange (all_shards c1) c1 s1 (all_shards-Within c1 s1)

at_shard-IsInRange :
    {start : ℕ → BufferClient} {n : ℕ} (c : Coordinator) (key : Text)
    (change : BufferClient → BufferClient)
    → IsInRange start n c
    → 0 < n
    → IsInRange start n (at_shard c key change)
unfolding join_shard
at_shard-IsInRange {start = start} {n = n} c key change s some_shard =
    let i = key_to_shard key c.nshards in
    let same = s.count in
    let below = key_to_shard-bound key c.nshards (omega (arith, same)) in
    let small : i < n = omega (arith, same, below) in
    let b = change (c.bclient i) in
    elim (Bool-cases (is_some (lookup c.participants i))) [
      | inl there ↦ rw there (call-IsInRange c i b [] s small)
      | inr gone ↦
          let c1 = record c { participants = assign c.participants i tt } in
          let s1 : IsInRange start n c1 = record {
            count = s.count;
            joined = assign-Within n i c.participants s.joined small;
            made = s.made;
            others = s.others;
          } in
          rw gone (call-IsInRange c1 i b [] s1 small)
    ]

batch_get_loop-IsInRange :
    {start : ℕ → BufferClient} {n : ℕ} (is : List ℕ) (answers : ℕ → ShardAnswer) (c : Coordinator)
    → IsInRange start n c
    → Within n is
    → IfSome (IsInRange start n) (batch_get_loop is answers c)
unfolding batch_get_loop
batch_get_loop-IsInRange [] answers c s h = s
batch_get_loop-IsInRange {start = start} {n = n} (i ∷ is) answers c s h =
    IfSome-any (IsInRange start n) _ _ (λ (b, made).
      batch_get_loop-IsInRange is answers (call c i b (made ∷ []))
        (call-IsInRange c i b (made ∷ []) s h.0) h.1)

get_range_loop-IsInRange :
    {start : ℕ → BufferClient} {n : ℕ} (is : List ℕ) (from to : Text) (answers : ℕ → ShardAnswer)
    (c : Coordinator)
    → IsInRange start n c
    → Within n is
    → IfSome (IsInRange start n) (get_range_loop is from to answers c)
unfolding get_range_loop
get_range_loop-IsInRange [] from to answers c s h = s
get_range_loop-IsInRange {start = start} {n = n} (i ∷ is) from to answers c s h =
    IfSome-any (IsInRange start n) _ _ (λ (b, made).
      get_range_loop-IsInRange is from to answers (call c i b (made ∷ []))
        (call-IsInRange c i b (made ∷ []) s h.0) h.1)

batch_get-IsInRange :
    {start : ℕ → BufferClient} {n : ℕ} (c : Coordinator) (answers : ℕ → ShardAnswer)
    (values : List (Text × Text)) (keys : Unverified)
    → IsInRange start n c
    → IfSome (λ out. IsInRange start n out.0) (batch_get c answers values keys)
unfolding batch_get
batch_get-IsInRange {start = start} {n = n} c answers values keys s =
    IfSome->>= (IsInRange start n) (λ out. IsInRange start n out.0)
      (batch_get_loop (members c.participants) answers c) _
      (batch_get_loop-IsInRange (members c.participants) answers c s s.joined) (λ c' s'. s')

get_range-IsInRange :
    {start : ℕ → BufferClient} {n : ℕ} (c : Coordinator) (from to : Text)
    (answers : ℕ → ShardAnswer) (values : List (Text × Text)) (keys : Unverified)
    → IsInRange start n c
    → IfSome (λ out. IsInRange start n out.0) (get_range c from to answers values keys)
unfolding get_range
get_range-IsInRange {start = start} {n = n} c from to answers values keys s =
    IfSome->>= (IsInRange start n) (λ out. IsInRange start n out.0)
      (get_range_loop (all_shards c) from to answers c) _
      (get_range_loop-IsInRange (all_shards c) from to answers c s (all_shards-Within c s))
      (λ c' s'. s')

prepare-IsInRange :
    {start : ℕ → BufferClient} {n : ℕ} (c : Coordinator) (round : Round) (ts : ℕ)
    → IsInRange start n c
    → IsInRange start n (prepare c round ts).client
unfolding prepare
prepare-IsInRange c round ts s = tell-IsInRange c (members c.participants) _ s s.joined

pub prepare_loop-IsInRange :
    {start : ℕ → BufferClient} {n : ℕ} (k i : ℕ) (rounds : ℕ → Round) (p : Prepared)
    → IsInRange start n p.client
    → IsInRange start n (prepare_loop k i rounds p).client
unfolding prepare_loop
prepare_loop-IsInRange zero i rounds p s = s
prepare_loop-IsInRange (suc k) i rounds p s =
    let p' = prepare p.client (rounds i) p.ts in
    let s' = prepare-IsInRange p.client (rounds i) p.ts s in
    elim (Bool-cases ((p'.status == 0) || (p'.status == 1))) [
      | inl stop ↦ rw stop s'
      | inr again ↦ rw again (prepare_loop-IsInRange k (i + 1) rounds p' s')
    ]

abort-IsInRange :
    {start : ℕ → BufferClient} {n : ℕ} (c : Coordinator)
    → IsInRange start n c
    → IsInRange start n (abort c)
unfolding abort
abort-IsInRange c s = tell-IsInRange c (members c.participants) _ s s.joined

finish-IsInRange :
    {start : ℕ → BufferClient} {n : ℕ} (p : Prepared) (now : ℕ)
    → IsInRange start n p.client
    → IsInRange start n (finish p now).0
unfolding finish
finish-IsInRange p now s = elim (Bool-cases (p.status == 0)) [
  | inl good ↦ rw good (tell-IsInRange p.client (members p.client.participants) _ s s.joined)
  | inr bad ↦ rw bad (abort-IsInRange p.client s)
]

pub perform-IsInRange :
    {start : ℕ → BufferClient} {n : ℕ} (c : Coordinator) (op : Op)
    → IsInRange start n c
    → 0 < n
    → IfSome (IsInRange start n) (perform c op)
unfolding perform get_n_versions get buffer_key put commit
perform-IsInRange c begins s h = begin-IsInRange c s
perform-IsInRange c (gets key) s h = at_shard-IsInRange c key (λ b. Buffer.get b key) s h
perform-IsInRange c (gets_versions key k) s h =
    at_shard-IsInRange c key (λ b. Buffer.get_n_versions b key k) s h
perform-IsInRange c (buffers key) s h = at_shard-IsInRange c key (λ b. Buffer.buffer_key b key) s h
perform-IsInRange c (puts key value) s h =
    at_shard-IsInRange c key (λ b. Buffer.put b key value) s h
perform-IsInRange {start = start} {n = n} c (batch_gets answers values keys) s h =
    IfSome->>= (λ out. IsInRange start n out.0) (IsInRange start n)
      (batch_get c answers values keys) (λ out. some out.0)
      (batch_get-IsInRange c answers values keys s) (λ out s'. s')
perform-IsInRange {start = start} {n = n} c (gets_range from to answers values keys) s h =
    IfSome->>= (λ out. IsInRange start n out.0) (IsInRange start n)
      (get_range c from to answers values keys) (λ out. some out.0)
      (get_range-IsInRange c from to answers values keys s) (λ out s'. s')
perform-IsInRange c (commits rounds now) s h =
    let start : Prepared = record { client = c; status = 1; ts = 0 } in
    finish-IsInRange (prepare_loop 1 0 rounds start) now (prepare_loop-IsInRange 1 0 rounds start s)
perform-IsInRange c aborts s h = abort-IsInRange c s

pub perform_all-IsInRange :
    {start : ℕ → BufferClient} (n : ℕ) (c : Coordinator) (ops : List Op)
    → 0 < n
    → IsInRange start n c
    → IfSome (IsInRange start n) (perform_all c ops)
unfolding perform_all
perform_all-IsInRange n c [] h s = s
perform_all-IsInRange {start = start} n c (op ∷ ops) h s =
    IfSome->>= (IsInRange start n) (IsInRange start n) (perform c op) (λ c'. perform_all c' ops)
      (perform-IsInRange c op s h) (λ c' s'. perform_all-IsInRange n c' ops h s')
