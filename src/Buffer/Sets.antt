-- ===== src/Buffer/Sets.antt =====
-- The operations of BufferClient between `Begin` and `Prepare`, and the write set that they build.
use ledger_database.Prelude.{
  ℕ, ◌≡◌, refl, sym, ap, ◌∙◌, List, [], ◌∷◌, Option, none, some, ◌>>=◌, is_some, length, arith,
  Bool-cases, inl, inr,
}
use ledger_database.Maps.{
  text_order, lookup, assign, lookup-assign_same, lookup-assign_other, lookup-nil, key_discrete,
}
use ledger_database.Txn.{Text, Timestamp, Transaction, add_read_set}
use ledger_database.Buffer.{
  prepare_call, commit_call, Answer, BufferClient, begin, get_n_versions, add_reads, read_answer,
  batch_get, get_range, buffer_key, get, put, prepare, commit,
}

-- One operation between `Begin` and `Prepare`.
pub data Op : Type 0 where
  op_versions : Text → ℕ → Op
  op_batch_get : Answer → Op
  op_get_range : Text → Text → Answer → Op
  op_buffer_key : Text → Op
  op_get : Text → Op
  op_put : Text → Text → Op

pub exec : BufferClient → Op → Option BufferClient
exec c (op_versions key n) = some (get_n_versions c key n)
exec c (op_batch_get answer) = do (d, call) ← batch_get c answer; some d
exec c (op_get_range from to answer) = do (d, call) ← get_range c from to answer; some d
exec c (op_buffer_key key) = some (buffer_key c key)
exec c (op_get key) = some (get c key)
exec c (op_put key value) = some (put c key value)

pub exec_all : BufferClient → List Op → Option BufferClient
exec_all c [] = some c
exec_all c (op ∷ ops) = do d ← exec c op; exec_all d ops

-- The value that the operations put for the key, the last one, or the one before them.
abbrev pub last_put : Option Text → List Op → Text → Option Text
last_put before [] key = before
last_put before (op_put k value ∷ ops) key = elim (key_discrete key k) [
  | yes e ↦ last_put (some value) ops key
  | no e ↦ last_put before ops key
]
last_put before (op_versions k n ∷ ops) key = last_put before ops key
last_put before (op_batch_get answer ∷ ops) key = last_put before ops key
last_put before (op_get_range from to answer ∷ ops) key = last_put before ops key
last_put before (op_buffer_key k ∷ ops) key = last_put before ops key
last_put before (op_get k ∷ ops) key = last_put before ops key

-- Every answer that is OK has a timestamp for each value.
abbrev pub IsAnswer : Answer → Type 0
IsAnswer a = length a.values ≡ length a.timestamps

abbrev pub AllAnswered : List Op → Type 0
AllAnswered [] = Unit
AllAnswered (op_batch_get answer ∷ ops) = IsAnswer answer × AllAnswered ops
AllAnswered (op_get_range from to answer ∷ ops) = IsAnswer answer × AllAnswered ops
AllAnswered (op_put k value ∷ ops) = AllAnswered ops
AllAnswered (op_versions k n ∷ ops) = AllAnswered ops
AllAnswered (op_buffer_key k ∷ ops) = AllAnswered ops
AllAnswered (op_get k ∷ ops) = AllAnswered ops

-- Reading an answer succeeds and leaves the write set alone.
add_reads-writes :
    (values : List (Text × Text)) (timestamps : List Timestamp) (txn : Transaction)
    → length values ≡ length timestamps
    → (u : Transaction) × (add_reads txn values timestamps ≡ some u) × (u.write_set ≡ txn.write_set)
unfolding add_reads
add_reads-writes [] timestamps txn e = (txn, refl, refl)
add_reads-writes ((key, value) ∷ values) [] txn e = absurd (omega arith)
add_reads-writes ((key, value) ∷ values) (t ∷ timestamps) txn e =
    add_reads-writes values timestamps (add_read_set txn key t) (omega arith)

read_answer-writes :
    (txn : Transaction) (answer : Answer)
    → IsAnswer answer
    → (u : Transaction) × (read_answer txn answer ≡ some u) × (u.write_set ≡ txn.write_set)
unfolding read_answer
read_answer-writes txn answer e = elim (Bool-cases answer.is_ok) [
  | inl fine ↦
      let (u, added, same) = add_reads-writes answer.values answer.timestamps txn e in
      (u, rw (read_answer, fine) added, same)
  | inr failed ↦ (txn, rw (read_answer, failed) refl, refl)
]

get-keeps :
    (c : BufferClient) (key : Text)
    → ((get c key).txn.write_set ≡ c.txn.write_set) × ((get c key).tid ≡ c.tid)
unfolding get
get-keeps c key = elim (Bool-cases (is_some (lookup c.txn.write_set key))) [
  | inl written ↦ (rw (get, written) refl, rw (get, written) refl)
  | inr unwritten ↦ elim (Bool-cases (is_some (lookup c.txn.read_set key))) [
    | inl was_read ↦ (rw (get, unwritten, was_read) refl, rw (get, unwritten, was_read) refl)
    | inr unread ↦ (rw (get, unwritten, unread) refl, rw (get, unwritten, unread) refl)
  ]
]

-- A put decides the value of its own key.
put_last :
    (writes : List (Text × Text)) (k value key : Text) (ops : List Op) (d : Dec (key ≡ k))
    → (elim d [
      | yes e ↦ last_put (some value) ops key
      | no e ↦ last_put (lookup writes key) ops key
    ])
      ≡ last_put (lookup (assign writes k value) key) ops key
put_last writes k value key ops (yes e) =
    ap (λ before. last_put before ops key)
      (sym (ap (lookup (assign writes k value)) e ∙ lookup-assign_same writes k value))
put_last writes k value key ops (no e) =
    ap (λ before. last_put before ops key) (sym (lookup-assign_other writes k key value e))

-- The client after the operations.
pub record Ran (c : BufferClient) (ops : List Op) (out : Option BufferClient) : Type 0 where
  pub client : BufferClient
  pub returns : out ≡ some client
  pub same_tid : client.tid ≡ c.tid
  pub writes :
      (key : Text) → lookup client.txn.write_set key ≡ last_put (lookup c.txn.write_set key) ops key

next-Ran :
    (c d : BufferClient) (op : Op) (ops : List Op)
    → exec c op ≡ some d
    → d.tid ≡ c.tid
    → ((key : Text)
        → last_put (lookup d.txn.write_set key) ops key
          ≡ last_put (lookup c.txn.write_set key) (op ∷ ops) key)
    → Ran d ops (exec_all d ops)
    → Ran c (op ∷ ops) (exec_all c (op ∷ ops))
unfolding exec_all
next-Ran c d op ops done same_tid same r = record {
  client = r.client;
  returns = rw done r.returns;
  same_tid = r.same_tid ∙ same_tid;
  writes = λ key. r.writes key ∙ same key;
}

exec_batch :
    (c : BufferClient) (answer : Answer)
    → IsAnswer answer
    → (d : BufferClient) × (exec c (op_batch_get answer) ≡ some d)
      × (d.tid ≡ c.tid)
      × (d.txn.write_set ≡ c.txn.write_set)
unfolding exec batch_get
exec_batch c answer e =
    let (u, added, same) = read_answer-writes c.txn answer e in
    (record c { txn = u; buffer = [] }, rw added refl, refl, same)

exec_range :
    (c : BufferClient) (from to : Text) (answer : Answer)
    → IsAnswer answer
    → (d : BufferClient) × (exec c (op_get_range from to answer) ≡ some d)
      × (d.tid ≡ c.tid)
      × (d.txn.write_set ≡ c.txn.write_set)
unfolding exec get_range
exec_range c from to answer e =
    let (u, added, same) = read_answer-writes c.txn answer e in
    (record c { txn = u }, rw added refl, refl, same)

exec_all-Ran : (ops : List Op) (c : BufferClient) → AllAnswered ops → Ran c ops (exec_all c ops)
unfolding exec_all exec get_n_versions buffer_key put
exec_all-Ran [] c a = record { client = c; returns = refl; same_tid = refl; writes = λ key. refl }
exec_all-Ran (op_versions k n ∷ ops) c a =
    next-Ran c (get_n_versions c k n) (op_versions k n) ops refl refl (λ key. refl)
      (exec_all-Ran ops (get_n_versions c k n) a)
exec_all-Ran (op_batch_get answer ∷ ops) c a =
    let (d, done, same_tid, same) = exec_batch c answer a.0 in
    next-Ran c d (op_batch_get answer) ops done same_tid
      (λ key. ap (λ ws. last_put (lookup ws key) ops key) same) (exec_all-Ran ops d a.1)
exec_all-Ran (op_get_range from to answer ∷ ops) c a =
    let (d, done, same_tid, same) = exec_range c from to answer a.0 in
    next-Ran c d (op_get_range from to answer) ops done same_tid
      (λ key. ap (λ ws. last_put (lookup ws key) ops key) same) (exec_all-Ran ops d a.1)
exec_all-Ran (op_buffer_key k ∷ ops) c a =
    next-Ran c (buffer_key c k) (op_buffer_key k) ops refl refl (λ key. refl)
      (exec_all-Ran ops (buffer_key c k) a)
exec_all-Ran (op_get k ∷ ops) c a =
    let (same, same_tid) = get-keeps c k in
    next-Ran c (get c k) (op_get k) ops refl same_tid
      (λ key. ap (λ ws. last_put (lookup ws key) ops key) same) (exec_all-Ran ops (get c k) a)
exec_all-Ran (op_put k value ∷ ops) c a =
    next-Ran c (put c k value) (op_put k value) ops refl refl
      (λ key. sym (put_last c.txn.write_set k value key ops (key_discrete key k)))
      (exec_all-Ran ops (put c k value) a)

-- What `Prepare` and `Commit` must send after the operations: the transaction's own number, and as
-- the write set the last value put for each key.
pub record Sends (tid : ℕ) (ops : List Op) (time : Timestamp) (out : Option BufferClient)
    : Type 0 where
  pub client : BufferClient
  pub returns : out ≡ some client
  pub txn : Transaction
  pub sent : prepare client time ≡ prepare_call tid txn time
  pub committed : (t : ℕ) → commit client t ≡ commit_call tid txn client.history t
  pub writes : (key : Text) → lookup txn.write_set key ≡ last_put none ops key

-- After `Begin` and any operations, whose answers have a timestamp for each value, `Prepare` and
-- `Commit` send the number that was begun and one transaction, which writes the last value put for
-- each key since `Begin`, and no other key, whatever was read in between and whatever the client
-- held before.
pub prepare-Sends :
    (c : BufferClient) (tid : ℕ) (ops : List Op) (time : Timestamp)
    → AllAnswered ops
    → Sends tid ops time (exec_all (begin c tid).0 ops)
unfolding begin prepare
prepare-Sends c tid ops time a =
    let r = exec_all-Ran ops (begin c tid).0 a in
    record {
      client = r.client;
      returns = r.returns;
      txn = r.client.txn;
      sent = rw r.same_tid refl;
      committed = λ t. rw r.same_tid refl;
      writes = λ key. r.writes key ∙ ap (λ before. last_put before ops key) (lookup-nil key);
    }
