-- ===== src/Buffer/Reads.antt =====
-- The reads of distributed/store/common/frontend/bufferclient.cc whose answers have a timestamp for
-- each value.
use ledger_database.Prelude.{◌≡◌, refl, List, [], ◌∷◌, some, Bool-cases, inl, inr}
use ledger_database.Txn.{Text, Timestamp, Transaction, add_read_set}
use ledger_database.Buffer.{
  Call, Answer, BufferClient, add_reads, read_answer, get_range, get_range_call,
}

abbrev pub IsStamped : List (Text × Text) → List Timestamp → Type 0
IsStamped [] ts = Unit
IsStamped (v ∷ vs) [] = ⊥
IsStamped (v ∷ vs) (t ∷ ts) = IsStamped vs ts

add_reads-some :
    (txn : Transaction) (values : List (Text × Text)) (ts : List Timestamp)
    → IsStamped values ts
    → (txn' : Transaction) × (add_reads txn values ts ≡ some txn')
unfolding add_reads
add_reads-some txn [] ts h = (txn, refl)
add_reads-some txn ((key, value) ∷ values) [] h = absurd h
add_reads-some txn ((key, value) ∷ values) (t ∷ ts) h =
    add_reads-some (add_read_set txn key t) values ts h

read_answer-some :
    (txn : Transaction) (a : Answer)
    → IsStamped a.values a.timestamps
    → (txn' : Transaction) × (read_answer txn a ≡ some txn')
unfolding read_answer
read_answer-some txn a h = elim (Bool-cases a.is_ok) [
  | inl fine ↦ rw fine (add_reads-some txn a.values a.timestamps h)
  | inr failed ↦ rw failed (txn, refl)
]

pub get_range-some :
    (c : BufferClient) (from to : Text) (a : Answer)
    → IsStamped a.values a.timestamps
    → (out : BufferClient × Call) × (get_range c from to a ≡ some out)
unfolding get_range
get_range-some c from to a h =
    let (txn, e) = read_answer-some c.txn a h in
    ((record c { txn = txn }, get_range_call c.tid from to), rw e refl)
