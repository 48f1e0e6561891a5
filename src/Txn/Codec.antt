-- ===== src/Txn/Codec.antt =====
-- The messages that carry transactions, and the constructors that read them.
use ledger_database.Prelude.{ℕ, ◌≡◌, refl, List, [], ◌∷◌}
use ledger_database.Maps.{text_order, assign, assign_all, IsSorted}
use ledger_database.Maps.Sorted.{assign_all-IsSorted}
use ledger_database.Txn.{Text, Timestamp, Transaction}

-- common-proto.proto: the repeated fields of a TransactionMessage, whose elements are a key with a
-- TimestampMessage or with a value.
pub record TimestampMessage : Type 0 where
  pub timestamp : ℕ
  pub id : ℕ

pub record TransactionMessage : Type 0 where
  pub readset : List (Text × TimestampMessage)
  pub writeset : List (Text × Text)

abbrev pub serialize_timestamp : Timestamp → TimestampMessage
serialize_timestamp t = record { timestamp = t.timestamp; id = t.id }

abbrev pub read_timestamp : TimestampMessage → Timestamp
read_timestamp m = record { timestamp = m.timestamp; id = m.id }

serialize_reads : List (Text × Timestamp) → List (Text × TimestampMessage)
serialize_reads [] = []
serialize_reads ((key, time) ∷ reads) = (key, serialize_timestamp time) ∷ serialize_reads reads

-- `Transaction::serialize`
pub serialize : Transaction → TransactionMessage
serialize t = record { readset = serialize_reads t.read_set; writeset = t.write_set }

-- The two loops of the constructor from a message.
read_reads : List (Text × Timestamp) → List (Text × TimestampMessage) → List (Text × Timestamp)
read_reads reads [] = reads
read_reads reads ((key, time) ∷ msgs) = read_reads (assign reads key (read_timestamp time)) msgs

read_writes : List (Text × Text) → List (Text × Text) → List (Text × Text)
read_writes writes [] = writes
read_writes writes ((key, value) ∷ msgs) = read_writes (assign writes key value) msgs

pub read_transaction : TransactionMessage → Transaction
read_transaction msg = record {
  read_set = read_reads [] msg.readset;
  write_set = read_writes [] msg.writeset;
}

read_reads-serialize_reads :
    (reads acc : List (Text × Timestamp))
    → read_reads acc (serialize_reads reads) ≡ assign_all acc reads
unfolding read_reads serialize_reads assign_all
read_reads-serialize_reads [] acc = refl
read_reads-serialize_reads ((key, time) ∷ reads) acc =
    read_reads-serialize_reads reads (assign acc key time)

read_writes-assign_all :
    (writes acc : List (Text × Text)) → read_writes acc writes ≡ assign_all acc writes
unfolding read_writes assign_all
read_writes-assign_all [] acc = refl
read_writes-assign_all ((key, value) ∷ writes) acc =
    read_writes-assign_all writes (assign acc key value)

-- A transaction whose sets are maps is read back from its message.
pub read_transaction-serialize :
    (t : Transaction)
    → IsSorted t.read_set
    → IsSorted t.write_set
    → read_transaction (serialize t) ≡ t
unfolding read_transaction serialize
read_transaction-serialize t r w =
    rw
      (
        read_reads-serialize_reads t.read_set [],
        assign_all-IsSorted t.read_set r,
        read_writes-assign_all t.write_set [],
        assign_all-IsSorted t.write_set w,
      )
      refl
