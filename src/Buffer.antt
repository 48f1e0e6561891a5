-- ===== src/Buffer.antt =====
-- distributed/store/common/frontend/bufferclient.cc and bufferclient.h: the client of one shard,
-- which keeps a transaction's reads and writes until it is prepared. The calls it makes to the
-- `TxnClient` below are returned as values; what that client answers through the promise is an
-- argument. `none` is a read past the end of the answer's timestamps.
pub mod Sets
pub mod Reads
mod Tests
use ledger_database.Prelude.{
  ℕ, List, [], ◌∷◌, ◌++◌, Option, none, some, Bool, true, false, is_some, ◌>>=◌, if◌then◌else◌,
}
use ledger_database.Maps.{Order, text_order, lookup}
use ledger_database.Txn.{Text, Timestamp, Transaction, no_transaction, add_read_set, add_write_set}

-- txnclient.h: the calls.
pub data Call : Type 0 where
  begin_call : ℕ → Call
  batch_get_call : ℕ → List Text → Call
  get_range_call : ℕ → Text → Text → Call
  prepare_call : ℕ → Transaction → Timestamp → Call
  commit_call : ℕ → Transaction → List (Text × ℕ) → ℕ → Call
  abort_call : ℕ → Transaction → Call

-- What a promise holds once it is done: whether the reply is REPLY_OK, the values by key, and the
-- timestamps.
pub record Answer : Type 0 where
  pub is_ok : Bool
  pub values : List (Text × Text)
  pub timestamps : List Timestamp

pub record BufferClient : Type 0 where
  pub tid : ℕ
  pub txn : Transaction
  pub history : List (Text × ℕ)
  pub buffer : List Text

pub begin : BufferClient → ℕ → BufferClient × Call
begin c tid =
    (record { tid = tid; txn = no_transaction; history = []; buffer = [] }, begin_call tid)

pub get_n_versions : BufferClient → Text → ℕ → BufferClient
get_n_versions c key n = record c { history = c.history ++ (key, n) ∷ [] }

-- The loop over the values of an answer.
pub add_reads : Transaction → List (Text × Text) → List Timestamp → Option Transaction
add_reads txn [] timestamps = some txn
add_reads txn ((key, value) ∷ values) [] = none
add_reads txn ((key, value) ∷ values) (t ∷ timestamps) =
    add_reads (add_read_set txn key t) values timestamps

pub read_answer : Transaction → Answer → Option Transaction
read_answer txn answer =
    let added = add_reads txn answer.values answer.timestamps in
    if answer.is_ok then added else some txn

pub batch_get : BufferClient → Answer → Option (BufferClient × Call)
batch_get c answer = do
  txn ← read_answer c.txn answer
  some (record c { txn = txn; buffer = [] }, batch_get_call c.tid c.buffer)

pub get_range : BufferClient → Text → Text → Answer → Option (BufferClient × Call)
get_range c from to answer = do
  txn ← read_answer c.txn answer
  some (record c { txn = txn }, get_range_call c.tid from to)

pub buffer_key : BufferClient → Text → BufferClient
buffer_key c key = record c { buffer = c.buffer ++ key ∷ [] }

-- "Read your own writes, check the write set first."
pub get : BufferClient → Text → BufferClient
get c key =
    if is_some (lookup c.txn.write_set key)
    then c
    else if is_some (lookup c.txn.read_set key)
    then c
    else record c { txn = add_read_set c.txn key (record { timestamp = 0; id = 0 }) }

pub put : BufferClient → Text → Text → BufferClient
put c key value = record c { txn = add_write_set c.txn key value }

pub prepare : BufferClient → Timestamp → Call
prepare c timestamp = prepare_call c.tid c.txn timestamp

abbrev pub commit : BufferClient → ℕ → Call
commit c timestamp = commit_call c.tid c.txn c.history timestamp

abbrev pub abort : BufferClient → Call
abort c = abort_call c.tid no_transaction
