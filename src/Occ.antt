-- ===== src/Occ.antt =====
-- distributed/store/strongstore/occstore.cc and occstore.h: the store of one shard, with its
-- optimistic concurrency control. The versioned key-value store below it is an interface.
pub mod Conflict
pub mod Search
pub mod Prepare
pub mod Runs
pub mod Isolation
mod Tests
use ledger_database.Prelude.{
  ℕ, List, [], ◌∷◌, ◌++◌, map, Option, none, some, Bool, true, false, is_some, ltb, length,
  if◌then◌else◌,
}
use ledger_database.Panic.{Run, ok, panic, ◌>>=◌, ◌>>◌, assert}
use ledger_database.Maps.{Order, number_order, text_order, lookup, assign, erase}
use ledger_database.Txn.{Text, Timestamp, Transaction, no_transaction}

-- The replies `REPLY_OK` and `REPLY_FAIL`.
pub data Reply : Type 0 where
  reply_ok reply_fail : Reply

-- versionstore.h: what the shard calls, over the store's state `S` and the reply message `R`.
pub record VersionedKvStore (S R : Type 0) : Type 0 where
  pub get_digest : S → R → R
  pub batch_get : S → List Text → R → R
  pub get_n_versions : S → List (Text × ℕ) → R → R
  pub put : S → List Text → List Text → Timestamp → Option R → S × Option R

pub record OccStore (S : Type 0) : Type 0 where
  pub store : S
  pub prepared : List (ℕ × Transaction)

-- `std::set<std::string>`.
abbrev pub Texts : Type 0
Texts = List (Text × Unit {0})

abbrev pub contains : Texts → Text → Bool
contains s key = is_some (lookup s key)

abbrev pub has_key : {V : Type 0} → List (Text × V) → Text → Bool
has_key m key = is_some (lookup m key)

-- The loop that inserts the keys of a read set or a write set into a set.
pub insert_keys : {V : Type 0} → Texts → List (Text × V) → Texts
insert_keys s [] = s
insert_keys s ((key, v) ∷ m) = insert_keys (assign s key tt) m

-- `getPreparedWrites`
pub writes_from : Texts → List (ℕ × Transaction) → Texts
writes_from writes [] = writes
writes_from writes ((id, t) ∷ ts) = writes_from (insert_keys writes t.write_set) ts

pub get_prepared_writes : List (ℕ × Transaction) → Texts
get_prepared_writes prepared = writes_from [] prepared

-- `getPreparedReadWrites`
pub read_writes_from : Texts → List (ℕ × Transaction) → Texts
read_writes_from readwrites [] = readwrites
read_writes_from readwrites ((id, t) ∷ ts) =
    read_writes_from (insert_keys (insert_keys readwrites t.write_set) t.read_set) ts

pub get_prepared_read_writes : List (ℕ × Transaction) → Texts
get_prepared_read_writes prepared = read_writes_from [] prepared

-- Whether the loop over a read set or a write set finds one of its keys in the set.
pub any_key : {V : Type 0} → List (Text × V) → Texts → Bool
any_key [] s = false
any_key ((key, v) ∷ m) s = if contains s key then true else any_key m s

module _ {S : Type 0} where
  pub abort : OccStore S → ℕ → OccStore S
  abort s id = record s { prepared = erase s.prepared id }

  pub prepare : OccStore S → ℕ → Transaction → OccStore S × Reply
  prepare s id txn = elim (lookup s.prepared id) [
    | some t ↦ (s, reply_ok)
    | none ↦
        if any_key txn.read_set (get_prepared_writes s.prepared)
        then (abort s id, reply_fail)
        else if any_key txn.write_set (get_prepared_read_writes s.prepared)
        then (abort s id, reply_fail)
        else (record s { prepared = assign s.prepared id txn }, reply_ok)
  ]

abbrev pub keys_of : {V : Type 0} → List (Text × V) → List Text
keys_of [] = []
keys_of ((key, v) ∷ m) = key ∷ keys_of m

abbrev pub values_of : List (Text × Text) → List Text
values_of [] = []
values_of ((key, v) ∷ m) = v ∷ values_of m

module _ {S R : Type 0} (backend : VersionedKvStore S R) where
  -- `OCCStore::Load`
  abbrev pub load : OccStore S → List Text → List Text → Timestamp → OccStore S
  load s keys values timestamp = record s {
    store = (backend.put s.store keys values timestamp none).0;
  }

  -- The writes of a transaction go to the store, when there are any.
  pub put_writes : S → Transaction → ℕ → Option R → S × Option R
  put_writes store txn timestamp reply =
      backend.put store (keys_of txn.write_set) (values_of txn.write_set)
        (record { timestamp = timestamp; id = 0 }) reply

  -- `OCCStore::Commit` with the keys whose versions are asked for, after its assertion: the reads
  -- and the versions go into the reply, and the writes to the store.
  pub commit_prepared :
      OccStore S → ℕ → Transaction → ℕ → List (Text × ℕ) → R → OccStore S × Option R
  commit_prepared s id txn timestamp ver_keys reply =
      let digested = backend.get_digest s.store reply in
      let reads = keys_of txn.read_set in
      let got =
        if ltb 0 (length reads) then backend.batch_get s.store reads digested else digested in
      let versions =
        if ltb 0 (length ver_keys) then backend.get_n_versions s.store ver_keys got else got in
      let (store, replied) =
        if ltb 0 (length txn.write_set)
        then put_writes s.store txn timestamp (some versions)
        else (s.store, some versions) in
      (record { store = store; prepared = erase s.prepared id }, replied)

  pub commit_versions : OccStore S → ℕ → ℕ → List (Text × ℕ) → R → Run (OccStore S × Option R)
  commit_versions s id timestamp ver_keys reply = elim (lookup s.prepared id) [
    | none ↦ panic
    | some txn ↦ ok (commit_prepared s id txn timestamp ver_keys reply)
  ]

  -- `OCCStore::Commit` without them. `prepared[id]` makes an empty transaction where there is
  -- none.
  pub commit : OccStore S → ℕ → ℕ → R → OccStore S × R
  commit s id timestamp reply =
      let txn : Transaction = elim (lookup s.prepared id) [ none ↦ no_transaction | some t ↦ t ] in
      let (store, replied) = put_writes s.store txn timestamp none in
      (record { store = store; prepared = erase s.prepared id }, backend.get_digest s.store reply)
