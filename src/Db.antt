-- ===== src/Db.antt =====
-- ledger/common/db.h: the string-keyed store that the ledger's parts share (RocksDB). A key is
-- written as data: `mt 1 4 (after (some 7))` stands for "mt1-4-7", and `mt 1 4 plain` for "mt1-4".
-- Reading a key that is not there leaves the caller's empty string, so a missing value is [].
use ledger_database.Prelude.{
  ℕ, ◌≡◌, Option, none, some, Bool, true, false, ◌&&◌, List, ◌==◌, if◌then◌else◌, arith,
}

-- The end of a Merkle tree node's key: nothing, or "-" and a commit number, which may be "".
pub data Suffix : Type 0 where
  plain : Suffix
  after : Option ℕ → Suffix

pub data DbKey : Type 0 where
  mt : ℕ → ℕ → Suffix → DbKey
  ledger : ℕ → DbKey
  commit : ℕ → DbKey
  digest : DbKey

abbrev same_commit : Option ℕ → Option ℕ → Bool
same_commit none none = true
same_commit (some a) (some b) = a == b
same_commit _ _ = false

abbrev same_suffix : Suffix → Suffix → Bool
same_suffix plain plain = true
same_suffix (after a) (after b) = same_commit a b
same_suffix _ _ = false

abbrev pub same_key : DbKey → DbKey → Bool
same_key (mt k i s) (mt l j t) = (k == l) && (i == j) && same_suffix s t
same_key (ledger i) (ledger j) = i == j
same_key (commit i) (commit j) = i == j
same_key digest digest = true
same_key _ _ = false

abbrev pub Db : Type 0
Db = DbKey → List ℕ

unfoldable pub put : Db → DbKey → List ℕ → Db
put db k v j = if same_key k j then v else db j

pub put_self : (db : Db) (k : DbKey) (v : List ℕ) → put db k v k ≡ v
unfolding put
put_self db (mt l i plain) v = ground arith
put_self db (mt l i (after none)) v = ground arith
put_self db (mt l i (after (some c))) v = ground arith
put_self db (ledger i) v = ground arith
put_self db (commit i) v = ground arith
put_self db digest v = ground arith

pub put_other : (db : Db) (k j : DbKey) (v : List ℕ) → same_key k j ≡ false → put db k v j ≡ db j
unfolding put
put_other db k j v h = ground arith
