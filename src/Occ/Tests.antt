-- ===== src/Occ/Tests.antt =====
-- The theorems on the shard, over a store that keeps the last writes it was given.
use ledger_database.Prelude.{ℕ, suc, ◌≡◌, refl, List, [], ◌∷◌, some, arith}
use ledger_database.Maps.{number_order, text_order, lookup, assign}
use ledger_database.Txn.{Text, Transaction}
use ledger_database.Occ.{
  OccStore, VersionedKvStore, prepare, commit, any_key, get_prepared_writes, writes_from,
  insert_keys, get_prepared_read_writes, read_writes_from,
}
use ledger_database.Occ.Prepare.{Prepares, prepare-Prepares}
use ledger_database.Occ.Runs.{IsSafe, prepares, commits, here, next, Reach-IsSafe}
use ledger_database.Occ.Isolation.{stop, step, recording, PutsAvoid, Others-PutsAvoid}

abbrev Kept : Type 0
Kept = List Text

abbrev backend : VersionedKvStore Kept ℕ
backend = record {
  get_digest = λ s r. suc r;
  batch_get = λ s keys r. suc r;
  get_n_versions = λ s keys r. suc r;
  put = λ s keys values t r. (values, r);
}

abbrev reads_a : Transaction
reads_a = record { read_set = ((97 ∷ []), record { timestamp = 0; id = 0 }) ∷ []; write_set = [] }

abbrev writes_b : Transaction
writes_b = record { read_set = []; write_set = ((98 ∷ []), (1 ∷ [])) ∷ [] }

abbrev started : OccStore Kept
started = record { store = []; prepared = [] }

-- Transaction 1 is prepared.
abbrev one : OccStore Kept
one = record { store = []; prepared = (1, reads_a) ∷ [] }

one-IsSafe : IsSafe (prepare started 1 reads_a).0
one-IsSafe = Reach-IsSafe backend [] (next {id = 1} here (prepares started reads_a))

prepare-Prepares_example : Prepares one 2 writes_b (prepare one 2 writes_b)
prepare-Prepares_example = prepare-Prepares one 2 writes_b (tt, tt)

Reach-IsSafe_example : IsSafe (prepare (prepare started 1 reads_a).0 2 writes_b).0
Reach-IsSafe_example = Reach-IsSafe backend [] (
    next {id = 2} (next {id = 1} here (prepares started reads_a))
      (prepares (prepare started 1 reads_a).0 writes_b))

-- The store also keeps the keys of each put.
abbrev kept : VersionedKvStore (Kept × List (List Text)) ℕ
kept = recording backend

abbrev empty : OccStore (Kept × List (List Text))
empty = record { store = ([], []); prepared = [] }

-- Transaction 2 is prepared beside transaction 1.
abbrev both : OccStore (Kept × List (List Text))
both = (prepare (prepare empty 1 reads_a).0 2 writes_b).0

both-IsSafe : IsSafe both
both-IsSafe =
    Reach-IsSafe kept ([], [])
      (next {id = 2} (next {id = 1} here (prepares empty reads_a))
        (prepares (prepare empty 1 reads_a).0 writes_b))

first_there : lookup both.prepared 1 ≡ some reads_a
unfolding prepare lookup assign any_key get_prepared_writes writes_from insert_keys
    get_prepared_read_writes read_writes_from
first_there = refl

second_there : lookup both.prepared 2 ≡ some writes_b
unfolding prepare lookup assign any_key get_prepared_writes writes_from insert_keys
    get_prepared_read_writes read_writes_from
second_there = refl

Others-PutsAvoid_example :
    (lookup (commit kept both 2 7 0).0.prepared 1 ≡ some reads_a)
    × PutsAvoid reads_a both.store.1 (commit kept both 2 7 0).0.store.1
Others-PutsAvoid_example =
    Others-PutsAvoid backend reads_a
      (step {id = 2} (omega arith) (commits both writes_b 7 0 second_there)
        (stop (commit kept both 2 7 0).0))
      both-IsSafe first_there
