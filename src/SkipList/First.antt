-- ===== src/SkipList/First.antt =====
-- The key that a list of ledger/ledgerdb/skiplist/skiplist.cc begins with, inserted again.
use ledger_database.Prelude.{
  ℕ, zero, suc, ◌^◌, ◌<◌, ◌≡◌, ◌≢◌, refl, ◌∙◌, [], ◌∷◌, ◌++◌, Option, some, true, false, ltb, ◌==◌,
  ◌>>=◌, Bool-cases, inl, inr, arith,
}
use ledger_database.Info.{bar, to_string, split_by, split_from}
use ledger_database.Info.Decimal.{AllDigits, AllDigits-digits}
use ledger_database.Info.Split.{Without}
use ledger_database.SkipList.{
  Text, long_text, stol, SkipNode, repeat, minus_one, make_node, node_text, read_node, read_split,
  read_parts, Store, same_text, put, head_key, node_key, find_from, find,
}
use ledger_database.SkipList.Insert.{max_level, insert_found, insert_from, insert}
use ledger_database.SkipList.Nodes.{IsNode, AllLong, read_node-node_text}

same_text_refl : (xs : Text) → same_text xs xs ≡ true
same_text_refl [] = refl
same_text_refl (x ∷ xs) =
    let same : (x == x) ≡ true = ground arith in rw (same, same_text_refl xs) refl

same_text-append :
    (p xs ys : Text) → same_text xs ys ≡ false → same_text (p ++ xs) (p ++ ys) ≡ false
same_text-append [] xs ys h = h
same_text-append (x ∷ p) xs ys h =
    let same : (x == x) ≡ true = ground arith in rw (same, same_text-append p xs ys h) refl

digits-no_head : (xs cs : Text) → AllDigits xs → same_text xs (104 ∷ cs) ≡ false
digits-no_head [] cs a = refl
digits-no_head (x ∷ xs) cs a = let other : (x == 104) ≡ false = ground (arith, a.0) in rw other refl

long_text-no_head : (n : ℕ) (cs : Text) → same_text (long_text n) (104 ∷ cs) ≡ false
unfolding long_text
long_text-no_head n cs = elim (Bool-cases (ltb n (2 ^ 63))) [
  | inl small ↦ rw small (digits-no_head (to_string n) cs (AllDigits-digits 20 n))
  | inr large ↦ rw large refl
]

empty-unread : (node : SkipNode) → read_node [] ≢ some node
unfolding read_node read_split read_parts stol split_by split_from
empty-unread node e = absurd (cc (e))

find_from-head :
    (fuel : ℕ) (db : Store) (prefix : Text) (key : ℕ) (str : Text) (node : SkipNode)
    → read_node str ≡ some node
    → node.key ≡ key
    → find_from fuel db prefix key str ≡ some str
unfolding find_from
find_from-head fuel db prefix key [] node e same = absurd (empty-unread node e)
find_from-head fuel db prefix key (c ∷ cs) node e same =
    let test : (node.key == key) ≡ true = ground (arith, same) in rw e (rw test refl)

insert_from-head :
    (fuel : ℕ) (db : Store) (prefix : Text) (key : ℕ) (value : Text) (level : ℕ) (str : Text)
    (node : SkipNode)
    → db (head_key prefix) ≡ str
    → read_node str ≡ some node
    → node.key ≡ key
    → insert_from fuel db prefix key value level str
      ≡ some (put db (node_key prefix key) (node_text (record node { value = value })))
unfolding insert_from insert_found find
insert_from-head fuel db prefix key value level [] node there e same = absurd (empty-unread node e)
insert_from-head fuel db prefix key value level (c ∷ cs) node there e same =
    rw there (rw (find_from-head fuel db prefix key (c ∷ cs) node e same) (rw e refl))

-- The texts that the store has under the head of a list, and how they change.
put-head : (db : Store) (prefix str : Text) → put db (head_key prefix) str (head_key prefix) ≡ str
unfolding put
put-head db prefix str = rw (same_text_refl (head_key prefix)) refl

put-node :
    (db : Store) (prefix str : Text) (key : ℕ)
    → put db (node_key prefix key) str (head_key prefix) ≡ db (head_key prefix)
unfolding put
put-node db prefix str key =
    rw
      (same_text-append prefix (bar ∷ long_text key) (bar ∷ 104 ∷ 101 ∷ 97 ∷ 100 ∷ [])
        (long_text-no_head key (101 ∷ 97 ∷ 100 ∷ [])))
      refl

AllLong-repeat : (n : ℕ) → AllLong (repeat n minus_one)
AllLong-repeat zero = tt
AllLong-repeat (suc n) = (omega arith, AllLong-repeat n)

-- What the list returns for the key after it has been inserted twice.
abbrev pub twice : ℕ → Store → Text → ℕ → Text → Text → ℕ → ℕ → Option Text
twice fuel db prefix key value value' level level' = do
  db1 ← insert fuel db prefix key value level
  db2 ← insert fuel db1 prefix key value' level'
  find fuel db2 prefix key

-- The key that an empty list begins with, inserted again with another value: `find` returns the node
-- with the first value, for a key of 64 bits and a first value without the character '|'.
pub insert-stale :
    (fuel : ℕ) (db : Store) (prefix : Text) (key : ℕ) (value value' : Text) (level level' : ℕ)
    → db (head_key prefix) ≡ []
    → key < 2 ^ 64
    → Without bar value
    → twice fuel db prefix key value value' level level'
      ≡ some (node_text (make_node key value max_level))
unfolding insert insert_from find
insert-stale fuel db prefix key value value' level level' empty fits clear =
    let node = make_node key value max_level in
    let str = node_text node in
    let ok : IsNode node = record {
      key_fits = fits;
      value_clear = clear;
      pointers_fit = AllLong-repeat max_level;
      some_pointer = omega arith;
    } in
    let read = read_node-node_text node ok in
    let db1 = put db (head_key prefix) str in
    let head1 : db1 (head_key prefix) ≡ str = put-head db prefix str in
    let second = insert_from-head fuel db1 prefix key value' level' str node head1 read refl in
    let text2 = node_text (record node { value = value' }) in
    let head2 = put-node db1 prefix text2 key ∙ head1 in
    rw (empty, head1, second, head2) (find_from-head fuel _ prefix key str node read refl)
