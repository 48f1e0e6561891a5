-- ===== src/Info/Blocks.antt =====
-- Reading a block's data from its text, of ledger/ledgerdb/types.h.
use ledger_database.Prelude.{
  some-inj, ℕ, zero, suc, ◌+◌, ◌≡◌, refl, sym, ap, ◌∙◌, List, [], ◌∷◌, ◌++◌, none, some, true, ◌==◌,
  get_elem?, length, arith, Bool-cases, Option-cases, inl, inr,
}
use ledger_database.Info.{
  bar, slash, split_from, split_by, pairs_text, block_data_text, read_pairs, read_block_data,
}
use ledger_database.Info.Split.{Without, split_by-cons}

-- `n` times the same text.
abbrev pub copies : ℕ → List ℕ → List (List ℕ)
copies zero x = []
copies (suc n) x = x ∷ copies n x

-- Every text of the list is without the character.
abbrev pub AllWithout : ℕ → List (List ℕ) → Type 0
AllWithout d [] = Unit
AllWithout d (x ∷ xs) = Without d x × AllWithout d xs

read_pairs-copies :
    (str key val : List ℕ) (kvs : List (List ℕ))
    → get_elem? (split_by str bar) 0 ≡ some key
    → get_elem? (split_by str bar) 1 ≡ some val
    → read_pairs str kvs ≡ some (copies (length kvs) key, copies (length kvs) val)
unfolding read_pairs
read_pairs-copies str key val [] h h' = refl
read_pairs-copies str key val (kv ∷ kvs) h h' =
    rw (h, h', read_pairs-copies str key val kvs h h') refl

-- How many pieces there are does not depend on the piece begun.
pieces : (d : ℕ) (xs p q : List ℕ) → length (split_from d p xs) ≡ length (split_from d q xs)
unfolding split_from
pieces d [] p q = refl
pieces d (x ∷ xs) p q = elim (Bool-cases (x == d)) [
  | inl here ↦ rw here refl
  | inr other ↦ rw other (pieces d xs (p ++ x ∷ []) (q ++ x ∷ []))
]

pieces_skip :
    (d : ℕ) (xs rest p : List ℕ)
    → Without d xs
    → length (split_from d p (xs ++ rest)) ≡ length (split_from d [] rest)
unfolding split_from
pieces_skip d [] rest p a = pieces d rest p []
pieces_skip d (x ∷ xs) rest p a = rw a.0 (pieces_skip d xs rest (p ++ x ∷ []) a.1)

pieces_new :
    (d : ℕ) (rest p : List ℕ)
    → length (split_from d p (d ∷ rest)) ≡ length (split_from d [] rest) + 1
unfolding split_from
pieces_new d rest p = let test : (d == d) ≡ true = ground arith in rw test (omega arith)

-- The text of one pair and what follows.
pairs_text-cons :
    (k v : List ℕ) (keys vals : List (List ℕ)) {str : List ℕ}
    → pairs_text (k ∷ keys) (v ∷ vals) ≡ some str
    → (rest : List ℕ) × (pairs_text keys vals ≡ some rest)
      × (slash ∷ (k ++ bar ∷ (v ++ rest)) ≡ str)
unfolding pairs_text
pairs_text-cons k v keys vals {str = str} h = elim (Option-cases (pairs_text keys vals)) [
  | inl no_rest ↦
      let shut : pairs_text (k ∷ keys) (v ∷ vals) ≡ none = rw no_rest refl in absurd (cc (shut, h))
  | inr (rest, there) ↦
      let whole : pairs_text (k ∷ keys) (v ∷ vals) ≡ some (slash ∷ (k ++ bar ∷ (v ++ rest))) =
        rw there refl in
      (rest, there, some-inj (sym whole ∙ h))
]

pieces-pairs_text :
    (keys vals : List (List ℕ)) {str : List ℕ}
    → pairs_text keys vals ≡ some str
    → AllWithout slash keys
    → AllWithout slash vals
    → length (split_from slash [] str) ≡ length keys + 1
unfolding pairs_text split_from
pieces-pairs_text [] vals {str = str} h a b =
    ap (λ s. length (split_from slash [] s)) (sym (some-inj h))
pieces-pairs_text (k ∷ keys) [] h a b = absurd (cc)
pieces-pairs_text (k ∷ keys) (v ∷ vals) {str = str} h a b =
    let (rest, there, whole) = pairs_text-cons k v keys vals h in
    let ih = pieces-pairs_text keys vals there a.1 b.1 in
    ap (λ s. length (split_from slash [] s)) (sym whole)
    ∙ pieces_new slash (k ++ bar ∷ (v ++ rest)) []
    ∙ ap (λ n. n + 1)
        (pieces_skip slash k (bar ∷ (v ++ rest)) [] a.0
          ∙ pieces_skip slash (bar ∷ v) rest [] (refl, b.0)
          ∙ ih)
    ∙ omega arith

-- There is always a piece.
some_piece : (d : ℕ) (xs p : List ℕ) → (val : List ℕ) × (get_elem? (split_from d p xs) 0 ≡ some val)
unfolding split_from
some_piece d [] p = (p, refl)
some_piece d (x ∷ xs) p = elim (Bool-cases (x == d)) [
  | inl here ↦ (p, rw here refl)
  | inr other ↦ let (val, first) = some_piece d xs (p ++ x ∷ []) in (val, rw other first)
]

-- The text of a block with at least one pair, none of them with '/' and the keys without '|', is
-- not read back: every key read is the first key with the leading '/', one more time than there
-- are pairs, and all values read are the same.
pub read_block_data-copies :
    (k v : List ℕ) (keys vals : List (List ℕ)) (str : List ℕ)
    → Without bar k
    → AllWithout slash (k ∷ keys)
    → AllWithout slash (v ∷ vals)
    → block_data_text (record { keys = k ∷ keys; vals = v ∷ vals }) ≡ some str
    → (val : List ℕ) × (read_block_data str
        ≡ some (record {
          keys = copies (length keys + 2) (slash ∷ k);
          vals = copies (length keys + 2) val;
        }))
unfolding read_block_data block_data_text split_by
read_block_data-copies k v keys vals str clear a b h =
    let (rest, there, whole) = pairs_text-cons k v keys vals h in
    let items : split_by str bar ≡ (slash ∷ k) ∷ split_by (v ++ rest) bar =
      ap (λ s. split_by s bar) (sym whole)
      ∙ split_by-cons bar (slash ∷ k) (v ++ rest) (refl, clear) in
    let (val, second) = some_piece bar (v ++ rest) [] in
    let count : length (split_by str slash) ≡ length keys + 2 =
      omega (arith, pieces-pairs_text (k ∷ keys) (v ∷ vals) h a b) in
    let pairs_read =
      read_pairs-copies str (slash ∷ k) val (split_by str slash) (ap (λ xs. get_elem? xs 0) items)
        (ap (λ xs. get_elem? xs 1) items ∙ second) in
    (val, rw (read_block_data, pairs_read, count) refl)
