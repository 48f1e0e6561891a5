-- ===== src/SkipList/Nodes.antt =====
-- The text of a node of ledger/ledgerdb/skiplist/skiplist.cc, read back.
use mathlib.Core.List.{append-nil}
use ledger_database.Prelude.{
  ℕ, ◌+◌, ◌-◌, ◌%◌, ◌^◌, ◌<◌, ◌≡◌, refl, ap, ◌∙◌, List, [], ◌∷◌, ◌++◌, some, ltb, length,
  Bool-cases, inl, inr, arith,
}
use ledger_database.Info.{bar, to_string, read_digits, split_by}
use ledger_database.Info.Decimal.{AllDigits, AllDigits-digits, read_digits-digits, length-digits}
use ledger_database.Info.Split.{Without, split_by-cons, split_by-last}
use ledger_database.Info.Round.{to_string-Without}
use ledger_database.SkipList.{
  Text, long_text, read_below, negated, stol, SkipNode, node_text, pointers_text, read_pointers,
  read_parts, read_split, read_node,
}

long_text-Without : (n : ℕ) → Without bar (long_text n)
unfolding long_text
long_text-Without n = elim (Bool-cases (ltb n (2 ^ 63))) [
  | inl small ↦ rw small (to_string-Without n)
  | inr large ↦ rw large (refl, to_string-Without (2 ^ 64 - n))
]

read_below-digits :
    (limit : ℕ) (xs : Text)
    → AllDigits xs
    → 0 < length xs
    → read_digits 0 xs < limit
    → read_below limit xs ≡ some (read_digits 0 xs)
unfolding read_below
read_below-digits limit [] a h lt = absurd (omega arith)
read_below-digits limit (c ∷ cs) a h lt = ground (arith, a.0, lt)

stol-digits :
    (xs : Text)
    → AllDigits xs
    → 0 < length xs
    → read_digits 0 xs < 2 ^ 63
    → stol xs ≡ some (read_digits 0 xs)
unfolding stol read_below
stol-digits [] a h lt = absurd (omega arith)
stol-digits (c ∷ cs) a h lt = ground (arith, a.0, lt)

read_back : (n : ℕ) → n < 2 ^ 64 → read_digits 0 (to_string n) ≡ n
read_back n h = read_digits-digits 20 n (omega arith)

stol-minus : (xs : Text) → stol (45 ∷ xs) ≡ negated (read_below (2 ^ 63 + 1) xs)
unfolding stol
stol-minus xs = refl

stol-long_text : (n : ℕ) → n < 2 ^ 64 → stol (long_text n) ≡ some n
unfolding long_text negated
stol-long_text n h = elim (Bool-cases (ltb n (2 ^ 63))) [
  | inl small ↦
      let value = read_back n h in
      let fits : read_digits 0 (to_string n) < 2 ^ 63 = ground (arith, value, small) in
      rw small (
        stol-digits (to_string n) (AllDigits-digits 20 n) (length-digits 19 n) fits ∙ ap some value)
  | inr large ↦
      let m = 2 ^ 64 - n in
      let value = read_back m (ground (arith, large)) in
      let fits : read_digits 0 (to_string m) < 2 ^ 63 + 1 = ground (arith, value, large) in
      let back =
        read_below-digits (2 ^ 63 + 1) (to_string m) (AllDigits-digits 20 m) (length-digits 19 m)
          fits in
      let same : (2 ^ 64 - read_digits 0 (to_string m)) % 2 ^ 64 ≡ n =
        ground (arith, value, large) in
      rw large (stol-minus (to_string m) ∙ ap negated back ∙ ap some same)
]

abbrev pub AllLong : List ℕ → Type 0
AllLong [] = Unit
AllLong (p ∷ ps) = (p < 2 ^ 64) × AllLong ps

abbrev pub texts : List ℕ → List Text
texts [] = []
texts (p ∷ ps) = long_text p ∷ texts ps

read_pointers-texts : (ps : List ℕ) → AllLong ps → read_pointers (texts ps) ≡ some ps
unfolding read_pointers
read_pointers-texts [] h = refl
read_pointers-texts (p ∷ ps) h = rw (stol-long_text p h.0, read_pointers-texts ps h.1) refl

split_by-pointers :
    (v : Text) (ps : List ℕ) → Without bar v → split_by (v ++ pointers_text ps) bar ≡ v ∷ texts ps
unfolding pointers_text
split_by-pointers v [] h = ap (λ x. split_by x bar) (append-nil v) ∙ split_by-last bar v h
split_by-pointers v (p ∷ ps) h =
    split_by-cons bar v _ h
    ∙ ap (λ ts. v ∷ ts) (split_by-pointers (long_text p) ps (long_text-Without p))

-- A node that can be stored: its key and pointers are of 64 bits, it has a pointer, and its value
-- does not have the character '|'.
pub record IsNode (n : SkipNode) : Type 0 where
  pub key_fits : n.key < 2 ^ 64
  pub value_clear : Without bar n.value
  pub pointers_fit : AllLong n.forward
  pub some_pointer : 0 < length n.forward

node_parts :
    (n : SkipNode)
    → Without bar n.value
    → split_by (node_text n) bar ≡ long_text n.key ∷ n.value ∷ texts n.forward
unfolding node_text
node_parts n clear =
    split_by-cons bar (long_text n.key) _ (long_text-Without n.key)
    ∙ ap (λ ts. long_text n.key ∷ ts) (split_by-pointers n.value n.forward clear)

read_split-texts :
    (k v : Text) (ps : List ℕ)
    → 0 < length ps
    → read_split (k ∷ v ∷ texts ps) ≡ read_parts k v (texts ps)
unfolding read_split
read_split-texts k v [] h = absurd (omega arith)
read_split-texts k v (p ∷ ps) h = refl

-- A node whose key and pointers are of 64 bits, whose value does not have the character '|', and that
-- has at least one pointer is read back from the text that `ToString` stores it as.
pub read_node-node_text : (n : SkipNode) → IsNode n → read_node (node_text n) ≡ some n
unfolding read_node read_parts
read_node-node_text n i =
    ap read_split (node_parts n i.value_clear)
    ∙ read_split-texts (long_text n.key) n.value n.forward i.some_pointer
    ∙ rw (stol-long_text n.key i.key_fits, read_pointers-texts n.forward i.pointers_fit) refl
