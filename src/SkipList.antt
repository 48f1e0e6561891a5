-- ===== src/SkipList.antt =====
-- ledger/ledgerdb/skiplist/skiplist.cc and skiplist.h: the versions of a key, in a list that the
-- store holds node by node. A `long` is its 64 bits, and a key of the store is its text. `none` is an
-- exception of `std::stol`, a read past the end of `forward`, or the end of the fuel of a loop.
pub mod Insert
pub mod Nodes
pub mod First
mod Tests
use ledger_database.Prelude.{
  ℕ, zero, suc, ◌+◌, ◌-◌, ◌%◌, ◌^◌, List, [], ◌∷◌, ◌++◌, Option, none, some, Bool, true, false,
  ◌&&◌, ◌||◌, get_elem?, set, ltb, leb, ◌==◌, ◌>>=◌, if◌then◌else◌,
}
use ledger_database.Maps.{text_order, lookup, assign}
use ledger_database.Info.{to_string, is_digit, read_digits, split_by, bar}

abbrev pub Text : Type 0
Text = List ℕ

abbrev pub minus_one : ℕ
minus_one = 2 ^ 64 - 1

unfoldable pub long_text : ℕ → Text
long_text n = if ltb n (2 ^ 63) then to_string n else 45 ∷ to_string (2 ^ 64 - n)

unfoldable pub read_below : ℕ → Text → Option ℕ
read_below limit [] = none
read_below limit (c ∷ cs) =
    if is_digit c && ltb (read_digits 0 (c ∷ cs)) limit then some (read_digits 0 (c ∷ cs)) else none

unfoldable pub negated : Option ℕ → Option ℕ
negated none = none
negated (some n) = some ((2 ^ 64 - n) % 2 ^ 64)

-- White space, a sign and digits.
unfoldable pub stol : Text → Option ℕ
unfolding read_below negated
stol [] = none
stol (c ∷ cs) =
    let spaced = stol cs in
    if (leb 9 c && leb c 13) || (c == 32)
    then spaced
    else if c == 43
    then read_below (2 ^ 63) cs
    else if c == 45
    then negated (read_below (2 ^ 63 + 1) cs)
    else read_below (2 ^ 63) (c ∷ cs)

abbrev pub above : ℕ → ℕ → Bool
above a b = ltb ((b + 2 ^ 63) % 2 ^ 64) ((a + 2 ^ 63) % 2 ^ 64)

pub record SkipNode : Type 0 where
  pub key : ℕ
  pub value : Text
  pub forward : List ℕ

abbrev pub repeat : ℕ → ℕ → List ℕ
repeat zero x = []
repeat (suc n) x = x ∷ repeat n x

abbrev pub make_node : ℕ → Text → ℕ → SkipNode
make_node key value level = record { key = key; value = value; forward = repeat level minus_one }

unfoldable pub pointers_text : List ℕ → Text
pointers_text [] = []
pointers_text (p ∷ ps) = bar ∷ (long_text p ++ pointers_text ps)

unfoldable pub node_text : SkipNode → Text
node_text n = long_text n.key ++ bar ∷ (n.value ++ pointers_text n.forward)

unfoldable pub read_pointers : List Text → Option (List ℕ)
read_pointers [] = some []
read_pointers (p ∷ ps) = do n ← stol p; ns ← read_pointers ps; some (n ∷ ns)

unfoldable pub read_parts : Text → Text → List Text → Option SkipNode
read_parts k v ps = do
  key ← stol k
  forward ← read_pointers ps
  some (record { key = key; value = v; forward = forward })

-- A search for '|' that fails leaves the text before it and after it whole.
unfoldable pub read_split : List Text → Option SkipNode
read_split [] = none
read_split (k ∷ []) = read_parts k k (k ∷ [])
read_split (k ∷ v ∷ []) = read_parts k v (v ∷ [])
read_split (k ∷ v ∷ p ∷ ps) = read_parts k v (p ∷ ps)

unfoldable pub read_node : Text → Option SkipNode
read_node str = read_split (split_by str bar)

abbrev pub Store : Type 0
Store = Text → Text

abbrev pub same_text : Text → Text → Bool
same_text [] [] = true
same_text (a ∷ as') (b ∷ bs) = (a == b) && same_text as' bs
same_text _ _ = false

unfoldable pub put : Store → Text → Text → Store
put db k v j = if same_text k j then v else db j

-- "head"
abbrev pub head_key : Text → Text
head_key prefix = prefix ++ bar ∷ 104 ∷ 101 ∷ 97 ∷ 100 ∷ []

abbrev pub node_key : Text → ℕ → Text
node_key prefix n = prefix ++ bar ∷ long_text n

pub levels : List ℕ → ℕ
levels [] = 0
levels (p ∷ ps) = if p == minus_one then 0 else suc (levels ps)

abbrev pub node_level : List ℕ → Option ℕ
node_level [] = none
node_level (p ∷ ps) = if p == minus_one then some 1 else some (suc (levels ps))

abbrev goes_on : ℕ → ℕ → Bool
goes_on f key = above f minus_one && above f key

-- The inner loop of `find`, on level `i`.
pub walk : ℕ → Store → Text → ℕ → ℕ → SkipNode → Option SkipNode
walk zero db prefix key i node = none
walk (suc fuel) db prefix key i node = do
  f ← get_elem? node.forward i
  elim (goes_on f key) [
    | true ↦ read_node (db (node_key prefix f)) >>= λ node'. walk fuel db prefix key i node'
    | false ↦ some node
  ]

-- The levels below `n`, from the highest down.
pub descend : ℕ → Store → Text → ℕ → ℕ → SkipNode → Option Text
descend fuel db prefix key zero node = some []
descend fuel db prefix key (suc i) node = do
  node' ← walk fuel db prefix key i node
  f ← get_elem? node'.forward i
  elim (f == key) [
    | true ↦ some (db (node_key prefix f))
    | false ↦ descend fuel db prefix key i node'
  ]

unfoldable pub find_from : ℕ → Store → Text → ℕ → Text → Option Text
find_from fuel db prefix key [] = some []
find_from fuel db prefix key (c ∷ cs) = do
  head ← read_node (c ∷ cs)
  if head.key == key
      then some (c ∷ cs)
      else node_level head.forward >>= λ n. descend fuel db prefix key n head

unfoldable pub find : ℕ → Store → Text → ℕ → Option Text
find fuel db prefix key = find_from fuel db prefix key (db (head_key prefix))
