-- ===== src/SkipList/Insert.antt =====
-- `insert` and `scan` of ledger/ledgerdb/skiplist/skiplist.cc. The level that `randomLevel` draws is an
-- argument.
use ledger_database.Prelude.{
  ℕ, zero, suc, List, [], ◌∷◌, ◌++◌, Option, none, some, true, false, get_elem?, set, leb, ◌^◌,
  ◌>>=◌,
}
use ledger_database.Maps.{text_order, lookup, assign}
use ledger_database.SkipList.{
  Text, SkipNode, make_node, node_text, read_node, Store, put, head_key, node_key, goes_on, find,
  same_text,
}

abbrev pub max_level : ℕ
max_level = 16

-- The nodes that change, by the text of the key.
abbrev pub Updates : Type 0
Updates = List (Text × SkipNode)

abbrev pub updated : Option SkipNode → Text → Option SkipNode
updated none str = read_node str
updated (some node) str = some node

-- The node that the loops are at, with the key that it is stored under.
pub record Place : Type 0 where
  pub node : SkipNode
  pub full_key : Text

-- The inner loop, on level `i`.
pub seek : ℕ → Store → Text → ℕ → ℕ → Updates → Place → Option Place
seek zero db prefix key i update place = none
seek (suc fuel) db prefix key i update place = do
  f ← get_elem? place.node.forward i
  elim (goes_on f key) [
    | true ↦
        let full_key = node_key prefix f in
        updated (lookup update full_key) (db full_key) >>= λ node.
        seek fuel db prefix key i update (record { node = node; full_key = full_key })
    | false ↦ some place
  ]

pub linked : SkipNode → ℕ → ℕ → SkipNode
linked node i key = record node { forward = set node.forward i key }

-- The levels below `n`: the pointers of the new node, and the nodes that now point to it.
pub splice : ℕ → Store → Text → ℕ → ℕ → Updates → Place → List ℕ → Option (Updates × List ℕ)
unfolding seek
splice fuel db prefix key zero update place forward = some (update, forward)
splice fuel db prefix key (suc i) update place forward = do
  place' ← seek fuel db prefix key i update place
  f ← get_elem? place'.node.forward i
  splice fuel db prefix key i (assign update place'.full_key (linked place'.node i key))
      (record { node = linked place'.node i key; full_key = place'.full_key }) (set forward i f)

pub put_updates : Store → Updates → Store
put_updates db [] = db
put_updates db ((full_key, node) ∷ update) = put_updates (put db full_key (node_text node)) update

pub insert_new : ℕ → Store → Text → ℕ → Text → ℕ → SkipNode → Option Store
unfolding splice put_updates
insert_new fuel db prefix key value level head =
    let newnode = make_node key value level in
    do
      (update, forward) ←
          splice fuel db prefix key level [] (record { node = head; full_key = head_key prefix })
            newnode.forward
      some (
          put (put_updates db update) (node_key prefix key)
            (node_text (record newnode { forward = forward })))

-- With what `find` returns.
unfoldable pub insert_found : ℕ → Store → Text → ℕ → Text → ℕ → SkipNode → Text → Option Store
unfolding insert_new
insert_found fuel db prefix key value level head [] = insert_new fuel db prefix key value level head
insert_found fuel db prefix key value level head (c ∷ cs) = do
  node ← read_node (c ∷ cs)
  some (put db (node_key prefix key) (node_text (record node { value = value })))

-- With the text of the head.
unfoldable pub insert_from : ℕ → Store → Text → ℕ → Text → ℕ → Text → Option Store
unfolding insert_found
insert_from fuel db prefix key value level [] =
    some (put db (head_key prefix) (node_text (make_node key value max_level)))
insert_from fuel db prefix key value level (c ∷ cs) = do
  x ← find fuel db prefix key
  head ← read_node (c ∷ cs)
  insert_found fuel db prefix key value level head x

unfoldable pub insert : ℕ → Store → Text → ℕ → Text → ℕ → Option Store
unfolding insert_from
insert fuel db prefix key value level =
    insert_from fuel db prefix key value level (db (head_key prefix))

-- The texts of at most `n` nodes, from the one under `full_key` on, after those of `res`.
pub scan_from : ℕ → Store → Text → Text → List Text → Option (List Text)
scan_from zero db prefix full_key res = some res
scan_from (suc n) db prefix full_key res = elim (same_text (db full_key) []) [
  | true ↦ some res
  | false ↦ do
    node ← read_node (db full_key)
    f ← get_elem? node.forward 0
    elim (leb (2 ^ 63) f) [
      | true ↦ some (res ++ db full_key ∷ [])
      | false ↦ scan_from n db prefix (node_key prefix f) (res ++ db full_key ∷ [])
    ]
]

pub scan : ℕ → Store → Text → List Text → Option (List Text)
unfolding scan_from
scan n db prefix res = scan_from n db prefix (head_key prefix) res
