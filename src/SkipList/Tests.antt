-- ===== src/SkipList/Tests.antt =====
-- The theorems on the skip list at a node of two levels and at an empty store.
use ledger_database.Prelude.{◌≡◌, refl, [], ◌∷◌, some, arith}
use ledger_database.SkipList.{SkipNode, minus_one, make_node, node_text, read_node, Store}
use ledger_database.SkipList.Insert.{max_level}
use ledger_database.SkipList.Nodes.{read_node-node_text}
use ledger_database.SkipList.First.{twice, insert-stale}

abbrev version : SkipNode
version = record { key = 9; value = 65 ∷ 66 ∷ []; forward = 7 ∷ minus_one ∷ [] }

read_node-node_text_example : read_node (node_text version) ≡ some version
read_node-node_text_example = read_node-node_text version (record {
  key_fits = omega arith;
  value_clear = (refl, (refl, tt));
  pointers_fit = (omega arith, (omega arith, tt));
  some_pointer = omega arith;
})

abbrev empty_store : Store
empty_store key = []

insert-stale_example :
    twice 5 empty_store (107 ∷ []) 9 (65 ∷ []) (66 ∷ []) 1 2
    ≡ some (node_text (make_node 9 (65 ∷ []) max_level))
insert-stale_example =
    insert-stale 5 empty_store (107 ∷ []) 9 (65 ∷ []) (66 ∷ []) 1 2 refl (omega arith) (refl, tt)
