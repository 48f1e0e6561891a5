-- ===== src/Merkle/Batches.antt =====
-- `MerkleTree::update` called batch by batch.
use mathlib.Core.Path.{subst₂}
use mathlib.Core.List.{append_assoc}
use ledger_database.Prelude.{
  ℕ, zero, suc, ◌+◌, ◌<◌, ◌≡◌, refl, sym, ap, ap₂, ◌∙◌, List, [], ◌∷◌, ◌++◌, map, Option, none,
  some, Bool, true, length, arith, length-append, subst, ◌>>=◌,
}
use ledger_database.Hash.{Blake2b, to_base32}
use ledger_database.Db.{Db}
use ledger_database.Merkle.{Updated, update, next_commit}
use ledger_database.Merkle.Spec.{AllHash, Tree, next_full, pairs, root}
use ledger_database.Merkle.Grow.{Holds, Grown, update-Grown, AllHash-append}

-- The updates for a first batch and those after it, one commit each; the last one's result.
pub update_all : Blake2b → Db → Option ℕ → ℕ → List (List ℕ) → List (List (List ℕ)) → Option Updated
update_all blake db prev seq batch [] = update blake db seq (map to_base32 batch) prev
update_all blake db prev seq batch (next ∷ rest) = do
  u ← update blake db seq (map to_base32 batch) prev
  update_all blake u.store (some (next_commit prev)) (seq + length batch) next rest

abbrev joined : List (List ℕ) → List (List (List ℕ)) → List (List ℕ)
joined batch [] = batch
joined batch (next ∷ rest) = batch ++ joined next rest

-- Every batch has at least one block, and hashes only.
abbrev AllBatches : List (List ℕ) → List (List (List ℕ)) → Type 0
AllBatches batch [] = (0 < length batch) × AllHash batch
AllBatches batch (next ∷ rest) = (0 < length batch) × AllHash batch × AllBatches next rest

-- A list has one height.
height_unique :
    (blake : Blake2b) (db db' : Db) (c c' k : ℕ) (full : Bool) (xs : List (List ℕ)) (h h' : ℕ)
    → Tree blake db c k full xs h
    → Tree blake db' c' k full xs h'
    → h ≡ h'
height_unique blake db db' c c' k full xs zero zero t t' = refl
height_unique blake db db' c c' k full xs zero (suc h') t t' = absurd (omega (arith, t.0, t'.0))
height_unique blake db db' c c' k full xs (suc h) zero t t' = absurd (omega (arith, t.0, t'.0))
height_unique blake db db' c c' k full xs (suc h) (suc h') t t' = ap suc (
    height_unique blake db db' c c' (k + 1) (next_full full (length xs)) (pairs blake xs) h h' t.2
      t'.2)

update_all-Grown :
    (blake : Blake2b) (batch : List (List ℕ)) (rest : List (List (List ℕ))) (db : Db)
    (prev : Option ℕ) (xs : List (List ℕ))
    → Holds blake db prev xs
    → AllHash xs
    → AllBatches batch rest
    → (c : ℕ) × Grown blake c
        (xs ++ joined batch rest)
        (update_all blake db prev (length xs) batch rest)
unfolding update_all
update_all-Grown blake batch [] db prev xs held old b =
    (next_commit prev, update-Grown blake db prev xs batch held old b.1 b.0)
update_all-Grown blake batch (next ∷ rest) db prev xs held old b =
    let g = update-Grown blake db prev xs batch held old b.1 b.0 in
    let c = some (next_commit prev) in
    let later =
      update_all-Grown blake next rest g.result.store c (xs ++ batch) (g.height, g.tree)
        (AllHash-append xs batch old b.1) b.2 in
    (
      later.0,
      subst₂ (Grown blake later.0) (append_assoc xs batch (joined next rest))
          (ap (λ n. update_all blake g.result.store c n next rest) (length-append xs batch)
            ∙ sym (
                ap
                  (λ (o : Option Updated).
                    o >>= λ u. update_all blake u.store c (length xs + length batch) next rest)
                  g.returns))
          later.1,
    )

-- From an empty ledger, two ways to cut the same blocks into batches, none of them empty, both
-- succeed and end with the same root hash.
pub batches-root :
    (blake : Blake2b) (db : Db) (b b' : List (List ℕ)) (bs bs' : List (List (List ℕ)))
    → AllBatches b bs
    → AllBatches b' bs'
    → joined b bs ≡ joined b' bs'
    → (u u' : Updated) × (update_all blake db none 0 b bs ≡ some u)
      × (update_all blake db none 0 b' bs' ≡ some u')
      × (u.root_hash ≡ u'.root_hash)
batches-root blake db b b' bs bs' h h' e =
    let (c, g) = update_all-Grown blake b bs db none [] refl tt h in
    let (c', g') = update_all-Grown blake b' bs' db none [] refl tt h' in
    let tree' = subst (λ zs. Tree blake g'.result.store c' 0 true zs g'.height) (sym e) g'.tree in
    let same =
      height_unique blake g.result.store g'.result.store c c' 0 true (joined b bs) g.height
        g'.height g.tree tree' in
    (
      g.result,
      g'.result,
      g.returns,
      g'.returns,
      g.hash ∙ ap to_base32 (ap₂ (root blake) same e) ∙ sym g'.hash,
    )
