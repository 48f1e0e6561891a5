-- ===== src/Merkle/Old.antt =====
-- What a stored tree gives to the next `update`: the nodes that are full, which the tree over more
-- blocks has at the same places.
use ledger_database.Prelude.{
  ℕ, zero, suc, ◌+◌, ◌-◌, ◌/◌, ◌≤◌, ◌<◌, ◌≡◌, refl, sym, ap, ap₂, ◌∙◌, List, [], ◌++◌, Bool, true,
  length, get_or, if◌then◌else◌, arith, length-append, get_or-append_left,
}
use ledger_database.Hash.{Blake2b, to_base32}
use ledger_database.Db.{Db, mt, plain}
use ledger_database.Merkle.Spec.{
  suffix_of, next_full, double, double-eq, pairs, levels, LevelStored, length-pairs, Tree,
  Tree-bottom, get_or-pairs,
}
use ledger_database.Merkle.Rise.{halves, Kept}

-- How many nodes of a level are full.
abbrev full_nodes : Bool → ℕ → ℕ
full_nodes full n = if full then n else n - 1

pub halves-zero : (j : ℕ) → halves j 0 ≡ 0
halves-zero zero = refl
halves-zero (suc j) = halves-zero j

full_nodes-next :
    (full : Bool) (n m : ℕ)
    → 0 < n
    → m ≡ (n + 1) / 2
    → full_nodes (next_full full n) m ≡ full_nodes full n / 2
full_nodes-next full n m h e = ground arith

suffix_of-full :
    (c : ℕ) (full : Bool) (n i : ℕ) → i < full_nodes full n → suffix_of c full n i ≡ plain
suffix_of-full c full n i h = ground arith

full_nodes-le : (full : Bool) (n : ℕ) → full_nodes full n ≤ n
full_nodes-le full n = ground arith

module _ (blake : Blake2b) (db : Db) (c : ℕ) where
  level-Kept :
      (k : ℕ) (full : Bool) (xs : List (List ℕ)) (i : ℕ)
      → LevelStored db c k full xs
      → i < full_nodes full (length xs)
      → db (mt (k + 0) i plain) ≡ to_base32 (get_or xs i [])
  level-Kept k full xs i s h =
      ap₂ (λ l x. db (mt l i x)) (omega arith) (sym (suffix_of-full c full (length xs) i h))
      ∙ s i (omega (arith, full_nodes-le full (length xs)))

  Tree-Kept :
      (h k : ℕ) (full : Bool) (xs : List (List ℕ))
      → Tree blake db c k full xs h
      → Kept blake db k (full_nodes full (length xs)) xs
  Tree-Kept h k full xs t zero i lt =
      level-Kept k full xs i (Tree-bottom blake db c h k full xs t) lt
  Tree-Kept zero k full xs t (suc j) i lt =
      let none_left : full_nodes full (length xs) / 2 ≡ 0 =
        omega (arith, full_nodes-le full (length xs), t.0) in
      absurd (omega (arith, ap (halves j) none_left, halves-zero j))
  Tree-Kept (suc h) k full xs t (suc j) i lt =
      let next =
        full_nodes-next full (length xs) (length (pairs blake xs)) (omega (arith, t.0))
          (length-pairs blake xs) in
      ap (λ l. db (mt l i plain)) (omega arith)
      ∙ Tree-Kept h (k + 1) (next_full full (length xs)) (pairs blake xs) t.2 j i (rw next lt)

module _ (blake : Blake2b) where
  pairs-agree :
      (n : ℕ) (xs ys : List (List ℕ))
      → n ≤ length xs
      → n ≤ length ys
      → ((i : ℕ) → i < n → get_or xs i [] ≡ get_or ys i [])
      → (i : ℕ) → i < n / 2
      → get_or (pairs blake xs) i [] ≡ get_or (pairs blake ys) i []
  pairs-agree n xs ys hx hy same i lt = cc (
    get_or-pairs blake i xs (omega (arith, double-eq i)),
    get_or-pairs blake i ys (omega (arith, double-eq i)),
    same (double i) (omega (arith, double-eq i)),
    same (suc (double i)) (omega (arith, double-eq i)),
  )

  -- Lists that begin alike have levels that begin alike.
  pub levels-agree :
      (j n : ℕ) (xs ys : List (List ℕ))
      → n ≤ length xs
      → n ≤ length ys
      → ((i : ℕ) → i < n → get_or xs i [] ≡ get_or ys i [])
      → (i : ℕ) → i < halves j n
      → get_or (levels blake j xs) i [] ≡ get_or (levels blake j ys) i []
  levels-agree zero n xs ys hx hy same i lt = same i lt
  levels-agree (suc j) n xs ys hx hy same i lt =
      levels-agree j (n / 2) (pairs blake xs) (pairs blake ys)
        (omega (arith, length-pairs blake xs)) (omega (arith, length-pairs blake ys))
        (pairs-agree n xs ys hx hy same) i lt

  -- After more blocks the full nodes are still those of the tree.
  pub Tree-Kept-append :
      (db : Db) (c h : ℕ) (xs ys : List (List ℕ))
      → Tree blake db c 0 true xs h
      → Kept blake db 0 (length xs) (xs ++ ys)
  Tree-Kept-append db c h xs ys t j i lt =
      Tree-Kept blake db c h 0 true xs t j i lt
      ∙ ap to_base32 (
          levels-agree j (length xs) xs (xs ++ ys) (omega arith)
            (omega (arith, length-append xs ys)) (λ i lt. sym (get_or-append_left xs ys i [] lt)) i
            lt)
