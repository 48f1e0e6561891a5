-- ===== src/Merkle/Round.antt =====
-- One whole round of the loop of `update`: from a stored level to the next stored level.
use ledger_database.Prelude.{
  ℕ, zero, suc, ◌+◌, ◌-◌, ◌/◌, ◌%◌, ◌<◌, ◌≡◌, refl, sym, ap, ap₂, ◌∙◌, subst, List, [], Bool, ◌&&◌,
  length, get_or, drop, ◌==◌, arith, length-drop,
}
use native.Mathlib.Decide.{dec_lt}
use ledger_database.Hash.{Blake2b, to_base32}
use ledger_database.Db.{Db, DbKey, mt, plain}
use ledger_database.Merkle.{pair_up, round}
use ledger_database.Merkle.Spec.{
  suffix_of, suffix_of-inner, next_full, double, double-eq, pairs, LevelStored, length-pairs,
}
use ledger_database.Merkle.Level.{
  Below, pair_up-hashes, pair_up_complete, pair_up-Below, pair_up_elsewhere, pair_up_stored,
}
use ledger_database.Merkle.Rise.{halves, Kept, Rising, loaded, pairs-drop, get_or-drop}

-- A node counted from the first new one has the suffix that it has in the whole level.
shift_suffix :
    (c m : ℕ) (full full' : Bool) (n n' : ℕ) (j : ℕ)
    → full' ≡ full
    → n' + m ≡ n
    → suffix_of c full n (m + j) ≡ suffix_of c full' n' j
shift_suffix c m full full' n n' j e h = ground arith

module _ (blake : Blake2b) (c k m : ℕ) (full : Bool) (xs : List (List ℕ)) (db : Db) where
  abbrev new_part : List (List ℕ)
  new_part = drop (double m) xs

  abbrev made : Db
  made = (pair_up blake c k (double m) (length new_part) 0 new_part full db).db

  same_parity :
      double m < length xs → (full && (length new_part % 2 == 0)) ≡ next_full full (length xs)
  same_parity h = ground (arith, double-eq m, length-drop (double m) xs)

  length-new : double m < length xs → length (pairs blake new_part) + m ≡ length (pairs blake xs)
  length-new h = omega (
    arith,
    double-eq m,
    length-drop (double m) xs,
    length-pairs blake new_part,
    length-pairs blake xs,
  )

  -- A node that the tree before had in full keeps its key and its value.
  old_node :
      (n : ℕ)
      → m ≡ n / 2
      → Kept blake db k n xs
      → double m < length xs
      → (i : ℕ) → i < m
      → made (mt (k + 1) i (suffix_of c (next_full full (length xs)) (length (pairs blake xs)) i))
        ≡ to_base32 (get_or (pairs blake xs) i [])
  old_node n e kept h i lt =
      ap (λ x. made (mt (k + 1) i x))
        (suffix_of-inner c (next_full full (length xs)) (length (pairs blake xs)) i
          (omega (arith, double-eq m, length-pairs blake xs)))
      ∙ pair_up_elsewhere blake c k (double m) (length new_part) 0 new_part full db (k + 1) i plain
          (λ _. omega (arith, double-eq m))
      ∙ kept 1 i (omega arith)

  new_node :
      double m < length xs
      → (j : ℕ) → m + j < length (pairs blake xs)
      → made (
          mt
            (k + 1)
            (m + j)
            (suffix_of c (next_full full (length xs)) (length (pairs blake xs)) (m + j)))
        ≡ to_base32 (get_or (pairs blake xs) (m + j) [])
  new_node h j lt =
      ap₂ (λ i x. made (mt (k + 1) i x)) (omega (arith, double-eq m))
        (shift_suffix c m _ _ (length (pairs blake xs)) (length (pairs blake new_part)) j
          (same_parity h) (length-new h))
      ∙ pair_up_stored blake c k (double m) (length new_part) 0 new_part full db j (omega arith)
          (omega (arith, length-new h))
      ∙ ap to_base32
          (ap (λ ys. get_or ys j []) (pairs-drop blake m xs) ∙ get_or-drop m j (pairs blake xs))

  next_stored :
      (n : ℕ)
      → m ≡ n / 2
      → Kept blake db k n xs
      → double m < length xs
      → LevelStored made c (k + 1) (next_full full (length xs)) (pairs blake xs)
  next_stored n e kept h i lt = elim (dec_lt i m) [
    | yes old ↦ old_node n e kept h i old
    | no new ↦
        let place : m + (i - m) ≡ i = omega arith in
        subst
          (λ j.
            made
              (mt (k + 1) j (suffix_of c (next_full full (length xs)) (length (pairs blake xs)) j))
            ≡ to_base32 (get_or (pairs blake xs) j []))
          place (new_node h (i - m) (omega arith))
  ]

  -- What was there in full above this level stays there.
  next-Kept :
      (n : ℕ) → m ≡ n / 2 → Kept blake db k n xs → Kept blake made (k + 1) m (pairs blake xs)
  next-Kept n e kept j i lt =
      pair_up_elsewhere blake c k (double m) (length new_part) 0 new_part full db (k + 1 + j) i
        plain (first_level j i lt)
      ∙ ap (λ l. db (mt l i plain)) (omega arith)
      ∙ kept (suc j) i (rw (← e) lt)
    where
      first_level : (j i : ℕ) → i < halves j m → k + 1 + j ≡ k + 1 → i < (double m + 0) / 2
      first_level zero i lt e = omega (arith, double-eq m)
      first_level (suc j) i lt e = absurd (omega arith)

  -- The whole round keeps what `Rising` says, one level higher.
  pub round-Rising :
      (n : ℕ)
      → m ≡ n / 2
      → Kept blake db k n xs
      → double m < length xs
      → Rising blake c
          (k + 1)
          (next_full full (length xs))
          (pairs blake xs)
          (round blake c (loaded blake c k full xs m db))
  unfolding round
  round-Rising n e kept h =
      let start : double m / 2 ≡ m = omega (arith, double-eq m) in
      record {
        level = refl;
        hashes =
            pair_up-hashes blake c k (double m) (length new_part) 0 new_part full db
            ∙ pairs-drop blake m xs
            ∙ ap (λ i. drop i (pairs blake xs)) (sym start);
        new = omega (arith, double-eq m, length-pairs blake xs);
        complete =
            pair_up_complete blake c k (double m) (length new_part) 0 new_part full db
            ∙ same_parity h;
        stored = next_stored n e kept h;
        kept = rw start (next-Kept n e kept);
        previous = λ p. cc;
      }

  -- The round writes only above its level.
  pub round-Below :
      (key : DbKey) → Below k key → (round blake c (loaded blake c k full xs m db)).db key ≡ db key
  unfolding round
  round-Below key b = pair_up-Below blake c k (double m) (length new_part) 0 new_part full db key b
