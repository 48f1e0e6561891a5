-- ===== src/Merkle/Level.antt =====
-- One level of `update`: the loop that pairs the hashes, and the store.
use ledger_database.Prelude.{
  ℕ, zero, suc, ◌+◌, ◌/◌, ◌%◌, ◌≤◌, ◌<◌, ◌≡◌, refl, sym, ap, ap₂, ◌∙◌, List, [], ◌∷◌, Bool, ◌&&◌,
  length, get_or, ◌==◌, arith,
}
use ledger_database.Hash.{Blake2b, to_base32}
use ledger_database.Db.{Db, DbKey, mt, Suffix, plain, put, put_self, put_other}
use ledger_database.Merkle.{parent_of, pair_suffix, pair_up}
use ledger_database.Merkle.Spec.{suffix_of, suffix_of-inner, pairs}

-- The keys that a round above level `k` never writes.
abbrev pub Below : ℕ → DbKey → Type 0
Below k (mt l i s) = l ≤ k
Below k _ = Unit

module _ (blake : Blake2b) (c k seq size : ℕ) where
  -- The store after the first pair.
  abbrev first_pair : ℕ → List ℕ → List ℕ → Bool → Db → Db
  first_pair i x y complete db =
      put db (mt (k + 1) ((seq + i) / 2) (pair_suffix c size i complete))
        (to_base32 (parent_of blake x y))

  pub pair_up-hashes :
      (i : ℕ) (l : List (List ℕ)) (complete : Bool) (db : Db)
      → (pair_up blake c k seq size i l complete db).parent_hashes ≡ pairs blake l
  unfolding pair_up
  pair_up-hashes i [] complete db = refl
  pair_up-hashes i (h ∷ []) complete db = refl
  pair_up-hashes i (h ∷ h' ∷ rest) complete db =
      ap (λ r. parent_of blake h h' ∷ r)
        (pair_up-hashes (i + 2) rest complete (first_pair i h h' complete db))

  pub pair_up_complete :
      (i : ℕ) (l : List (List ℕ)) (complete : Bool) (db : Db)
      → (pair_up blake c k seq size i l complete db).complete ≡ (complete && (length l % 2 == 0))
  unfolding pair_up
  pair_up_complete i [] complete db = ground arith
  pair_up_complete i (h ∷ []) complete db = ground arith
  pair_up_complete i (h ∷ h' ∷ rest) complete db =
      pair_up_complete (i + 2) rest complete _ ∙ ground arith

  put_above :
      (db : Db) (j : ℕ) (s : Suffix) (v : List ℕ) (key : DbKey)
      → Below k key
      → put db (mt (k + 1) j s) v key ≡ db key
  put_above db j s v (mt l i t) b = put_other db (mt (k + 1) j s) (mt l i t) v (ground arith)
  put_above db j s v _ b = put_other db (mt (k + 1) j s) _ v refl

  -- A key outside the next level keeps its value, and so does a node before the first written.
  pub pair_up-Below :
      (i : ℕ) (l : List (List ℕ)) (complete : Bool) (db : Db) (key : DbKey)
      → Below k key
      → (pair_up blake c k seq size i l complete db).db key ≡ db key
  unfolding pair_up
  pair_up-Below i [] complete db key b = refl
  pair_up-Below i (h ∷ []) complete db key b = put_above db _ _ _ key b
  pair_up-Below i (h ∷ h' ∷ rest) complete db key b =
      pair_up-Below (i + 2) rest complete _ key b ∙ put_above db _ _ _ key b

  put_elsewhere :
      (db : Db) (j l m : ℕ) (s t : Suffix) (v : List ℕ)
      → (l ≡ k + 1 → m < j)
      → put db (mt (k + 1) j s) v (mt l m t) ≡ db (mt l m t)
  put_elsewhere db j l m s t v h = put_other db (mt (k + 1) j s) (mt l m t) v (ground arith)

  pub pair_up_elsewhere :
      (i : ℕ) (xs : List (List ℕ)) (complete : Bool) (db : Db) (l m : ℕ) (t : Suffix)
      → (l ≡ k + 1 → m < (seq + i) / 2)
      → (pair_up blake c k seq size i xs complete db).db (mt l m t) ≡ db (mt l m t)
  unfolding pair_up
  pair_up_elsewhere i [] complete db l m t h = refl
  pair_up_elsewhere i (x ∷ []) complete db l m t h = put_elsewhere db _ l m _ t _ h
  pair_up_elsewhere i (x ∷ y ∷ rest) complete db l m t h =
      pair_up_elsewhere (i + 2) rest complete _ l m t (λ e. omega (arith, h e))
      ∙ put_elsewhere db _ l m _ t _ h

  put_at :
      (db : Db) (j j' : ℕ) (s s' : Suffix) (v : List ℕ)
      → j' ≡ j
      → s' ≡ s
      → put db (mt (k + 1) j s) v (mt (k + 1) j' s') ≡ v
  put_at db j j' s s' v e f = cc (put_self db (mt (k + 1) j s) v)

  pair_suffix-inner :
      (i : ℕ) (complete : Bool) → i + 2 < size → pair_suffix c size i complete ≡ plain
  pair_suffix-inner i complete h = ground arith

  first_suffix :
      (i : ℕ) (rest : List (List ℕ)) (complete : Bool)
      → size ≡ i + suc (suc (length rest))
      → suffix_of c
          (complete && (suc (suc (length rest)) % 2 == 0))
          (suc (length (pairs blake rest)))
          0
        ≡ pair_suffix c size i complete
  first_suffix i [] complete e = ground arith
  first_suffix i (z ∷ []) complete e = ground arith
  first_suffix i (z ∷ w ∷ rest) complete e =
      suffix_of-inner c _ (suc (suc (length (pairs blake rest)))) 0 (omega arith)
      ∙ sym (pair_suffix-inner i complete (omega arith))

  later_suffix :
      (n m j : ℕ) (complete : Bool)
      → suffix_of c (complete && (suc (suc n) % 2 == 0)) (suc m) (suc j)
        ≡ suffix_of c (complete && (n % 2 == 0)) m j
  later_suffix n m j complete = ground arith

  -- Every parent is stored, the last one with the commit number unless it is full.
  pub pair_up_stored :
      (i : ℕ) (xs : List (List ℕ)) (complete : Bool) (db : Db) (j : ℕ)
      → size ≡ i + length xs
      → j < length (pairs blake xs)
      → (pair_up blake c k seq size i xs complete db).db (
          mt
            (k + 1)
            ((seq + i) / 2 + j)
            (suffix_of c (complete && (length xs % 2 == 0)) (length (pairs blake xs)) j))
        ≡ to_base32 (get_or (pairs blake xs) j [])
  unfolding pair_up
  pair_up_stored i [] complete db j e h = absurd (omega arith)
  pair_up_stored i (x ∷ []) complete db zero e h = put_at db _ _ _ _ _ (omega arith) (ground arith)
  pair_up_stored i (x ∷ []) complete db (suc j) e h = absurd (omega arith)
  pair_up_stored i (x ∷ y ∷ rest) complete db zero e h =
      pair_up_elsewhere (i + 2) rest complete (first_pair i x y complete db) (k + 1) _ _
        (λ _. omega arith)
      ∙ put_at db _ _ _ _ _ (omega arith) (first_suffix i rest complete e)
  pair_up_stored i (x ∷ y ∷ rest) complete db (suc j) e h =
      ap (pair_up blake c k seq size (i + 2) rest complete (first_pair i x y complete db)).db (
        ap₂ (λ m s. mt (k + 1) m s) (omega arith)
          (later_suffix (length rest) (length (pairs blake rest)) j complete))
      ∙ pair_up_stored (i + 2) rest complete (first_pair i x y complete db) j (omega arith)
          (omega arith)
