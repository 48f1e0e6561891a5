-- ===== src/Merkle/Spec.antt =====
-- The Merkle tree as mathematics: the levels over a list of block hashes, and what it means that
-- a store holds a tree (every node of every level, the last node of a level under a key with the
-- commit number unless the leaves below it fill it).
use ledger_database.Prelude.{
  true, ℕ, zero, suc, ◌+◌, ◌*◌, ◌/◌, ◌%◌, ◌<◌, ◌≡◌, refl, List, [], ◌∷◌, some, Bool, not, ◌&&◌,
  ◌||◌, length, get_or, ◌==◌, if◌then◌else◌, arith,
}
use ledger_database.Hash.{Blake2b, IsHash, to_base32, compute_from-IsHash}
use ledger_database.Db.{Db, mt, Suffix, plain, after}
use ledger_database.Merkle.{parent_of, parent_of_one}

abbrev pub AllHash : List (List ℕ) → Type 0
AllHash [] = Unit
AllHash (x ∷ xs) = IsHash x × AllHash xs

-- The key's end for node `i` of a level of `n` nodes.
abbrev pub suffix_of : ℕ → Bool → ℕ → ℕ → Suffix
suffix_of c full n i = if full || not (i + 1 == n) then plain else after (some c)

pub suffix_of-inner : (c : ℕ) (full : Bool) (n i : ℕ) → i + 1 < n → suffix_of c full n i ≡ plain
suffix_of-inner c full n i h = ground arith

-- Whether the last node of the next level is full.
abbrev pub next_full : Bool → ℕ → Bool
next_full full n = full && (n % 2 == 0)

abbrev pub full_top : ℕ → Bool → ℕ → Bool
full_top zero full n = full
full_top (suc h) full n = full_top h (next_full full n) ((n + 1) / 2)

abbrev pub LevelStored : Db → ℕ → ℕ → Bool → List (List ℕ) → Type 0
LevelStored db c k full xs =
    (i : ℕ)
    → i < length xs
    → db (mt k i (suffix_of c full (length xs) i)) ≡ to_base32 (get_or xs i [])

abbrev pub double : ℕ → ℕ
double zero = zero
double (suc n) = suc (suc (double n))

pub double-eq : (n : ℕ) → double n ≡ 2 * n
double-eq zero = refl
double-eq (suc n) = omega (arith, double-eq n)

module _ (blake : Blake2b) where
  abbrev pub pairs : List (List ℕ) → List (List ℕ)
  pairs [] = []
  pairs (x ∷ []) = parent_of_one blake x ∷ []
  pairs (x ∷ y ∷ r) = parent_of blake x y ∷ pairs r

  abbrev pub levels : ℕ → List (List ℕ) → List (List ℕ)
  levels zero xs = xs
  levels (suc j) xs = levels j (pairs xs)

  -- The store holds the tree of height `h` over the level `xs`, which is level `k`.
  abbrev pub Tree : Db → ℕ → ℕ → Bool → List (List ℕ) → ℕ → Type 0
  Tree db c k full xs zero = (length xs ≡ 1) × LevelStored db c k full xs
  Tree db c k full xs (suc h) =
      (1 < length xs)
      × LevelStored db c k full xs
      × Tree db c (k + 1) (next_full full (length xs)) (pairs xs) h

  abbrev pub root : ℕ → List (List ℕ) → List ℕ
  root h xs = get_or (levels h xs) 0 []

  pub length-pairs : (xs : List (List ℕ)) → length (pairs xs) ≡ (length xs + 1) / 2
  length-pairs [] = omega arith
  length-pairs (x ∷ []) = omega arith
  length-pairs (x ∷ y ∷ r) = omega (arith, length-pairs r)

  pub AllHash-pairs : (xs : List (List ℕ)) → AllHash xs → AllHash (pairs xs)
  AllHash-pairs [] a = tt
  AllHash-pairs (x ∷ []) a = (compute_from-IsHash blake _, tt)
  AllHash-pairs (x ∷ y ∷ r) a = (compute_from-IsHash blake _, AllHash-pairs r a.1.1)

  pub get_or-pairs :
      (m : ℕ) (xs : List (List ℕ))
      → suc (double m) < length xs
      → get_or (pairs xs) m []
        ≡ parent_of blake (get_or xs (double m) []) (get_or xs (suc (double m)) [])
  get_or-pairs m [] h = absurd (omega arith)
  get_or-pairs m (x ∷ []) h = absurd (omega arith)
  get_or-pairs zero (x ∷ y ∷ r) h = refl
  get_or-pairs (suc m) (x ∷ y ∷ r) h = get_or-pairs m r (omega arith)

  pub get_or-pairs_last :
      (m : ℕ) (xs : List (List ℕ))
      → suc (double m) ≡ length xs
      → get_or (pairs xs) m [] ≡ parent_of_one blake (get_or xs (double m) [])
  get_or-pairs_last m [] h = absurd (omega arith)
  get_or-pairs_last zero (x ∷ []) h = refl
  get_or-pairs_last (suc m) (x ∷ []) h = absurd (omega arith)
  get_or-pairs_last zero (x ∷ y ∷ r) h = absurd (omega arith)
  get_or-pairs_last (suc m) (x ∷ y ∷ r) h = get_or-pairs_last m r (omega arith)

pub get_or-IsHash :
    (xs : List (List ℕ)) (i : ℕ) → AllHash xs → i < length xs → IsHash (get_or xs i [])
get_or-IsHash [] i a h = absurd (omega arith)
get_or-IsHash (x ∷ xs) zero a h = a.0
get_or-IsHash (x ∷ xs) (suc i) a h = get_or-IsHash xs i a.1 (omega arith)

-- The suffix of the root's key.
abbrev pub root_suffix : ℕ → ℕ → List (List ℕ) → Suffix
root_suffix c h xs = if full_top h true (length xs) then plain else after (some c)

module _ (blake : Blake2b) (db : Db) (c : ℕ) where
  pub Tree-bottom :
      (h k : ℕ) (full : Bool) (xs : List (List ℕ))
      → Tree blake db c k full xs h
      → LevelStored db c k full xs
  Tree-bottom zero k full xs t = t.1
  Tree-bottom (suc h) k full xs t = t.1

  -- The root stands in the last level `l`, under a key that tells whether it is full.
  pub Tree-top :
      (h k l : ℕ) (full : Bool) (xs : List (List ℕ))
      → l ≡ k + h
      → Tree blake db c k full xs h
      → db (mt l 0 (if full_top h full (length xs) then plain else after (some c)))
        ≡ to_base32 (root blake h xs)
  Tree-top zero k l full xs e t = let e' : l ≡ k = omega arith in rw e' (ground (arith, t.1 0))
  Tree-top (suc h) k l full xs e t =
      rw (← length-pairs blake xs)
        (Tree-top h (k + 1) l (next_full full (length xs)) (pairs blake xs) (omega arith) t.2)

  pub AllHash-root :
      (h k : ℕ) (full : Bool) (xs : List (List ℕ))
      → Tree blake db c k full xs h
      → AllHash xs
      → IsHash (root blake h xs)
  AllHash-root zero k full xs t a = get_or-IsHash xs 0 a (omega (arith, t.0))
  AllHash-root (suc h) k full xs t a =
      AllHash-root h (k + 1) (next_full full (length xs)) (pairs blake xs) t.2
        (AllHash-pairs blake xs a)
