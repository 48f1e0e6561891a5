-- ===== src/Merkle/Rise.antt =====
-- The state of the `while` loop of `update` between two rounds.
use ledger_database.Prelude.{
  ℕ, zero, suc, ◌+◌, ◌-◌, ◌/◌, ◌%◌, ◌<◌, ◌≡◌, refl, sym, ap, ap₂, ◌∙◌, inl, inr, List, [], ◌∷◌,
  Option, Bool, true, false, not, ◌&&◌, length, get_or, drop, ◌==◌, ltb, if◌then◌else◌, arith,
  Bool-cases,
}
use ledger_database.Hash.{Blake2b, from_base32, to_base32}
use ledger_database.Hash.Base32.{from_base32-to_base32}
use ledger_database.Db.{Db, mt, plain, after}
use ledger_database.Merkle.{Climb, load_left, load_previous}
use ledger_database.Merkle.Spec.{
  AllHash, suffix_of-inner, LevelStored, double, double-eq, pairs, levels, get_or-IsHash,
}

-- `n` halved `j` times.
abbrev pub halves : ℕ → ℕ → ℕ
halves zero n = n
halves (suc j) n = halves j (n / 2)

drop-cons :
    (n : ℕ) (xs : List (List ℕ)) → n < length xs → drop n xs ≡ get_or xs n [] ∷ drop (suc n) xs
drop-cons n [] h = absurd (omega arith)
drop-cons zero (x ∷ xs) h = refl
drop-cons (suc n) (x ∷ xs) h = drop-cons n xs (omega arith)

suc_plus : (n j : ℕ) → suc (n + j) ≡ suc n + j
suc_plus n j = omega arith

pub get_or-drop : (n j : ℕ) (xs : List (List ℕ)) → get_or (drop n xs) j [] ≡ get_or xs (n + j) []
get_or-drop zero j xs = ap (λ i. get_or xs i []) (omega arith)
get_or-drop (suc n) j [] = refl
get_or-drop (suc n) j (x ∷ xs) = get_or-drop n j xs ∙ ap (λ i. get_or (x ∷ xs) i []) (suc_plus n j)

-- The nodes of the levels from `k` up that the tree before already had in full.
abbrev pub Kept : Blake2b → Db → ℕ → ℕ → List (List ℕ) → Type 0
Kept blake db k n xs =
    (j i : ℕ)
    → i < halves j n
    → db (mt (k + j) i plain) ≡ to_base32 (get_or (levels blake j xs) i [])

module _ (blake : Blake2b) where
  pub pairs-drop :
      (m : ℕ) (ys : List (List ℕ)) → pairs blake (drop (double m) ys) ≡ drop m (pairs blake ys)
  pairs-drop zero ys = refl
  pairs-drop (suc m) [] = refl
  pairs-drop (suc zero) (y ∷ []) = refl
  pairs-drop (suc (suc m)) (y ∷ []) = refl
  pairs-drop (suc m) (y ∷ z ∷ ys) = pairs-drop m ys

module _ (blake : Blake2b) (c k : ℕ) (full : Bool) (xs : List (List ℕ)) where
  -- What holds before a round at level `k`, whose nodes in the new tree are `xs`.
  pub record Rising (s : Climb) : Type 0 where
    pub level : s.level ≡ k
    pub hashes : s.level_hashes ≡ drop s.level_starting_seq xs
    pub new : s.level_starting_seq < length xs
    pub complete : s.complete ≡ full
    pub stored : LevelStored s.db c k full xs
    pub kept : Kept blake s.db k s.level_starting_seq xs
    pub previous : s.prev_complete ≡ false → (k ≡ 0) × (s.level_starting_seq % 2 ≡ 1)

  -- After the load the first hash is at an even place.
  record Loaded (s t : Climb) : Type 0 where
    level : t.level ≡ k
    start : t.level_starting_seq ≡ double (s.level_starting_seq / 2)
    hashes : t.level_hashes ≡ drop (double (s.level_starting_seq / 2)) xs
    complete : t.complete ≡ full
    db : t.db ≡ s.db
    previous : t.prev_complete ≡ true

  module _ (s : Climb) (a : AllHash xs) (r : Rising s) where
    Rising-double :
        s.level_starting_seq % 2 ≡ 0 → s.level_starting_seq ≡ double (s.level_starting_seq / 2)
    Rising-double e = omega (arith, double-eq (s.level_starting_seq / 2))

    -- The node to the left is a full one of the tree before, and its key has no commit number.
    left_node :
        (prev : Option ℕ)
        → s.level_starting_seq % 2 ≡ 1
        → s.db (
            mt s.level
              (s.level_starting_seq - 1)
              (if ltb 0 s.level && not s.prev_complete then after prev else plain))
          ≡ to_base32 (get_or xs (s.level_starting_seq - 1) [])
    left_node prev odd =
        let test : (ltb 0 s.level && not s.prev_complete) ≡ false =
          ground (arith, r.level, r.previous) in
        let inner =
          suffix_of-inner c full (length xs) (s.level_starting_seq - 1) (omega (arith, r.new)) in
        rw test (
          ap (λ l. s.db (mt l (s.level_starting_seq - 1) plain)) r.level
          ∙ ap (λ x. s.db (mt k (s.level_starting_seq - 1) x)) (sym inner)
          ∙ r.stored (s.level_starting_seq - 1) (omega (arith, r.new)))

    load_left-Loaded :
        (prev : Option ℕ) → s.level_starting_seq % 2 ≡ 1 → Loaded s (load_left prev s)
    unfolding load_left
    load_left-Loaded prev odd =
        let start : s.level_starting_seq - 1 ≡ double (s.level_starting_seq / 2) =
          omega (arith, double-eq (s.level_starting_seq / 2)) in
        let next : suc (s.level_starting_seq - 1) ≡ s.level_starting_seq = omega arith in
        record {
          level = r.level;
          start = start;
          hashes =
              ap₂ ◌∷◌
                (ap from_base32 (left_node prev odd)
                  ∙ from_base32-to_base32 _
                      (get_or-IsHash xs (s.level_starting_seq - 1) a (omega (arith, r.new))))
                (r.hashes ∙ ap (λ n. drop n xs) (sym next))
              ∙ sym (drop-cons (s.level_starting_seq - 1) xs (omega (arith, r.new)))
              ∙ ap (λ n. drop n xs) start;
          complete = r.complete;
          db = refl;
          previous = ground arith;
        }

    stay-Loaded : s.level_starting_seq % 2 ≡ 0 → Loaded s s
    stay-Loaded even = record {
      level = r.level;
      start = Rising-double even;
      hashes = r.hashes ∙ ap (λ n. drop n xs) (Rising-double even);
      complete = r.complete;
      db = refl;
      previous = ground (arith, r.previous);
    }

    load_previous-Loaded : (prev : Option ℕ) → Loaded s (load_previous prev s)
    unfolding load_previous
    load_previous-Loaded prev = elim (Bool-cases (s.level_starting_seq % 2 == 1)) [
      | inl odd ↦ rw odd (load_left-Loaded prev (ground arith))
      | inr even ↦ rw even (stay-Loaded (ground arith))
    ]

  -- The state of the loop once the hash to the left is there.
  abbrev pub loaded : ℕ → Db → Climb
  loaded m db = record {
    level = k;
    level_starting_seq = double m;
    prev_complete = true;
    complete = full;
    level_hashes = drop (double m) xs;
    db = db;
  }

  pub load_previous-loaded :
      (prev : Option ℕ) (s : Climb)
      → AllHash xs
      → Rising s
      → load_previous prev s ≡ loaded (s.level_starting_seq / 2) s.db
  load_previous-loaded prev s a r =
      let l = load_previous-Loaded s a r prev in
      λ i. record {
        level = l.level i;
        level_starting_seq = l.start i;
        prev_complete = l.previous i;
        complete = l.complete i;
        level_hashes = l.hashes i;
        db = l.db i;
      }
