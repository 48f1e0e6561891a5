-- ===== src/Merkle/Grow.antt =====
-- `MerkleTree::update` as a whole.
use ledger_database.Prelude.{
  ◌>>=◌, ℕ, zero, suc, ◌+◌, ◌-◌, ◌<◌, ◌≡◌, refl, sym, ap, ap₂, ◌∙◌, subst, List, [], ◌∷◌, ◌++◌, map,
  Option, none, some, true, length, get_or, if◌then◌else◌, arith, length-append, length-map,
  get_or-append_right, drop-append,
}
use native.Mathlib.Nat.{zero-add}
use native.Mathlib.Decide.{dec_lt}
use ledger_database.Hash.{Blake2b, to_base32, from_base32}
use ledger_database.Hash.Base32.{from_base32-to_base32}
use ledger_database.Db.{Db, mt, plain, after, put, put_self, put_other}
use ledger_database.Merkle.{Climb, Updated, put_leaves, update, finish, next_commit, closes_pair}
use ledger_database.Merkle.Spec.{AllHash, Tree, root, root_suffix, LevelStored}
use ledger_database.Merkle.Rise.{halves, Kept, Rising}
use ledger_database.Merkle.Loop.{climb-Risen}
use ledger_database.Merkle.Old.{halves-zero, Tree-Kept-append}

-- The store after the commits up to `last`: nothing yet, or the tree over the blocks `xs`.
abbrev pub Holds : Blake2b → Db → Option ℕ → List (List ℕ) → Type 0
Holds blake db none xs = xs ≡ []
Holds blake db (some c) xs = (h : ℕ) × Tree blake db c 0 true xs h

put_leaves_other :
    (hs : List (List ℕ)) (db : Db) (seq l i : ℕ)
    → (l ≡ 0 → i < seq)
    → put_leaves db seq hs (mt l i plain) ≡ db (mt l i plain)
unfolding put_leaves
put_leaves_other [] db seq l i h = refl
put_leaves_other (x ∷ hs) db seq l i h =
    put_leaves_other hs (put db (mt 0 seq plain) x) (seq + 1) l i (λ e. omega (arith, h e))
    ∙ put_other db (mt 0 seq plain) (mt l i plain) x (ground (arith, h))

put_leaves_at :
    (hs : List (List ℕ)) (db : Db) (seq i : ℕ)
    → i < length hs
    → put_leaves db seq hs (mt 0 (seq + i) plain) ≡ get_or hs i []
unfolding put_leaves
put_leaves_at [] db seq i h = elim h [ ]
put_leaves_at (x ∷ hs) db seq zero h =
    put_leaves_other hs (put db (mt 0 seq plain) x) (seq + 1) 0 (seq + 0) (λ _. omega arith)
    ∙ ap (λ i. put db (mt 0 seq plain) x (mt 0 i plain)) (omega arith)
    ∙ put_self db (mt 0 seq plain) x
put_leaves_at (x ∷ hs) db seq (suc i) h =
    ap (λ j. put_leaves (put db (mt 0 seq plain) x) (seq + 1) hs (mt 0 j plain)) (omega arith)
    ∙ put_leaves_at hs (put db (mt 0 seq plain) x) (seq + 1) i (omega arith)

texts-hashes : (ys : List (List ℕ)) → AllHash ys → map from_base32 (map to_base32 ys) ≡ ys
texts-hashes [] a = refl
texts-hashes (y ∷ ys) a = ap₂ ◌∷◌ (from_base32-to_base32 y a.0) (texts-hashes ys a.1)

get_or-texts :
    (ys : List (List ℕ)) (i : ℕ)
    → i < length ys
    → get_or (map to_base32 ys) i [] ≡ to_base32 (get_or ys i [])
get_or-texts [] i h = elim h [ ]
get_or-texts (y ∷ ys) zero h = refl
get_or-texts (y ∷ ys) (suc i) h = get_or-texts ys i (omega arith)

pub AllHash-append : (xs ys : List (List ℕ)) → AllHash xs → AllHash ys → AllHash (xs ++ ys)
AllHash-append [] ys p q = q
AllHash-append (x ∷ xs) ys p q = (p.0, AllHash-append xs ys p.1 q)

module _ (blake : Blake2b) (db : Db) (xs ys : List (List ℕ))
    (kept : Kept blake db 0 (length xs) (xs ++ ys)) where
  abbrev leaves_put : Db
  leaves_put = put_leaves db (length xs) (map to_base32 ys)

  start_new :
      (j : ℕ)
      → j < length ys
      → leaves_put (mt 0 (length xs + j) plain) ≡ to_base32 (get_or (xs ++ ys) (length xs + j) [])
  start_new j h =
      put_leaves_at (map to_base32 ys) db (length xs) j (omega (arith, length-map to_base32 ys))
      ∙ get_or-texts ys j h
      ∙ ap to_base32 (sym (get_or-append_right xs ys j []))

  start_stored : (c : ℕ) → LevelStored leaves_put c 0 true (xs ++ ys)
  start_stored c i h = elim (dec_lt i (length xs)) [
    | yes old ↦ put_leaves_other (map to_base32 ys) db (length xs) 0 i (λ _. old) ∙ kept 0 i old
    | no new ↦
        let place : length xs + (i - length xs) ≡ i = omega arith in
        subst (λ j. leaves_put (mt 0 j plain) ≡ to_base32 (get_or (xs ++ ys) j [])) place
          (start_new (i - length xs) (omega (arith, length-append xs ys)))
  ]

  start-Kept : Kept blake leaves_put 0 (length xs) (xs ++ ys)
  start-Kept zero i lt =
      put_leaves_other (map to_base32 ys) db (length xs) 0 i (λ _. lt) ∙ kept 0 i lt
  start-Kept (suc j) i lt =
      put_leaves_other (map to_base32 ys) db (length xs) (0 + suc j) i (λ e. absurd (omega arith))
      ∙ kept (suc j) i lt

  -- The state in which the loop of `update` starts.
  abbrev start : Climb
  start = record {
    level = 0;
    level_starting_seq = length xs;
    prev_complete = closes_pair (length xs);
    complete = true;
    level_hashes = map from_base32 (map to_base32 ys);
    db = leaves_put;
  }

  start-Rising : (c : ℕ) → AllHash ys → 0 < length ys → Rising blake c 0 true (xs ++ ys) start
  start-Rising c a some_new = record {
    level = refl;
    hashes = texts-hashes ys a ∙ sym (drop-append xs ys);
    new = omega (arith, length-append xs ys);
    complete = refl;
    stored = start_stored c;
    kept = start-Kept;
    previous = λ e. ground arith;
  }

Holds-Kept :
    (blake : Blake2b) (db : Db) (prev : Option ℕ) (xs ys : List (List ℕ))
    → Holds blake db prev xs
    → Kept blake db 0 (length xs) (xs ++ ys)
Holds-Kept blake db none xs ys e =
    λ j i lt. absurd (omega (arith, halves-zero j, ap (λ l. halves j (length l)) e))
Holds-Kept blake db (some c) xs ys (h, t) = Tree-Kept-append blake db c h xs ys t

-- What `update` leaves: the tree over all blocks, and its root.
pub record Grown (blake : Blake2b) (c : ℕ) (zs : List (List ℕ)) (out : Option Updated)
    : Type 0 where
  pub result : Updated
  pub height : ℕ
  pub returns : out ≡ some result
  pub tree : Tree blake result.store c 0 true zs height
  pub key : result.root_key ≡ record { level = height; suffix = root_suffix c height zs }
  pub hash : result.root_hash ≡ to_base32 (root blake height zs)

-- If the store holds the tree over the blocks `xs`, then `update` with the texts of further block
-- hashes `ys`, at least one, terminates. The store it leaves holds the tree over `xs ++ ys` under
-- the next commit number, and the root key and the root hash that it returns are those of that
-- tree.
pub update-Grown :
    (blake : Blake2b) (db : Db) (prev : Option ℕ) (xs ys : List (List ℕ))
    → Holds blake db prev xs
    → AllHash xs
    → AllHash ys
    → 0 < length ys
    → Grown blake
        (next_commit prev)
        (xs ++ ys)
        (update blake db (length xs) (map to_base32 ys) prev)
unfolding update finish
update-Grown blake db prev xs ys held old new some_new =
    let c = next_commit prev in
    let kept = Holds-Kept blake db prev xs ys held in
    let done =
      climb-Risen blake prev c (length xs + length (map to_base32 ys) + 1) 0 true (xs ++ ys)
        (start blake db xs ys kept) (omega (arith, length-append xs ys, length-map to_base32 ys))
        (AllHash-append xs ys old new) (start-Rising blake db xs ys kept c new some_new) in
    record {
      result = record {
        store = done.top.db;
        root_key = record {
          level = done.top.level;
          suffix = if done.top.complete then plain else after (some c);
        };
        root_hash = to_base32 (root blake done.height (xs ++ ys));
      };
      height = done.height;
      returns = ap (λ o. o >>= finish c) done.ends ∙ rw done.hash refl;
      tree = done.tree;
      key = λ i. record {
        level = (done.level ∙ zero-add done.height) i;
        suffix = if done.complete i then plain else after (some c);
      };
      hash = refl;
    }
