-- ===== src/Merkle.antt =====
-- ledger/ledgerdb/merkletree.cc: the batched append-only Merkle tree (bAMT) over the block
-- hashes, kept node by node in the store, its proofs and their verification.
pub mod Spec
pub mod Verify
pub mod Level
pub mod Rise
pub mod Round
pub mod Loop
pub mod Old
pub mod Grow
pub mod Honest
pub mod Bind
pub mod Batches
mod Tests
use ledger_database.Prelude.{
  get_elem?, ◌>>=◌, ℕ, zero, suc, ◌+◌, ◌-◌, ◌/◌, ◌%◌, ◌^◌, List, [], ◌∷◌, ◌++◌, map, Option, none,
  some, Bool, true, false, not, ◌&&◌, ◌||◌, length, get_or, ltb, ◌==◌, if◌then◌else◌,
}
use mathlib.Core.Option
use ledger_database.Hash.{Blake2b, compute_from, from_base32, to_base32}
use ledger_database.Db.{Db, DbKey, mt, Suffix, plain, after, put}

-- The variables of the loop of `update`.
pub record Climb : Type 0 where
  pub level : ℕ
  pub level_starting_seq : ℕ
  pub prev_complete : Bool
  pub complete : Bool
  pub level_hashes : List (List ℕ)
  pub db : Db

-- Whether the node before `seq` closes a pair, as `prev_complete` is set.
abbrev pub closes_pair : ℕ → Bool
closes_pair seq = if ltb 1 seq then (seq - 1) % 2 == 1 else true

-- "load previous hash when needed": the node to the left, if the level starts at an odd place.
pub load_left : Option ℕ → Climb → Climb
load_left prev_commit_seq s =
    let suffix = if ltb 0 s.level && not s.prev_complete then after prev_commit_seq else plain in
    record s {
      level_hashes =
          from_base32 (s.db (mt s.level (s.level_starting_seq - 1) suffix)) ∷ s.level_hashes;
      level_starting_seq = s.level_starting_seq - 1;
      prev_complete = closes_pair (s.level_starting_seq - 1);
    }

pub load_previous : Option ℕ → Climb → Climb
load_previous prev_commit_seq s =
    if s.level_starting_seq % 2 == 1 then load_left prev_commit_seq s else s

pub record Paired : Type 0 where
  pub parent_hashes : List (List ℕ)
  pub complete : Bool
  pub db : Db

unfoldable pub put_leaves : Db → ℕ → List (List ℕ) → Db
put_leaves db seq [] = db
put_leaves db seq (h ∷ hs) = put_leaves (put db (mt 0 seq plain) h) (seq + 1) hs

abbrev pub next_commit : Option ℕ → ℕ
next_commit none = 0
next_commit (some c) = (c + 1) % 2 ^ 64

-- "mt" level "-0", with the commit number where the tree is not complete.
pub record RootKey : Type 0 where
  pub level : ℕ
  pub suffix : Suffix

pub record Proof : Type 0 where
  pub digest : List ℕ
  pub value : List ℕ
  pub proof : List (List ℕ)
  pub pos : List ℕ

-- `memcmp` of two hashes.
abbrev pub same_bytes : List ℕ → List ℕ → Bool
same_bytes [] [] = true
same_bytes (a ∷ as') (b ∷ bs) = (a == b) && same_bytes as' bs
same_bytes _ _ = false

pub record Updated : Type 0 where
  pub store : Db
  pub root_key : RootKey
  pub root_hash : List ℕ

-- `none`: there is no hash, and C++ leaves reading one undefined.
unfoldable pub finish : ℕ → Climb → Option Updated
finish commit_seq s = do
  root_hash ← get_elem? s.level_hashes 0
  some (record {
    store = s.db;
    root_key = record {
      level = s.level;
      suffix = if s.complete then plain else after (some commit_seq);
    };
    root_hash = to_base32 root_hash;
  })

-- The last pair of a level of `size` hashes is stored under the commit number if some node below
-- it stands alone.
abbrev pub pair_suffix : (commit_seq size i : ℕ) → Bool → Suffix
pair_suffix commit_seq size i complete =
    if (i + 1 == size - 1) && not complete then after (some commit_seq) else plain

module _ (blake : Blake2b) where
  abbrev pub parent_of : List ℕ → List ℕ → List ℕ
  parent_of left right = compute_from blake (left ++ right)

  abbrev pub parent_of_one : List ℕ → List ℕ
  parent_of_one h = compute_from blake h

  -- The `for` loop over the hashes of a level, two by two. `size` is `level_hashes.size()`.
  pub pair_up : (commit_seq level seq size i : ℕ) → List (List ℕ) → Bool → Db → Paired
  pair_up commit_seq level seq size i [] complete db = record {
    parent_hashes = [];
    complete = complete;
    db = db;
  }
  pair_up commit_seq level seq size i (h ∷ []) complete db =
      let parent = parent_of_one h in
      record {
        parent_hashes = parent ∷ [];
        complete = false;
        db = put db (mt (level + 1) ((seq + i) / 2) (after (some commit_seq))) (to_base32 parent);
      }
  pair_up commit_seq level seq size i (h ∷ h' ∷ rest) complete db =
      let parent = parent_of h h' in
      let db' =
        put db (mt (level + 1) ((seq + i) / 2) (pair_suffix commit_seq size i complete))
          (to_base32 parent) in
      let later = pair_up commit_seq level seq size (i + 2) rest complete db' in
      record {
        parent_hashes = parent ∷ later.parent_hashes;
        complete = later.complete;
        db = later.db;
      }

  -- The body of the `while` loop after the load.
  pub round : ℕ → Climb → Climb
  round commit_seq t =
      let p =
        pair_up commit_seq t.level t.level_starting_seq (length t.level_hashes) 0 t.level_hashes
          t.complete t.db in
      record {
        level = t.level + 1;
        level_starting_seq = t.level_starting_seq / 2;
        prev_complete = t.prev_complete;
        complete = p.complete;
        level_hashes = p.parent_hashes;
        db = p.db;
      }

  pub climb_step : Option ℕ → ℕ → Climb → Climb
  climb_step prev_commit_seq commit_seq s = round commit_seq (load_previous prev_commit_seq s)

  -- The `while` loop; `none` means that the fuel ran out.
  unfoldable pub climb : ℕ → Option ℕ → ℕ → Climb → Option Climb
  climb zero prev_commit_seq commit_seq s = none
  climb (suc fuel) prev_commit_seq commit_seq s =
      let rest = climb fuel prev_commit_seq commit_seq (climb_step prev_commit_seq commit_seq s) in
      if ltb 1 (length s.level_hashes) || ltb 0 s.level_starting_seq then rest else some s

  -- `update`. Each round lowers the sum of the first number and the count of hashes, but for one
  -- round that a hash loaded on the left may use up.
  unfoldable pub update : Db → ℕ → List (List ℕ) → Option ℕ → Option Updated
  update db starting_block_seq leaf_block_hashes prev_commit_seq =
      let commit_seq = next_commit prev_commit_seq in
      climb (starting_block_seq + length leaf_block_hashes + 1) prev_commit_seq commit_seq (record {
        level = 0;
        level_starting_seq = starting_block_seq;
        prev_complete = closes_pair starting_block_seq;
        complete = true;
        level_hashes = map from_base32 leaf_block_hashes;
        db = put_leaves db starting_block_seq leaf_block_hashes;
      })
      >>= finish commit_seq

  -- The body of the loop of `Proof::Verify`.
  pub combine : List ℕ → List ℕ → ℕ → List ℕ
  combine calc_hash proof pos =
      if pos == 0
      then parent_of (from_base32 proof) calc_hash
      else if ltb 0 (length proof)
      then parent_of calc_hash (from_base32 proof)
      else parent_of_one calc_hash

  -- `none`: `pos` is the shorter vector, and C++ leaves reading past its end undefined.
  pub verify_loop : List ℕ → List (List ℕ) → List ℕ → Option (List ℕ)
  verify_loop calc_hash [] pos = some calc_hash
  verify_loop calc_hash (p ∷ proof) [] = none
  verify_loop calc_hash (p ∷ proof) (q ∷ pos) = verify_loop (combine calc_hash p q) proof pos

  pub verify : Proof → Option Bool
  verify p =
      Option.map (λ calc_hash. same_bytes calc_hash (from_base32 p.digest))
        (verify_loop (from_base32 p.value) p.proof p.pos)

-- The hash beside `ptr` in level `i`, and the position that goes with it.
pub sibling : Db → Option ℕ → (i ptr last : ℕ) → Bool → List ℕ × ℕ
sibling db commit_seq i ptr last complete =
    if ptr % 2 == 0
    then (
      if ptr == last
          then []
          else db (
              mt i (ptr + 1)
                (if (ptr + 1 == last) && ltb 0 i && not complete then after commit_seq else plain)),
      1,
    )
    else (db (mt i (ptr - 1) plain), 0)

-- The loop of `getProof`, over the levels left.
pub path : Db → Option ℕ → ℕ → (i ptr last : ℕ) → Bool → List (List ℕ) × List ℕ
path db commit_seq zero i ptr last complete = ([], [])
path db commit_seq (suc n) i ptr last complete =
    let (res, side) = sibling db commit_seq i ptr last complete in
    let (proof, pos) =
      path db commit_seq n (i + 1) (ptr / 2) (last / 2) (complete && (last / 2 % 2 == 1)) in
    (res ∷ proof, side ∷ pos)

pub get_proof : Db → Option ℕ → RootKey → ℕ → ℕ → Proof
get_proof db commit_seq root_key tip seq =
    let (proof, pos) = path db commit_seq root_key.level 0 seq tip (tip % 2 == 1) in
    record {
      digest = db (mt root_key.level 0 root_key.suffix);
      value = db (mt 0 seq plain);
      proof = proof;
      pos = pos;
    }
