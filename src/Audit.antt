-- ===== src/Audit.antt =====
-- ledger/ledgerdb/ledgerdb.cc: `Auditor::Audit`, which checks a chain of commits, the Merkle root
-- over new blocks and the trie proofs of their keys. The trie's proofs, and their check under the
-- hash of the trie's root, are parameters. `none` is an exception or a read out of range.
pub mod Chain
pub mod Proofs
mod Tests
use mathlib.Core.Option
use ledger_database.Prelude.{
  ℕ, zero, suc, ◌+◌, ◌-◌, List, [], ◌∷◌, map, Option, none, some, Bool, true, false, not, ◌>>=◌,
  ltb, get_elem?, if◌then◌else◌,
}
use ledger_database.Hash.{Blake2b, compute_from, to_base32}
use ledger_database.Db.{Db}
use ledger_database.Merkle.{Updated, update, same_bytes}
use ledger_database.Info.{CommitInfo, read_commit_info, BlockData, read_block_data}

-- The variables that the first loop sets.
pub record Linked : Type 0 where
  pub target : List ℕ
  pub mtroot : List ℕ
  pub mptroot : List ℕ
  pub prev_commit_seq : Option ℕ

abbrev pub unlinked : List ℕ → Linked
unlinked digest = record { target = digest; mtroot = []; mptroot = []; prev_commit_seq = none }

pub link : CommitInfo → Linked
link cinfo = record {
  target = cinfo.prev_digest;
  mtroot = cinfo.mtroot;
  mptroot = cinfo.mptroot;
  prev_commit_seq = if ltb 0 cinfo.commit_seq then some (cinfo.commit_seq - 1) else none;
}

-- From the last element to the first, before `acc`.
pub backwards : List (List ℕ) → List (List ℕ) → List (List ℕ)
backwards acc [] = acc
backwards acc (x ∷ xs) = backwards (x ∷ acc) xs

module _ (blake : Blake2b) where
  -- The loop over the commits, the last one first; `some none` is `return false`.
  pub follow : Linked → List (List ℕ) → Option (Option Linked)
  follow l [] = some (some l)
  follow l (c ∷ commits) =
      let rest = (do cinfo ← read_commit_info c; follow (link cinfo) commits) in
      if same_bytes (to_base32 (compute_from blake c)) l.target then rest else some none

  pub block_hashes : List (List ℕ) → List (List ℕ)
  block_hashes [] = []
  block_hashes (b ∷ blocks) = to_base32 (compute_from blake b) ∷ block_hashes blocks

module _ {Proof : Type 0} (verify_proof : Proof → List ℕ → List ℕ → Bool) where
  -- The loop over the keys of a block; `||` reads no proof once the result is true.
  pub audit_keys : List ℕ → List Proof → Bool → ℕ → List (List ℕ) → Option (Bool × ℕ)
  audit_keys mpt_hash proofs res cnt [] = some (res, cnt)
  audit_keys mpt_hash proofs true cnt (key ∷ keys) = audit_keys mpt_hash proofs true (cnt + 1) keys
  audit_keys mpt_hash proofs false cnt (key ∷ keys) = do
    proof ← get_elem? proofs cnt
    audit_keys mpt_hash proofs (verify_proof proof mpt_hash key) (cnt + 1) keys

  pub audit_blocks : List ℕ → List Proof → Bool → ℕ → List (List ℕ) → Option Bool
  audit_blocks mpt_hash proofs res cnt [] = some res
  audit_blocks mpt_hash proofs res cnt (b ∷ blocks) = do
    binfo ← read_block_data b
    (res', cnt') ← audit_keys mpt_hash proofs res cnt binfo.keys
    audit_blocks mpt_hash proofs res' cnt' blocks

  module _ (blake : Blake2b) where
    -- What follows the first loop.
    pub audit_linked : Db → ℕ → List (List ℕ) → List Proof → Linked → Option Bool
    audit_linked db first_block_seq blocks proofs l = do
      u ← update blake db first_block_seq (block_hashes blake blocks) l.prev_commit_seq
      audit_blocks (compute_from blake l.mptroot) proofs (same_bytes u.root_hash l.mtroot) 0 blocks

    pub audit : Db → List ℕ → ℕ → (commits blocks : List (List ℕ)) → List Proof → Option Bool
    audit db digest first_block_seq commits blocks proofs = do
      followed ← follow blake (unlinked digest) (backwards [] commits)
      elim followed [ none ↦ some false | some l ↦ audit_linked db first_block_seq blocks proofs l ]
