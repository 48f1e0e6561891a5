-- ===== src/Audit/Proofs.antt =====
-- Which trie proofs an audit looks at.
use ledger_database.Prelude.{ℕ, ◌+◌, ◌≡◌, refl, List, [], ◌∷◌, some, Bool, true}
use ledger_database.Hash.{Blake2b, compute_from}
use ledger_database.Db.{Db}
use ledger_database.Merkle.{Updated, update, same_bytes}
use ledger_database.Info.{BlockData, read_block_data}
use ledger_database.Audit.{
  Linked, unlinked, follow, backwards, block_hashes, audit_keys, audit_blocks, audit_linked, audit,
}

-- Every block can be read.
abbrev pub AllRead : List (List ℕ) → Type 0
AllRead [] = Unit
AllRead (b ∷ blocks) = ((d : BlockData) × (read_block_data b ≡ some d)) × AllRead blocks

module _ {Proof : Type 0} (verify_proof : Proof → List ℕ → List ℕ → Bool) where
  audit_keys-true :
      (mpt_hash : List ℕ) (proofs : List Proof) (keys : List (List ℕ)) (cnt : ℕ)
      → (n : ℕ) × (audit_keys verify_proof mpt_hash proofs true cnt keys ≡ some (true, n))
  unfolding audit_keys
  audit_keys-true mpt_hash proofs [] cnt = (cnt, refl)
  audit_keys-true mpt_hash proofs (key ∷ keys) cnt = audit_keys-true mpt_hash proofs keys (cnt + 1)

  audit_blocks-true :
      (mpt_hash : List ℕ) (proofs : List Proof) (blocks : List (List ℕ)) (cnt : ℕ)
      → AllRead blocks
      → audit_blocks verify_proof mpt_hash proofs true cnt blocks ≡ some true
  unfolding audit_blocks
  audit_blocks-true mpt_hash proofs [] cnt a = refl
  audit_blocks-true mpt_hash proofs (b ∷ blocks) cnt ((d, there), a) =
      let (n, kept) = audit_keys-true mpt_hash proofs d.keys cnt in
      rw (there, kept) (audit_blocks-true mpt_hash proofs blocks n a)

  -- An audit whose chain of commits holds and whose blocks can be read and have the Merkle root of
  -- the first commit is accepted with whatever trie proofs, valid or not, or with none.
  pub audit-unchecked :
      (blake : Blake2b) (db : Db) (digest : List ℕ) (first : ℕ) (commits blocks : List (List ℕ))
      (proofs : List Proof) (l : Linked) (u : Updated)
      → follow blake (unlinked digest) (backwards [] commits) ≡ some (some l)
      → update blake db first (block_hashes blake blocks) l.prev_commit_seq ≡ some u
      → same_bytes u.root_hash l.mtroot ≡ true
      → AllRead blocks
      → audit verify_proof blake db digest first commits blocks proofs ≡ some true
  unfolding audit audit_linked
  audit-unchecked blake db digest first commits blocks proofs l u chain updated root a =
      rw (audit, chain, audit_linked, updated, root)
        (audit_blocks-true (compute_from blake l.mptroot) proofs blocks 0 a)
