-- ===== src/Audit/Tests.antt =====
-- The theorems on audits at one commit and one block, with a hash function that is constant.
use ledger_database.Prelude.{
  ℕ, zero, suc, ◌≡◌, ◌⊎◌, refl, List, [], ◌∷◌, none, some, Bool, true, false, arith,
}
use ledger_database.Hash.{
  Blake2b, IsBytes, compute_from, to_base32, to_groups, emit, pack, from_base32, from_groups,
  spread, gather, find_char,
}
use ledger_database.Db.{plain, Db}
use ledger_database.Merkle.{Updated, update, climb, finish, put_leaves, same_bytes}
use ledger_database.Merkle.Bind.{Collision}
use ledger_database.Info.{
  CommitInfo, commit_info_text, read_block_data, read_pairs, split_by, split_from,
}
use ledger_database.Info.Round.{IsCommitInfo, read_commit_info-commit_info_text}
use ledger_database.Info.Split.{Without}
use ledger_database.Audit.{unlinked, link, follow, backwards, block_hashes, audit}
use ledger_database.Audit.Chain.{audit-binds}
use ledger_database.Audit.Proofs.{AllRead, audit-unchecked}

abbrev repeat : ℕ → ℕ → List ℕ
repeat zero b = []
repeat (suc n) b = b ∷ repeat n b

zeros-IsBytes : (n : ℕ) → IsBytes (repeat n 0)
zeros-IsBytes zero = tt
zeros-IsBytes (suc n) = (omega arith, zeros-IsBytes n)

zeros_of : (d : List ℕ) → IsBytes (repeat 64 0)
zeros_of d = zeros-IsBytes 64

abbrev constant : Blake2b
constant = record {
  calculate_digest = λ d. repeat 64 0;
  digest_size = λ d. refl;
  digest_bytes = zeros_of;
}

-- The text of twenty zero bytes.
abbrev letters_a : List ℕ
letters_a = repeat 32 65

hash_text : (d : List ℕ) → to_base32 (compute_from constant d) ≡ letters_a
unfolding to_base32 compute_from to_groups emit pack
hash_text d = refl

no_bars : (n : ℕ) → Without 124 (repeat n 65)
no_bars zero = tt
no_bars (suc n) = (refl, no_bars n)

abbrev only_commit : CommitInfo
only_commit = record {
  commit_seq = 0;
  prev_digest = [];
  tip_block = 0;
  mtroot = letters_a;
  mtrootkey = [];
  mptroot = [];
}

only_commit-IsCommitInfo : IsCommitInfo only_commit
only_commit-IsCommitInfo = record {
  seq_fits = omega arith;
  tip_fits = omega arith;
  digest_clear = tt;
  root_clear = no_bars 32;
  key_clear = tt;
  mpt_clear = tt;
}

abbrev chain : List (List ℕ)
chain = commit_info_text only_commit ∷ []

-- "/a|x"
abbrev block_texts : List (List ℕ)
block_texts = (47 ∷ 97 ∷ 124 ∷ 120 ∷ []) ∷ []

abbrev no_store : Db
no_store key = []

chain_holds :
    follow constant (unlinked letters_a) (backwards [] chain) ≡ some (some (link only_commit))
unfolding follow backwards
chain_holds =
    rw
      (
        hash_text (commit_info_text only_commit),
        read_commit_info-commit_info_text only_commit only_commit-IsCommitInfo,
      )
      refl

abbrev made : Updated
made = record {
  store = put_leaves no_store 0 (letters_a ∷ []);
  root_key = record { level = 0; suffix = plain };
  root_hash = to_base32 (from_base32 letters_a);
}

made_by_update : update constant no_store 0 (block_hashes constant block_texts) none ≡ some made
unfolding update climb block_hashes finish
made_by_update = rw (hash_text (47 ∷ 97 ∷ 124 ∷ 120 ∷ [])) refl

same_root : same_bytes made.root_hash letters_a ≡ true
unfolding finish to_base32 to_groups emit pack from_base32 from_groups spread gather find_char
same_root = refl

all_read : AllRead block_texts
unfolding read_block_data read_pairs split_by split_from
all_read = ((_, refl), tt)

-- No trie proof is valid.
abbrev refuse : ℕ → List ℕ → List ℕ → Bool
refuse proof mpt_hash key = false

audit-unchecked_example :
    audit refuse constant no_store letters_a 0 chain block_texts [] ≡ some true
unfolding link
audit-unchecked_example =
    audit-unchecked refuse constant no_store letters_a 0 chain block_texts [] (link only_commit)
      made chain_holds made_by_update same_root all_read

accepted : audit refuse constant no_store letters_a 0 chain block_texts [] ≡ some true
unfolding link
accepted =
    audit-unchecked refuse constant no_store letters_a 0 chain block_texts [] (link only_commit)
      made chain_holds made_by_update same_root all_read

audit-binds_example : Collision constant chain chain ⊎ (chain ≡ chain)
audit-binds_example =
    audit-binds refuse constant no_store no_store letters_a 0 0 chain chain block_texts block_texts
      [] [] refl accepted accepted
