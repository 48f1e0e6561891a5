-- ===== src/Info/Tests.antt =====
-- The theorems on stored texts at one commit, one digest and one block.
use ledger_database.Prelude.{ℕ, ◌≡◌, refl, List, [], ◌∷◌, some, arith}
use ledger_database.Info.{
  CommitInfo, commit_info_text, read_commit_info, DigestInfo, digest_info_text, read_digest_info,
  block_data_text, pairs_text, read_block_data,
}
use ledger_database.Info.Round.{
  IsCommitInfo, read_commit_info-commit_info_text, read_digest_info-digest_info_text,
}
use ledger_database.Info.Blocks.{copies, read_block_data-copies}

abbrev sample_commit : CommitInfo
sample_commit = record {
  commit_seq = 12;
  prev_digest = 65 ∷ [];
  tip_block = 40;
  mtroot = 66 ∷ 67 ∷ [];
  mtrootkey = 109 ∷ 116 ∷ [];
  mptroot = [];
}

sample-IsCommitInfo : IsCommitInfo sample_commit
sample-IsCommitInfo = record {
  seq_fits = omega arith;
  tip_fits = omega arith;
  digest_clear = (refl, tt);
  root_clear = (refl, (refl, tt));
  key_clear = (refl, (refl, tt));
  mpt_clear = tt;
}

abbrev sample_digest : DigestInfo
sample_digest = record { commit_seq = 12; tip_block = 40; digest = 65 ∷ 66 ∷ [] }

read_commit_info-commit_info_text_example :
    read_commit_info (commit_info_text sample_commit) ≡ some sample_commit
read_commit_info-commit_info_text_example =
    read_commit_info-commit_info_text sample_commit sample-IsCommitInfo

read_digest_info-digest_info_text_example :
    read_digest_info (digest_info_text sample_digest) ≡ some sample_digest
read_digest_info-digest_info_text_example =
    read_digest_info-digest_info_text sample_digest (omega arith) (omega arith) (refl, (refl, tt))

-- "/a|x/b|y"
abbrev block_text : List ℕ
block_text = 47 ∷ 97 ∷ 124 ∷ 120 ∷ 47 ∷ 98 ∷ 124 ∷ 121 ∷ []

two_pairs :
    block_data_text
      (record { keys = (97 ∷ []) ∷ (98 ∷ []) ∷ []; vals = (120 ∷ []) ∷ (121 ∷ []) ∷ [] })
    ≡ some block_text
unfolding block_data_text pairs_text
two_pairs = refl

read_block_data-copies_example :
    (val : List ℕ) × (read_block_data block_text
      ≡ some (record { keys = copies 3 (47 ∷ 97 ∷ []); vals = copies 3 val }))
read_block_data-copies_example =
    read_block_data-copies (97 ∷ []) (120 ∷ []) ((98 ∷ []) ∷ []) ((121 ∷ []) ∷ []) block_text
      (refl, tt) ((refl, tt), ((refl, tt), tt)) ((refl, tt), ((refl, tt), tt)) two_pairs
