-- ===== src/Info/Round.antt =====
-- Reading commits and digests from their texts, of ledger/ledgerdb/types.h.
use ledger_database.Prelude.{ℕ, ◌^◌, ◌<◌, ◌≡◌, refl, List, [], ◌∷◌, some, arith}
use ledger_database.Info.{
  bar, to_string, digits, split_by, CommitInfo, commit_info_text, read_commit_info, DigestInfo,
  digest_info_text, read_digest_info,
}
use ledger_database.Info.Decimal.{AllDigits, AllDigits-digits, stoul-to_string}
use ledger_database.Info.Split.{Without, split_by-cons, split_by-last}

AllDigits-Without : (xs : List ℕ) → AllDigits xs → Without bar xs
AllDigits-Without [] a = tt
AllDigits-Without (c ∷ cs) a = (ground (arith, a.0), AllDigits-Without cs a.1)

pub to_string-Without : (n : ℕ) → Without bar (to_string n)
to_string-Without n = AllDigits-Without (digits 20 n) (AllDigits-digits 20 n)

-- A commit that can be stored: numbers of 64 bits, and texts without the character '|'.
pub record IsCommitInfo (c : CommitInfo) : Type 0 where
  pub seq_fits : c.commit_seq < 2 ^ 64
  pub tip_fits : c.tip_block < 2 ^ 64
  pub digest_clear : Without bar c.prev_digest
  pub root_clear : Without bar c.mtroot
  pub key_clear : Without bar c.mtrootkey
  pub mpt_clear : Without bar c.mptroot

commit_items :
    (c : CommitInfo)
    → IsCommitInfo c
    → split_by (commit_info_text c) bar
      ≡ to_string c.commit_seq
        ∷ c.prev_digest
        ∷ to_string c.tip_block
        ∷ c.mtroot
        ∷ c.mtrootkey
        ∷ c.mptroot
        ∷ []
unfolding commit_info_text
commit_items c i =
    rw
      (
        split_by-cons bar (to_string c.commit_seq) _ (to_string-Without c.commit_seq),
        split_by-cons bar c.prev_digest _ i.digest_clear,
        split_by-cons bar (to_string c.tip_block) _ (to_string-Without c.tip_block),
        split_by-cons bar c.mtroot _ i.root_clear,
        split_by-cons bar c.mtrootkey _ i.key_clear,
        split_by-last bar c.mptroot i.mpt_clear,
      )
      refl

-- A commit whose numbers fit 64 bits and whose texts do not have the character '|' is read back
-- from the text that it is stored as.
pub read_commit_info-commit_info_text :
    (c : CommitInfo) → IsCommitInfo c → read_commit_info (commit_info_text c) ≡ some c
unfolding read_commit_info
read_commit_info-commit_info_text c i =
    rw
      (
        read_commit_info,
        commit_items c i,
        stoul-to_string c.commit_seq i.seq_fits,
        stoul-to_string c.tip_block i.tip_fits,
      )
      refl

digest_items :
    (d : DigestInfo)
    → Without bar d.digest
    → split_by (digest_info_text d) bar
      ≡ to_string d.commit_seq ∷ to_string d.tip_block ∷ d.digest ∷ []
unfolding digest_info_text
digest_items d h =
    rw
      (
        split_by-cons bar (to_string d.commit_seq) _ (to_string-Without d.commit_seq),
        split_by-cons bar (to_string d.tip_block) _ (to_string-Without d.tip_block),
        split_by-last bar d.digest h,
      )
      refl

-- A digest whose numbers fit 64 bits and whose text does not have the character '|' is read back
-- from the text that it is stored as.
pub read_digest_info-digest_info_text :
    (d : DigestInfo)
    → d.commit_seq < 2 ^ 64
    → d.tip_block < 2 ^ 64
    → Without bar d.digest
    → read_digest_info (digest_info_text d) ≡ some d
unfolding read_digest_info
read_digest_info-digest_info_text d seq tip h =
    rw
      (
        read_digest_info,
        digest_items d h,
        stoul-to_string d.commit_seq seq,
        stoul-to_string d.tip_block tip,
      )
      refl
