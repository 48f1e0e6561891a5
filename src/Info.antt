-- ===== src/Info.antt =====
-- ledger/ledgerdb/types.h and ledger/common/utils.cc: the texts under which commits, digests and
-- blocks are stored. A text is a list of character codes; reading past the end of the split items,
-- or an exception of `std::stoul`, is `none`.
pub mod Decimal
pub mod Split
pub mod Round
pub mod Blocks
mod Tests
use mathlib.Core.Option
use ledger_database.Prelude.{
  ℕ, zero, suc, ◌+◌, ◌-◌, ◌*◌, ◌/◌, ◌%◌, ◌^◌, List, [], ◌∷◌, ◌++◌, Option, none, some, Bool, true,
  false, ◌&&◌, ◌||◌, get_elem?, ltb, leb, ◌==◌, ◌>>=◌, if◌then◌else◌,
}

-- `std::to_string` of a uint64_t, which has at most twenty digits.
pub digits : ℕ → ℕ → List ℕ
digits zero n = []
digits (suc fuel) n = if ltb n 10 then (48 + n) ∷ [] else digits fuel (n / 10) ++ (48 + n % 10) ∷ []

abbrev pub to_string : ℕ → List ℕ
to_string n = digits 20 n

abbrev pub is_digit : ℕ → Bool
is_digit c = leb 48 c && leb c 57

-- The digits at the start of a text, after those that made `value`.
pub read_digits : ℕ → List ℕ → ℕ
read_digits value [] = value
read_digits value (c ∷ cs) = if is_digit c then read_digits (value * 10 + (c - 48)) cs else value

-- A number with at least one digit, that fits 64 bits.
pub read_number : List ℕ → Option ℕ
read_number [] = none
read_number (c ∷ cs) =
    if is_digit c
    then (if ltb (read_digits 0 (c ∷ cs)) (2 ^ 64) then some (read_digits 0 (c ∷ cs)) else none)
    else none

-- `std::stoul`: white space, a sign, and digits; a minus sign negates in 64 bits.
pub stoul : List ℕ → Option ℕ
stoul [] = none
stoul (c ∷ cs) =
    let spaced = stoul cs in
    if (leb 9 c && leb c 13) || (c == 32)
    then spaced
    else if c == 43
    then read_number cs
    else if c == 45
    then Option.map (λ n. (2 ^ 64 - n) % 2 ^ 64) (read_number cs)
    else read_number (c ∷ cs)

-- `Utils::splitBy`: the piece so far is `piece`; a text always has a last piece, which may be
-- empty.
unfoldable pub split_from : ℕ → List ℕ → List ℕ → List (List ℕ)
split_from delim piece [] = piece ∷ []
split_from delim piece (c ∷ cs) =
    if c == delim then piece ∷ split_from delim [] cs else split_from delim (piece ++ c ∷ []) cs

unfoldable pub split_by : List ℕ → ℕ → List (List ℕ)
split_by str delim = split_from delim [] str

-- The characters '|' and '/'.
abbrev pub bar : ℕ
bar = 124

abbrev pub slash : ℕ
slash = 47

pub record CommitInfo : Type 0 where
  pub commit_seq : ℕ
  pub prev_digest : List ℕ
  pub tip_block : ℕ
  pub mtroot : List ℕ
  pub mtrootkey : List ℕ
  pub mptroot : List ℕ

pub commit_info_text : CommitInfo → List ℕ
commit_info_text c =
    to_string c.commit_seq
    ++ bar
      ∷ (c.prev_digest
          ++ bar
            ∷ (to_string c.tip_block ++ bar ∷ (c.mtroot ++ bar ∷ (c.mtrootkey ++ bar ∷ c.mptroot))))

pub read_commit_info : List ℕ → Option CommitInfo
read_commit_info str =
    let items = split_by str bar in
    do
      commit_seq ← get_elem? items 0 >>= stoul
      prev_digest ← get_elem? items 1
      tip_block ← get_elem? items 2 >>= stoul
      mtroot ← get_elem? items 3
      mtrootkey ← get_elem? items 4
      mptroot ← get_elem? items 5
      some (record {
        commit_seq = commit_seq;
        prev_digest = prev_digest;
        tip_block = tip_block;
        mtroot = mtroot;
        mtrootkey = mtrootkey;
        mptroot = mptroot;
      })

pub record DigestInfo : Type 0 where
  pub commit_seq : ℕ
  pub tip_block : ℕ
  pub digest : List ℕ

pub digest_info_text : DigestInfo → List ℕ
digest_info_text d = to_string d.commit_seq ++ bar ∷ (to_string d.tip_block ++ bar ∷ d.digest)

pub read_digest_info : List ℕ → Option DigestInfo
read_digest_info str =
    let items = split_by str bar in
    do
      commit_seq ← get_elem? items 0 >>= stoul
      tip_block ← get_elem? items 1 >>= stoul
      digest ← get_elem? items 2
      some (record { commit_seq = commit_seq; tip_block = tip_block; digest = digest })

pub record BlockData : Type 0 where
  pub keys : List (List ℕ)
  pub vals : List (List ℕ)

-- `ToString`; the leading '/' stays, since the result of `substr` is dropped. `none`: fewer values
-- than keys.
pub pairs_text : List (List ℕ) → List (List ℕ) → Option (List ℕ)
pairs_text [] vals = some []
pairs_text (k ∷ keys) [] = none
pairs_text (k ∷ keys) (v ∷ vals) = do
  rest ← pairs_text keys vals
  some (slash ∷ (k ++ bar ∷ (v ++ rest)))

pub block_data_text : BlockData → Option (List ℕ)
block_data_text b = pairs_text b.keys b.vals

-- The loop over the parts `kvs` of the text `str`: it splits `str`, not the part.
unfoldable pub read_pairs : List ℕ → List (List ℕ) → Option (List (List ℕ) × List (List ℕ))
read_pairs str [] = some ([], [])
read_pairs str (kv ∷ kvs) =
    let items = split_by str bar in
    do
      key ← get_elem? items 0
      val ← get_elem? items 1
      (keys, vals) ← read_pairs str kvs
      some (key ∷ keys, val ∷ vals)

unfoldable pub read_block_data : List ℕ → Option BlockData
read_block_data str = do
  (keys, vals) ← read_pairs str (split_by str slash)
  some (record { keys = keys; vals = vals })
