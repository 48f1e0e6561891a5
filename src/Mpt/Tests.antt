-- ===== src/Mpt/Tests.antt =====
-- The theorem on hex keys at one key.
use ledger_database.Prelude.{[], ◌∷◌, arith}
use ledger_database.Mpt.{
  Encodes, keybytes_to_hex, keybytes_to_hex-Encodes, IsCommonPrefix, prefix_len,
  prefix_len-IsCommonPrefix,
}

keybytes_to_hex-Encodes_example : Encodes (97 ∷ 49 ∷ []) (keybytes_to_hex (97 ∷ 49 ∷ []))
keybytes_to_hex-Encodes_example =
    keybytes_to_hex-Encodes (97 ∷ 49 ∷ []) (omega arith, (omega arith, tt))

prefix_len-IsCommonPrefix_example :
    IsCommonPrefix
      (6 ∷ 1 ∷ 3 ∷ [])
      (6 ∷ 1 ∷ 4 ∷ 16 ∷ [])
      (prefix_len (6 ∷ 1 ∷ 3 ∷ []) (6 ∷ 1 ∷ 4 ∷ 16 ∷ []))
prefix_len-IsCommonPrefix_example = prefix_len-IsCommonPrefix (6 ∷ 1 ∷ 3 ∷ []) (6 ∷ 1 ∷ 4 ∷ 16 ∷ [])
