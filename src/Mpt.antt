-- ===== src/Mpt.antt =====
-- ledger/ledgerdb/mpt/mpt_config.h: the nibbles of a key, and the common prefix of two keys. A
-- character is its code from 0 to 255; `int8_t` reads the codes from 128 up as negative, division
-- and remainder round toward zero, and the result is stored as a character again.
mod Tests
use ledger_database.Prelude.{
  ℕ, zero, suc, ◌+◌, ◌-◌, ◌*◌, ◌/◌, ◌%◌, ◌≤◌, ◌<◌, ◌≡◌, ◌≢◌, refl, ap, ap₂, List, [], ◌∷◌, Option,
  none, some, Bool, true, false, ◌==◌, ltb, length, take, get_elem?, if◌then◌else◌, arith,
  Bool-cases, inl, inr,
}

pub high_nibble : ℕ → ℕ
high_nibble c = if ltb c 128 then c / 16 else (256 - (256 - c) / 16) % 256

pub low_nibble : ℕ → ℕ
low_nibble c = if ltb c 128 then c % 16 else (256 - (256 - c) % 16) % 256

-- `KeybytesToHex`: two nibbles for each byte, and 16 at the end.
pub keybytes_to_hex : List ℕ → List ℕ
keybytes_to_hex [] = 16 ∷ []
keybytes_to_hex (c ∷ key) = high_nibble c ∷ low_nibble c ∷ keybytes_to_hex key

pub prefix_len : List ℕ → List ℕ → ℕ
prefix_len (a ∷ key1) (b ∷ key2) = let rest = prefix_len key1 key2 in if a == b then suc rest else 0
prefix_len _ _ = 0

-- Every character is ASCII.
abbrev pub IsAscii : List ℕ → Type 0
IsAscii [] = Unit
IsAscii (c ∷ key) = (c < 128) × IsAscii key

-- A full node has children at 0 to 16.
abbrev pub AllIndices : List ℕ → Type 0
AllIndices [] = Unit
AllIndices (n ∷ ns) = (n ≤ 16) × AllIndices ns

-- The bytes of a hex key.
abbrev pub hex_to_keybytes : List ℕ → List ℕ
hex_to_keybytes (h ∷ l ∷ ns) = (h * 16 + l) ∷ hex_to_keybytes ns
hex_to_keybytes _ = []

pub record Encodes (key hex : List ℕ) : Type 0 where
  pub size : length hex ≡ 2 * length key + 1
  pub indices : AllIndices hex
  pub decodes : hex_to_keybytes hex ≡ key

-- The hex form of an ASCII key has two nibbles for each byte and a terminator, all of them indices
-- of a full node's children, and gives the key back.
pub keybytes_to_hex-Encodes : (key : List ℕ) → IsAscii key → Encodes key (keybytes_to_hex key)
unfolding keybytes_to_hex high_nibble low_nibble
keybytes_to_hex-Encodes [] a = record { size = refl; indices = (omega arith, tt); decodes = refl }
keybytes_to_hex-Encodes (c ∷ key) a =
    let ih = keybytes_to_hex-Encodes key a.1 in
    let test : ltb c 128 ≡ true = ground (arith, a.0) in
    rw test (record {
      size = omega (arith, ih.size);
      indices = (omega (arith, a.0), (omega arith, ih.indices));
      decodes = ap₂ (λ x xs. x ∷ xs) (omega arith) ih.decodes;
    })

-- What the length of the common prefix must be.
pub record IsCommonPrefix (key1 key2 : List ℕ) (n : ℕ) : Type 0 where
  pub fits : n ≤ length key1
  pub fits' : n ≤ length key2
  pub same : take n key1 ≡ take n key2
  pub longest : (a b : ℕ) → get_elem? key1 n ≡ some a → get_elem? key2 n ≡ some b → a ≢ b

-- `PrefixLen` is within both keys, which agree up to there, and do not agree at the next place if
-- both go on.
pub prefix_len-IsCommonPrefix :
    (key1 key2 : List ℕ) → IsCommonPrefix key1 key2 (prefix_len key1 key2)
unfolding prefix_len
prefix_len-IsCommonPrefix [] key2 = record {
  fits = omega arith;
  fits' = omega arith;
  same = refl;
  longest = λ a b h g. absurd (cc);
}
prefix_len-IsCommonPrefix (a ∷ key1) [] = record {
  fits = omega arith;
  fits' = omega arith;
  same = refl;
  longest = λ x y h g. absurd (cc);
}
prefix_len-IsCommonPrefix (a ∷ key1) (b ∷ key2) = elim (Bool-cases (a == b)) [
  | inl same ↦
      let ih = prefix_len-IsCommonPrefix key1 key2 in
      let heads : a ≡ b = ground (arith, same) in
      rw same (record {
        fits = omega (arith, ih.fits);
        fits' = omega (arith, ih.fits');
        same = ap₂ (λ x xs. x ∷ xs) heads ih.same;
        longest = ih.longest;
      })
  | inr differ ↦ rw differ (record {
    fits = omega arith;
    fits' = omega arith;
    same = refl;
    longest = λ x y h g e.
        let first : some a ≡ some x = h in
        let second : some b ≡ some y = g in let heads : a ≡ b = cc in ground (arith, differ, heads);
  })
]
