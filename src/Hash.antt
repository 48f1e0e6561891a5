-- ===== src/Hash.antt =====
-- ledger/common/hash.cc and hash.h: a hash is 20 bytes, and is kept as 32 characters of base 32.
-- A byte string is a list of numbers below 256, a text the list of its character codes. A null
-- hash is the empty list. Indices that advance by a stride are written by `take` and `drop`;
-- characters past the end of a text, whose reading C++ leaves undefined, are not read.
pub mod Base32
use Prim.Native.Char.{code}
use Prim.Native.String.{String}
use ledger_database.Prelude.{
  ℕ, zero, suc, ◌+◌, ◌-◌, ◌*◌, ◌/◌, ◌%◌, ◌^◌, ◌<◌, ◌≡◌, List, [], ◌∷◌, ◌++◌, length, get_or, take,
  drop, ◌==◌, length-take, arith, if◌then◌else◌,
}

abbrev pub codes : String → List ℕ
codes String.[] = []
codes (String.◌∷◌ c s) = code c ∷ codes s

abbrev base32alphabet : List ℕ
base32alphabet = codes "ABCDEFGHIJKLMNOPQRSTUVWXYZ234567"

abbrev npos : ℕ
npos = 2 ^ 64 - 1

-- `std::string::find` of one character, counting from `i`.
unfoldable pub find_char : List ℕ → ℕ → ℕ → ℕ
find_char [] c i = npos
find_char (a ∷ s) c i = if a == c then i else find_char s c (i + 1)

-- `tmp <<= 5; tmp += test.find(base32[i+j])`, over the characters of one group.
unfoldable pub gather : ℕ → List ℕ → ℕ
gather tmp [] = tmp
gather tmp (c ∷ cs) = gather ((tmp * 32 + find_char base32alphabet c 0) % 2 ^ 64) cs

-- The bytes of `tmp`, written from the last one to the first.
unfoldable pub spread : ℕ → ℕ → List ℕ → List ℕ
spread zero tmp out = out
spread (suc j) tmp out = spread j (tmp / 256) (tmp % 256 ∷ out)

unfoldable pub from_groups : ℕ → List ℕ → List ℕ
from_groups zero s = []
from_groups (suc n) s = spread 5 (gather 0 (take 8 s)) [] ++ from_groups n (drop 8 s)

unfoldable pub from_base32 : List ℕ → List ℕ
from_base32 base32 = from_groups 4 base32

-- `tmp = (tmp << 8) + value_[i + j]`
unfoldable pub pack : ℕ → List ℕ → ℕ
pack tmp [] = tmp
pack tmp (b ∷ bs) = pack ((tmp * 256 + b) % 2 ^ 64) bs

abbrev letter : ℕ → ℕ
letter i = get_or base32alphabet i 0

-- The characters of `tmp`; the shift of the next one is `5 * j`.
unfoldable pub emit : ℕ → ℕ → List ℕ
emit zero tmp = []
emit (suc j) tmp = letter (tmp / 2 ^ (5 * j) % 256) ∷ emit j (tmp % 2 ^ (5 * j))

unfoldable pub to_groups : ℕ → List ℕ → List ℕ
to_groups zero h = []
to_groups (suc n) h = emit 8 (pack 0 (take 5 h)) ++ to_groups n (drop 5 h)

unfoldable pub to_base32 : List ℕ → List ℕ
to_base32 [] = []
to_base32 (b ∷ bs) = to_groups 4 (b ∷ bs)

abbrev pub IsBytes : List ℕ → Type 0
IsBytes [] = Unit
IsBytes (b ∷ bs) = (b < 256) × IsBytes bs

-- What a well-formed hash is: twenty bytes.
pub record IsHash (h : List ℕ) : Type 0 where
  pub size : length h ≡ 20
  pub bytes : IsBytes h

-- CryptoPP's BLAKE2b, which the program calls: a digest has 64 bytes.
pub record Blake2b : Type 0 where
  pub calculate_digest : List ℕ → List ℕ
  pub digest_size : (d : List ℕ) → length (calculate_digest d) ≡ 64
  pub digest_bytes : (d : List ℕ) → IsBytes (calculate_digest d)

module _ (blake : Blake2b) where
  -- `Hash::ComputeFrom` keeps the first 20 bytes of the digest.
  unfoldable pub compute_from : List ℕ → List ℕ
  compute_from data_bytes = take 20 (blake.calculate_digest data_bytes)

IsBytes-take : (n : ℕ) (h : List ℕ) → IsBytes h → IsBytes (take n h)
IsBytes-take zero h b = tt
IsBytes-take (suc n) [] b = tt
IsBytes-take (suc n) (x ∷ h) b = (b.0, IsBytes-take n h b.1)

pub compute_from-IsHash : (blake : Blake2b) (d : List ℕ) → IsHash (compute_from blake d)
unfolding compute_from
compute_from-IsHash blake d = record {
  size = omega (arith, length-take 20 (blake.calculate_digest d), blake.digest_size d);
  bytes = IsBytes-take 20 _ (blake.digest_bytes d);
}
