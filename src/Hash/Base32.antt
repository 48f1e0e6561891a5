-- ===== src/Hash/Base32.antt =====
-- `Hash::FromBase32` after `Hash::ToBase32`, of ledger/common/hash.cc.
use ledger_database.Prelude.{
  ℕ, zero, suc, ◌+◌, ◌*◌, ◌/◌, ◌%◌, ◌^◌, ◌<◌, ◌≤◌, ℕ_discrete, ◌≡◌, refl, ap, ap₂, ◌∙◌, List, [],
  ◌∷◌, ◌++◌, Bool, true, ◌&&◌, length, length-append, arith, ◌==◌, take, drop,
}
use ledger_database.Hash.{
  base32alphabet, find_char, gather, spread, from_groups, from_base32, pack, letter, emit,
  to_groups, to_base32, IsBytes, IsHash,
}

-- Whether the letters of the `n` digits from `i` on are found at their places.
digits_found : ℕ → ℕ → Bool
digits_found i zero = true
digits_found i (suc n) = (find_char base32alphabet (letter i) 0 == i) && digits_found (i + 1) n

digit_found :
    (n i d : ℕ)
    → digits_found i n ≡ true
    → i ≤ d
    → d < i + n
    → find_char base32alphabet (letter d) 0 ≡ d
unfolding digits_found
digit_found zero i d all_found le lt = absurd (omega arith)
digit_found (suc n) i d all_found le lt = elim (ℕ_discrete i d) [
  | yes here ↦ rw (← here) (ground (arith))
  | no later ↦ digit_found n (i + 1) d (ground arith) (omega arith) (omega arith)
]

find_char-letter : (d : ℕ) → d < 32 → find_char base32alphabet (letter d) 0 ≡ d
unfolding digits_found find_char
find_char-letter d h = digit_found 32 0 d refl (omega arith) (omega arith)

-- One round of reading undoes one round of writing.
gather-letter :
    (t d : ℕ) (cs : List ℕ)
    → d < 32
    → t < 2 ^ 35
    → gather t (letter d ∷ cs) ≡ gather (t * 32 + d) cs
unfolding gather
gather-letter t d cs h k = rw (find_char-letter d h) (ap (λ u. gather u cs) (omega arith))

gather-nil : (t : ℕ) → gather t [] ≡ t
unfolding gather
gather-nil t = refl

-- Eight digits are read as the number that they write.
module _ (a b c d e f g h : ℕ) where
  record AreDigits : Type 0 where
    first : (a < 32) × (b < 32) × (c < 32) × (d < 32)
    last : (e < 32) × (f < 32) × (g < 32) × (h < 32)

  abbrev high : ℕ
  high = (((0 * 32 + a) * 32 + b) * 32 + c) * 32 + d

  gather-digits :
      AreDigits
      → gather 0 (
          letter a
          ∷ letter b
          ∷ letter c
          ∷ letter d
          ∷ letter e
          ∷ letter f
          ∷ letter g
          ∷ letter h
          ∷ [])
        ≡ (((high * 32 + e) * 32 + f) * 32 + g) * 32 + h
  gather-digits r =
      gather-letter 0 a _ r.first.0 (omega arith)
      ∙ gather-letter (0 * 32 + a) b _ r.first.1 (omega arith)
      ∙ gather-letter ((0 * 32 + a) * 32 + b) c _ r.first.2 (omega arith)
      ∙ gather-letter (((0 * 32 + a) * 32 + b) * 32 + c) d _ r.first.3 (omega arith)
      ∙ gather-letter high e _ r.last.0 (omega arith)
      ∙ gather-letter (high * 32 + e) f _ r.last.1 (omega arith)
      ∙ gather-letter ((high * 32 + e) * 32 + f) g _ r.last.2 (omega arith)
      ∙ gather-letter (((high * 32 + e) * 32 + f) * 32 + g) h _ r.last.3 (omega arith)
      ∙ gather-nil _

-- Forty bits survive eight characters.
gather-emit : (t : ℕ) → t < 2 ^ 40 → gather 0 (emit 8 t) ≡ t
unfolding emit
gather-emit t h =
    gather-digits (t / 2 ^ 35 % 256) (t % 2 ^ 35 / 2 ^ 30 % 256)
      (t % 2 ^ 35 % 2 ^ 30 / 2 ^ 25 % 256) (t % 2 ^ 35 % 2 ^ 30 % 2 ^ 25 / 2 ^ 20 % 256)
      (t % 2 ^ 35 % 2 ^ 30 % 2 ^ 25 % 2 ^ 20 / 2 ^ 15 % 256)
      (t % 2 ^ 35 % 2 ^ 30 % 2 ^ 25 % 2 ^ 20 % 2 ^ 15 / 2 ^ 10 % 256)
      (t % 2 ^ 35 % 2 ^ 30 % 2 ^ 25 % 2 ^ 20 % 2 ^ 15 % 2 ^ 10 / 2 ^ 5 % 256)
      (t % 2 ^ 35 % 2 ^ 30 % 2 ^ 25 % 2 ^ 20 % 2 ^ 15 % 2 ^ 10 % 2 ^ 5 / 2 ^ 0 % 256)
      (record {
        first = (omega arith, omega arith, omega arith, omega arith);
        last = (omega arith, omega arith, omega arith, omega arith);
      })
    ∙ omega arith

spread-pack :
    (a b c d e : ℕ)
    → (a < 256) × (b < 256) × (c < 256) × (d < 256) × (e < 256)
    → spread 5 (pack 0 (a ∷ b ∷ c ∷ d ∷ e ∷ [])) [] ≡ a ∷ b ∷ c ∷ d ∷ e ∷ []
unfolding spread pack
spread-pack a b c d e h = ground arith

pack_bound :
    (a b c d e : ℕ)
    → (a < 256) × (b < 256) × (c < 256) × (d < 256) × (e < 256)
    → pack 0 (a ∷ b ∷ c ∷ d ∷ e ∷ []) < 2 ^ 40
unfolding pack
pack_bound a b c d e h = omega arith

take-emit : (t : ℕ) (r : List ℕ) → take 8 (emit 8 t ++ r) ≡ emit 8 t
unfolding emit
take-emit t r = refl

drop-emit : (t : ℕ) (r : List ℕ) → drop 8 (emit 8 t ++ r) ≡ r
unfolding emit
drop-emit t r = refl

-- Group by group: five bytes, eight characters.
from_groups-to_groups :
    (n : ℕ) (h : List ℕ) → length h ≡ n * 5 → IsBytes h → from_groups n (to_groups n h) ≡ h
unfolding from_groups to_groups
from_groups-to_groups zero [] e b = refl
from_groups-to_groups zero (x ∷ h) e b = absurd (omega arith)
from_groups-to_groups (suc n) (b0 ∷ b1 ∷ b2 ∷ b3 ∷ b4 ∷ h) e (x0, (x1, (x2, (x3, (x4, bs))))) =
    let v = pack 0 (b0 ∷ b1 ∷ b2 ∷ b3 ∷ b4 ∷ []) in
    let small : v < 2 ^ 40 = pack_bound b0 b1 b2 b3 b4 (x0, x1, x2, x3, x4) in
    rw (take-emit v (to_groups n h), drop-emit v (to_groups n h), gather-emit v small)
      (ap₂ ◌++◌ (spread-pack b0 b1 b2 b3 b4 (x0, x1, x2, x3, x4))
        (from_groups-to_groups n h (omega arith) bs))
from_groups-to_groups (suc n) [] e b = absurd (omega arith)
from_groups-to_groups (suc n) (b0 ∷ []) e b = absurd (omega arith)
from_groups-to_groups (suc n) (b0 ∷ b1 ∷ []) e b = absurd (omega arith)
from_groups-to_groups (suc n) (b0 ∷ b1 ∷ b2 ∷ []) e b = absurd (omega arith)
from_groups-to_groups (suc n) (b0 ∷ b1 ∷ b2 ∷ b3 ∷ []) e b = absurd (omega arith)

-- Reading the text of any twenty bytes gives those bytes back.
pub from_base32-to_base32 : (h : List ℕ) → IsHash h → from_base32 (to_base32 h) ≡ h
unfolding from_base32 to_base32
from_base32-to_base32 [] i = absurd (omega (arith, i.size))
from_base32-to_base32 (b ∷ bs) i = from_groups-to_groups 4 (b ∷ bs) i.size i.bytes

-- Whatever is read, the result is a hash of twenty bytes.
length-spread : (j tmp : ℕ) (out : List ℕ) → length (spread j tmp out) ≡ j + length out
unfolding spread
length-spread zero tmp out = omega arith
length-spread (suc j) tmp out = omega (arith, length-spread j (tmp / 256) (tmp % 256 ∷ out))

IsBytes-spread : (j tmp : ℕ) (out : List ℕ) → IsBytes out → IsBytes (spread j tmp out)
unfolding spread
IsBytes-spread zero tmp out b = b
IsBytes-spread (suc j) tmp out b = IsBytes-spread j (tmp / 256) (tmp % 256 ∷ out) (omega arith, b)

pub IsBytes-append : (xs ys : List ℕ) → IsBytes xs → IsBytes ys → IsBytes (xs ++ ys)
IsBytes-append [] ys p q = q
IsBytes-append (x ∷ xs) ys p q = (p.0, IsBytes-append xs ys p.1 q)

length-from_groups : (n : ℕ) (s : List ℕ) → length (from_groups n s) ≡ n * 5
unfolding from_groups
length-from_groups zero s = refl
length-from_groups (suc n) s =
    let tmp = gather 0 (take 8 s) in
    omega (
      arith,
      length-append (spread 5 tmp []) (from_groups n (drop 8 s)),
      length-spread 5 tmp [],
      length-from_groups n (drop 8 s),
    )

IsBytes-from_groups : (n : ℕ) (s : List ℕ) → IsBytes (from_groups n s)
unfolding from_groups
IsBytes-from_groups zero s = tt
IsBytes-from_groups (suc n) s =
    IsBytes-append _ _ (IsBytes-spread 5 _ [] tt) (IsBytes-from_groups n (drop 8 s))

pub from_base32-IsHash : (s : List ℕ) → IsHash (from_base32 s)
unfolding from_base32
from_base32-IsHash s = record { size = length-from_groups 4 s; bytes = IsBytes-from_groups 4 s }

-- The text of a hash is not empty.
pub to_base32_nonempty : (h : List ℕ) → IsHash h → 0 < length (to_base32 h)
unfolding to_base32 to_groups emit
to_base32_nonempty [] i = absurd (omega (arith, i.size))
to_base32_nonempty (b ∷ bs) i = omega arith
