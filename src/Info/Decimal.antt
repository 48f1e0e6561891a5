-- ===== src/Info/Decimal.antt =====
-- `std::stoul` after `std::to_string`, as ledger/ledgerdb/types.h uses them.
use native.Mathlib.Decide.{dec_lt}
use native.Mathlib.Nat.{pow-suc}
use ledger_database.Prelude.{
  ℕ, zero, suc, ◌+◌, ◌-◌, ◌*◌, ◌/◌, ◌%◌, ◌^◌, ◌<◌, ◌≡◌, refl, ap, ◌∙◌, List, [], ◌∷◌, ◌++◌, some,
  true, false, ltb, length, length-append, arith,
}
use ledger_database.Info.{digits, to_string, is_digit, read_digits, read_number, stoul}

abbrev pub AllDigits : List ℕ → Type 0
AllDigits [] = Unit
AllDigits (c ∷ cs) = (is_digit c ≡ true) × AllDigits cs

AllDigits-append :
    (xs : List ℕ) (c : ℕ) → AllDigits xs → is_digit c ≡ true → AllDigits (xs ++ c ∷ [])
AllDigits-append [] c a h = (h, tt)
AllDigits-append (x ∷ xs) c a h = (a.0, AllDigits-append xs c a.1 h)

read_digits-append :
    (xs : List ℕ) (v c : ℕ)
    → AllDigits xs
    → is_digit c ≡ true
    → read_digits v (xs ++ c ∷ []) ≡ read_digits v xs * 10 + (c - 48)
unfolding read_digits
read_digits-append [] v c a h = rw h refl
read_digits-append (x ∷ xs) v c a h = rw a.0 (read_digits-append xs (v * 10 + (x - 48)) c a.1 h)

pub AllDigits-digits : (fuel n : ℕ) → AllDigits (digits fuel n)
unfolding digits
AllDigits-digits zero n = tt
AllDigits-digits (suc fuel) n = elim (dec_lt n 10) [
  | yes one ↦ let test : ltb n 10 ≡ true = ground arith in rw test (ground arith, tt)
  | no more ↦
      let test : ltb n 10 ≡ false = ground arith in
      rw test (
        AllDigits-append (digits fuel (n / 10)) (48 + n % 10) (AllDigits-digits fuel (n / 10))
          (ground arith))
]

pub read_digits-digits : (fuel n : ℕ) → n < 10 ^ fuel → read_digits 0 (digits fuel n) ≡ n
unfolding digits read_digits
read_digits-digits zero n h = omega arith
read_digits-digits (suc fuel) n h = elim (dec_lt n 10) [
  | yes one ↦ let test : ltb n 10 ≡ true = ground arith in rw test (ground arith)
  | no more ↦
      let test : ltb n 10 ≡ false = ground arith in
      let less : n / 10 < 10 ^ fuel = omega (arith, pow-suc 10 fuel) in
      let rest = read_digits-digits fuel (n / 10) less in
      let last : is_digit (48 + n % 10) ≡ true = ground arith in
      rw test (
        omega (
          arith,
          rest,
          read_digits-append (digits fuel (n / 10)) 0 (48 + n % 10) (AllDigits-digits fuel (n / 10))
              last,
        ))
]

pub length-digits : (fuel n : ℕ) → 0 < length (digits (suc fuel) n)
unfolding digits
length-digits fuel n = ground (arith, length-append (digits fuel (n / 10)) ((48 + n % 10) ∷ []))

stoul-digits :
    (xs : List ℕ)
    → AllDigits xs
    → 0 < length xs
    → read_digits 0 xs < 2 ^ 64
    → stoul xs ≡ some (read_digits 0 xs)
unfolding stoul read_number
stoul-digits [] a h lt = absurd (omega arith)
stoul-digits (c ∷ cs) a h lt = ground (arith, a.0, lt)

pub stoul-to_string : (n : ℕ) → n < 2 ^ 64 → stoul (to_string n) ≡ some n
stoul-to_string n h =
    let value = read_digits-digits 20 n (omega arith) in
    stoul-digits (digits 20 n) (AllDigits-digits 20 n) (length-digits 19 n) (omega (arith, value))
    ∙ ap some value
