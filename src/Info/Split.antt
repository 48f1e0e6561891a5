-- ===== src/Info/Split.antt =====
-- `Utils::splitBy` on pieces joined by the character.
use mathlib.Core.List.{append-nil, append_assoc}
use ledger_database.Prelude.{ℕ, ◌≡◌, sym, ap, ◌∙◌, List, [], ◌∷◌, ◌++◌, true, false, ◌==◌, arith}
use ledger_database.Info.{split_from, split_by}

-- The text does not have the character.
abbrev pub Without : ℕ → List ℕ → Type 0
Without d [] = Unit
Without d (c ∷ cs) = ((c == d) ≡ false) × Without d cs

pub Without-append : (d : ℕ) (xs ys : List ℕ) → Without d xs → Without d ys → Without d (xs ++ ys)
Without-append d [] ys a b = b
Without-append d (x ∷ xs) ys a b = (a.0, Without-append d xs ys a.1 b)

split_from-piece :
    (d : ℕ) (xs piece rest : List ℕ)
    → Without d xs
    → split_from d piece (xs ++ d ∷ rest) ≡ (piece ++ xs) ∷ split_from d [] rest
unfolding split_from
split_from-piece d [] piece rest a =
    let test : (d == d) ≡ true = ground arith in
    rw test (ap (λ p. p ∷ split_from d [] rest) (sym (append-nil piece)))
split_from-piece d (x ∷ xs) piece rest a = rw a.0 (
    split_from-piece d xs (piece ++ x ∷ []) rest a.1
    ∙ ap (λ p. p ∷ split_from d [] rest) (append_assoc piece (x ∷ []) xs))

split_from-last :
    (d : ℕ) (xs piece : List ℕ) → Without d xs → split_from d piece xs ≡ (piece ++ xs) ∷ []
unfolding split_from
split_from-last d [] piece a = ap (λ p. p ∷ []) (sym (append-nil piece))
split_from-last d (x ∷ xs) piece a =
    rw a.0 (
      split_from-last d xs (piece ++ x ∷ []) a.1
      ∙ ap (λ p. p ∷ []) (append_assoc piece (x ∷ []) xs))

-- A piece, the delimiter and more.
pub split_by-cons :
    (d : ℕ) (xs rest : List ℕ) → Without d xs → split_by (xs ++ d ∷ rest) d ≡ xs ∷ split_by rest d
unfolding split_by
split_by-cons d xs rest a = split_from-piece d xs [] rest a

-- The last piece.
pub split_by-last : (d : ℕ) (xs : List ℕ) → Without d xs → split_by xs d ≡ xs ∷ []
unfolding split_by
split_by-last d xs a = split_from-last d xs [] a
