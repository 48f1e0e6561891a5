-- ===== src/Replication/Quorum/Meet.antt =====
-- How many replicas a quorum stands for, and when two of them share one.
use ledger_database.Prelude.{
  ℕ, zero, suc, ◌+◌, ◌≡◌, ◌≤◌, ◌<◌, refl, ap, ◌∙◌, subst, List, [], ◌∷◌, none, some, Bool, true,
  false, ◌||◌, ◌&&◌, length, leb, ◌==◌, if◌then◌else◌, arith, Bool-cases, is_some, inl, inr,
  ℕ_discrete,
}
use ledger_database.Maps.{number_order, lookup, IsSorted, lookup-cons_same, lookup-cons_other}
use ledger_database.Maps.Sorted.{lookup-AllAfter}
use ledger_database.Replication.Quorum.{quorum_of}

-- How many numbers below `n` pass a test.
abbrev pub count : ℕ → (ℕ → Bool) → ℕ
count zero p = 0
count (suc n) p = if p n then count n p + 1 else count n p

count-le : (n : ℕ) (p : ℕ → Bool) → count n p ≤ n
count-le zero p = omega arith
count-le (suc n) p = ground (arith, count-le n p)

count-eq : (n : ℕ) (p q : ℕ → Bool) → ((i : ℕ) → i < n → p i ≡ q i) → count n p ≡ count n q
count-eq zero p q h = refl
count-eq (suc n) p q h =
    ground (arith, h n (omega arith), count-eq n p q (λ i lt. h i (omega arith)))

-- Two tests passed by more than `n` numbers together are both passed by one.
pub meet :
    (n : ℕ) (p q : ℕ → Bool)
    → n < count n p + count n q
    → (i : ℕ) × (i < n) × (p i ≡ true) × (q i ≡ true)
meet zero p q h = absurd (omega arith)
meet (suc n) p q h = elim (Bool-cases (p n && q n)) [
  | inl both ↦ (n, omega arith, ground arith, ground arith)
  | inr apart ↦ let (i, lt, hp, hq) = meet n p q (ground arith) in (i, omega arith, hp, hq)
]

-- One more number passes.
count-more :
    (n k : ℕ) (p : ℕ → Bool) → k < n → p k ≡ false → count n (λ i. (i == k) || p i) ≡ count n p + 1
count-more zero k p lt h = absurd (omega arith)
count-more (suc n) k p lt h = elim (ℕ_discrete n k) [
  | yes here ↦
      let none_here : p n ≡ false = ap p here ∙ h in
      let below = count-eq n (λ i. (i == k) || p i) p (λ i lt. ground arith) in
      ground (arith, none_here, below)
  | no elsewhere ↦ ground (arith, count-more n k p (omega arith) h)
]

module _ {Msg : Type 0} where
  is_some-lookup :
      (m : List (ℕ × Msg)) (k i : ℕ) (v : Msg)
      → is_some (lookup ((k, v) ∷ m) i) ≡ ((i == k) || is_some (lookup m i))
  is_some-lookup m k i v = elim (ℕ_discrete i k) [
    | yes here ↦
        let test : (i == k) ≡ true = ground arith in
        rw test (ap is_some (ap (lookup ((k, v) ∷ m)) here ∙ lookup-cons_same m k v))
    | no other ↦
        let test : (i == k) ≡ false = ground arith in
        rw test (ap is_some (lookup-cons_other m k i v other))
  ]

  -- Every key of the map is a number below `n`.
  abbrev pub AllBelow : ℕ → List (ℕ × Msg) → Type 0
  AllBelow n [] = Unit
  AllBelow n ((k, v) ∷ m) = (k < n) × AllBelow n m

  length-count :
      (n : ℕ) (m : List (ℕ × Msg))
      → IsSorted m
      → AllBelow n m
      → length m ≤ count n (λ i. is_some (lookup m i))
  length-count n [] s b = omega arith
  length-count n ((k, v) ∷ m) s b =
      let rest = length-count n m s.1 b.1 in
      let more =
        count-more n k (λ i. is_some (lookup m i)) b.0 (ap is_some (lookup-AllAfter k m s.0)) in
      let same =
        count-eq n (λ i. is_some (lookup ((k, v) ∷ m) i)) (λ i. (i == k) || is_some (lookup m i))
          (λ i lt. is_some-lookup m k i v) in
      omega (arith, rest, more, same)

  enough :
      (required : ℕ) (m : List (ℕ × Msg)) {quorum : List (ℕ × Msg)}
      → quorum_of required m ≡ some quorum
      → (required ≤ length m) × (m ≡ quorum)
  unfolding quorum_of
  enough required m h = elim (Bool-cases (leb required (length m))) [
    | inl yes_enough ↦ (ground arith, ground (arith, h))
    | inr too_few ↦ absurd (ground (arith, h))
  ]

  -- The replica `a` itself, and those that sent the messages.
  abbrev pub with_self : ℕ → List (ℕ × Msg) → ℕ → Bool
  with_self a m i = (i == a) || is_some (lookup m i)

  -- With enough messages from others, and itself, it is one more than are required.
  pub count-with_self :
      (n required a : ℕ) (m : List (ℕ × Msg)) {quorum : List (ℕ × Msg)}
      → a < n
      → IsSorted m
      → AllBelow n m
      → lookup m a ≡ none
      → quorum_of required m ≡ some quorum
      → required + 1 ≤ count n (with_self a quorum)
  count-with_self n required a m inside s b absent q =
      let (size, same) = enough required m q in
      let senders = length-count n m s b in
      let more = count-more n a (λ i. is_some (lookup m i)) inside (ap is_some absent) in
      subst (λ x. required + 1 ≤ count n (with_self a x)) same (omega (arith, size, senders, more))
