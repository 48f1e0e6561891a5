-- ===== src/Maps.antt =====
-- `std::map`: a list of pairs in the order of the keys. Keys neither of which is before the other
-- are one key.
pub mod Sorted
use ledger_database.Prelude.{
  ℕ, zero, suc, ◌+◌, ◌≡◌, ◌≢◌, refl, sym, ap, ◌∙◌, subst, List, [], ◌∷◌, ◌++◌, Option, none, some,
  Bool, true, false, not, ◌&&◌, ◌||◌, length, ltb, ◌==◌, if◌then◌else◌, arith, Bool-cases, inl, inr,
  ◌⊎◌,
}

pub record Order (K : Type 0) : Type 0 where
  pub before : K → K → Bool
  pub irreflexive : (a : K) → before a a ≡ false
  pub transitive : (a b c : K) → before a b ≡ true → before b c ≡ true → before a c ≡ true
  pub total : (a b : K) → before a b ≡ false → before b a ≡ false → a ≡ b

pub ltb-irreflexive : (a : ℕ) → ltb a a ≡ false
ltb-irreflexive a = ground arith

pub ltb-transitive : (a b c : ℕ) → ltb a b ≡ true → ltb b c ≡ true → ltb a c ≡ true
ltb-transitive a b c p q = ground arith

pub ltb-total : (a b : ℕ) → ltb a b ≡ false → ltb b a ≡ false → a ≡ b
ltb-total a b p q = ground arith

instance abbrev pub number_order : Order ℕ
number_order = record {
  before = ltb;
  irreflexive = ltb-irreflexive;
  transitive = ltb-transitive;
  total = ltb-total;
}

-- `std::string`: by the first character that differs.
abbrev pub text_before : List ℕ → List ℕ → Bool
text_before [] [] = false
text_before [] (b ∷ bs) = true
text_before (a ∷ as') [] = false
text_before (a ∷ as') (b ∷ bs) =
    if ltb a b then true else if ltb b a then false else text_before as' bs

pub text-irreflexive : (a : List ℕ) → text_before a a ≡ false
text-irreflexive [] = refl
text-irreflexive (a ∷ as') = ground (arith, text-irreflexive as')

pub text-transitive :
    (a b c : List ℕ) → text_before a b ≡ true → text_before b c ≡ true → text_before a c ≡ true
text-transitive [] [] [] p q = absurd (cc)
text-transitive [] (b ∷ bs) [] p q = absurd (cc)
text-transitive [] b (c ∷ cs) p q = refl
text-transitive (a ∷ as') [] c p q = absurd (cc)
text-transitive (a ∷ as') (b ∷ bs) [] p q = absurd (cc)
text-transitive (a ∷ as') (b ∷ bs) (c ∷ cs) p q = ground (arith, text-transitive as' bs cs)

pub text-total : (a b : List ℕ) → text_before a b ≡ false → text_before b a ≡ false → a ≡ b
text-total [] [] p q = refl
text-total [] (b ∷ bs) p q = absurd (cc)
text-total (a ∷ as') [] p q = absurd (cc)
text-total (a ∷ as') (b ∷ bs) p q = ground (arith, text-total as' bs)

instance abbrev pub text_order : Order (List ℕ)
text_order = record {
  before = text_before;
  irreflexive = text-irreflexive;
  transitive = text-transitive;
  total = text-total;
}

pub key_discrete : {K : Type 0} ⦃o : Order K⦄ → (a b : K) → Dec (a ≡ b)
key_discrete ⦃o⦄ a b = elim (Bool-cases (o.before a b)) [
  | inl first ↦ no (λ e. absurd (cc (o.irreflexive a)))
  | inr no_first ↦ elim (Bool-cases (o.before b a)) [
    | inl second ↦ no (λ e. absurd (cc (o.irreflexive a)))
    | inr no_second ↦ yes (o.total a b no_first no_second)
  ]
]

module _ {K V : Type 0} ⦃o : Order K⦄ where
  unfoldable pub lookup : List (K × V) → K → Option V
  lookup [] k = none
  lookup ((j, v) ∷ m) k = if o.before k j || o.before j k then lookup m k else some v

  unfoldable pub assign : List (K × V) → K → V → List (K × V)
  assign [] k v = (k, v) ∷ []
  assign ((j, w) ∷ m) k v =
      if o.before k j
      then (k, v) ∷ (j, w) ∷ m
      else if o.before j k
      then (j, w) ∷ assign m k v
      else (j, v) ∷ m

  unfoldable pub erase : List (K × V) → K → List (K × V)
  erase [] k = []
  erase ((j, w) ∷ m) k = if o.before k j || o.before j k then (j, w) ∷ erase m k else m

  -- The key `k` is before all others.
  abbrev pub AllAfter : K → List (K × V) → Type 0
  AllAfter k [] = Unit
  AllAfter k ((j, w) ∷ m) = (o.before k j ≡ true) × AllAfter k m

  abbrev pub IsSorted : List (K × V) → Type 0
  IsSorted [] = Unit
  IsSorted ((k, v) ∷ m) = AllAfter k m × IsSorted m

  pub lookup-nil : (k : K) → lookup [] k ≡ none
  unfolding lookup
  lookup-nil k = refl

  pub lookup-cons_same : (m : List (K × V)) (k : K) (v : V) → lookup ((k, v) ∷ m) k ≡ some v
  unfolding lookup
  lookup-cons_same m k v = rw (o.irreflexive k) refl

  pub lookup-cons_other :
      (m : List (K × V)) (j k : K) (v : V) → k ≢ j → lookup ((j, v) ∷ m) k ≡ lookup m k
  unfolding lookup
  lookup-cons_other m j k v ne = ground (arith, o.total k j)

  pub erase-missing : (m : List (K × V)) (k : K) → lookup m k ≡ none → erase m k ≡ m
  unfolding lookup erase
  erase-missing [] k h = refl
  erase-missing ((j, w) ∷ m) k h = elim (Bool-cases (o.before k j || o.before j k)) [
    | inl apart ↦ rw apart (ap (λ t. (j, w) ∷ t) (erase-missing m k (ground arith)))
    | inr here ↦ absurd (ground arith)
  ]

  pub lookup-assign_same : (m : List (K × V)) (k : K) (v : V) → lookup (assign m k v) k ≡ some v
  unfolding lookup assign
  lookup-assign_same [] k v = rw (o.irreflexive k) refl
  lookup-assign_same ((j, w) ∷ m) k v = ground (arith, o.irreflexive k, lookup-assign_same m k v)

  pub lookup-assign_other :
      (m : List (K × V)) (k i : K) (v : V) → i ≢ k → lookup (assign m k v) i ≡ lookup m i
  unfolding lookup assign
  lookup-assign_other [] k i v ne = ground (arith, o.total i k)
  lookup-assign_other ((j, w) ∷ m) k i v ne =
      ground (arith, o.total i k, o.total k j, o.total j k, lookup-assign_other m k i v ne)

  pub lookup-erase_other : (m : List (K × V)) (k i : K) → i ≢ k → lookup (erase m k) i ≡ lookup m i
  unfolding lookup erase
  lookup-erase_other [] k i ne = refl
  lookup-erase_other ((j, w) ∷ m) k i ne =
      ground (arith, o.total i k, o.total k j, o.total j k, lookup-erase_other m k i ne)

  -- The pairs of a list, assigned one by one.
  unfoldable pub assign_all : List (K × V) → List (K × V) → List (K × V)
  assign_all m [] = m
  assign_all m ((k, v) ∷ kvs) = assign_all (assign m k v) kvs
