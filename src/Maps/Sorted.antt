-- ===== src/Maps/Sorted.antt =====
-- The order of the keys of a map, and its number of pairs, under the operations.
use mathlib.Core.List.{append-nil, append_assoc}
use ledger_database.Prelude.{
  some-inj, ◌+◌, ◌≡◌, refl, sym, ap, ◌∙◌, subst, List, [], ◌∷◌, ◌++◌, none, some, true, false, ◌||◌,
  length, arith, Bool-cases, inl, inr, ◌⊎◌,
}
use ledger_database.Maps.{
  Order, lookup, assign, erase, assign_all, AllAfter, IsSorted, key_discrete, lookup-assign_same,
  lookup-assign_other, lookup-erase_other,
}

module _ {K : Type 0} ⦃o : Order K⦄ where
  asymmetric : (a b : K) → o.before a b ≡ true → o.before b a ≡ false
  asymmetric a b h = elim (Bool-cases (o.before b a)) [
    | inl back ↦
        let loop = o.transitive a b a h back in let none_such = o.irreflexive a in absurd (cc)
    | inr no_back ↦ no_back
  ]

module _ {K V : Type 0} ⦃o : Order K⦄ where
  AllAfter-trans : (k j : K) (m : List (K × V)) → o.before k j ≡ true → AllAfter j m → AllAfter k m
  AllAfter-trans k j [] h a = tt
  AllAfter-trans k j ((i, v) ∷ m) h a = (o.transitive k j i h a.0, AllAfter-trans k j m h a.1)

  pub lookup-AllAfter : (k : K) (m : List (K × V)) → AllAfter k m → lookup m k ≡ none
  unfolding lookup
  lookup-AllAfter k [] a = refl
  lookup-AllAfter k ((j, w) ∷ m) a = rw a.0 (lookup-AllAfter k m a.1)

  pub lookup-erase_same : (m : List (K × V)) (k : K) → IsSorted m → lookup (erase m k) k ≡ none
  unfolding lookup erase
  lookup-erase_same [] k s = refl
  lookup-erase_same ((j, w) ∷ m) k s = elim (Bool-cases (o.before k j || o.before j k)) [
    | inl apart ↦ rw apart (rw apart (lookup-erase_same m k s.1))
    | inr here ↦
        let same : k ≡ j = o.total k j (ground arith) (ground arith) in
        rw here (lookup-AllAfter k m (subst (λ x. AllAfter x m) (sym same) s.0))
  ]

  AllAfter-assign :
      (i k : K) (v : V) (m : List (K × V))
      → o.before i k ≡ true
      → AllAfter i m
      → AllAfter i (assign m k v)
  unfolding assign
  AllAfter-assign i k v [] h a = (h, tt)
  AllAfter-assign i k v ((j, w) ∷ m) h a = elim (Bool-cases (o.before k j)) [
    | inl first ↦ rw first (h, a)
    | inr no_first ↦ elim (Bool-cases (o.before j k)) [
      | inl later ↦ rw no_first (rw later (a.0, AllAfter-assign i k v m h a.1))
      | inr here ↦ rw no_first (rw here a)
    ]
  ]

  pub assign-IsSorted : (m : List (K × V)) (k : K) (v : V) → IsSorted m → IsSorted (assign m k v)
  unfolding assign
  assign-IsSorted [] k v s = (tt, tt)
  assign-IsSorted ((j, w) ∷ m) k v s = elim (Bool-cases (o.before k j)) [
    | inl first ↦ rw first ((first, AllAfter-trans k j m first s.0), s)
    | inr no_first ↦ elim (Bool-cases (o.before j k)) [
      | inl later ↦
          rw (no_first) (rw later (AllAfter-assign j k v m later s.0, assign-IsSorted m k v s.1))
      | inr here ↦ rw no_first (rw here s)
    ]
  ]

  AllAfter-erase : (i k : K) (m : List (K × V)) → AllAfter i m → AllAfter i (erase m k)
  unfolding erase
  AllAfter-erase i k [] a = tt
  AllAfter-erase i k ((j, w) ∷ m) a = elim (Bool-cases (o.before k j || o.before j k)) [
    | inl apart ↦ rw apart (a.0, AllAfter-erase i k m a.1)
    | inr here ↦ rw here a.1
  ]

  pub erase-IsSorted : (m : List (K × V)) (k : K) → IsSorted m → IsSorted (erase m k)
  unfolding erase
  erase-IsSorted [] k s = tt
  erase-IsSorted ((j, w) ∷ m) k s = elim (Bool-cases (o.before k j || o.before j k)) [
    | inl apart ↦ rw apart (AllAfter-erase j k m s.0, erase-IsSorted m k s.1)
    | inr here ↦ rw here s.1
  ]

  -- Assigning adds one pair, or none where the key is there.
  pub length-assign_new :
      (m : List (K × V)) (k : K) (v : V)
      → IsSorted m
      → lookup m k ≡ none
      → length (assign m k v) ≡ length m + 1
  unfolding assign lookup
  length-assign_new [] k v s h = refl
  length-assign_new ((j, w) ∷ m) k v s h = ground (arith, length-assign_new m k v s.1)

  pub length-assign_old :
      (m : List (K × V)) (k : K) (v : V) {w : V}
      → IsSorted m
      → lookup m k ≡ some w
      → length (assign m k v) ≡ length m
  unfolding assign lookup
  length-assign_old [] k v s h = absurd (cc)
  length-assign_old ((j, x) ∷ m) k v {w = y} s h = elim (Bool-cases (o.before k j)) [
    | inl first ↦
        let gone = lookup-AllAfter k m (AllAfter-trans k j m first s.0) in
        absurd (ground (arith, gone))
    | inr no_first ↦ ground (arith, length-assign_old m k v {w = y} s.1)
  ]

  AllAfter-last :
      (j k : K) (v : V) (m : List (K × V)) → AllAfter j (m ++ (k, v) ∷ []) → o.before j k ≡ true
  AllAfter-last j k v [] a = a.0
  AllAfter-last j k v ((i, w) ∷ m) a = AllAfter-last j k v m a.1

  -- Assigning a key after all others puts its pair at the end.
  pub assign-append :
      (m : List (K × V)) (k : K) (v : V)
      → IsSorted (m ++ (k, v) ∷ [])
      → assign m k v ≡ m ++ (k, v) ∷ []
  unfolding assign
  assign-append [] k v s = refl
  assign-append ((j, w) ∷ m) k v s =
      let later = AllAfter-last j k v m s.0 in
      rw (asymmetric j k later) (rw later (ap (λ t. (j, w) ∷ t) (assign-append m k v s.1)))

  AllAfter-prefix : (k : K) (m n : List (K × V)) → AllAfter k (m ++ n) → AllAfter k m
  AllAfter-prefix k [] n a = tt
  AllAfter-prefix k ((j, v) ∷ m) n a = (a.0, AllAfter-prefix k m n a.1)

  IsSorted-prefix : (m n : List (K × V)) → IsSorted (m ++ n) → IsSorted m
  IsSorted-prefix [] n s = tt
  IsSorted-prefix ((k, v) ∷ m) n s = (AllAfter-prefix k m n s.0, IsSorted-prefix m n s.1)

  assign_all-sorted : (n m : List (K × V)) → IsSorted (m ++ n) → assign_all m n ≡ m ++ n
  unfolding assign_all
  assign_all-sorted [] m s = sym (append-nil m)
  assign_all-sorted ((k, v) ∷ n) m s =
      let split = append_assoc m ((k, v) ∷ []) n in
      let s' : IsSorted ((m ++ (k, v) ∷ []) ++ n) = subst IsSorted (sym split) s in
      rw (assign-append m k v (IsSorted-prefix (m ++ (k, v) ∷ []) n s'))
        (assign_all-sorted n (m ++ (k, v) ∷ []) s' ∙ split)

  -- Assigning the pairs of a map one by one to an empty map makes that map.
  pub assign_all-IsSorted : (m : List (K × V)) → IsSorted m → assign_all [] m ≡ m
  assign_all-IsSorted m s = assign_all-sorted m [] s

  -- What a map shows after a change, it showed before, or it was put there.
  pub lookup-erase-some :
      (m : List (K × V)) (k i : K) {v : V}
      → IsSorted m
      → lookup (erase m k) i ≡ some v
      → lookup m i ≡ some v
  lookup-erase-some m k i {v = v} s h = elim (key_discrete i k) [
    | yes same ↦
        let gone : lookup (erase m k) i ≡ none =
          ap (lookup (erase m k)) same ∙ lookup-erase_same m k s in
        absurd (cc (gone, h))
    | no other ↦ sym (lookup-erase_other m k i other) ∙ h
  ]

  pub lookup-assign_cases :
      (m : List (K × V)) (k i : K) (v : V) {w : V}
      → lookup (assign m k v) i ≡ some w
      → ((i ≡ k) × (v ≡ w)) ⊎ (lookup m i ≡ some w)
  lookup-assign_cases m k i v {w = w} h = elim (key_discrete i k) [
    | yes same ↦ inl (
      same,
      some-inj (sym (lookup-assign_same m k v) ∙ ap (lookup (assign m k v)) (sym same) ∙ h),
    )
    | no other ↦ inr (sym (lookup-assign_other m k i v other) ∙ h)
  ]
