-- ===== src/Replication/Quorum/Any.antt =====
-- Looking for a quorum without naming the entry.
use ledger_database.Prelude.{
  ℕ, ◌≡◌, sym, ap, ◌∙◌, subst, List, [], ◌∷◌, Option, none, some, arith, Option-cases, inl, inr,
}
use ledger_database.Maps.{
  Order, lookup, lookup-nil, lookup-cons_same, lookup-cons_other, key_discrete, IsSorted, AllAfter,
}
use ledger_database.Maps.Sorted.{lookup-AllAfter}
use ledger_database.Replication.Quorum.{QuorumSet, quorum_of, first_quorum, check_for_any_quorum}

quorum_same :
    {Msg : Type 0} → (n : ℕ) (m quorum : List (ℕ × Msg)) → quorum_of n m ≡ some quorum → m ≡ quorum
unfolding quorum_of
quorum_same n m quorum h = ground (arith, h)

quorum_of-same :
    {Msg : Type 0}
    → (n : ℕ) (m quorum : List (ℕ × Msg)) → quorum_of n m ≡ some quorum
    → quorum_of n quorum ≡ some quorum
quorum_of-same n m quorum h = ap (quorum_of n) (sym (quorum_same n m quorum h)) ∙ h

module _ {Ident Msg : Type 0} ⦃o : Order Ident⦄ where
  -- What a search for any quorum must find.
  pub record Searched (num_required : ℕ) (messages : List (Ident × List (ℕ × Msg)))
      (out : Option (List (ℕ × Msg))) : Type 0 where
    pub found :
        (quorum : List (ℕ × Msg))
        → out ≡ some quorum
        → (vs : Ident) × (lookup messages vs ≡ some quorum)
          × (quorum_of num_required quorum ≡ some quorum)
    pub missed :
        out ≡ none
        → (vs : Ident) (m : List (ℕ × Msg)) → lookup messages vs ≡ some m
        → quorum_of num_required m ≡ none

  later_there :
      (ws : Ident) (m : List (ℕ × Msg)) (messages : List (Ident × List (ℕ × Msg))) (vs : Ident)
      {x : List (ℕ × Msg)}
      → AllAfter ws messages
      → lookup messages vs ≡ some x
      → lookup ((ws, m) ∷ messages) vs ≡ some x
  later_there ws m messages vs a there = elim (key_discrete vs ws) [
    | yes same ↦ absurd (cc (same, lookup-AllAfter ws messages a, there))
    | no other ↦ lookup-cons_other messages ws vs m other ∙ there
  ]

  first_quorum-Searched :
      (n : ℕ) (messages : List (Ident × List (ℕ × Msg)))
      → IsSorted messages
      → Searched n messages (first_quorum n messages)
  unfolding first_quorum
  first_quorum-Searched n [] s = record {
    found = λ quorum h. absurd (cc);
    missed = λ h vs m there. absurd (cc (lookup-nil {V = List (ℕ × Msg)} vs, there));
  }
  first_quorum-Searched n ((ws, m) ∷ messages) s = elim (Option-cases (quorum_of n m)) [
    | inr (quorum, here) ↦
        rw (first_quorum, here)
          (record {
            found = λ found_one e.
                let same : quorum ≡ found_one = cc in
                (
                  ws,
                  lookup-cons_same messages ws m ∙ ap some (quorum_same n m quorum here ∙ same),
                  subst (λ x. quorum_of n x ≡ some x) same (quorum_of-same n m quorum here),
                );
            missed = λ e. absurd (cc);
          })
    | inl none_here ↦
        let rest = first_quorum-Searched n messages s.1 in
        rw (first_quorum, none_here)
          (record {
            found = λ quorum e.
                let (vs, there, enough) = rest.found quorum e in
                (vs, later_there ws m messages vs s.0 there, enough);
            missed = λ e vs x there. elim (key_discrete vs ws) [
              | yes same ↦
                  let here : m ≡ x = cc (same, lookup-cons_same messages ws m, there) in
                  ap (quorum_of n) (sym here) ∙ none_here
              | no other ↦
                  rest.missed e vs x (sym (lookup-cons_other messages ws vs m other) ∙ there)
            ];
          })
  ]

  -- Where the entries are a map, `CheckForQuorum` without an argument returns the messages of some
  -- entry that has enough of them, and none only if no entry has enough.
  pub check_for_any_quorum-Searched :
      (q : QuorumSet Ident Msg)
      → IsSorted q.messages
      → Searched q.num_required q.messages (check_for_any_quorum q)
  unfolding check_for_any_quorum
  check_for_any_quorum-Searched q s = first_quorum-Searched q.num_required q.messages s
