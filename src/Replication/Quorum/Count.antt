-- ===== src/Replication/Quorum/Count.antt =====
-- The number of replicas behind a quorum.
use ledger_database.Prelude.{
  ℕ, ◌+◌, ◌≡◌, ◌≢◌, refl, sym, ap, ◌∙◌, List, [], ◌∷◌, none, some, Bool, true, false, ◌||◌, length,
  leb, ◌==◌, if◌then◌else◌, arith, Option-cases, is_some, inl, inr,
}
use ledger_database.Maps.{
  Order, number_order, lookup, assign, lookup-assign_same, lookup-assign_other, IsSorted,
  lookup-nil, key_discrete, assign_all,
}
use ledger_database.Maps.Sorted.{length-assign_new, length-assign_old, assign-IsSorted}
use ledger_database.Replication.Quorum.{
  QuorumSet, messages_at, touch, check_for_quorum, quorum_of, put_message, add_and_check_for_quorum,
  add, clear_at,
}

module _ {Msg : Type 0} (n : ℕ) (m : List (ℕ × Msg)) where
  pub quorum_of-enough : leb n (length m) ≡ true → quorum_of n m ≡ some m
  unfolding quorum_of
  quorum_of-enough h = rw h refl

  pub quorum_of-few : leb n (length m) ≡ false → quorum_of n m ≡ none
  unfolding quorum_of
  quorum_of-few h = rw h refl

module _ {Ident Msg : Type 0} ⦃o : Order Ident⦄ where
  messages_at-assign_same :
      (ms : List (Ident × List (ℕ × Msg))) (vs : Ident) (m : List (ℕ × Msg))
      → messages_at (assign ms vs m) vs ≡ m
  unfolding messages_at
  messages_at-assign_same ms vs m = rw (messages_at, lookup-assign_same ms vs m) refl

  messages_at-assign_other :
      (ms : List (Ident × List (ℕ × Msg))) (vs ws : Ident) (m : List (ℕ × Msg))
      → ws ≢ vs
      → messages_at (assign ms vs m) ws ≡ messages_at ms ws
  unfolding messages_at
  messages_at-assign_other ms vs ws m ne = rw (messages_at, lookup-assign_other ms vs ws m ne) refl

  -- What `AddAndCheckForQuorum` answers with: the entry's messages with the new one, if enough.
  pub add_and_check_for_quorum-quorum_of :
      (q : QuorumSet Ident Msg) (vs : Ident) (r : ℕ) (msg : Msg)
      → (add_and_check_for_quorum q vs r msg).1
        ≡ quorum_of q.num_required (assign (messages_at q.messages vs) r msg)
  unfolding add_and_check_for_quorum check_for_quorum put_message
  add_and_check_for_quorum-quorum_of q vs r msg =
      ap (quorum_of q.num_required)
        (messages_at-assign_same q.messages vs (assign (messages_at q.messages vs) r msg))

  touch-put_message :
      (q : QuorumSet Ident Msg) (vs : Ident) (r : ℕ) (msg : Msg)
      → touch (put_message q vs r msg) vs ≡ put_message q vs r msg
  unfolding touch put_message
  touch-put_message q vs r msg =
      rw (touch, lookup-assign_same q.messages vs (assign (messages_at q.messages vs) r msg)) refl

  -- Messages of one entry added one after the other.
  pub add_all : QuorumSet Ident Msg → Ident → List (ℕ × Msg) → QuorumSet Ident Msg
  add_all q vs [] = q
  add_all q vs ((r, msg) ∷ later) = add_all (add q vs r msg) vs later

  add-put_message :
      (q : QuorumSet Ident Msg) (vs : Ident) (r : ℕ) (msg : Msg)
      → add q vs r msg ≡ put_message q vs r msg
  unfolding add add_and_check_for_quorum check_for_quorum
  add-put_message q vs r msg = touch-put_message q vs r msg

  add_all-assign_all :
      (later : List (ℕ × Msg)) (q : QuorumSet Ident Msg) (vs : Ident)
      → messages_at (add_all q vs later).messages vs ≡ assign_all (messages_at q.messages vs) later
  unfolding add_all assign_all put_message
  add_all-assign_all [] q vs = refl
  add_all-assign_all ((r, msg) ∷ later) q vs =
      add_all-assign_all later (add q vs r msg) vs
      ∙ ap (λ m. assign_all m later)
          (ap (λ (p : QuorumSet Ident Msg). messages_at p.messages vs) (add-put_message q vs r msg)
            ∙ messages_at-assign_same q.messages vs (assign (messages_at q.messages vs) r msg))

  num_required-add_all :
      (later : List (ℕ × Msg)) (q : QuorumSet Ident Msg) (vs : Ident)
      → (add_all q vs later).num_required ≡ q.num_required
  unfolding add_all put_message
  num_required-add_all [] q vs = refl
  num_required-add_all ((r, msg) ∷ later) q vs =
      num_required-add_all later (add q vs r msg) vs
      ∙ ap (λ (p : QuorumSet Ident Msg). p.num_required) (add-put_message q vs r msg)

-- Whether a number is in a list.
abbrev pub elem : List ℕ → ℕ → Bool
elem [] r = false
elem (x ∷ xs) r = (r == x) || elem xs r

-- How many different replicas sent a list of messages, other than those seen.
abbrev pub senders : {Msg : Type 0} → List ℕ → List (ℕ × Msg) → ℕ
senders seen [] = 0
senders seen ((r, msg) ∷ later) =
    if elem seen r then senders seen later else senders (r ∷ seen) later + 1

module _ {Msg : Type 0} where
  -- The replicas seen are those with a message.
  abbrev Same : List ℕ → List (ℕ × Msg) → Type 0
  Same seen m = (r : ℕ) → elem seen r ≡ is_some (lookup m r)

  Same-old :
      (seen : List ℕ) (m : List (ℕ × Msg)) (r : ℕ) (msg : Msg)
      → Same seen m
      → elem seen r ≡ true
      → Same seen (assign m r msg)
  Same-old seen m r msg same old n = elim (key_discrete n r) [
    | yes here ↦
        ap (elem seen) here
        ∙ old
        ∙ sym (ap is_some (ap (lookup (assign m r msg)) here ∙ lookup-assign_same m r msg))
    | no other ↦ same n ∙ sym (ap is_some (lookup-assign_other m r n msg other))
  ]

  Same-new :
      (seen : List ℕ) (m : List (ℕ × Msg)) (r : ℕ) (msg : Msg)
      → Same seen m
      → Same (r ∷ seen) (assign m r msg)
  Same-new seen m r msg same n = elim (key_discrete n r) [
    | yes here ↦
        let test : (n == r) ≡ true = ground arith in
        rw test (sym (ap is_some (ap (lookup (assign m r msg)) here ∙ lookup-assign_same m r msg)))
    | no other ↦
        let test : (n == r) ≡ false = ground arith in
        rw test (same n ∙ sym (ap is_some (lookup-assign_other m r n msg other)))
  ]

  length-assign_all :
      (later : List (ℕ × Msg)) (seen : List ℕ) (m : List (ℕ × Msg))
      → IsSorted m
      → Same seen m
      → length (assign_all m later) ≡ length m + senders seen later
  unfolding assign_all
  length-assign_all [] seen m s same = omega arith
  length-assign_all ((r, msg) ∷ later) seen m s same = elim (Option-cases (lookup m r)) [
    | inl new ↦
        let test : elem seen r ≡ false = same r ∙ ap is_some new in
        let rest =
          length-assign_all later (r ∷ seen) (assign m r msg) (assign-IsSorted m r msg s)
            (Same-new seen m r msg same) in
        rw test (omega (arith, rest, length-assign_new m r msg s new))
    | inr (v, old) ↦
        let test : elem seen r ≡ true = same r ∙ ap is_some old in
        let rest =
          length-assign_all later seen (assign m r msg) (assign-IsSorted m r msg s)
            (Same-old seen m r msg same test) in
        rw test (omega (arith, rest, length-assign_old m r msg s old))
  ]

module _ {Ident Msg : Type 0} ⦃o : Order Ident⦄ where
  -- After an entry is cleared and messages are added to it, `CheckForQuorum` answers with the
  -- entry's messages if they come from at least as many different replicas as are required, and
  -- with none if they come from fewer.
  pub check_for_quorum-senders :
      (q : QuorumSet Ident Msg) (vs : Ident) (later : List (ℕ × Msg))
      → (check_for_quorum (add_all (clear_at q vs) vs later) vs).1
        ≡ (if leb q.num_required (senders [] later) then some (assign_all [] later) else none)
  unfolding check_for_quorum quorum_of clear_at
  check_for_quorum-senders q vs later =
      let cleared = messages_at-assign_same q.messages vs [] in
      let all =
        add_all-assign_all later (clear_at q vs) vs ∙ ap (λ m. assign_all m later) cleared in
      let count : length (assign_all [] later) ≡ senders [] later =
        omega (arith, length-assign_all later [] [] tt (λ r. sym (ap is_some (lookup-nil r)))) in
      rw (all, num_required-add_all later (clear_at q vs) vs, count) refl
