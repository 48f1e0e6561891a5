-- ===== src/Occ/Prepare.antt =====
-- `OCCStore::Prepare` on every branch.
use ledger_database.Prelude.{
  ℕ, ◌≡◌, refl, sym, ap, ◌∙◌, none, some, true, false, Bool-cases, inl, inr, ◌⊎◌, Option-cases,
}
use ledger_database.Maps.{number_order, lookup, assign, IsSorted, erase-missing}
use ledger_database.Txn.{Transaction}
use ledger_database.Occ.{
  OccStore, Reply, reply_ok, reply_fail, has_key, get_prepared_writes, get_prepared_read_writes,
  any_key, prepare, abort,
}
use ledger_database.Occ.Conflict.{Conflicts}
use ledger_database.Occ.Search.{
  Met, or_either, is_false, reads_meet_sound, writes_meet_sound, reads_meet_complete,
  writes_meet_complete,
}

-- What `Prepare` answers and leaves.
pub record Prepares {S : Type 0} (s : OccStore S) (id : ℕ) (txn : Transaction)
    (out : OccStore S × Reply) : Type 0 where
  pub again : (t : Transaction) → lookup s.prepared id ≡ some t → out ≡ (s, reply_ok)
  pub refused :
      (i : ℕ) (t : Transaction)
      → lookup s.prepared id ≡ none
      → lookup s.prepared i ≡ some t
      → Conflicts txn t
      → out ≡ (s, reply_fail)
  pub accepted :
      lookup s.prepared id ≡ none
      → ((i : ℕ) (t : Transaction) → lookup s.prepared i ≡ some t → ¬ Conflicts txn t)
      → out ≡ (record s { prepared = assign s.prepared id txn }, reply_ok)

module _ {S : Type 0} (s : OccStore S) (id : ℕ) (txn : Transaction) where
  prepare_again :
      (t : Transaction) → lookup s.prepared id ≡ some t → prepare s id txn ≡ (s, reply_ok)
  unfolding prepare
  prepare_again t h = rw (prepare, h) refl

  prepare_reads :
      lookup s.prepared id ≡ none
      → any_key txn.read_set (get_prepared_writes s.prepared) ≡ true
      → prepare s id txn ≡ (s, reply_fail)
  unfolding prepare abort
  prepare_reads h r = rw (prepare, h, r, erase-missing s.prepared id h) refl

  prepare_writes_only :
      lookup s.prepared id ≡ none
      → any_key txn.read_set (get_prepared_writes s.prepared) ≡ false
      → any_key txn.write_set (get_prepared_read_writes s.prepared) ≡ true
      → prepare s id txn ≡ (s, reply_fail)
  unfolding prepare abort
  prepare_writes_only h r w = rw (prepare, h, r, w, erase-missing s.prepared id h) refl

  prepare_writes :
      lookup s.prepared id ≡ none
      → any_key txn.write_set (get_prepared_read_writes s.prepared) ≡ true
      → prepare s id txn ≡ (s, reply_fail)
  prepare_writes h w = elim (Bool-cases (any_key txn.read_set (get_prepared_writes s.prepared))) [
    | inl r ↦ prepare_reads h r
    | inr r ↦ prepare_writes_only h r w
  ]

  prepare_clear :
      lookup s.prepared id ≡ none
      → any_key txn.read_set (get_prepared_writes s.prepared) ≡ false
      → any_key txn.write_set (get_prepared_read_writes s.prepared) ≡ false
      → prepare s id txn ≡ (record s { prepared = assign s.prepared id txn }, reply_ok)
  unfolding prepare
  prepare_clear h r w = rw (prepare, h, r, w) refl

  prepare_refused :
      lookup s.prepared id ≡ none
      → (i : ℕ) (t : Transaction) → lookup s.prepared i ≡ some t
      → Conflicts txn t
      → prepare s id txn ≡ (s, reply_fail)
  prepare_refused h i t there (key, inl (reads, writes)) =
      prepare_reads h (reads_meet_complete s.prepared txn i t key there reads writes)
  prepare_refused h i t there (key, inr (writes, inl used)) =
      prepare_writes h (writes_meet_complete s.prepared txn i t key there writes (rw used refl))
  prepare_refused h i t there (key, inr (writes, inr used)) = prepare_writes h (
      writes_meet_complete s.prepared txn i t key there writes
        (or_either (has_key t.write_set key) used))

  prepare_accepted :
      IsSorted s.prepared
      → lookup s.prepared id ≡ none
      → ¬ Met s.prepared txn
      → prepare s id txn ≡ (record s { prepared = assign s.prepared id txn }, reply_ok)
  prepare_accepted sorted h clear =
      prepare_clear h (is_false (λ r. clear (reads_meet_sound s.prepared txn sorted r)))
        (is_false (λ w. clear (writes_meet_sound s.prepared txn sorted w)))

  -- Where the prepared transactions are a map, `Prepare` answers a prepared number with OK and
  -- changes nothing. A new transaction is refused, with nothing changed, if some prepared
  -- transaction conflicts with it: one of the two writes a key that the other reads or writes.
  -- It is accepted, and prepared under its number, if none does.
  pub prepare-Prepares : IsSorted s.prepared → Prepares s id txn (prepare s id txn)
  prepare-Prepares sorted = record {
    again = prepare_again;
    refused = λ i t h there c. prepare_refused h i t there c;
    accepted = λ h clear. prepare_accepted sorted h (λ (i, t, there, c). clear i t there c);
  }

  clear_unmet :
      lookup s.prepared id ≡ none
      → any_key txn.read_set (get_prepared_writes s.prepared) ≡ false
      → any_key txn.write_set (get_prepared_read_writes s.prepared) ≡ false
      → (i : ℕ) (t : Transaction) → lookup s.prepared i ≡ some t
      → ¬ Conflicts txn t
  clear_unmet h r w i t there c =
      let both : (s, reply_fail) ≡ (record s { prepared = assign s.prepared id txn }, reply_ok) =
        sym (prepare_refused h i t there c) ∙ prepare_clear h r w in
      let replies : reply_fail ≡ reply_ok = ap (λ (o : OccStore S × Reply). o.1) both in absurd (cc)

  new_cases :
      IsSorted s.prepared
      → lookup s.prepared id ≡ none
      → ((prepare s id txn).0 ≡ s)
        ⊎ ((lookup s.prepared id ≡ none)
            × (¬ Met s.prepared txn)
            × ((prepare s id txn).0 ≡ record s { prepared = assign s.prepared id txn }))
  new_cases sorted h = elim (Bool-cases (any_key txn.read_set (get_prepared_writes s.prepared))) [
    | inl r ↦ inl (ap (λ (o : OccStore S × Reply). o.0) (prepare_reads h r))
    | inr r ↦ elim (Bool-cases (any_key txn.write_set (get_prepared_read_writes s.prepared))) [
      | inl w ↦ inl (ap (λ (o : OccStore S × Reply). o.0) (prepare_writes h w))
      | inr w ↦ inr (
        h,
        (λ (i, t, there, c). clear_unmet h r w i t there c),
        ap (λ (o : OccStore S × Reply). o.0) (prepare_clear h r w),
      )
    ]
  ]

  -- Whether `Prepare` changes the store: only where nothing conflicts.
  pub prepare-cases :
      IsSorted s.prepared
      → ((prepare s id txn).0 ≡ s)
        ⊎ ((lookup s.prepared id ≡ none)
            × (¬ Met s.prepared txn)
            × ((prepare s id txn).0 ≡ record s { prepared = assign s.prepared id txn }))
  prepare-cases sorted = elim (Option-cases (lookup s.prepared id)) [
    | inr (t, h) ↦ inl (ap (λ (o : OccStore S × Reply). o.0) (prepare_again t h))
    | inl h ↦ new_cases sorted h
  ]
