-- ===== src/Occ/Runs.antt =====
-- Runs of the shard's calls, and what holds of its prepared transactions between them.
use ledger_database.Prelude.{
  ℕ, ◌≡◌, ◌≢◌, refl, sym, ap, ◌∙◌, subst, List, [], Option, none, some, inl, inr,
}
use ledger_database.Panic.{ok}
use ledger_database.Maps.{number_order, text_order, lookup, assign, erase, lookup-nil, IsSorted}
use ledger_database.Maps.Sorted.{
  assign-IsSorted, erase-IsSorted, lookup-erase-some, lookup-assign_cases,
}
use ledger_database.Txn.{Text, Transaction}
use ledger_database.Occ.{
  OccStore, VersionedKvStore, prepare, abort, commit, commit_prepared, commit_versions,
}
use ledger_database.Occ.Conflict.{Conflicts}
use ledger_database.Occ.Search.{Met}
use ledger_database.Occ.Prepare.{prepare-cases}

-- The prepared transactions are a map, and no two of them conflict.
pub record IsSafe {S : Type 0} (s : OccStore S) : Type 0 where
  pub sorted : IsSorted s.prepared
  pub apart :
      (i j : ℕ) (t u : Transaction)
      → i ≢ j
      → lookup s.prepared i ≡ some t
      → lookup s.prepared j ≡ some u
      → ¬ Conflicts t u

Conflicts-sym : (t u : Transaction) → Conflicts t u → Conflicts u t
Conflicts-sym t u (key, inl (reads, writes)) = (key, inr (writes, inr reads))
Conflicts-sym t u (key, inr (writes, inl writes')) = (key, inr (writes', inl writes))
Conflicts-sym t u (key, inr (writes, inr reads)) = (key, inl (reads, writes))

module _ {S : Type 0} where
  -- The store before anything was prepared.
  pub empty-IsSafe : (store : S) → IsSafe (record { store = store; prepared = [] })
  empty-IsSafe store = record {
    sorted = tt;
    apart = λ i j t u ne hi hj c. absurd (cc (lookup-nil {V = Transaction} i, hi));
  }

  erase-IsSafe :
      (s : OccStore S) (store : S) (id : ℕ)
      → IsSafe s
      → IsSafe (record { store = store; prepared = erase s.prepared id })
  erase-IsSafe s store id safe = record {
    sorted = erase-IsSorted s.prepared id safe.sorted;
    apart = λ i j t u ne hi hj.
        safe.apart i j t u ne (lookup-erase-some s.prepared id i safe.sorted hi)
          (lookup-erase-some s.prepared id j safe.sorted hj);
  }

  assign-IsSafe :
      (s : OccStore S) (id : ℕ) (txn : Transaction)
      → IsSafe s
      → lookup s.prepared id ≡ none
      → ¬ Met s.prepared txn
      → IsSafe (record s { prepared = assign s.prepared id txn })
  assign-IsSafe s id txn safe h clear = record {
    sorted = assign-IsSorted s.prepared id txn safe.sorted;
    apart = λ i j t u ne hi hj c. elim (lookup-assign_cases s.prepared id i txn hi) [
      | inl (i_new, t_new) ↦ elim (lookup-assign_cases s.prepared id j txn hj) [
        | inl (j_new, u_new) ↦ ne (i_new ∙ sym j_new)
        | inr j_old ↦ clear (j, u, j_old, subst (λ x. Conflicts x u) (sym t_new) c)
      ]
      | inr i_old ↦ elim (lookup-assign_cases s.prepared id j txn hj) [
        | inl (j_new, u_new) ↦
            clear (i, t, i_old, Conflicts-sym t txn (subst (λ x. Conflicts t x) (sym u_new) c))
        | inr j_old ↦ safe.apart i j t u ne i_old j_old c
      ]
    ];
  }

  prepare-IsSafe :
      (s : OccStore S) (id : ℕ) (txn : Transaction) → IsSafe s → IsSafe (prepare s id txn).0
  prepare-IsSafe s id txn safe = elim (prepare-cases s id txn safe.sorted) [
    | inl same ↦ subst IsSafe (sym same) safe
    | inr (h, clear, e) ↦ subst IsSafe (sym e) (assign-IsSafe s id txn safe h clear)
  ]

ok-inj : {A : Type 0} {a b : A} → ok a ≡ ok b → a ≡ b
ok-inj h = cc

module _ {S R : Type 0} (backend : VersionedKvStore S R) where
  -- One call of transaction `id`.
  pub data Step (id : ℕ) : OccStore S → OccStore S → Type 0 where
    prepares : (s : OccStore S) (txn : Transaction) → Step id s (prepare s id txn).0
    aborts : (s : OccStore S) → Step id s (abort s id)
    commits_versions :
        (s t : OccStore S) (txn : Transaction) (time : ℕ) (ver_keys : List (Text × ℕ)) (reply : R)
        (replied : Option R)
        → lookup s.prepared id ≡ some txn
        → commit_versions backend s id time ver_keys reply ≡ ok (t, replied)
        → Step id s t
    commits :
        (s : OccStore S) (txn : Transaction) (time : ℕ) (reply : R)
        → lookup s.prepared id ≡ some txn
        → Step id s (commit backend s id time reply).0
    commits_nothing :
        (s : OccStore S) (time : ℕ) (reply : R)
        → lookup s.prepared id ≡ none
        → Step id s (commit backend s id time reply).0

  -- Where a commit with versions leaves the shard.
  pub commit_versions_ends :
      (s t : OccStore S) (id : ℕ) (txn : Transaction) (time : ℕ) (ver_keys : List (Text × ℕ))
      (reply : R) (replied : Option R)
      → lookup s.prepared id ≡ some txn
      → commit_versions backend s id time ver_keys reply ≡ ok (t, replied)
      → (commit_prepared backend s id txn time ver_keys reply).0 ≡ t
  unfolding commit_versions
  commit_versions_ends s t id txn time ver_keys reply replied there e =
      let returned : commit_versions backend s id time ver_keys reply
          ≡ ok (commit_prepared backend s id txn time ver_keys reply) =
        rw (commit_versions, there) refl in
      ap (λ (o : OccStore S × Option R). o.0) (ok-inj (sym returned ∙ e))

  -- One step of any transaction.
  pub Step-IsSafe : {id : ℕ} {s t : OccStore S} → Step id s t → IsSafe s → IsSafe t
  unfolding abort commit commit_prepared
  Step-IsSafe {id = id} (prepares s txn) safe = prepare-IsSafe s id txn safe
  Step-IsSafe {id = id} (aborts s) safe = erase-IsSafe s s.store id safe
  Step-IsSafe {id = id} (commits_versions s t txn time ver_keys reply replied there e) safe =
      subst IsSafe (commit_versions_ends s t id txn time ver_keys reply replied there e)
        (erase-IsSafe s _ id safe)
  Step-IsSafe {id = id} (commits s txn time reply there) safe = erase-IsSafe s _ id safe
  Step-IsSafe {id = id} (commits_nothing s time reply there) safe = erase-IsSafe s _ id safe

  -- Any number of steps, of any transactions.
  pub data Reach (s : OccStore S) : OccStore S → Type 0 where
    here : Reach s s
    next : {id : ℕ} {t u : OccStore S} → Reach s t → Step id t u → Reach s u

  -- From the shard with nothing prepared, whatever calls come in whatever order, the prepared
  -- transactions are a map and no two of them conflict.
  pub Reach-IsSafe :
      (store : S) {t : OccStore S} → Reach (record { store = store; prepared = [] }) t → IsSafe t
  Reach-IsSafe store here = empty-IsSafe store
  Reach-IsSafe store (next r st) = Step-IsSafe st (Reach-IsSafe store r)
