-- ===== src/Occ/Isolation.antt =====
-- Steps of other transactions, of distributed/store/strongstore/occstore.cc, while one is
-- prepared.
use mathlib.Core.List.{Memᴰ, append-nil, append_assoc}
use mathlib.Core.List.Memᴰ
use ledger_database.Prelude.{
  ℕ, is_some, ◌≡◌, ◌≢◌, refl, subst, sym, ap, ◌∙◌, List, [], ◌∷◌, ◌++◌, ltb, length, Bool-cases,
  some, true, false, ◌||◌, inl, inr,
}
use ledger_database.Maps.{
  number_order, text_order, lookup, key_discrete, lookup-cons_same, lookup-cons_other,
  lookup-assign_other, lookup-erase_other,
}
use ledger_database.Txn.{Text, Transaction}
use ledger_database.Occ.{
  OccStore, VersionedKvStore, has_key, prepare, abort, commit, commit_prepared, put_writes, keys_of,
}
use ledger_database.Occ.Search.{is_false, or_split}
use ledger_database.Occ.Prepare.{prepare-cases}
use ledger_database.Occ.Runs.{
  IsSafe, Step, prepares, aborts, commits_versions, commits, commits_nothing, Step-IsSafe,
  commit_versions_ends,
}

module _ {S R : Type 0} (backend : VersionedKvStore S R) where
  -- Every step leaves the prepared transactions of the others alone.
  prepare-others :
      (s : OccStore S) (id : ℕ) (new : Transaction) (i : ℕ) {txn : Transaction}
      → IsSafe s
      → i ≢ id
      → lookup s.prepared i ≡ some txn
      → lookup (prepare s id new).0.prepared i ≡ some txn
  prepare-others s id new i safe ne there = elim (prepare-cases s id new safe.sorted) [
    | inl same ↦ ap (λ (o : OccStore S). lookup o.prepared i) same ∙ there
    | inr (h, clear, e) ↦
        ap (λ (o : OccStore S). lookup o.prepared i) e
        ∙ lookup-assign_other s.prepared id i new ne
        ∙ there
  ]

  Step-others :
      {id : ℕ} {s t : OccStore S} {txn : Transaction}
      → Step backend id s t
      → (i : ℕ) → IsSafe s
      → i ≢ id
      → lookup s.prepared i ≡ some txn
      → lookup t.prepared i ≡ some txn
  unfolding abort commit commit_prepared
  Step-others {id = id} (prepares s new) i safe ne there = prepare-others s id new i safe ne there
  Step-others {id = id} (aborts s) i safe ne there = lookup-erase_other s.prepared id i ne ∙ there
  Step-others {id = id} (commits_versions s t new time ver_keys reply replied h e) i safe ne there =
      ap (λ (o : OccStore S). lookup o.prepared i)
        (sym (commit_versions_ends backend s t id new time ver_keys reply replied h e))
      ∙ lookup-erase_other s.prepared id i ne
      ∙ there
  Step-others {id = id} (commits s new time reply h) i safe ne there =
      lookup-erase_other s.prepared id i ne ∙ there
  Step-others {id = id} (commits_nothing s time reply h) i safe ne there =
      lookup-erase_other s.prepared id i ne ∙ there

-- The store with the keys of every `put` that it is called for, in order.
abbrev pub recording :
    {S R : Type 0} → VersionedKvStore S R → VersionedKvStore (S × List (List Text)) R
recording backend = record {
  get_digest = λ s reply. backend.get_digest s.0 reply;
  batch_get = λ s keys reply. backend.batch_get s.0 keys reply;
  get_n_versions = λ s ver_keys reply. backend.get_n_versions s.0 ver_keys reply;
  put = λ s keys values time reply.
      let (store, replied) = backend.put s.0 keys values time reply in
      ((store, s.1 ++ keys ∷ []), replied);
}

-- No key has a part in a transaction.
abbrev pub AvoidedBy : Transaction → List Text → Type 0
AvoidedBy txn keys =
    (key : Text) → Memᴰ key keys → (has_key txn.write_set key || has_key txn.read_set key) ≡ false

abbrev pub AllAvoidedBy : Transaction → List (List Text) → Type 0
AllAvoidedBy txn [] = Unit
AllAvoidedBy txn (keys ∷ puts) = AvoidedBy txn keys × AllAvoidedBy txn puts

AllAvoidedBy-append :
    (txn : Transaction) (xs ys : List (List Text))
    → AllAvoidedBy txn xs
    → AllAvoidedBy txn ys
    → AllAvoidedBy txn (xs ++ ys)
AllAvoidedBy-append txn [] ys a b = b
AllAvoidedBy-append txn (x ∷ xs) ys a b = (a.0, AllAvoidedBy-append txn xs ys a.1 b)

-- What `t` has put after `s`, which avoids the transaction.
pub record PutsAvoid (txn : Transaction) (before after : List (List Text)) : Type 0 where
  pub puts : List (List Text)
  pub all_puts : after ≡ before ++ puts
  pub avoided : AllAvoidedBy txn puts

no_put :
    (txn : Transaction) {before after : List (List Text)}
    → after ≡ before
    → PutsAvoid txn before after
no_put txn {before = before} same = record {
  puts = [];
  all_puts = same ∙ sym (append-nil before);
  avoided = tt;
}

Memᴰ-keys_of :
    {V : Type 0} (m : List (Text × V)) (key : Text) → Memᴰ key (keys_of m) → has_key m key ≡ true
unfolding has_key
Memᴰ-keys_of [] key h = absurd (Memᴰ.not-nil h)
Memᴰ-keys_of ((k, v) ∷ m) key h = elim (key_discrete key k) [
  | yes here ↦ ap is_some (ap (lookup ((k, v) ∷ m)) here ∙ lookup-cons_same m k v)
  | no other ↦ elim (Memᴰ.cases_cons h) [
    | inl here ↦ absurd (other here)
    | inr later ↦ ap is_some (lookup-cons_other m k key v other) ∙ Memᴰ-keys_of m key later
  ]
]

other-AvoidedBy :
    {S : Type 0} (s : OccStore S) (id i : ℕ) (new txn : Transaction)
    → IsSafe s
    → i ≢ id
    → lookup s.prepared id ≡ some new
    → lookup s.prepared i ≡ some txn
    → AvoidedBy txn (keys_of new.write_set)
other-AvoidedBy s id i new txn safe ne h there key w = is_false (λ used.
    safe.apart id i new txn (λ e. ne (sym e)) h there
      (
        key,
        inr (
          Memᴰ-keys_of new.write_set key w,
          or_split (has_key txn.write_set key) (has_key txn.read_set key) used,
        ),
      ))

module _ {S R : Type 0} (backend : VersionedKvStore S R) where
  commit_prepared-PutsAvoid :
      (s : OccStore (S × List (List Text))) (id : ℕ) (new txn : Transaction) (time : ℕ)
      (ver_keys : List (Text × ℕ)) (reply : R)
      → AvoidedBy txn (keys_of new.write_set)
      → PutsAvoid txn s.store.1
          (commit_prepared (recording backend) s id new time ver_keys reply).0.store.1
  unfolding commit_prepared put_writes
  commit_prepared-PutsAvoid s id new txn time ver_keys reply avoids =
      elim (Bool-cases (ltb 0 (length new.write_set))) [
        | inl writes ↦
            rw writes (record {
              puts = keys_of new.write_set ∷ [];
              all_puts = refl;
              avoided = (avoids, tt);
            })
        | inr nothing ↦ rw nothing (no_put txn refl)
      ]

  -- A step of another transaction puts no key that a prepared one reads or writes.
  Step-PutsAvoid :
      {id : ℕ} {s t : OccStore (S × List (List Text))} {txn : Transaction}
      → Step (recording backend) id s t
      → (i : ℕ) → IsSafe s
      → i ≢ id
      → lookup s.prepared i ≡ some txn
      → PutsAvoid txn s.store.1 t.store.1
  unfolding abort commit commit_prepared put_writes
  Step-PutsAvoid {id = id} {txn = txn} (prepares s new) i safe ne there =
      elim (prepare-cases s id new safe.sorted) [
        | inl same ↦ no_put txn (ap (λ o. o.store.1) same)
        | inr (h, clear, e) ↦ no_put txn (ap (λ o. o.store.1) e)
      ]
  Step-PutsAvoid {txn = txn} (aborts s) i safe ne there = no_put txn refl
  Step-PutsAvoid {id = id} {txn = txn} (commits_versions s t new time ver_keys reply replied h e) i
        safe ne there =
      subst (λ (o : OccStore (S × List (List Text))). PutsAvoid txn s.store.1 o.store.1)
        (commit_versions_ends (recording backend) s t id new time ver_keys reply replied h e)
        (commit_prepared-PutsAvoid s id new txn time ver_keys reply
          (other-AvoidedBy s id i new txn safe ne h there))
  Step-PutsAvoid {id = id} {txn = txn} (commits s new time reply h) i safe ne there = record {
    puts = keys_of new.write_set ∷ [];
    all_puts = rw h refl;
    avoided = (other-AvoidedBy s id i new txn safe ne h there, tt);
  }
  Step-PutsAvoid {txn = txn} (commits_nothing s time reply h) i safe ne there = record {
    puts = [] ∷ [];
    all_puts = rw h refl;
    avoided = ((λ key none_such. absurd (Memᴰ.not-nil none_such)), tt);
  }

  -- Steps of other transactions than `i`.
  pub data Others (i : ℕ) : OccStore S → OccStore S → Type 0 where
    stop : (s : OccStore S) → Others i s s
    step :
        {id : ℕ} {s t u : OccStore S} → i ≢ id → Step backend id s t → Others i t u → Others i s u

module _ {S R : Type 0} (backend : VersionedKvStore S R) where
  -- While a transaction is prepared and others prepare, abort and commit, it stays prepared, and no
  -- commit calls the store to put a key that it reads or writes.
  pub Others-PutsAvoid :
      {i : ℕ} {s t : OccStore (S × List (List Text))} (txn : Transaction)
      → Others (recording backend) i s t
      → IsSafe s
      → lookup s.prepared i ≡ some txn
      → (lookup t.prepared i ≡ some txn) × PutsAvoid txn s.store.1 t.store.1
  Others-PutsAvoid txn (stop s) safe there = (there, no_put txn refl)
  Others-PutsAvoid {i = i} {s = s} {t = u} txn (step {t = t} ne st rest) safe there =
      let (still, later) =
        Others-PutsAvoid txn rest (Step-IsSafe (recording backend) st safe)
          (Step-others (recording backend) st i safe ne there) in
      let now = Step-PutsAvoid backend st i safe ne there in
      (
        still,
        record {
          puts = now.puts ++ later.puts;
          all_puts =
              later.all_puts
              ∙ ap (λ x. x ++ later.puts) now.all_puts
              ∙ append_assoc s.store.1 now.puts later.puts;
          avoided = AllAvoidedBy-append txn now.puts later.puts now.avoided later.avoided;
        },
      )
