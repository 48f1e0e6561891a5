-- ===== src/Occ/Search.antt =====
-- Which prepared transaction the tests of `Prepare` meet.
use mathlib.Core.Bool.{or-true}
use ledger_database.Prelude.{
  ℕ, ◌≡◌, refl, sym, ◌∙◌, List, [], ◌∷◌, some, Bool, true, false, ◌||◌, Bool-cases, inl, inr, ◌⊎◌,
}
use ledger_database.Maps.{
  number_order, lookup, lookup-cons_same, lookup-cons_other, lookup-nil, key_discrete, IsSorted,
}
use ledger_database.Maps.Sorted.{lookup-AllAfter}
use ledger_database.Txn.{Text, Transaction}
use ledger_database.Occ.{has_key, get_prepared_writes, get_prepared_read_writes, any_key}
use ledger_database.Occ.Conflict.{
  Conflicts, any_prepared, writes_key, uses_key, contains-get_prepared_writes,
  contains-get_prepared_read_writes, any_key_sound, any_key_complete,
}

or_right : (b c : Bool) → (b || c) ≡ true → b ≡ false → c ≡ true
or_right true c h e = absurd (cc)
or_right false c h e = h

pub or_split : (b c : Bool) → (b || c) ≡ true → (b ≡ true) ⊎ (c ≡ true)
or_split true c h = inl refl
or_split false c h = inr h

pub or_either : (b : Bool) {c : Bool} → c ≡ true → (b || c) ≡ true
or_either b h = rw h (or-true b)

-- Whether a prepared transaction passes a test, and which one does.
module _ (test : Transaction → Bool) where
  any_prepared_sound :
      (ts : List (ℕ × Transaction))
      → IsSorted ts
      → any_prepared test ts ≡ true
      → (i : ℕ) × (t : Transaction) × (lookup ts i ≡ some t) × (test t ≡ true)
  any_prepared_sound [] s h = absurd (cc)
  any_prepared_sound ((id, t) ∷ ts) s h = elim (Bool-cases (test t)) [
    | inl here ↦ (id, t, lookup-cons_same ts id t, here)
    | inr elsewhere ↦
        let (i, u, there, ok_there) = any_prepared_sound ts s.1 (or_right (test t) _ h elsewhere) in
        elim (key_discrete i id) [
          | yes same ↦ absurd (cc (same, lookup-AllAfter id ts s.0, there))
          | no other ↦ (i, u, lookup-cons_other ts id i t other ∙ there, ok_there)
        ]
  ]

  any_prepared_complete :
      (ts : List (ℕ × Transaction)) (i : ℕ) (t : Transaction)
      → lookup ts i ≡ some t
      → test t ≡ true
      → any_prepared test ts ≡ true
  any_prepared_complete [] i t there h = absurd (cc (lookup-nil {V = Transaction} i))
  any_prepared_complete ((id, u) ∷ ts) i t there h = elim (key_discrete i id) [
    | yes same ↦
        let same_t : u ≡ t = cc (same, lookup-cons_same ts id u, there) in rw (same_t, h) refl
    | no other ↦
        or_either (test u)
          (any_prepared_complete ts i t (sym (lookup-cons_other ts id i u other) ∙ there) h)
  ]

module _ (ts : List (ℕ × Transaction)) (txn : Transaction) where
  -- A prepared transaction that the new one conflicts with.
  abbrev pub Met : Type 0
  Met = (i : ℕ) × (t : Transaction) × (lookup ts i ≡ some t) × Conflicts txn t

  pub reads_meet_sound : IsSorted ts → any_key txn.read_set (get_prepared_writes ts) ≡ true → Met
  reads_meet_sound s h =
      let (key, reads, found) = any_key_sound txn.read_set (get_prepared_writes ts) h in
      let (i, t, there, writes) =
        any_prepared_sound (writes_key key) ts s
          (sym (contains-get_prepared_writes ts key) ∙ found) in
      (i, t, there, (key, inl (reads, writes)))

  pub writes_meet_sound :
      IsSorted ts → any_key txn.write_set (get_prepared_read_writes ts) ≡ true → Met
  writes_meet_sound s h =
      let (key, writes, found) = any_key_sound txn.write_set (get_prepared_read_writes ts) h in
      let (i, t, there, used) =
        any_prepared_sound (uses_key key) ts s
          (sym (contains-get_prepared_read_writes ts key) ∙ found) in
      (
        i,
        t,
        there,
        (key, inr (writes, or_split (has_key t.write_set key) (has_key t.read_set key) used)),
      )

  pub reads_meet_complete :
      (i : ℕ) (t : Transaction) (key : Text)
      → lookup ts i ≡ some t
      → has_key txn.read_set key ≡ true
      → has_key t.write_set key ≡ true
      → any_key txn.read_set (get_prepared_writes ts) ≡ true
  reads_meet_complete i t key there reads writes =
      any_key_complete txn.read_set (get_prepared_writes ts) key reads (
        contains-get_prepared_writes ts key
        ∙ any_prepared_complete (writes_key key) ts i t there writes)

  pub writes_meet_complete :
      (i : ℕ) (t : Transaction) (key : Text)
      → lookup ts i ≡ some t
      → has_key txn.write_set key ≡ true
      → (has_key t.write_set key || has_key t.read_set key) ≡ true
      → any_key txn.write_set (get_prepared_read_writes ts) ≡ true
  writes_meet_complete i t key there writes used =
      any_key_complete txn.write_set (get_prepared_read_writes ts) key writes (
        contains-get_prepared_read_writes ts key
        ∙ any_prepared_complete (uses_key key) ts i t there used)

pub is_false : {b : Bool} → ¬ (b ≡ true) → b ≡ false
is_false {b = true} h = absurd (h refl)
is_false {b = false} h = refl
