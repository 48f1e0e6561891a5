-- ===== src/Occ/Conflict.antt =====
-- What the sets of prepared keys hold, and when a new transaction meets them.
use mathlib.Core.Bool.{or-true, or-false, or_assoc}
use ledger_database.Prelude.{
  ℕ, is_some, subst, ◌≡◌, ◌≢◌, refl, sym, ap, ◌∙◌, List, [], ◌∷◌, Bool, true, false, ◌||◌,
  Bool-cases, inl, inr, ◌⊎◌, if◌then◌else◌,
}
use ledger_database.Maps.{
  number_order, text_order, assign, lookup-assign_same, lookup-assign_other, lookup-cons_same,
  lookup-nil, lookup-cons_other, key_discrete,
}
use ledger_database.Txn.{Text, Transaction}
use ledger_database.Occ.{
  Texts, contains, has_key, insert_keys, writes_from, get_prepared_writes, read_writes_from,
  get_prepared_read_writes, any_key,
}

-- Two transactions conflict: one of them writes a key that the other reads or writes.
abbrev pub Conflicts : Transaction → Transaction → Type 0
Conflicts txn t =
    (key : Text) × (((has_key txn.read_set key ≡ true) × (has_key t.write_set key ≡ true))
      ⊎ ((has_key txn.write_set key ≡ true)
          × ((has_key t.write_set key ≡ true) ⊎ (has_key t.read_set key ≡ true))))

or_assoc_twice : (a b c d : Bool) → (((a || b) || c) || d) ≡ (a || ((b || c) || d))
or_assoc_twice true b c d = refl
or_assoc_twice false b c d = refl

else_true : (b x : Bool) → (if b then true else x) ≡ true → b ≡ false → x ≡ true
else_true true x h e = absurd (cc)
else_true false x h e = h

if_true : (b x : Bool) → x ≡ true → (if b then true else x) ≡ true
if_true true x h = refl
if_true false x h = h

has_key-cons_same :
    {V : Type 0} → (m : List (Text × V)) (key : Text) (v : V) → has_key ((key, v) ∷ m) key ≡ true
has_key-cons_same m key v = ap is_some (lookup-cons_same m key v)

has_key-cons_other :
    {V : Type 0}
    → (m : List (Text × V)) (j key : Text) (v : V) → key ≢ j
    → has_key ((j, v) ∷ m) key ≡ has_key m key
has_key-cons_other m j key v ne = ap is_some (lookup-cons_other m j key v ne)

contains-assign_same : (s : Texts) (key : Text) → contains (assign s key tt) key ≡ true
contains-assign_same s key = ap is_some (lookup-assign_same s key tt)

contains-assign_other :
    (s : Texts) (j key : Text) → key ≢ j → contains (assign s j tt) key ≡ contains s key
contains-assign_other s j key ne = ap is_some (lookup-assign_other s j key tt ne)

insert_same :
    {V : Type 0}
    → (m : List (Text × V)) (s : Texts) (j : Text) (v : V)
    → (contains (assign s j tt) j || has_key m j) ≡ (contains s j || has_key ((j, v) ∷ m) j)
insert_same m s j v =
    ap (λ b. b || has_key m j) (contains-assign_same s j)
    ∙ sym (or-true (contains s j))
    ∙ sym (ap (λ b. contains s j || b) (has_key-cons_same m j v))

contains-insert_keys :
    {V : Type 0}
    → (m : List (Text × V)) (s : Texts) (key : Text)
    → contains (insert_keys s m) key ≡ (contains s key || has_key m key)
unfolding insert_keys
contains-insert_keys [] s key =
    sym (ap (λ b. contains s key || b) (ap is_some (lookup-nil key)) ∙ or-false (contains s key))
contains-insert_keys ((j, v) ∷ m) s key = elim (key_discrete key j) [
  | yes same ↦
      contains-insert_keys m (assign s j tt) key
      ∙ subst
          (λ k.
            (contains (assign s j tt) k || has_key m k) ≡ (contains s k || has_key ((j, v) ∷ m) k))
          (sym same) (insert_same m s j v)
  | no other ↦
      contains-insert_keys m (assign s j tt) key
      ∙ ap (λ b. b || has_key m key) (contains-assign_other s j key other)
      ∙ ap (λ b. contains s key || b) (sym (has_key-cons_other m j key v other))
]

-- Some prepared transaction writes the key, or writes or reads it.
abbrev pub any_prepared : (Transaction → Bool) → List (ℕ × Transaction) → Bool
any_prepared test [] = false
any_prepared test ((id, t) ∷ ts) = test t || any_prepared test ts

abbrev pub writes_key : Text → Transaction → Bool
writes_key key t = has_key t.write_set key

abbrev pub uses_key : Text → Transaction → Bool
uses_key key t = has_key t.write_set key || has_key t.read_set key

contains-writes_from :
    (ts : List (ℕ × Transaction)) (s : Texts) (key : Text)
    → contains (writes_from s ts) key ≡ (contains s key || any_prepared (writes_key key) ts)
unfolding writes_from
contains-writes_from [] s key = sym (or-false (contains s key))
contains-writes_from ((id, t) ∷ ts) s key =
    let rest = contains-writes_from ts (insert_keys s t.write_set) key in
    let head = contains-insert_keys t.write_set s key in
    rest
    ∙ ap (λ b. b || any_prepared (writes_key key) ts) head
    ∙ or_assoc (contains s key) (has_key t.write_set key) (any_prepared (writes_key key) ts)

contains-read_writes_from :
    (ts : List (ℕ × Transaction)) (s : Texts) (key : Text)
    → contains (read_writes_from s ts) key ≡ (contains s key || any_prepared (uses_key key) ts)
unfolding read_writes_from
contains-read_writes_from [] s key = sym (or-false (contains s key))
contains-read_writes_from ((id, t) ∷ ts) s key =
    let rest =
      contains-read_writes_from ts (insert_keys (insert_keys s t.write_set) t.read_set) key in
    let reads = contains-insert_keys t.read_set (insert_keys s t.write_set) key in
    let head = contains-insert_keys t.write_set s key in
    rest
    ∙ ap (λ b. b || any_prepared (uses_key key) ts)
        (reads ∙ ap (λ b. b || has_key t.read_set key) head)
    ∙ or_assoc_twice (contains s key) (has_key t.write_set key) (has_key t.read_set key)
        (any_prepared (uses_key key) ts)

pub contains-get_prepared_writes :
    (ts : List (ℕ × Transaction)) (key : Text)
    → contains (get_prepared_writes ts) key ≡ any_prepared (writes_key key) ts
unfolding get_prepared_writes
contains-get_prepared_writes ts key =
    contains-writes_from ts [] key
    ∙ ap (λ b. b || any_prepared (writes_key key) ts) (ap is_some (lookup-nil key))

pub contains-get_prepared_read_writes :
    (ts : List (ℕ × Transaction)) (key : Text)
    → contains (get_prepared_read_writes ts) key ≡ any_prepared (uses_key key) ts
unfolding get_prepared_read_writes
contains-get_prepared_read_writes ts key =
    contains-read_writes_from ts [] key
    ∙ ap (λ b. b || any_prepared (uses_key key) ts) (ap is_some (lookup-nil key))

-- What the loops over a new transaction's sets find.
pub any_key_sound :
    {V : Type 0}
    → (m : List (Text × V)) (s : Texts) → any_key m s ≡ true
    → (key : Text) × (has_key m key ≡ true) × (contains s key ≡ true)
unfolding any_key
any_key_sound [] s h = absurd (cc)
any_key_sound ((j, v) ∷ m) s h = elim (Bool-cases (contains s j)) [
  | inl found ↦ (j, has_key-cons_same m j v, found)
  | inr not_found ↦
      let (key, here, found) =
        any_key_sound m s (else_true (contains s j) (any_key m s) h not_found) in
      elim (key_discrete key j) [
        | yes same ↦ (j, has_key-cons_same m j v, rw (← same) found)
        | no other ↦ (key, has_key-cons_other m j key v other ∙ here, found)
      ]
]

pub any_key_complete :
    {V : Type 0}
    → (m : List (Text × V)) (s : Texts) (key : Text) → has_key m key ≡ true
    → contains s key ≡ true
    → any_key m s ≡ true
unfolding any_key
any_key_complete [] s key h c =
    let contra : true ≡ false = sym h ∙ ap is_some (lookup-nil key) in absurd (cc)
any_key_complete ((j, v) ∷ m) s key h c = elim (key_discrete key j) [
  | yes same ↦ rw (← same, c) refl
  | no other ↦
      let rest = any_key_complete m s key (sym (has_key-cons_other m j key v other) ∙ h) c in
      if_true (contains s j) (any_key m s) rest
]
