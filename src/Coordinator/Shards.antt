-- ===== src/Coordinator/Shards.antt =====
-- The shards that the client of distributed/store/strongstore/client.cc takes part in and calls.
pub mod Apart
pub mod Keep
pub mod Confined
use native.Mathlib.Nat.{mod-lt}
use ledger_database.Prelude.{
  ℕ, zero, suc, ◌+◌, ◌%◌, ◌≤◌, ◌<◌, ◌≡◌, refl, sym, ap, ◌∙◌, subst, List, [], ◌∷◌, ◌++◌, map,
  Option, none, some, Bool, true, false, ltb, ◌==◌, ◌||◌, is_some, ◌>>=◌, if◌then◌else◌, Bool-cases,
  Option-cases, inl, inr, arith,
}
use ledger_database.Maps.{Order, number_order, lookup, assign}
use ledger_database.Txn.{Text}
use ledger_database.Buffer.{BufferClient, Call}
use ledger_database.Buffer
use ledger_database.Coordinator.{
  Participants, members, key_to_shard, hash_from, Coordinator, ShardAnswer, Unverified, shards_from,
  all_shards, call, begin_loop, begin, join_shard, at_shard, get_n_versions, get, buffer_key, put,
  batch_get_loop, batch_get, get_range_loop, get_range, answer_of,
}
use ledger_database.Coordinator.TwoPhase.{
  Round, Prepared, tell, prepare, prepare_loop, finish, abort, commit,
}

-- What is asked of a client.
pub data Op : Type 0 where
  begins : Op
  gets : Text → Op
  gets_versions : Text → ℕ → Op
  buffers : Text → Op
  puts : Text → Text → Op
  batch_gets : (ℕ → ShardAnswer) → List (Text × Text) → Unverified → Op
  gets_range : Text → Text → (ℕ → ShardAnswer) → List (Text × Text) → Unverified → Op
  commits : (ℕ → Round) → ℕ → Op
  aborts : Op

unfoldable pub perform : Coordinator → Op → Option Coordinator
perform c begins = some (begin c)
perform c (gets key) = some (get c key)
perform c (gets_versions key n) = some (get_n_versions c key n)
perform c (buffers key) = some (buffer_key c key)
perform c (puts key value) = some (put c key value)
perform c (batch_gets answers values keys) = do
  (c', gathered) ← batch_get c answers values keys
  some c'
perform c (gets_range from to answers values keys) = do
  (c', gathered) ← get_range c from to answers values keys
  some c'
perform c (commits rounds now) = some (commit c rounds now).0
perform c aborts = some (abort c)

unfoldable pub perform_all : Coordinator → List Op → Option Coordinator
unfolding perform
perform_all c [] = some c
perform_all c (op ∷ ops) = do c' ← perform c op; perform_all c' ops

abbrev pub Within : ℕ → List ℕ → Type 0
Within n [] = Unit
Within n (i ∷ is) = (i < n) × Within n is

pub Within-append : (n : ℕ) (is js : List ℕ) → Within n is → Within n js → Within n (is ++ js)
Within-append n [] js h k = k
Within-append n (i ∷ is) js h k = (h.0, Within-append n is js h.1 k)

unfoldable pub called : List (ℕ × Call) → List ℕ
called [] = []
called ((i, made) ∷ calls) = i ∷ called calls

-- The shards that take part, and those that have been called, are numbered below `n`, and the place of
-- any other number in `bclient` is as it was in `start`.
pub record IsInRange (start : ℕ → BufferClient) (n : ℕ) (c : Coordinator) : Type 0 where
  pub count : c.nshards ≡ n
  pub joined : Within n (members c.participants)
  pub made : Within n (called c.calls)
  pub others : (i : ℕ) → n ≤ i → c.bclient i ≡ start i

pub key_to_shard-bound : (key : Text) (n : ℕ) → 0 < n → key_to_shard key n < n
unfolding key_to_shard
key_to_shard-bound key n some_shard = mod-lt (hash_from 5381 key) some_shard

pub assign-Within :
    (n i : ℕ) (ps : Participants)
    → Within n (members ps)
    → i < n
    → Within n (members (assign ps i tt))
unfolding assign members
assign-Within n i [] h small = (small, tt)
assign-Within n i ((j, u) ∷ ps) h small = elim (Bool-cases (ltb i j)) [
  | inl before ↦ rw before (small, h)
  | inr not_before ↦ rw not_before (elim (Bool-cases (ltb j i)) [
    | inl after ↦ rw after (h.0, assign-Within n i ps h.1 small)
    | inr here ↦ rw here h
  ])
]

pub shards_from-Within : (n k i : ℕ) → i + k ≤ n → Within n (shards_from k i)
unfolding shards_from
shards_from-Within n zero i h = tt
shards_from-Within n (suc k) i h = (omega arith, shards_from-Within n k (i + 1) (omega arith))

pub called-append :
    (n : ℕ) (calls more : List (ℕ × Call))
    → Within n (called calls)
    → Within n (called more)
    → Within n (called (calls ++ more))
unfolding called
called-append n [] more h k = k
called-append n ((i, made) ∷ calls) more h k = (h.0, called-append n calls more h.1 k)

pub called-map :
    (n i : ℕ) (more : List Call) → i < n → Within n (called (map (λ made. (i, made)) more))
unfolding called
called-map n i [] small = tt
called-map n i (made ∷ more) small = (small, called-map n i more small)

pub called-each :
    (n : ℕ) (is : List ℕ) (made : ℕ → Call)
    → Within n is
    → Within n (called (map (λ i. (i, made i)) is))
unfolding called
called-each n [] made h = tt
called-each n (i ∷ is) made h = (h.0, called-each n is made h.1)

-- What holds of a result where there is one.
abbrev pub IfSome {ℓ κ} : {A : Type ℓ} → (A → Type κ) → Option A → Type κ
IfSome P none = Unit
IfSome P (some a) = P a

pub IfSome->>= {ℓ κ μ ν} :
    {A : Type ℓ} {B : Type κ} (P : A → Type μ) (Q : B → Type ν) (o : Option A) (f : A → Option B)
    → IfSome P o
    → ((a : A) → P a → IfSome Q (f a))
    → IfSome Q (o >>= f)
IfSome->>= P Q none f h k = tt
IfSome->>= P Q (some a) f h k = k a h

pub IfSome-any {ℓ κ ν} :
    {A : Type ℓ} {B : Type κ} (Q : B → Type ν) (o : Option A) (f : A → Option B)
    → ((a : A) → IfSome Q (f a))
    → IfSome Q (o >>= f)
IfSome-any Q none f k = tt
IfSome-any Q (some a) f k = k a
