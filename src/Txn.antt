-- ===== src/Txn.antt =====
-- distributed/store/common: timestamp.cc, timestamp.h, transaction.cc and transaction.h. A key and
-- a value are texts; the read set and the write set are maps, kept in the order of their keys,
-- which `std::unordered_map` leaves open.
pub mod Codec
mod Tests
use ledger_database.Prelude.{
  ℕ, ◌≡◌, refl, List, [], ◌∷◌, Bool, true, false, not, ◌&&◌, ◌||◌, ltb, leb, ◌==◌, if◌then◌else◌,
  arith,
}
use ledger_database.Maps.{Order, text_order, assign}

abbrev pub Text : Type 0
Text = List ℕ

pub record Timestamp : Type 0 where
  pub timestamp : ℕ
  pub id : ℕ

pub eq_timestamp : Timestamp → Timestamp → Bool
eq_timestamp a b = (a.timestamp == b.timestamp) && (a.id == b.id)

pub ne_timestamp : Timestamp → Timestamp → Bool
ne_timestamp a b = not (a.timestamp == b.timestamp) || not (a.id == b.id)

pub gt_timestamp : Timestamp → Timestamp → Bool
gt_timestamp a b = if a.timestamp == b.timestamp then ltb b.id a.id else ltb b.timestamp a.timestamp

pub lt_timestamp : Timestamp → Timestamp → Bool
lt_timestamp a b = if a.timestamp == b.timestamp then ltb a.id b.id else ltb a.timestamp b.timestamp

pub ge_timestamp : Timestamp → Timestamp → Bool
ge_timestamp a b = if a.timestamp == b.timestamp then leb b.id a.id else leb b.timestamp a.timestamp

pub le_timestamp : Timestamp → Timestamp → Bool
le_timestamp a b = if a.timestamp == b.timestamp then leb a.id b.id else leb a.timestamp b.timestamp

abbrev pub is_valid : Timestamp → Bool
is_valid t = ltb 0 t.timestamp && ltb 0 t.id

pub record Transaction : Type 0 where
  pub read_set : List (Text × Timestamp)
  pub write_set : List (Text × Text)

abbrev pub no_transaction : Transaction
no_transaction = record { read_set = []; write_set = [] }

abbrev pub add_read_set : Transaction → Text → Timestamp → Transaction
add_read_set t key read_time = record t { read_set = assign t.read_set key read_time }

abbrev pub add_write_set : Transaction → Text → Text → Transaction
add_write_set t key value = record t { write_set = assign t.write_set key value }

-- What the six comparisons of timestamps must be: one total order.
pub record IsTotalOrder (a b c : Timestamp) : Type 0 where
  pub equal : eq_timestamp a b ≡ true → a ≡ b
  pub reflexive : eq_timestamp a a ≡ true
  pub differs : ne_timestamp a b ≡ not (eq_timestamp a b)
  pub mirror : gt_timestamp a b ≡ lt_timestamp b a
  pub weak : le_timestamp a b ≡ (lt_timestamp a b || eq_timestamp a b)
  pub weak_mirror : ge_timestamp a b ≡ not (lt_timestamp a b)
  pub transitive : lt_timestamp a b ≡ true → lt_timestamp b c ≡ true → lt_timestamp a c ≡ true
  pub irreflexive : lt_timestamp a a ≡ false
  pub total : lt_timestamp a b ≡ false → lt_timestamp b a ≡ false → a ≡ b

-- The comparisons of timestamps are one total order: `==` is equality, `!=` its negation, `>` and
-- `>=` mirror `<` and `<=`, `<=` is `<` or `==`, and `<` is transitive, irreflexive and total.
timestamp-IsTotalOrder : (a b c : Timestamp) → IsTotalOrder a b c
unfolding eq_timestamp ne_timestamp gt_timestamp lt_timestamp ge_timestamp le_timestamp
timestamp-IsTotalOrder a b c = record {
  equal = λ h. ground arith;
  reflexive = ground arith;
  differs = ground arith;
  mirror = ground arith;
  weak = ground arith;
  weak_mirror = ground arith;
  transitive = λ p q. ground arith;
  irreflexive = ground arith;
  total = λ p q. ground arith;
}
