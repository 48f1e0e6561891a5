-- ===== src/Replication.antt =====
-- distributed/replication: the viewstamps and the requests that the log and the replica share.
pub mod Log
pub mod Messages
pub mod Replica
pub mod Client
pub mod Quorum
mod Tests
use ledger_database.Maps.{Order}
use ledger_database.Prelude.{
  ℕ, ◌+◌, ◌-◌, ◌%◌, ◌^◌, ◌≡◌, ◌≢◌, ◌⊎◌, refl, Bool, true, false, not, ◌||◌, List, arith, ltb, ◌==◌,
  if◌then◌else◌,
}

-- uint64_t `n + 1` and `n - 1`.
abbrev pub inc64 : ℕ → ℕ
inc64 n = (n + 1) % 2 ^ 64

abbrev pub dec64 : ℕ → ℕ
dec64 n = (n + 2 ^ 64 - 1) % 2 ^ 64

-- viewstamp.h
pub record Viewstamp : Type 0 where
  pub view : ℕ
  pub opnum : ℕ

-- The three results -1, 0 and 1.
pub data Sign : Type 0 where
  minus zero_sign plus : Sign

pub viewstamp_compare : Viewstamp → Viewstamp → Sign
viewstamp_compare a b =
    if ltb a.view b.view
    then minus
    else if ltb b.view a.view
    then plus
    else if ltb a.opnum b.opnum
    then minus
    else if ltb b.opnum a.opnum
    then plus
    else zero_sign

abbrev pub is_minus : Sign → Bool
is_minus minus = true
is_minus _ = false

abbrev pub is_zero : Sign → Bool
is_zero zero_sign = true
is_zero _ = false

-- `operator==`, `operator<`, `operator<=` on viewstamps; the other three are their mirrors.
pub eq_viewstamp : Viewstamp → Viewstamp → Bool
unfolding viewstamp_compare
eq_viewstamp a b = is_zero (viewstamp_compare a b)

pub lt_viewstamp : Viewstamp → Viewstamp → Bool
unfolding viewstamp_compare
lt_viewstamp a b = is_minus (viewstamp_compare a b)

pub le_viewstamp : Viewstamp → Viewstamp → Bool
unfolding lt_viewstamp
le_viewstamp a b = not (lt_viewstamp b a)

-- request.proto
pub record Request : Type 0 where
  pub clientid : ℕ
  pub clientreqid : ℕ
  pub op : List ℕ

-- What a comparison of viewstamps must be: the lexicographic order.
pub record IsLexicographic (a b c : Viewstamp) : Type 0 where
  pub equal : eq_viewstamp a b ≡ true → a ≡ b
  pub reflexive : eq_viewstamp a a ≡ true
  pub asymmetric : lt_viewstamp a b ≡ true → lt_viewstamp b a ≡ false
  pub transitive : lt_viewstamp a b ≡ true → lt_viewstamp b c ≡ true → lt_viewstamp a c ≡ true
  pub total : lt_viewstamp a b ≡ false → lt_viewstamp b a ≡ false → a ≡ b
  pub weak : le_viewstamp a b ≡ (lt_viewstamp a b || eq_viewstamp a b)

module _ (a b c : Viewstamp) where
  pub lt_trans : lt_viewstamp a b ≡ true → lt_viewstamp b c ≡ true → lt_viewstamp a c ≡ true
  unfolding lt_viewstamp
  lt_trans p q = ground arith

  lt_asym : lt_viewstamp a b ≡ true → lt_viewstamp b a ≡ false
  unfolding lt_viewstamp
  lt_asym p = ground arith

  pub lt_total : lt_viewstamp a b ≡ false → lt_viewstamp b a ≡ false → a ≡ b
  unfolding lt_viewstamp
  lt_total p q = ground arith

  eq_sound : eq_viewstamp a b ≡ true → a ≡ b
  unfolding eq_viewstamp
  eq_sound p = ground arith

  eq_refl : eq_viewstamp a a ≡ true
  unfolding eq_viewstamp
  eq_refl = ground arith

  le_split : le_viewstamp a b ≡ (lt_viewstamp a b || eq_viewstamp a b)
  unfolding le_viewstamp eq_viewstamp
  le_split = ground arith

  pub lt_irreflexive : lt_viewstamp a a ≡ false
  unfolding lt_viewstamp
  lt_irreflexive = ground arith

  -- The comparisons of viewstamps are a total order, `==` is equality and `<=` is `<` or `==`.
  pub viewstamp-IsLexicographic : IsLexicographic a b c
  viewstamp-IsLexicographic = record {
    equal = eq_sound;
    reflexive = eq_refl;
    asymmetric = lt_asym;
    transitive = lt_trans;
    total = lt_total;
    weak = le_split;
  }

-- `std::map<viewstamp_t, …>` sorts by `operator<`.
instance abbrev pub viewstamp_order : Order Viewstamp
viewstamp_order = record {
  before = lt_viewstamp;
  irreflexive = λ a. lt_irreflexive a a a;
  transitive = lt_trans;
  total = λ a b. lt_total a b a;
}
