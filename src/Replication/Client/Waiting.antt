-- ===== src/Replication/Client/Waiting.antt =====
-- The requests that a client of distributed/replication/vr/client.cc waits for, beside those that it
-- has called a continuation for.
use ledger_database.Prelude.{
  ℕ, ◌≤◌, ◌<◌, ◌≡◌, ◌≢◌, sym, ap, ◌∙◌, subst, List, [], ◌∷◌, none, some, arith, inl, inr,
  ℕ_discrete,
}
use ledger_database.Maps.{
  number_order, lookup, assign, erase, IsSorted, lookup-assign_other, lookup-erase_other,
}
use ledger_database.Maps.Sorted.{
  lookup-erase_same, lookup-erase-some, lookup-assign_cases, assign-IsSorted, erase-IsSorted,
}
use ledger_database.Replication.Client.{PendingRequest, Outcome, replied, timed_out}

-- The request that a continuation was called for.
abbrev pub id_of : Outcome → ℕ
id_of (replied id k request answer) = id
id_of (timed_out id k request) = id

abbrev pub AllOther : ℕ → List Outcome → Type 0
AllOther id [] = Unit
AllOther id (o ∷ os) = (id_of o ≢ id) × AllOther id os

-- No two calls are for the same request.
abbrev pub Distinct : List Outcome → Type 0
Distinct [] = Unit
Distinct (o ∷ os) = AllOther (id_of o) os × Distinct os

-- The requests of the calls are numbered so far, and none waits any more.
abbrev pub Settled : List (ℕ × PendingRequest) → ℕ → List Outcome → Type 0
Settled pending last [] = Unit
Settled pending last (o ∷ os) =
    (id_of o ≤ last) × (lookup pending (id_of o) ≡ none) × Settled pending last os

pub record Sound (pending : List (ℕ × PendingRequest)) (last : ℕ) (outcomes : List Outcome)
    : Type 0 where
  pub sorted : IsSorted pending
  pub numbered :
      (id : ℕ) (p : PendingRequest)
      → lookup pending id ≡ some p
      → (id ≤ last) × (p.client_req_id ≡ id)
  pub settled : Settled pending last outcomes
  pub distinct : Distinct outcomes

Settled-assign :
    (pending : List (ℕ × PendingRequest)) (last last' id : ℕ) (p : PendingRequest)
    (os : List Outcome)
    → Settled pending last os
    → AllOther id os
    → last ≤ last'
    → Settled (assign pending id p) last' os
Settled-assign pending last last' id p [] s other le = tt
Settled-assign pending last last' id p (o ∷ os) s other le = (
  omega (arith, s.0),
  lookup-assign_other pending id (id_of o) p other.0 ∙ s.1,
  Settled-assign pending last last' id p os s.2 other.1 le,
)

lookup-erase-none :
    (m : List (ℕ × PendingRequest)) (k i : ℕ)
    → IsSorted m
    → lookup m i ≡ none
    → lookup (erase m k) i ≡ none
lookup-erase-none m k i sorted gone = elim (ℕ_discrete i k) [
  | yes same ↦ subst (λ x. lookup (erase m k) x ≡ none) (sym same) (lookup-erase_same m k sorted)
  | no other ↦ lookup-erase_other m k i other ∙ gone
]

Settled-erase :
    (pending : List (ℕ × PendingRequest)) (last id : ℕ) (os : List Outcome)
    → IsSorted pending
    → Settled pending last os
    → Settled (erase pending id) last os
Settled-erase pending last id [] sorted s = tt
Settled-erase pending last id (o ∷ os) sorted s = (
  s.0,
  lookup-erase-none pending id (id_of o) sorted s.1,
  Settled-erase pending last id os sorted s.2,
)

pub Settled-AllOther :
    (pending : List (ℕ × PendingRequest)) (last id : ℕ) (p : PendingRequest) (os : List Outcome)
    → Settled pending last os
    → lookup pending id ≡ some p
    → AllOther id os
Settled-AllOther pending last id p [] s waits = tt
Settled-AllOther pending last id p (o ∷ os) s waits = (
  λ same.
      let gone : lookup pending id ≡ none = subst (λ i. lookup pending i ≡ none) same s.1 in
      absurd (cc (gone, waits)),
  Settled-AllOther pending last id p os s.2 waits,
)

Settled-later :
    (pending : List (ℕ × PendingRequest)) (last last' : ℕ) (os : List Outcome)
    → Settled pending last os
    → last ≤ last'
    → Settled pending last' os
Settled-later pending last last' [] s le = tt
Settled-later pending last last' (o ∷ os) s le =
    (omega (arith, s.0), s.1, Settled-later pending last last' os s.2 le)

pub Settled-above :
    (pending : List (ℕ × PendingRequest)) (last id : ℕ) (os : List Outcome)
    → Settled pending last os
    → last < id
    → AllOther id os
Settled-above pending last id [] s h = tt
Settled-above pending last id (o ∷ os) s h = (
  λ same. let small = s.0 in absurd (omega (arith, same, small)),
  Settled-above pending last id os s.2 h,
)

pub Sound-assign :
    {pending : List (ℕ × PendingRequest)} {last : ℕ} {os : List Outcome} (last' id : ℕ)
    (p : PendingRequest)
    → Sound pending last os
    → last ≤ last'
    → id ≤ last'
    → p.client_req_id ≡ id
    → AllOther id os
    → Sound (assign pending id p) last' os
Sound-assign {pending = pending} {last = last} {os = os} last' id p s le small named other =
    record {
      sorted = assign-IsSorted pending id p s.sorted;
      numbered = λ i q found. elim (lookup-assign_cases pending id i p found) [
        | inl (same, is) ↦ (rw same small, sym (ap (λ x. x.client_req_id) is) ∙ named ∙ sym same)
        | inr old ↦ let (a, b) = s.numbered i q old in (omega arith, b)
      ];
      settled = Settled-assign pending last last' id p os s.settled other le;
      distinct = s.distinct;
    }

pub Sound-later :
    {pending : List (ℕ × PendingRequest)} {last : ℕ} {os : List Outcome} (last' : ℕ)
    → Sound pending last os
    → last ≤ last'
    → Sound pending last' os
Sound-later {pending = pending} {last = last} {os = os} last' s le = record {
  sorted = s.sorted;
  numbered = λ i q found. let (a, b) = s.numbered i q found in (omega arith, b);
  settled = Settled-later pending last last' os s.settled le;
  distinct = s.distinct;
}

pub Sound-erase :
    {pending : List (ℕ × PendingRequest)} {last : ℕ} {os : List Outcome} (id : ℕ)
    → Sound pending last os
    → Sound (erase pending id) last os
Sound-erase {pending = pending} {last = last} {os = os} id s = record {
  sorted = erase-IsSorted pending id s.sorted;
  numbered = λ i q found. s.numbered i q (lookup-erase-some pending id i s.sorted found);
  settled = Settled-erase pending last id os s.sorted s.settled;
  distinct = s.distinct;
}

pub Sound-call :
    {pending : List (ℕ × PendingRequest)} {last : ℕ} {os : List Outcome} (p : PendingRequest)
    (o : Outcome)
    → Sound pending last os
    → lookup pending (id_of o) ≡ some p
    → Sound (erase pending (id_of o)) last (o ∷ os)
Sound-call {pending = pending} {last = last} {os = os} p o s waits =
    let erased = Sound-erase (id_of o) s in
    record {
      sorted = erased.sorted;
      numbered = erased.numbered;
      settled = (
        (s.numbered (id_of o) p waits).0,
        lookup-erase_same pending (id_of o) s.sorted,
        erased.settled,
      );
      distinct = (Settled-AllOther pending last (id_of o) p os s.settled waits, s.distinct);
    }
