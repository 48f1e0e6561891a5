-- ===== src/Coordinator/TwoPhase/Decide.antt =====
-- What `Commit` of distributed/store/strongstore/client.cc decides and tells the shards.
use ledger_database.Prelude.{
  ℕ, ◌≤◌, ◌≡◌, ◌≢◌, ◌⊎◌, inl, inr, refl, List, [], ◌∷◌, Bool, true, false, ltb, ◌==◌, ◌||◌,
  if◌then◌else◌, Bool-cases, ℕ_discrete, arith,
}
use ledger_database.Buffer.{Call}
use ledger_database.Buffer
use ledger_database.Coordinator.{Mode, members, Coordinator, Vote}
use ledger_database.Coordinator.TwoPhase.{
  Round, tell, count_votes, is_occ, is_span, prepare, prepare_loop, abort, commit_time, finish,
  commit, Prepared,
}

-- Every shard of the list votes for the transaction, under a timestamp that is not after `ts`.
abbrev pub AllAgree : List ℕ → (ℕ → Vote) → ℕ → Type 0
AllAgree [] votes ts = Unit
AllAgree (i ∷ is) votes ts =
    ((votes i).reply ≡ 0) × ((votes i).timestamp ≤ ts) × AllAgree is votes ts

abbrev pub SomeRefuses : List ℕ → (ℕ → Vote) → Type 0
SomeRefuses [] votes = ⊥
SomeRefuses (i ∷ is) votes = ((votes i).reply ≢ 0) ⊎ SomeRefuses is votes

record Counted (is : List ℕ) (votes : ℕ → Vote) (status ts : ℕ) (out : ℕ × ℕ) : Type 0 where
  pub later : ts ≤ out.1
  pub agreed : out.0 ≡ 0 → (status ≡ 0) × AllAgree is votes out.1
  pub refused : out.0 ≢ 0 → (status ≢ 0) ⊎ SomeRefuses is votes

count_votes-Counted :
    (is : List ℕ) (votes : ℕ → Vote) (status ts : ℕ)
    → Counted is votes status ts (count_votes is votes status ts)
unfolding count_votes
count_votes-Counted [] votes status ts = record {
  later = omega arith;
  agreed = λ e. (e, tt);
  refused = inl;
}
count_votes-Counted (i ∷ is) votes status ts =
    let vote = votes i in
    let ts' = if ltb ts vote.timestamp then vote.timestamp else ts in
    let past : ts ≤ ts' = ground arith in
    let covers : vote.timestamp ≤ ts' = ground arith in
    elim (Bool-cases (vote.reply == 0)) [
      | inl agrees ↦ rw agrees (
          let rest = count_votes-Counted is votes status ts' in
          let later = rest.later in
          record {
            later = omega (arith, later, past);
            agreed = λ e.
                let (s, all) = rest.agreed e in
                (s, (ground arith, omega (arith, later, covers), all));
            refused =
                λ ne. elim (rest.refused ne) [ inl s ↦ inl s | inr some_one ↦ inr (inr some_one) ];
          })
      | inr refuses ↦ rw refuses (
          let status' = if status == 1 then status else vote.reply in
          let bad : status' ≢ 0 = λ e. absurd (ground arith) in
          let rest = count_votes-Counted is votes status' ts' in
          let later = rest.later in
          record {
            later = omega (arith, later, past);
            agreed = λ e. absurd (bad (rest.agreed e).0);
            refused = λ ne. inr (inl (λ e. absurd (ground arith)));
          })
    ]

abbrev prepares : Coordinator → ℕ → Call
prepares c i = Buffer.prepare (c.bclient i) (record { timestamp = 0; id = 0 })

-- The participants are all told to prepare, and then all told the same. A time to commit at is not
-- before what any of them answers, nor before what the server of time of the mode answers.
pub data Decided (c : Coordinator) (round : Round) (now : ℕ) (out : Coordinator × Bool)
    : Type 0 where
  commits :
      (ts : ℕ)
      → AllAgree (members c.participants) round.votes ts
      → (is_occ c.mode ≡ true → round.stamp ≤ ts)
      → (is_span c.mode ≡ true → now ≤ ts)
      → out ≡ (
        tell
            (tell c (members c.participants) (prepares c))
            (members c.participants)
            (λ i. Buffer.commit (c.bclient i) ts),
        true,
      )
      → Decided c round now out
  aborts :
      SomeRefuses (members c.participants) round.votes
      → out ≡ (
        tell
            (tell c (members c.participants) (prepares c))
            (members c.participants)
            (λ i. Buffer.abort (c.bclient i)),
        false,
      )
      → Decided c round now out

AllAgree-later :
    (is : List ℕ) (votes : ℕ → Vote) (ts ts' : ℕ)
    → AllAgree is votes ts
    → ts ≤ ts'
    → AllAgree is votes ts'
AllAgree-later [] votes ts ts' h le = tt
AllAgree-later (i ∷ is) votes ts ts' h le =
    (h.0, (let small = h.1 in omega (arith, small, le)), AllAgree-later is votes ts ts' h.2 le)

commit_time-later : (mode : Mode) (now ts : ℕ) → ts ≤ commit_time mode now ts
unfolding commit_time
commit_time-later mode now ts = ground arith

commit_time-now : (mode : Mode) (now ts : ℕ) → is_span mode ≡ true → now ≤ commit_time mode now ts
unfolding commit_time
commit_time-now mode now ts span = rw span (ground arith)

finish-Decided :
    (c : Coordinator) (round : Round) (now status ts : ℕ)
    → Counted
        (members c.participants)
        round.votes
        0
        (if is_occ c.mode then round.stamp else 0)
        (status, ts)
    → Decided c round now (
        finish
          (record {
            client = tell c (members c.participants) (prepares c);
            status = status;
            ts = ts;
          })
          now)
unfolding finish abort tell
finish-Decided c round now status ts counted =
    let ps = members c.participants in
    let later = counted.later in
    elim (ℕ_discrete status 0) [
      | yes good ↦
          let ts' = commit_time c.mode now ts in
          let up = commit_time-later c.mode now ts in
          commits ts' (AllAgree-later ps round.votes ts ts' (counted.agreed good).1 up)
            (λ occ. let floor = rw occ at later in omega (arith, floor, up))
            (commit_time-now c.mode now ts) (rw good refl)
      | no bad ↦ elim (counted.refused bad) [
        | inl none_such ↦ absurd (none_such refl)
        | inr refusal ↦
            let differs : (status == 0) ≡ false = ground arith in aborts refusal (rw differs refl)
      ]
    ]

pub prepare_loop-once :
    (i : ℕ) (rounds : ℕ → Round) (p : Prepared)
    → prepare_loop 1 i rounds p ≡ prepare p.client (rounds i) p.ts
unfolding prepare_loop
prepare_loop-once i rounds p =
    let p' = prepare p.client (rounds i) p.ts in
    elim (Bool-cases ((p'.status == 0) || (p'.status == 1))) [
      | inl stop ↦ rw stop refl
      | inr again ↦ rw again refl
    ]

-- `Commit` tells every participant to prepare. If all agree it tells all of them to commit, at one
-- time that is not before the time that any of them voted, nor before the answer of the timestamp
-- server or of true time in the modes that ask for one, and returns true. Otherwise some participant
-- has refused, it tells all of them to abort, and returns false.
pub commit-Decided :
    (c : Coordinator) (rounds : ℕ → Round) (now : ℕ)
    → Decided c (rounds 0) now (commit c rounds now)
unfolding commit prepare
commit-Decided c rounds now =
    let ps = members c.participants in
    let start = if is_occ c.mode then (rounds 0).stamp else 0 in
    let out = count_votes ps (rounds 0).votes 0 start in
    rw (prepare_loop-once 0 rounds (record { client = c; status = 1; ts = 0 })) (
      finish-Decided c (rounds 0) now out.0 out.1 (count_votes-Counted ps (rounds 0).votes 0 start))
