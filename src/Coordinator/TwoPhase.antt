-- ===== src/Coordinator/TwoPhase.antt =====
-- `Prepare`, `Commit` and `Abort` of distributed/store/strongstore/client.cc.
pub mod Decide
use ledger_database.Prelude.{
  ℕ, zero, suc, ◌+◌, List, [], ◌∷◌, ◌++◌, map, Bool, true, false, ltb, ◌==◌, ◌||◌, if◌then◌else◌,
}
use ledger_database.Txn.{Timestamp}
use ledger_database.Buffer.{Call}
use ledger_database.Buffer
use ledger_database.Coordinator.{
  Mode, mode_occ, mode_span_occ, mode_span_lock, members, Coordinator, ShardAnswer, Vote, reply_ok,
  reply_fail, Unverified, file_keys,
}

-- The answers to one round of prepares: of the timestamp server, and of each shard.
pub record Round : Type 0 where
  pub stamp : ℕ
  pub votes : ℕ → Vote

-- The client of every shard of a list is called.
unfoldable pub tell : Coordinator → List ℕ → (ℕ → Call) → Coordinator
tell c is made = record c { calls = c.calls ++ map (λ i. (i, made i)) is }

-- The loop over the promises: the status and the timestamp.
unfoldable pub count_votes : List ℕ → (ℕ → Vote) → ℕ → ℕ → ℕ × ℕ
count_votes [] votes status ts = (status, ts)
count_votes (i ∷ is) votes status ts =
    let vote = votes i in
    let status' =
      if vote.reply == reply_ok
      then status
      else if status == reply_fail
      then status
      else vote.reply in
    count_votes is votes status' (if ltb ts vote.timestamp then vote.timestamp else ts)

abbrev pub is_occ : Mode → Bool
is_occ mode_occ = true
is_occ _ = false

abbrev pub is_span : Mode → Bool
is_span mode_span_occ = true
is_span mode_span_lock = true
is_span _ = false

pub record Prepared : Type 0 where
  pub client : Coordinator
  pub status : ℕ
  pub ts : ℕ

unfoldable pub prepare : Coordinator → Round → ℕ → Prepared
unfolding tell count_votes
prepare c round ts =
    let ps = members c.participants in
    let no_time : Timestamp = record { timestamp = 0; id = 0 } in
    let c1 = tell c ps (λ i. Buffer.prepare (c.bclient i) no_time) in
    let (status, ts') =
      count_votes ps round.votes reply_ok (if is_occ c.mode then round.stamp else ts) in
    record { client = c1; status = status; ts = ts' }

-- `COMMIT_RETRIES`
abbrev pub commit_retries : ℕ
commit_retries = 1

-- The rounds that are left, from the round with the number `i` on.
unfoldable pub prepare_loop : ℕ → ℕ → (ℕ → Round) → Prepared → Prepared
unfolding prepare
prepare_loop zero i rounds p = p
prepare_loop (suc n) i rounds p =
    let p' = prepare p.client (rounds i) p.ts in
    let rest = prepare_loop n (i + 1) rounds p' in
    if (p'.status == reply_ok) || (p'.status == reply_fail) then p' else rest

unfoldable pub abort : Coordinator → Coordinator
unfolding tell
abort c = tell c (members c.participants) (λ i. Buffer.abort (c.bclient i))

-- `now` is what the server of true time answers.
pub commit_time : Mode → ℕ → ℕ → ℕ
commit_time mode now ts = if is_span mode then (if ltb ts now then now else ts) else ts

-- What `Commit` does after its rounds.
unfoldable pub finish : Prepared → ℕ → Coordinator × Bool
unfolding abort commit_time tell
finish p now =
    let c = p.client in
    let ts = commit_time c.mode now p.ts in
    if p.status == reply_ok
    then (tell c (members c.participants) (λ i. Buffer.commit (c.bclient i) ts), true)
    else (abort c, false)

-- The status is not set before the first round, and not read before its end.
unfoldable pub commit : Coordinator → (ℕ → Round) → ℕ → Coordinator × Bool
unfolding prepare_loop finish
commit c rounds now =
    let start : Prepared = record { client = c; status = reply_fail; ts = 0 } in
    finish (prepare_loop commit_retries 0 rounds start) now

pub file_answers : List ℕ → (ℕ → ShardAnswer) → Unverified → Unverified
file_answers [] answers keys = keys
file_answers (i ∷ is) answers keys =
    file_answers is answers (file_keys keys i (answers i).unverified)

-- `Commit` with the keys of the caller, which the answers to the commits add to.
pub commit_keys :
    Coordinator → (ℕ → Round) → ℕ → (ℕ → ShardAnswer) → Unverified → Coordinator × Bool × Unverified
unfolding commit file_answers
commit_keys c rounds now answers keys =
    let (c', done) = commit c rounds now in
    (c', done, if done then file_answers (members c.participants) answers keys else keys)
