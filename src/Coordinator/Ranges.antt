-- ===== src/Coordinator/Ranges.antt =====
-- The shards that a read of a range in distributed/store/strongstore/client.cc makes participants.
use ledger_database.Prelude.{
  some, ℕ, ◌+◌, ◌%◌, ◌^◌, ◌≡◌, refl, ap, ◌∙◌, subst, List, [], ◌∷◌, ◌++◌, true, if◌then◌else◌,
}
use ledger_database.Txn.{Text}
use ledger_database.Buffer.{Call}
use ledger_database.Buffer
use ledger_database.Buffer.Reads.{IsStamped, get_range-some}
use ledger_database.Coordinator.{
  Coordinator, ShardAnswer, answer_of, Gathered, gather, Unverified, members, all_shards, call,
  begin_loop, begin, get_range_loop, get_range,
}
use ledger_database.Coordinator.TwoPhase.{
  Round, Prepared, count_votes, is_occ, prepare, finish, commit,
}
use ledger_database.Coordinator.TwoPhase.Decide.{prepare_loop-once}
use ledger_database.Coordinator.Shards.{IfSome, IfSome-any}

append_nil : {A : Type 0} (xs : List A) → xs ++ [] ≡ xs
append_nil [] = refl
append_nil (x ∷ xs) = ap (λ ys. x ∷ ys) (append_nil xs)

prepare-nobody :
    (c : Coordinator) (round : Round) (ts : ℕ)
    → members c.participants ≡ []
    → prepare c round ts
      ≡ record { client = c; status = 0; ts = if is_occ c.mode then round.stamp else ts }
unfolding prepare count_votes
prepare-nobody c round ts empty = rw empty (rw (append_nil c.calls) refl)

finish-nobody :
    (c : Coordinator) (ts now : ℕ)
    → members c.participants ≡ []
    → finish (record { client = c; status = 0; ts = ts }) now ≡ (c, true)
unfolding finish
finish-nobody c ts now empty = rw empty (rw (append_nil c.calls) refl)

commit-nobody :
    (c : Coordinator) (rounds : ℕ → Round) (now : ℕ)
    → members c.participants ≡ []
    → commit c rounds now ≡ (c, true)
unfolding commit
commit-nobody c rounds now empty =
    let first : Prepared = record { client = c; status = 1; ts = 0 } in
    let start = if is_occ c.mode then (rounds 0).stamp else 0 in
    ap (λ p. finish p now) (prepare_loop-once 0 rounds first ∙ prepare-nobody c (rounds 0) 0 empty)
    ∙ finish-nobody c start now empty

begin_loop-participants :
    (is : List ℕ) (c : Coordinator) → (begin_loop is c).participants ≡ c.participants
unfolding begin_loop call
begin_loop-participants [] c = refl
begin_loop-participants (i ∷ is) c =
    let (b, made) = Buffer.begin (c.bclient i) c.t_id in
    begin_loop-participants is (call c i b (made ∷ []))

get_range_loop-participants :
    (is : List ℕ) (from to : Text) (answers : ℕ → ShardAnswer) (c : Coordinator)
    → IfSome (λ c'. c'.participants ≡ c.participants) (get_range_loop is from to answers c)
unfolding get_range_loop call
get_range_loop-participants [] from to answers c = refl
get_range_loop-participants (i ∷ is) from to answers c =
    IfSome-any (λ c'. c'.participants ≡ c.participants) _ _
      (λ (b, made). get_range_loop-participants is from to answers (call c i b (made ∷ [])))

get_range_loop-some :
    (is : List ℕ) (from to : Text) (answers : ℕ → ShardAnswer) (c : Coordinator)
    → ((i : ℕ) → IsStamped (answers i).values (answers i).timestamps)
    → (c' : Coordinator) × (get_range_loop is from to answers c ≡ some c')
unfolding get_range_loop
get_range_loop-some [] from to answers c h = (c, refl)
get_range_loop-some (i ∷ is) from to answers c h =
    let ((b, made), e) = get_range-some (c.bclient i) from to (answer_of (answers i)) (h i) in
    let (c', rest) = get_range_loop-some is from to answers (call c i b (made ∷ [])) h in
    (c', rw e rest)

-- Where each shard answers with a timestamp for each value, a transaction can begin with a read of a
-- range, and after that read, whatever shards have answered it with whatever values, `Commit` asks no
-- shard to prepare, makes no call at all, and returns true.
pub get_range-commit :
    (c : Coordinator) (from to : Text) (answers : ℕ → ShardAnswer) (values : List (Text × Text))
    (keys : Unverified) (rounds : ℕ → Round) (now : ℕ)
    → ((i : ℕ) → IsStamped (answers i).values (answers i).timestamps)
    → (out : Coordinator × Gathered) × (get_range (begin c) from to answers values keys ≡ some out)
      × (commit out.0 rounds now ≡ (out.0, true))
unfolding get_range begin members
get_range-commit c from to answers values keys rounds now h =
    let c0 = record c { t_id = (c.t_id + 1) % 2 ^ 64; participants = [] } in
    let c1 = begin c in
    let (c', e) = get_range_loop-some (all_shards c1) from to answers c1 h in
    let same : c'.participants ≡ c1.participants =
      subst (IfSome (λ d. d.participants ≡ c1.participants)) e
        (get_range_loop-participants (all_shards c1) from to answers c1) in
    let gathered =
      gather (all_shards c1) answers (record { status = 0; values = values; keys = keys }) in
    (
      (c', gathered),
      rw e refl,
      commit-nobody c' rounds now (ap members (same ∙ begin_loop-participants (all_shards c0) c0)),
    )
