-- ===== src/Coordinator/Shards/Apart.antt =====
-- The places of `bclient` that the operations of distributed/store/strongstore/client.cc do not read.
use mathlib.Core.Option
use ledger_database.Prelude.{
  ℕ, zero, suc, ◌+◌, ◌<◌, ◌≡◌, refl, ap, ◌∙◌, List, [], ◌∷◌, ◌++◌, map, Option, none, some, true,
  false, ltb, ◌==◌, ◌||◌, is_some, ◌>>=◌, if◌then◌else◌, Bool-cases, inl, inr, arith,
}
use ledger_database.Maps.{number_order, lookup, assign}
use ledger_database.Txn.{Text}
use ledger_database.Buffer.{BufferClient, Call}
use ledger_database.Buffer
use ledger_database.Coordinator.{
  members, key_to_shard, Coordinator, ShardAnswer, answer_of, put_client, call, begin_loop,
  join_shard, at_shard, batch_get_loop, get_range_loop,
}
use ledger_database.Coordinator.TwoPhase.{
  Round, Prepared, tell, prepare, prepare_loop, finish, abort, commit_time,
}
use ledger_database.Coordinator.Shards.{Within}

-- The client with `blank` in every place of `bclient` from `n` on.
abbrev pub blanked : ℕ → BufferClient → Coordinator → Coordinator
blanked n blank c = record c { bclient = λ i. if ltb i n then c.bclient i else blank }

module _ (n : ℕ) (blank : BufferClient) where
  pub read-blanked : (c : Coordinator) (i : ℕ) → i < n → (blanked n blank c).bclient i ≡ c.bclient i
  read-blanked c i small = let test : ltb i n ≡ true = ground arith in rw test refl

  pub put_client-blanked :
      (c : Coordinator) (i : ℕ) (b : BufferClient) (j : ℕ)
      → i < n
      → put_client (blanked n blank c).bclient i b j
        ≡ (if ltb j n then put_client c.bclient i b j else blank)
  unfolding put_client
  put_client-blanked c i b j small = elim (Bool-cases (j == i)) [
    | inl here ↦ let test : ltb j n ≡ true = ground arith in rw (here, test) refl
    | inr other ↦ rw other refl
  ]

  pub call-blanked :
      (c : Coordinator) (i : ℕ) (b : BufferClient) (calls : List Call)
      → i < n
      → call (blanked n blank c) i b calls ≡ blanked n blank (call c i b calls)
  unfolding call
  call-blanked c i b calls small =
      ap (λ (bclient : ℕ → BufferClient). record (call c i b calls) { bclient = bclient })
        (λ k j. put_client-blanked c i b j small k)

  -- A call of one client, which depends on that client alone.
  pub step-blanked :
      (c : Coordinator) (i : ℕ) (change : BufferClient → BufferClient)
      (made : BufferClient → List Call)
      → i < n
      → call
          (blanked n blank c)
          i
          (change ((blanked n blank c).bclient i))
          (made ((blanked n blank c).bclient i))
        ≡ blanked n blank (call c i (change (c.bclient i)) (made (c.bclient i)))
  step-blanked c i change made small =
      ap (λ b. call (blanked n blank c) i (change b) (made b)) (read-blanked c i small)
      ∙ call-blanked c i (change (c.bclient i)) (made (c.bclient i)) small

  pub each-blanked :
      (c : Coordinator) (is : List ℕ) (made : BufferClient → Call)
      → Within n is
      → map {B = ℕ × Call} (λ i. (i, made ((blanked n blank c).bclient i))) is
        ≡ map {B = ℕ × Call} (λ i. (i, made (c.bclient i))) is
  each-blanked c [] made h = refl
  each-blanked c (i ∷ is) made h =
      rw (read-blanked c i h.0) (ap (λ l. (i, made (c.bclient i)) ∷ l) (each-blanked c is made h.1))

  pub tell-blanked :
      (c : Coordinator) (is : List ℕ) (made : BufferClient → Call)
      → Within n is
      → tell (blanked n blank c) is (λ i. made ((blanked n blank c).bclient i))
        ≡ blanked n blank (tell c is (λ i. made (c.bclient i)))
  unfolding tell
  tell-blanked c is made h =
      ap (λ (l : List (ℕ × Call)). record (blanked n blank c) { calls = c.calls ++ l })
        (each-blanked c is made h)

  pub begin_loop-blanked :
      (is : List ℕ) (c : Coordinator)
      → Within n is
      → begin_loop is (blanked n blank c) ≡ blanked n blank (begin_loop is c)
  unfolding begin_loop
  begin_loop-blanked [] c h = refl
  begin_loop-blanked (i ∷ is) c h =
      let (b, made) = Buffer.begin (c.bclient i) c.t_id in
      ap (begin_loop is) (
        step-blanked c i (λ b. (Buffer.begin b c.t_id).0) (λ b. (Buffer.begin b c.t_id).1 ∷ []) h.0)
      ∙ begin_loop-blanked is (call c i b (made ∷ [])) h.1

  pub at_shard-blanked :
      (c : Coordinator) (key : Text) (change : BufferClient → BufferClient)
      → key_to_shard key c.nshards < n
      → at_shard (blanked n blank c) key change ≡ blanked n blank (at_shard c key change)
  unfolding join_shard
  at_shard-blanked c key change small =
      let i = key_to_shard key c.nshards in
      elim (Bool-cases (is_some (lookup c.participants i))) [
        | inl there ↦ rw there (step-blanked c i change (λ b. []) small)
        | inr gone ↦
            let c1 = record c { participants = assign c.participants i tt } in
            rw gone (step-blanked c1 i change (λ b. []) small)
      ]

  pub abort-blanked :
      (c : Coordinator)
      → Within n (members c.participants)
      → abort (blanked n blank c) ≡ blanked n blank (abort c)
  unfolding abort
  abort-blanked c h = tell-blanked c (members c.participants) Buffer.abort h

  abbrev pub blanked_prepared : Prepared → Prepared
  blanked_prepared p = record p { client = blanked n blank p.client }

  pub prepare-blanked :
      (c : Coordinator) (round : Round) (ts : ℕ)
      → Within n (members c.participants)
      → prepare (blanked n blank c) round ts ≡ blanked_prepared (prepare c round ts)
  unfolding prepare
  prepare-blanked c round ts h =
      ap (λ c'. record (prepare c round ts) { client = c' })
        (tell-blanked c (members c.participants)
          (λ b. Buffer.prepare b (record { timestamp = 0; id = 0 })) h)

  pub prepare_loop-blanked :
      (k i : ℕ) (rounds : ℕ → Round) (p : Prepared)
      → Within n (members p.client.participants)
      → prepare_loop k i rounds (blanked_prepared p) ≡ blanked_prepared (prepare_loop k i rounds p)
  unfolding prepare_loop prepare tell
  prepare_loop-blanked zero i rounds p h = refl
  prepare_loop-blanked (suc k) i rounds p h =
      let p' = prepare p.client (rounds i) p.ts in
      let go = λ (q : Prepared).
        if (q.status == 0) || (q.status == 1) then q else prepare_loop k (i + 1) rounds q in
      ap go (prepare-blanked p.client (rounds i) p.ts h)
      ∙ elim (Bool-cases ((p'.status == 0) || (p'.status == 1))) [
        | inl stop ↦ rw stop refl
        | inr again ↦ rw again (prepare_loop-blanked k (i + 1) rounds p' h)
      ]

  pub finish-blanked :
      (p : Prepared) (now : ℕ)
      → Within n (members p.client.participants)
      → finish (blanked_prepared p) now ≡ (blanked n blank (finish p now).0, (finish p now).1)
  unfolding finish
  finish-blanked p now h =
      let c = p.client in
      elim (Bool-cases (p.status == 0)) [
        | inl good ↦ rw good (
            ap (λ c'. (c', true))
              (tell-blanked c (members c.participants)
                (λ b. Buffer.commit b (commit_time c.mode now p.ts)) h))
        | inr bad ↦ rw bad (ap (λ c'. (c', false)) (abort-blanked c h))
      ]

pub bind-map :
    {A C D : Type 0} (f : A → Option D) (g : A → Option C) (h : C → D) (o : Option A)
    → ((a : A) → f a ≡ Option.map h (g a))
    → (o >>= f) ≡ Option.map h (o >>= g)
bind-map f g h none e = refl
bind-map f g h (some a) e = e a

pub map-bind :
    {A C D : Type 0} (h : A → C) (f : C → Option D) (o : Option A)
    → (Option.map h o >>= f) ≡ (o >>= λ a. f (h a))
map-bind h f none = refl
map-bind h f (some a) = refl

module _ (n : ℕ) (blank : BufferClient) where
  pub batch_get_loop-blanked :
      (is : List ℕ) (answers : ℕ → ShardAnswer) (c : Coordinator)
      → Within n is
      → batch_get_loop is answers (blanked n blank c)
        ≡ Option.map (blanked n blank) (batch_get_loop is answers c)
  unfolding batch_get_loop
  batch_get_loop-blanked [] answers c h = refl
  batch_get_loop-blanked (i ∷ is) answers c h =
      let from = λ (d : Coordinator) (out : BufferClient × Call).
        batch_get_loop is answers (call d i out.0 (out.1 ∷ [])) in
      let a = answer_of (answers i) in
      ap (λ b. Buffer.batch_get b a >>= from (blanked n blank c)) (read-blanked n blank c i h.0)
      ∙ bind-map (from (blanked n blank c)) (from c) (blanked n blank)
          (Buffer.batch_get (c.bclient i) a)
          (λ (b, made).
            ap (batch_get_loop is answers) (call-blanked n blank c i b (made ∷ []) h.0)
            ∙ batch_get_loop-blanked is answers (call c i b (made ∷ [])) h.1)

  pub get_range_loop-blanked :
      (is : List ℕ) (from to : Text) (answers : ℕ → ShardAnswer) (c : Coordinator)
      → Within n is
      → get_range_loop is from to answers (blanked n blank c)
        ≡ Option.map (blanked n blank) (get_range_loop is from to answers c)
  unfolding get_range_loop
  get_range_loop-blanked [] from to answers c h = refl
  get_range_loop-blanked (i ∷ is) from to answers c h =
      let go = λ (d : Coordinator) (out : BufferClient × Call).
        get_range_loop is from to answers (call d i out.0 (out.1 ∷ [])) in
      let a = answer_of (answers i) in
      ap (λ b. Buffer.get_range b from to a >>= go (blanked n blank c))
        (read-blanked n blank c i h.0)
      ∙ bind-map (go (blanked n blank c)) (go c) (blanked n blank)
          (Buffer.get_range (c.bclient i) from to a)
          (λ (b, made).
            ap (get_range_loop is from to answers) (call-blanked n blank c i b (made ∷ []) h.0)
            ∙ get_range_loop-blanked is from to answers (call c i b (made ∷ [])) h.1)
