-- ===== src/Coordinator.antt =====
-- distributed/store/strongstore/client.cc and client.h, and the sharding of
-- distributed/store/common/frontend/client.h: the client of all shards, which coordinates a
-- transaction. The calls to the clients of the shards are a list in the record, and what the shards
-- and the two kinds of time server answer is an argument. The sleep before a commit, with
-- `commit_sleep`, is left out: nothing else reads it.
pub mod TwoPhase
pub mod Shards
pub mod Ranges
mod Tests
use ledger_database.Prelude.{
  ℕ, zero, suc, ◌+◌, ◌*◌, ◌-◌, ◌%◌, ◌^◌, List, [], ◌∷◌, ◌++◌, map, Option, none, some, Bool, true,
  false, ltb, leb, ◌==◌, ◌||◌, is_some, ◌>>=◌, if◌then◌else◌,
}
use ledger_database.Panic.{when_some}
use ledger_database.Maps.{number_order, text_order, lookup, assign}
use ledger_database.Txn.{Text, Timestamp}
use ledger_database.Buffer.{BufferClient, Call, Answer}
use ledger_database.Buffer

-- A character is a byte, and `(uint64_t)str[i]` extends its sign.
pub extended : ℕ → ℕ
extended c = if ltb c 128 then c else c + (2 ^ 64 - 256)

pub hash_from : ℕ → Text → ℕ
hash_from hash [] = hash
hash_from hash (c ∷ cs) = hash_from ((hash * 32 + hash + extended c) % 2 ^ 64) cs

unfoldable pub key_to_shard : Text → ℕ → ℕ
unfolding hash_from
key_to_shard key nshards = hash_from 5381 key % nshards

pub data Mode : Type 0 where
  mode_unknown : Mode
  mode_occ : Mode
  mode_lock : Mode
  mode_span_occ : Mode
  mode_span_lock : Mode

-- `std::set<int>`.
abbrev pub Participants : Type 0
Participants = List (ℕ × Unit {0})

unfoldable pub members : Participants → List ℕ
members [] = []
members ((i, here) ∷ s) = i ∷ members s

-- The vector of clients is a function of the shard.
pub record Coordinator : Type 0 where
  pub mode : Mode
  pub t_id : ℕ
  pub nshards : ℕ
  pub participants : Participants
  pub bclient : ℕ → BufferClient
  pub calls : List (ℕ × Call)

-- What a promise holds after a read: the reply, the values by key, the timestamps, and the keys to
-- be verified with their estimated blocks.
pub record ShardAnswer : Type 0 where
  pub reply : ℕ
  pub values : List (Text × Text)
  pub timestamps : List Timestamp
  pub unverified : List (ℕ × Text)

-- What a promise holds after a prepare.
pub record Vote : Type 0 where
  pub reply : ℕ
  pub timestamp : ℕ

abbrev pub reply_ok : ℕ
reply_ok = 0

abbrev pub reply_fail : ℕ
reply_fail = 1

-- The shards `i`, `i + 1` and so on, `n` of them.
unfoldable pub shards_from : ℕ → ℕ → List ℕ
shards_from zero i = []
shards_from (suc n) i = i ∷ shards_from n (i + 1)

abbrev pub all_shards : Coordinator → List ℕ
all_shards c = shards_from c.nshards 0

unfoldable pub put_client : (ℕ → BufferClient) → ℕ → BufferClient → ℕ → BufferClient
put_client bclient i b j = if j == i then b else bclient j

unfoldable pub call : Coordinator → ℕ → BufferClient → List Call → Coordinator
call c i b calls = record c {
  bclient = put_client c.bclient i b;
  calls = c.calls ++ map (λ made. (i, made)) calls;
}

unfoldable pub begin_loop : List ℕ → Coordinator → Coordinator
begin_loop [] c = c
begin_loop (i ∷ is) c =
    let (b, made) = Buffer.begin (c.bclient i) c.t_id in begin_loop is (call c i b (made ∷ []))

unfoldable pub begin : Coordinator → Coordinator
unfolding begin_loop
begin c =
    let c1 = record c { t_id = (c.t_id + 1) % 2 ^ 64; participants = [] } in
    begin_loop (all_shards c1) c1

-- The shard of a key, which is made a participant when it is none.
unfoldable pub join_shard : Coordinator → Text → Coordinator
join_shard c key =
    let i = key_to_shard key c.nshards in
    if is_some (lookup c.participants i)
    then c
    else record c { participants = assign c.participants i tt }

abbrev pub at_shard : Coordinator → Text → (BufferClient → BufferClient) → Coordinator
at_shard c key change =
    let i = key_to_shard key c.nshards in
    let c1 = join_shard c key in call c1 i (change (c1.bclient i)) []

unfoldable pub get_n_versions : Coordinator → Text → ℕ → Coordinator
get_n_versions c key n = at_shard c key (λ b. Buffer.get_n_versions b key n)

unfoldable pub get : Coordinator → Text → Coordinator
get c key = at_shard c key (λ b. Buffer.get b key)

unfoldable pub buffer_key : Coordinator → Text → Coordinator
buffer_key c key = at_shard c key (λ b. Buffer.buffer_key b key)

unfoldable pub put : Coordinator → Text → Text → Coordinator
put c key value = at_shard c key (λ b. Buffer.put b key value)

-- `map<int, map<uint64_t, vector<string>>>`: the keys to be verified, by shard and block.
abbrev pub Unverified : Type 0
Unverified = List (ℕ × List (ℕ × List Text))

pub file_key : Unverified → ℕ → ℕ → Text → Unverified
file_key keys shard block key =
    when_some (lookup keys shard)
      (λ inner.
        when_some (lookup inner block)
          (λ there. assign keys shard (assign inner block (there ++ key ∷ [])))
          (assign keys shard (assign inner block (key ∷ []))))
      (assign keys shard (assign [] block (key ∷ [])))

pub file_keys : Unverified → ℕ → List (ℕ × Text) → Unverified
file_keys keys shard [] = keys
file_keys keys shard ((block, key) ∷ rest) = file_keys (file_key keys shard block key) shard rest

-- `map::insert` of a range, which keeps the value of a key that is there.
pub insert_values : List (Text × Text) → List (Text × Text) → List (Text × Text)
insert_values values [] = values
insert_values values ((key, value) ∷ rest) =
    insert_values (if is_some (lookup values key) then values else assign values key value) rest

pub record Gathered : Type 0 where
  pub status : ℕ
  pub values : List (Text × Text)
  pub keys : Unverified

-- The loop over the promises of a read.
pub gather : List ℕ → (ℕ → ShardAnswer) → Gathered → Gathered
gather [] answers g = g
gather (i ∷ is) answers g =
    let answer = answers i in
    let taken = record g {
      values = insert_values g.values answer.values;
      keys = file_keys g.keys i answer.unverified;
    } in
    gather is answers
      (if answer.reply == reply_ok then taken else record g { status = answer.reply })

abbrev pub answer_of : ShardAnswer → Answer
answer_of a = record { is_ok = a.reply == reply_ok; values = a.values; timestamps = a.timestamps }

unfoldable pub batch_get_loop : List ℕ → (ℕ → ShardAnswer) → Coordinator → Option Coordinator
batch_get_loop [] answers c = some c
batch_get_loop (i ∷ is) answers c = do
  (b, made) ← Buffer.batch_get (c.bclient i) (answer_of (answers i))
  batch_get_loop is answers (call c i b (made ∷ []))

-- With the values and the keys of the caller.
unfoldable pub batch_get :
    Coordinator
    → (ℕ → ShardAnswer)
    → List (Text × Text)
    → Unverified
    → Option (Coordinator × Gathered)
unfolding batch_get_loop gather
batch_get c answers values keys = do
  c1 ← batch_get_loop (members c.participants) answers c
  some (
    c1,
    gather (members c.participants) answers
        (record { status = reply_ok; values = values; keys = keys }),
  )

unfoldable pub get_range_loop :
    List ℕ → Text → Text → (ℕ → ShardAnswer) → Coordinator → Option Coordinator
get_range_loop [] from to answers c = some c
get_range_loop (i ∷ is) from to answers c = do
  (b, made) ← Buffer.get_range (c.bclient i) from to (answer_of (answers i))
  get_range_loop is from to answers (call c i b (made ∷ []))

unfoldable pub get_range :
    Coordinator
    → Text
    → Text
    → (ℕ → ShardAnswer)
    → List (Text × Text)
    → Unverified
    → Option (Coordinator × Gathered)
unfolding get_range_loop gather
get_range c from to answers values keys = do
  c1 ← get_range_loop (all_shards c) from to answers c
  some (
    c1,
    gather (all_shards c) answers (record { status = reply_ok; values = values; keys = keys }),
  )
