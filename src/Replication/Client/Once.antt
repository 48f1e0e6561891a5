-- ===== src/Replication/Client/Once.antt =====
-- The calls of continuations by a client of distributed/replication/vr/client.cc, over what happens to
-- it.
use ledger_database.Prelude.{
  ℕ, suc, ◌+◌, ◌^◌, ◌≤◌, ◌<◌, ◌≡◌, refl, List, [], ◌∷◌, Option, none, Bool, true, false, length,
  arith, Option-cases, inl, inr,
}
use ledger_database.Panic.{Ensures, returns, panics, Ensures->>=, weaken}
use ledger_database.Maps.{number_order, lookup}
use ledger_database.Replication.{inc64}
use ledger_database.Replication.Messages.{Message}
use ledger_database.Replication.Messages
use ledger_database.Replication.Client.{
  PendingRequest, replied, timed_out, VrClient, send_request, invoke, invoke_unlogged,
  resend_request, settle, unlogged_request_timeout, receive, Event, invokes, invokes_unlogged,
  resends, times_out, receives, happen, run, new_client,
}
use ledger_database.Replication.Client.Waiting.{
  AllOther, Distinct, Sound, Settled-AllOther, Settled-above, Sound-assign, Sound-later,
  Sound-erase, Sound-call,
}

abbrev IsSound : VrClient → Type 0
IsSound c = Sound c.pending c.last_req_id c.outcomes

send_request-IsSound :
    (c : VrClient) (req : PendingRequest) (delivered : Bool)
    → IsSound c
    → req.client_req_id ≤ c.last_req_id
    → AllOther req.client_req_id c.outcomes
    → IsSound (send_request c req delivered)
unfolding send_request
send_request-IsSound c req true s small other =
    Sound-assign c.last_req_id req.client_req_id (record req { timer = true }) s (omega arith) small
      refl other
send_request-IsSound c req false s small other = Sound-erase req.client_req_id s

invoke-IsSound :
    (c : VrClient) (request : List ℕ) (continuation : ℕ) (delivered : Bool)
    → IsSound c
    → c.last_req_id + 1 < 2 ^ 64
    → IsSound (invoke c request continuation delivered)
unfolding invoke
invoke-IsSound c request continuation delivered s room =
    let id = inc64 c.last_req_id in
    let same : id ≡ c.last_req_id + 1 = omega arith in
    let req : PendingRequest = record {
      request = request;
      client_req_id = id;
      continuation = continuation;
      error_continuation = none;
      timer = false;
    } in
    let other =
      Settled-above c.pending c.last_req_id id c.outcomes s.settled (omega (arith, same)) in
    let s' = Sound-assign id id req s (omega (arith, same)) (omega arith) refl other in
    send_request-IsSound _ req delivered s' (omega arith) other

invoke_unlogged-IsSound :
    (c : VrClient) (replica : ℕ) (request : List ℕ) (continuation : ℕ) (failure : Option ℕ)
    (delivered : Bool)
    → IsSound c
    → c.last_req_id + 1 < 2 ^ 64
    → IsSound (invoke_unlogged c replica request continuation failure delivered)
unfolding invoke_unlogged
invoke_unlogged-IsSound c replica request continuation failure true s room =
    let id = inc64 c.last_req_id in
    let same : id ≡ c.last_req_id + 1 = omega arith in
    let req : PendingRequest = record {
      request = request;
      client_req_id = id;
      continuation = continuation;
      error_continuation = failure;
      timer = true;
    } in
    Sound-assign id id req s (omega (arith, same)) (omega arith) refl
      (Settled-above c.pending c.last_req_id id c.outcomes s.settled (omega (arith, same)))
invoke_unlogged-IsSound c replica request continuation failure false s room =
    Sound-later (inc64 c.last_req_id) s (omega arith)

resend_request-IsSound :
    (c : VrClient) (id : ℕ) (delivered : Bool) → IsSound c → IsSound (resend_request c id delivered)
unfolding resend_request
resend_request-IsSound c id delivered s = elim (Option-cases (lookup c.pending id)) [
  | inl gone ↦ rw gone s
  | inr (req, waits) ↦ rw waits (
      let (small, named) = s.numbered id req waits in
      send_request-IsSound c req delivered s (rw named small)
        (rw named (Settled-AllOther c.pending c.last_req_id id req c.outcomes s.settled waits)))
]

settle-IsSound :
    (c : VrClient) (id : ℕ) (answer : List ℕ) → IsSound c → IsSound (settle c id answer)
unfolding settle
settle-IsSound c id answer s = elim (Option-cases (lookup c.pending id)) [
  | inl gone ↦ rw gone s
  | inr (req, waits) ↦
      rw waits (Sound-call req (replied id req.continuation req.request answer) s waits)
]

unlogged_request_timeout-IsSound :
    (c : VrClient) (id : ℕ) → IsSound c → IsSound (unlogged_request_timeout c id)
unfolding unlogged_request_timeout
unlogged_request_timeout-IsSound c id s = elim (Option-cases (lookup c.pending id)) [
  | inl gone ↦ rw gone s
  | inr (req, waits) ↦ rw waits (elim (Option-cases req.error_continuation) [
    | inl silent ↦ rw silent (Sound-erase id s)
    | inr (k, calls) ↦ rw calls (Sound-call req (timed_out id k req.request) s waits)
  ])
]

send_request-last_req_id :
    (c : VrClient) (req : PendingRequest) (delivered : Bool)
    → (send_request c req delivered).last_req_id ≡ c.last_req_id
unfolding send_request
send_request-last_req_id c req true = refl
send_request-last_req_id c req false = refl

resend_request-last_req_id :
    (c : VrClient) (id : ℕ) (delivered : Bool)
    → (resend_request c id delivered).last_req_id ≡ c.last_req_id
unfolding resend_request
resend_request-last_req_id c id delivered = elim (Option-cases (lookup c.pending id)) [
  | inl gone ↦ rw gone refl
  | inr (req, waits) ↦ rw waits (send_request-last_req_id c req delivered)
]

settle-last_req_id :
    (c : VrClient) (id : ℕ) (answer : List ℕ) → (settle c id answer).last_req_id ≡ c.last_req_id
unfolding settle
settle-last_req_id c id answer = elim (Option-cases (lookup c.pending id)) [
  | inl gone ↦ rw gone refl
  | inr (req, waits) ↦ rw waits refl
]

unlogged_request_timeout-last_req_id :
    (c : VrClient) (id : ℕ) → (unlogged_request_timeout c id).last_req_id ≡ c.last_req_id
unfolding unlogged_request_timeout
unlogged_request_timeout-last_req_id c id = elim (Option-cases (lookup c.pending id)) [
  | inl gone ↦ rw gone refl
  | inr (req, waits) ↦ rw waits refl
]

invoke-last_req_id :
    (c : VrClient) (request : List ℕ) (continuation : ℕ) (delivered : Bool)
    → (invoke c request continuation delivered).last_req_id ≡ inc64 c.last_req_id
unfolding invoke send_request
invoke-last_req_id c request continuation true = refl
invoke-last_req_id c request continuation false = refl

-- A client that has numbered no more requests than events have happened to it.
abbrev InRoom : VrClient → ℕ → Type 0
InRoom c n = IsSound c × (c.last_req_id ≤ n)

settle-InRoom :
    (c : VrClient) (id : ℕ) (answer : List ℕ) (n : ℕ)
    → InRoom c n
    → InRoom (settle c id answer) (n + 1)
settle-InRoom c id answer n (s, small) = (
  settle-IsSound c id answer s,
  let same = settle-last_req_id c id answer in omega (arith, same, small),
)

happen-InRoom :
    (c : VrClient) (e : Event) (n : ℕ)
    → InRoom c n
    → n + 1 < 2 ^ 64
    → Ensures (λ c'. InRoom c' (n + 1)) (happen c e)
unfolding happen invoke invoke_unlogged receive
happen-InRoom c (invokes request continuation delivered) n (s, small) room = returns (
  invoke-IsSound c request continuation delivered s (omega arith),
  let same = invoke-last_req_id c request continuation delivered in omega (arith, same),
)
happen-InRoom c (invokes_unlogged replica request continuation failure true) n (s, small) room =
    returns (
      invoke_unlogged-IsSound c replica request continuation failure true s (omega arith),
      omega arith,
    )
happen-InRoom c (invokes_unlogged replica request continuation failure false) n (s, small) room =
    returns (
      invoke_unlogged-IsSound c replica request continuation failure false s (omega arith),
      omega arith,
    )
happen-InRoom c (resends id delivered) n (s, small) room = returns (
  resend_request-IsSound c id delivered s,
  let same = resend_request-last_req_id c id delivered in omega (arith, same),
)
happen-InRoom c (times_out id) n (s, small) room = returns (
  unlogged_request_timeout-IsSound c id s,
  let same = unlogged_request_timeout-last_req_id c id in omega (arith, same),
)
happen-InRoom c (receives (Messages.reply m)) n s room = returns (settle-InRoom c _ _ n s)
happen-InRoom c (receives (Messages.unlogged_reply m)) n s room = returns (settle-InRoom c _ _ n s)
happen-InRoom c (receives (Messages.request m)) n s room = panics
happen-InRoom c (receives (Messages.unlogged_request m)) n s room = panics
happen-InRoom c (receives (Messages.prepare m)) n s room = panics
happen-InRoom c (receives (Messages.prepare_ok m)) n s room = panics
happen-InRoom c (receives (Messages.commit m)) n s room = panics
happen-InRoom c (receives (Messages.request_state_transfer m)) n s room = panics
happen-InRoom c (receives (Messages.state_transfer m)) n s room = panics
happen-InRoom c (receives (Messages.start_view_change m)) n s room = panics
happen-InRoom c (receives (Messages.do_view_change m)) n s room = panics
happen-InRoom c (receives (Messages.start_view m)) n s room = panics

run-InRoom :
    (c : VrClient) (es : List Event) (n : ℕ)
    → InRoom c n
    → n + length es < 2 ^ 64
    → Ensures (λ c'. InRoom c' (n + length es)) (run c es)
unfolding run
run-InRoom c [] n s room = returns {a = c} (s.0, let small = s.1 in omega (arith, small))
run-InRoom c (e ∷ es) n s room =
    let sum : n + 1 + length es ≡ n + suc (length es) = omega arith in
    Ensures->>= (λ c'. InRoom c' (n + suc (length es))) (λ c'. InRoom c' (n + 1)) (λ c'. run c' es)
      (happen-InRoom c e n s (omega arith))
      (λ c' s'. rw sum at (run-InRoom c' es (n + 1) s' (omega arith)))

new_client-IsSound : (clientid : ℕ) → IsSound (new_client clientid)
unfolding lookup
new_client-IsSound clientid = record {
  sorted = tt;
  numbered = λ id p none_such. absurd (cc (none_such));
  settled = tt;
  distinct = tt;
}

-- Of a client that starts, to which fewer than 2 ^ 64 events happen, in any order and with any
-- failures of the transport, no two calls of continuations are for the same request.
pub run-Distinct :
    (clientid : ℕ) (es : List Event)
    → length es < 2 ^ 64
    → Ensures (λ c. Distinct c.outcomes) (run (new_client clientid) es)
run-Distinct clientid es room =
    weaken (λ c s. s.0.distinct)
      (run-InRoom (new_client clientid) es 0 (new_client-IsSound clientid, omega arith)
        (omega (arith, room)))
