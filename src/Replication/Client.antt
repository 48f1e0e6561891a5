-- ===== src/Replication/Client.antt =====
-- distributed/replication/vr/client.cc and client.h: the requests that a client of the replicas waits
-- for. A continuation is a number, what is sent is a list, and what the transport answers to a send
-- is an argument. The order of the unordered map is not read.
pub mod Waiting
pub mod Once
mod Tests
use ledger_database.Prelude.{
  ℕ, List, [], ◌∷◌, ◌++◌, Option, none, some, Bool, true, false, if◌then◌else◌,
}
use ledger_database.Panic.{Run, ok, panic, ◌>>=◌, when_some}
use ledger_database.Maps.{number_order, lookup, assign, erase}
use ledger_database.Replication.{Request, inc64}
use ledger_database.Replication.Messages.{
  ReplyMessage, UnloggedReply, UnloggedRequest, Message, Sent, to_all, to_replica,
}
use ledger_database.Replication.Messages

-- A request, or an unlogged one, which has a continuation for errors as well or `nullptr`.
pub record PendingRequest : Type 0 where
  pub request : List ℕ
  pub client_req_id : ℕ
  pub continuation : ℕ
  pub error_continuation : Option ℕ
  pub timer : Bool

-- A call of a continuation, with the number of the request that it is for.
pub data Outcome : Type 0 where
  replied : ℕ → ℕ → List ℕ → List ℕ → Outcome
  timed_out : ℕ → ℕ → List ℕ → Outcome

-- The calls of continuations stand with the latest first.
pub record VrClient : Type 0 where
  pub clientid : ℕ
  pub last_req_id : ℕ
  pub pending : List (ℕ × PendingRequest)
  pub sent : List Sent
  pub outcomes : List Outcome

abbrev pub new_client : ℕ → VrClient
new_client id = record { clientid = id; last_req_id = 0; pending = []; sent = []; outcomes = [] }

pub send_request : VrClient → PendingRequest → Bool → VrClient
send_request c req delivered =
    let msg : Request = record {
      clientid = c.clientid;
      clientreqid = req.client_req_id;
      op = req.request;
    } in
    if delivered
    then record c {
      sent = c.sent ++ to_all (Messages.request msg) ∷ [];
      pending = assign c.pending req.client_req_id (record req { timer = true });
    }
    else record c { pending = erase c.pending req.client_req_id }

pub invoke : VrClient → List ℕ → ℕ → Bool → VrClient
unfolding send_request
invoke c request continuation delivered =
    let id = inc64 c.last_req_id in
    let req : PendingRequest = record {
      request = request;
      client_req_id = id;
      continuation = continuation;
      error_continuation = none;
      timer = false;
    } in
    send_request (record c { last_req_id = id; pending = assign c.pending id req }) req delivered

pub invoke_unlogged : VrClient → ℕ → List ℕ → ℕ → Option ℕ → Bool → VrClient
invoke_unlogged c replica_idx request continuation error_continuation delivered =
    let id = inc64 c.last_req_id in
    let msg : UnloggedRequest = record { clientid = c.clientid; clientreqid = id; op = request } in
    let req : PendingRequest = record {
      request = request;
      client_req_id = id;
      continuation = continuation;
      error_continuation = error_continuation;
      timer = true;
    } in
    if delivered
    then record c {
      last_req_id = id;
      sent = c.sent ++ to_replica replica_idx (Messages.unlogged_request msg) ∷ [];
      pending = assign c.pending id req;
    }
    else record c { last_req_id = id }

pub resend_request : VrClient → ℕ → Bool → VrClient
unfolding send_request
resend_request c id delivered =
    when_some (lookup c.pending id) (λ req. send_request c req delivered) c

-- `HandleReply` and `HandleUnloggedReply` do the same with their messages.
pub settle : VrClient → ℕ → List ℕ → VrClient
settle c id answer =
    when_some (lookup c.pending id)
      (λ req. record c {
        pending = erase c.pending id;
        outcomes = replied id req.continuation req.request answer ∷ c.outcomes;
      })
      c

abbrev pub handle_reply : VrClient → ReplyMessage → VrClient
handle_reply c msg = settle c msg.clientreqid msg.reply

abbrev pub handle_unlogged_reply : VrClient → UnloggedReply → VrClient
handle_unlogged_reply c msg = settle c msg.clientreqid msg.reply

pub unlogged_request_timeout : VrClient → ℕ → VrClient
unlogged_request_timeout c id =
    when_some (lookup c.pending id)
      (λ req. record c {
        pending = erase c.pending id;
        outcomes =
            when_some req.error_continuation
              (λ continuation. timed_out id continuation req.request ∷ c.outcomes) c.outcomes;
      })
      c

-- `VRClient::ReceiveMessage`, and the `Panic` of `Client::ReceiveMessage`.
pub receive : VrClient → Message → Run VrClient
unfolding settle
receive c (Messages.reply m) = ok (handle_reply c m)
receive c (Messages.unlogged_reply m) = ok (handle_unlogged_reply c m)
receive c _ = panic

-- What happens to a client. What a continuation asks for comes after the call of it.
pub data Event : Type 0 where
  invokes : List ℕ → ℕ → Bool → Event
  invokes_unlogged : ℕ → List ℕ → ℕ → Option ℕ → Bool → Event
  resends : ℕ → Bool → Event
  times_out : ℕ → Event
  receives : Message → Event

pub happen : VrClient → Event → Run VrClient
unfolding invoke invoke_unlogged resend_request unlogged_request_timeout receive
happen c (invokes request continuation delivered) = ok (invoke c request continuation delivered)
happen c (invokes_unlogged replica request continuation failure delivered) =
    ok (invoke_unlogged c replica request continuation failure delivered)
happen c (resends id delivered) = ok (resend_request c id delivered)
happen c (times_out id) = ok (unlogged_request_timeout c id)
happen c (receives m) = receive c m

pub run : VrClient → List Event → Run VrClient
unfolding happen
run c [] = ok c
run c (e ∷ es) = happen c e >>= λ c'. run c' es
