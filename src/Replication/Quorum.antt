-- ===== src/Replication/Quorum.antt =====
-- distributed/replication/common/quorumset.h: messages by viewstamp or view, and by the replica
-- that sent them. `messages[vs]` makes an empty entry where there is none.
pub mod Count
pub mod Meet
pub mod Any
mod Tests
use ledger_database.Prelude.{
  ℕ, List, [], ◌∷◌, Option, none, some, Bool, true, false, length, leb, if◌then◌else◌,
}
use ledger_database.Maps.{Order, number_order, lookup, assign}

pub record QuorumSet (Ident Msg : Type 0) : Type 0 where
  pub num_required : ℕ
  pub messages : List (Ident × List (ℕ × Msg))

-- Whether the messages are enough.
unfoldable pub quorum_of : {Msg : Type 0} → ℕ → List (ℕ × Msg) → Option (List (ℕ × Msg))
quorum_of num_required m = if leb num_required (length m) then some m else none

module _ {Ident Msg : Type 0} ⦃o : Order Ident⦄ where
  -- The value of `messages[vs]`.
  unfoldable pub messages_at : List (Ident × List (ℕ × Msg)) → Ident → List (ℕ × Msg)
  messages_at messages vs = elim (lookup messages vs) [ none ↦ [] | some m ↦ m ]

  -- The entry that `messages[vs]` makes.
  pub touch : QuorumSet Ident Msg → Ident → QuorumSet Ident Msg
  touch q vs = elim (lookup q.messages vs) [
    | none ↦ record q { messages = assign q.messages vs [] }
    | some m ↦ q
  ]

  abbrev pub clear : QuorumSet Ident Msg → QuorumSet Ident Msg
  clear q = record q { messages = [] }

  pub clear_at : QuorumSet Ident Msg → Ident → QuorumSet Ident Msg
  clear_at q vs = record q { messages = assign q.messages vs [] }

  abbrev pub get_messages : QuorumSet Ident Msg → Ident → QuorumSet Ident Msg × List (ℕ × Msg)
  get_messages q vs = (touch q vs, messages_at q.messages vs)

  pub check_for_quorum : QuorumSet Ident Msg → Ident → QuorumSet Ident Msg × Option (List (ℕ × Msg))
  check_for_quorum q vs = (touch q vs, quorum_of q.num_required (messages_at q.messages vs))

  -- `CheckForQuorum` without an argument: the first entry with enough messages.
  pub first_quorum : ℕ → List (Ident × List (ℕ × Msg)) → Option (List (ℕ × Msg))
  first_quorum num_required [] = none
  first_quorum num_required ((vs, m) ∷ messages) = elim (quorum_of num_required m) [
    | some quorum ↦ some quorum
    | none ↦ first_quorum num_required messages
  ]

  pub check_for_any_quorum : QuorumSet Ident Msg → Option (List (ℕ × Msg))
  check_for_any_quorum q = first_quorum q.num_required q.messages

  -- A later message of a replica replaces the one before.
  pub put_message : QuorumSet Ident Msg → Ident → ℕ → Msg → QuorumSet Ident Msg
  put_message q vs replica_idx msg = record q {
    messages = assign q.messages vs (assign (messages_at q.messages vs) replica_idx msg);
  }

  pub add_and_check_for_quorum :
      QuorumSet Ident Msg → Ident → ℕ → Msg → QuorumSet Ident Msg × Option (List (ℕ × Msg))
  add_and_check_for_quorum q vs replica_idx msg =
      check_for_quorum (put_message q vs replica_idx msg) vs

  pub add : QuorumSet Ident Msg → Ident → ℕ → Msg → QuorumSet Ident Msg
  add q vs replica_idx msg = (add_and_check_for_quorum q vs replica_idx msg).0
