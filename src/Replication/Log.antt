-- ===== src/Replication/Log.antt =====
-- distributed/replication/common/log.cc, log.h and log-impl.h: the replica's log. Entries stand
-- one after the other from the number `start`; `NULL` is `none`, a failed `ASSERT` is `panic`.
pub mod Entries
pub mod Removal
pub mod Transfer
pub mod Shipped
pub mod Marks
use ledger_database.Prelude.{
  ℕ, zero, suc, ◌+◌, ◌-◌, ◌*◌, ◌/◌, ◌%◌, ◌^◌, ◌≡◌, max, List, [], ◌∷◌, ◌++◌, Option, none, some,
  Bool, true, false, not, length, get_elem?, set, take, ltb, leb, ◌==◌, if◌then◌else◌,
}
use ledger_database.Panic.{Run, ok, panic, ◌>>=◌, ◌>>◌, assert}
use ledger_database.Replication.{Viewstamp, Request, inc64, dec64}

pub data LogEntryState : Type 0 where
  committed prepared speculative fastprepared : LogEntryState

pub record LogEntry : Type 0 where
  pub viewstamp : Viewstamp
  pub state : LogEntryState
  pub request : Request
  pub hash : List ℕ

pub record Log : Type 0 where
  pub entries : List LogEntry
  pub initial_hash : List ℕ
  pub start : ℕ
  pub use_hash : Bool

abbrev pub get_last? {ℓ} : {A : Type ℓ} → List A → Option A
get_last? [] = none
get_last? (x ∷ []) = some x
get_last? (x ∷ y ∷ xs) = get_last? (y ∷ xs)

-- `Log::Last`
pub last : Log → Option LogEntry
last l = get_last? l.entries

unfoldable pub last_viewstamp : Log → Viewstamp
unfolding last
last_viewstamp l = elim (last l) [
  | none ↦ record { view = 0; opnum = dec64 l.start }
  | some e ↦ e.viewstamp
]

pub last_opnum : Log → ℕ
unfolding last
last_opnum l = elim (last l) [ none ↦ dec64 l.start | some e ↦ e.viewstamp.opnum ]

abbrev pub first_opnum : Log → ℕ
first_opnum l = l.start

abbrev pub is_empty : Log → Bool
is_empty l = elim l.entries [ [] ↦ true | e ∷ es ↦ false ]

pub last_hash : Log → List ℕ
unfolding last
last_hash l = elim (last l) [ none ↦ l.initial_hash | some e ↦ e.hash ]

-- `Log::Find`. Reading `entries[opnum-start]` is in range after the tests.
unfoldable pub find : Log → ℕ → Run (Option LogEntry)
find l opnum =
    if length l.entries == 0
    then ok none
    else if ltb opnum l.start
    then ok none
    else if ltb (length l.entries - 1) (opnum - l.start)
    then ok none
    else elim (get_elem? l.entries (opnum - l.start)) [
      | none ↦ panic
      | some entry ↦ do assert (entry.viewstamp.opnum == opnum); ok (some entry)
    ]

-- The eight bytes of a uint64_t in memory, least significant first.
abbrev bytes64 : ℕ → ℕ → List ℕ
bytes64 zero x = []
bytes64 (suc n) x = x % 256 ∷ bytes64 n (x / 256)

-- OpenSSL's SHA-1.
module _ (sha1 : List ℕ → List ℕ) where
  pub compute_hash : List ℕ → LogEntry → List ℕ
  compute_hash last_hash entry = sha1 (
      last_hash
      ++ (bytes64 8 entry.viewstamp.view
          ++ (bytes64 8 entry.viewstamp.opnum
              ++ (bytes64 8 entry.request.clientid
                  ++ (bytes64 8 entry.request.clientreqid ++ entry.request.op)))))

  -- The entry that `Append` makes; it is hashed with an empty hash field.
  pub new_entry : Log → Viewstamp → Request → LogEntryState → LogEntry
  new_entry l vs req state = record {
    viewstamp = vs;
    state = state;
    request = req;
    hash =
        if l.use_hash
        then compute_hash (last_hash l)
            (record { viewstamp = vs; state = state; request = req; hash = [] })
        else [];
  }

  -- `Log::Append`; the reference that it returns is to the entry that `find` shows.
  pub append : Log → Viewstamp → Request → LogEntryState → Run Log
  append l vs req state = do
    assert (if length l.entries == 0 then vs.opnum == l.start else vs.opnum == inc64 (last_opnum l))
    ok (record l { entries = l.entries ++ new_entry l vs req state ∷ [] })

-- `Log::SetStatus`
pub set_status : Log → ℕ → LogEntryState → Run (Log × Bool)
set_status l op state = do
  found ← find l op
  elim found [
    | none ↦ ok (l, false)
    | some entry ↦
        ok (
          record l { entries = set l.entries (op - l.start) (record entry { state = state }) },
          true,
        )
  ]

-- `Log::SetRequest`
pub set_request : Log → ℕ → Request → Run (Log × Bool)
set_request l op req = do
  assert (not l.use_hash)
  found ← find l op
  elim found [
    | none ↦ ok (l, false)
    | some entry ↦
        ok (
          record l { entries = set l.entries (op - l.start) (record entry { request = req }) },
          true,
        )
  ]

-- `Log::RemoveAfter`; `op - start` below 0 would wrap, and then fails the first assertion.
pub remove_after : Log → ℕ → Run Log
remove_after l op = if ltb (last_opnum l) op then ok l else do
  assert (ltb ((op + 2 ^ 64 - l.start) % 2 ^ 64) (length l.entries))
  let kept = record l { entries = take (op - l.start) l.entries }
  assert (last_opnum kept == dec64 op)
  ok kept

-- The loop of `Log::Dump`, over the numbers left.
pub dump_loop : Log → ℕ → ℕ → Run (List LogEntry)
dump_loop l zero i = ok []
dump_loop l (suc n) i = do
  found ← find l i
  elim found [ none ↦ panic | some entry ↦ do rest ← dump_loop l n (i + 1); ok (entry ∷ rest) ]

-- `Log::Dump`: a message's log entries are the entries of the log.
pub dump : Log → ℕ → Run (List LogEntry)
dump l from = dump_loop l (last_opnum l + 1 - max from l.start) (max from l.start)

-- The first loop of `Log::Install`: the log cut where it diverges, and the entries from there on.
pub diverge : Log → List LogEntry → Run (Log × List LogEntry)
diverge l [] = ok (l, [])
diverge l (e ∷ es) = do
  found ← find l e.viewstamp.opnum
  elim found [
    | none ↦ ok (l, e ∷ es)
    | some old_entry ↦
        if not (e.viewstamp.view == old_entry.viewstamp.view)
        then (do cut ← remove_after l e.viewstamp.opnum; ok (cut, e ∷ es))
        else diverge l es
  ]

module _ (sha1 : List ℕ → List ℕ) where
  -- The second loop of `Log::Install`.
  pub append_all : Log → List LogEntry → Run Log
  append_all l [] = ok l
  append_all l (e ∷ es) = do l' ← append sha1 l e.viewstamp e.request prepared; append_all l' es

  pub install : Log → List LogEntry → Run Log
  install l es = do (cut, rest) ← diverge l es; append_all cut rest
