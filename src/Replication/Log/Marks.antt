-- ===== src/Replication/Log/Marks.antt =====
-- Changing one entry in its place: `SetStatus` and `SetRequest`.
use mathlib.Core.Option
use native.Mathlib.Decide.{dec_lt}
use ledger_database.Prelude.{
  ℕ, ◌-◌, ◌≤◌, ◌≡◌, ◌≢◌, refl, sym, ap, ◌∙◌, none, some, Bool, true, false, get_elem?, set, arith,
  Option-cases, inl, inr, length-set, inside-get_elem?, get_elem?-inside, get_elem?-set_same,
  get_elem?-set_other, ℕ_discrete,
}
use ledger_database.Panic.{Run, ok}
use ledger_database.Replication.{Viewstamp, Request}
use ledger_database.Replication.Log.{LogEntry, LogEntryState, Log, set_status, set_request}
use ledger_database.Replication.Log.Entries.{IsLog, next, seen, find-seen, seen_number}

-- What changing the entry under `op` by `change` leaves in the place of `l`, with the flag
-- returned.
pub record Marked (l : Log) (op : ℕ) (change : LogEntry → LogEntry) (out : Run (Log × Bool))
    : Type 0 where
  pub log : Log
  pub found : Bool
  pub returns : out ≡ ok (log, found)
  pub valid : IsLog log
  pub start : log.start ≡ l.start
  pub same_end : next log ≡ next l
  pub changed : seen log op ≡ Option.map change (seen l op)
  pub others : (n : ℕ) → n ≢ op → seen log n ≡ seen l n
  pub flag : found ≡ elim (seen l op) [ none ↦ false | some e ↦ true ]

-- The log with one entry replaced.
abbrev with : Log → ℕ → LogEntry → Log
with l op e = record l { entries = set l.entries (op - l.start) e }

seen-with :
    (l : Log) (op : ℕ) (e : LogEntry) {old : LogEntry}
    → seen l op ≡ some old
    → seen (with l op e) op ≡ some e
seen-with l op e {old} there = elim (dec_lt op l.start) [
  | yes before ↦ absurd (ground arith)
  | no after ↦
      let at : get_elem? l.entries (op - l.start) ≡ some old = ground arith in
      ground (arith, get_elem?-set_same l.entries (op - l.start) e at)
]

seen-with_other :
    (l : Log) (op n : ℕ) (e : LogEntry) {old : LogEntry}
    → seen l op ≡ some old
    → n ≢ op
    → seen (with l op e) n ≡ seen l n
seen-with_other l op n e {old} there ne = elim (dec_lt op l.start) [
  | yes before ↦ absurd (ground arith)
  | no after ↦ elim (dec_lt n l.start) [
    | yes n_before ↦ ground arith
    | no n_after ↦
        ground (arith, get_elem?-set_other l.entries (op - l.start) (n - l.start) e (omega arith))
  ]
]

with-IsLog :
    (l : Log) (op : ℕ) (e : LogEntry)
    → IsLog l
    → l.start ≤ op
    → e.viewstamp.opnum ≡ op
    → IsLog (with l op e)
with-IsLog l op e i le number = record {
  from_one = i.from_one;
  room = omega (arith, i.room, length-set l.entries (op - l.start) e);
  numbered = λ n x at. elim (ℕ_discrete (op - l.start) n) [
    | yes here ↦
        let inside = inside-get_elem? (set l.entries (op - l.start) e) n at in
        let (old, there) =
          get_elem?-inside l.entries (op - l.start)
            (omega (arith, length-set l.entries (op - l.start) e, here)) in
        let new = get_elem?-set_same l.entries (op - l.start) e there in
        let placed : get_elem? (set l.entries (op - l.start) e) n ≡ some e = rw (← here) new in
        let same : x ≡ e = cc in rw same (omega (arith, here))
    | no elsewhere ↦
        i.numbered n x (sym (get_elem?-set_other l.entries (op - l.start) n e elsewhere) ∙ at)
  ];
}

module _ (l : Log) (op : ℕ) (i : IsLog l) where
  below_start : {e : LogEntry} → seen l op ≡ some e → l.start ≤ op
  below_start there = elim (dec_lt op l.start) [
    | yes before ↦ absurd (ground arith)
    | no after ↦ omega arith
  ]

  unmarked : (change : LogEntry → LogEntry) → seen l op ≡ none → Marked l op change (ok (l, false))
  unmarked change there = record {
    log = l;
    found = false;
    returns = refl;
    valid = i;
    start = refl;
    same_end = refl;
    changed = rw there refl;
    others = λ n h. refl;
    flag = rw there refl;
  }

  marked :
      (change : LogEntry → LogEntry) (e : LogEntry)
      → ((x : LogEntry) → (change x).viewstamp ≡ x.viewstamp)
      → seen l op ≡ some e
      → Marked l op change (ok (with l op (change e), true))
  marked change e keeps there = record {
    log = with l op (change e);
    found = true;
    returns = refl;
    valid =
        with-IsLog l op (change e) i (below_start there)
          (ap (λ (v : Viewstamp). v.opnum) (keeps e) ∙ seen_number l op i there);
    start = refl;
    same_end = omega (arith, length-set l.entries (op - l.start) (change e));
    changed = rw there (seen-with l op (change e) there);
    others = λ n ne. seen-with_other l op n (change e) there ne;
    flag = rw there refl;
  }

  -- `SetStatus` returns whether there is an entry under the number; it changes that entry's state
  -- alone, and no other entry.
  pub set_status-Marked :
      (state : LogEntryState)
      → Marked l op (λ e. record e { state = state }) (set_status l op state)
  unfolding set_status
  set_status-Marked state = elim (Option-cases (seen l op)) [
    | inl gone ↦ rw (find-seen l i op) (rw gone (unmarked _ gone))
    | inr (e, there) ↦ rw (find-seen l i op) (rw there (marked _ e (λ x. refl) there))
  ]

  -- On a log without hashes `SetRequest` returns whether there is an entry under the number; it
  -- changes that entry's request alone, and no other entry.
  set_request-Marked :
      (req : Request)
      → l.use_hash ≡ false
      → Marked l op (λ e. record e { request = req }) (set_request l op req)
  unfolding set_request
  set_request-Marked req h = elim (Option-cases (seen l op)) [
    | inl gone ↦ simp (h) (rw (find-seen l i op) (rw gone (unmarked _ gone)))
    | inr (e, there) ↦ simp (h) (rw (find-seen l i op) (rw there (marked _ e (λ x. refl) there)))
  ]
