-- ===== src/Replication/Log/Entries.antt =====
-- The log's invariant, and what each operation does to the entries that `find` shows.
use ledger_database.Prelude.{
  ℕ, ◌+◌, ◌-◌, ◌^◌, ◌≤◌, ◌<◌, ◌≡◌, ◌≢◌, refl, sym, ◌∙◌, List, [], ◌∷◌, ◌++◌, Option, none, some,
  true, length, get_elem?, ltb, ◌==◌, if◌then◌else◌, arith, Option-cases, inl, inr,
  inside-get_elem?, length-append, get_elem?-outside, get_elem?-inside, get_elem?-append_left,
  get_elem?-append_new,
}
use native.Mathlib.Decide.{dec_lt}
use ledger_database.Panic.{Run, ok}
use ledger_database.Replication.{Viewstamp, Request, inc64, dec64}
use ledger_database.Replication.Log.{
  LogEntry, LogEntryState, Log, get_last?, last_opnum, last_viewstamp, find, append, new_entry,
}

-- The entries are numbered one by one from `start`, and the numbers fit 64 bits.
pub record IsLog (l : Log) : Type 0 where
  pub from_one : 0 < l.start
  pub room : l.start + length l.entries < 2 ^ 64
  pub numbered :
      (i : ℕ) (e : LogEntry) → get_elem? l.entries i ≡ some e → e.viewstamp.opnum ≡ l.start + i

get_last?-get_elem? :
    (x : LogEntry) (xs : List LogEntry) → get_last? (x ∷ xs) ≡ get_elem? (x ∷ xs) (length xs)
get_last?-get_elem? x [] = refl
get_last?-get_elem? x (y ∷ xs) = get_last?-get_elem? y xs

-- The entry under a number.
abbrev pub seen : Log → ℕ → Option LogEntry
seen l op = if ltb op l.start then none else get_elem? l.entries (op - l.start)

-- The next number to append at.
abbrev pub next : Log → ℕ
next l = l.start + length l.entries

last_opnum_of :
    (start : ℕ) (es : List LogEntry)
    → 0 < start
    → start + length es < 2 ^ 64
    → ((i : ℕ) (e : LogEntry) → get_elem? es i ≡ some e → e.viewstamp.opnum ≡ start + i)
    → elim (get_last? es) [ none ↦ dec64 start | some e ↦ e.viewstamp.opnum ] + 1
      ≡ start + length es
last_opnum_of start [] p r n = omega arith
last_opnum_of start (x ∷ es) p r n =
    let (e, at) = get_elem?-inside (x ∷ es) (length es) (omega arith) in
    rw (get_last?-get_elem? x es ∙ at) (omega (arith, n (length es) e at))

module _ (l : Log) (i : IsLog l) where
  last_viewstamp_of :
      (o : Option LogEntry)
      → (elim o as (λ x. Viewstamp) [
        | none ↦ record { view = 0; opnum = dec64 l.start }
        | some e ↦ e.viewstamp
      ]).opnum
          + 1
        ≡ elim o as (λ x. ℕ) [ none ↦ dec64 l.start | some e ↦ e.viewstamp.opnum ] + 1
  last_viewstamp_of none = refl
  last_viewstamp_of (some e) = refl

  pub last_opnum-next : last_opnum l + 1 ≡ next l
  unfolding last_opnum
  last_opnum-next = last_opnum_of l.start l.entries i.from_one i.room i.numbered

  pub last_viewstamp-next : (last_viewstamp l).opnum + 1 ≡ next l
  unfolding last_viewstamp last_opnum
  last_viewstamp-next = last_viewstamp_of (get_last? l.entries) ∙ last_opnum-next

  -- What `find` shows, with no assertion failing.
  pub find-seen : (op : ℕ) → find l op ≡ ok (seen l op)
  unfolding find
  find-seen op = elim (Option-cases (get_elem? l.entries (op - l.start))) [
    | inl outside ↦
        let far : ¬ (op - l.start < length l.entries) =
          λ h. let (e, at) = get_elem?-inside l.entries (op - l.start) h in cc in
        rw outside (ground arith)
    | inr (e, at) ↦
        let numbered = i.numbered (op - l.start) e at in
        let inside = inside-get_elem? l.entries (op - l.start) at in rw at (ground arith)
  ]

  -- The assertion of `append` holds at the next number.
  append_test :
      (n : ℕ)
      → n ≡ next l
      → (if length l.entries == 0 then n == l.start else n == inc64 (last_opnum l)) ≡ true
  append_test n e = ground (arith, i.room, last_opnum-next)

-- What `Append` leaves in the place of `l`.
pub record Appended (l : Log) (vs : Viewstamp) (req : Request) (state : LogEntryState)
    (out : Run Log) : Type 0 where
  pub log : Log
  pub returns : out ≡ ok log
  pub valid : IsLog log
  pub start : log.start ≡ l.start
  pub grows : next log ≡ next l + 1
  pub entry : LogEntry
  pub new : seen log vs.opnum ≡ some entry
  pub stamp : entry.viewstamp ≡ vs
  pub request : entry.request ≡ req
  pub marked : entry.state ≡ state
  pub others : (op : ℕ) → op ≢ vs.opnum → seen log op ≡ seen l op

numbered-append :
    (es : List LogEntry) (start : ℕ) (new : LogEntry)
    → ((i : ℕ) (e : LogEntry) → get_elem? es i ≡ some e → e.viewstamp.opnum ≡ start + i)
    → new.viewstamp.opnum ≡ start + length es
    → (i : ℕ) (e : LogEntry) → get_elem? (es ++ new ∷ []) i ≡ some e
    → e.viewstamp.opnum ≡ start + i
numbered-append es start new n h i e at = elim (dec_lt i (length es)) [
  | yes old ↦ n i e (sym (get_elem?-append_left es (new ∷ []) i old) ∙ at)
  | no late ↦
      let inside = inside-get_elem? (es ++ new ∷ []) i at in
      let place : i ≡ length es = omega (arith, length-append es (new ∷ [])) in
      let same = get_elem?-append_new es new i place in ground (arith, same)
]

-- The log with one more entry.
abbrev longer : Log → LogEntry → Log
longer l new = record l { entries = l.entries ++ new ∷ [] }

seen_new : (l : Log) (new : LogEntry) (n : ℕ) → n ≡ next l → seen (longer l new) n ≡ some new
seen_new l new n e = ground (arith, get_elem?-append_new l.entries new (n - l.start) (omega arith))

seen_others : (l : Log) (new : LogEntry) (n : ℕ) → n ≢ next l → seen (longer l new) n ≡ seen l n
seen_others l new n ne = elim (dec_lt n (next l)) [
  | yes inside ↦ elim (dec_lt n l.start) [
    | yes before ↦ ground arith
    | no after ↦
        ground (arith, get_elem?-append_left l.entries (new ∷ []) (n - l.start) (omega arith))
  ]
  | no beyond ↦ ground (
    arith,
    get_elem?-outside l.entries (n - l.start) (omega arith),
    get_elem?-outside (l.entries ++ new ∷ []) (n - l.start)
        (omega (arith, length-append l.entries (new ∷ []))),
  )
]

-- Appending at the next number succeeds: the new entry is found under its number with what was
-- given, every other number shows what it showed, and the numbering goes on.
pub append-Appended :
    (sha1 : List ℕ → List ℕ) (l : Log) (vs : Viewstamp) (req : Request) (state : LogEntryState)
    → IsLog l
    → vs.opnum ≡ next l
    → next l + 1 < 2 ^ 64
    → Appended l vs req state (append sha1 l vs req state)
unfolding append new_entry
append-Appended sha1 l vs req state i e room =
    let new = new_entry sha1 l vs req state in
    record {
      log = longer l new;
      returns = rw (append_test l i vs.opnum e) refl;
      valid = record {
        from_one = i.from_one;
        room = omega (arith, length-append l.entries (new ∷ []));
        numbered = numbered-append l.entries l.start new i.numbered e;
      };
      start = refl;
      grows = omega (arith, length-append l.entries (new ∷ []));
      entry = new;
      new = seen_new l new vs.opnum e;
      stamp = refl;
      request = refl;
      marked = refl;
      others = λ op ne. seen_others l new op (λ q. ne (q ∙ sym e));
    }

pub seen_beyond : (l : Log) (n : ℕ) → next l ≤ n → seen l n ≡ none
seen_beyond l n le = ground (arith, get_elem?-outside l.entries (n - l.start) (omega arith))

pub seen_inside :
    (l : Log) (n : ℕ) → l.start ≤ n → n < next l → (e : LogEntry) × (seen l n ≡ some e)
seen_inside l n le lt =
    let (e, at) = get_elem?-inside l.entries (n - l.start) (omega arith) in (e, ground (arith, at))

pub seen_number :
    (l : Log) (n : ℕ) {e : LogEntry} → IsLog l → seen l n ≡ some e → e.viewstamp.opnum ≡ n
seen_number l n {e} i there = elim (dec_lt n l.start) [
  | yes before ↦ absurd (ground arith)
  | no after ↦
      let at : get_elem? l.entries (n - l.start) ≡ some e = ground arith in
      omega (arith, i.numbered (n - l.start) e at)
]
