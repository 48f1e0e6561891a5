-- ===== src/Replication/Log/Shipped.antt =====
-- `Dump` at one replica and `Install` of its entries at another.
use ledger_database.Prelude.{
  ℕ, zero, suc, ◌+◌, ◌-◌, ◌≤◌, ◌<◌, ◌≡◌, refl, sym, ap, ◌∙◌, List, [], ◌∷◌, some, length, get_elem?,
  max, arith,
}
use ledger_database.Panic.{Run, ok, ◌>>=◌}
use ledger_database.Replication.Log.{LogEntry, Log, install, dump, dump_loop, last_opnum}
use ledger_database.Replication.Log.Entries.{
  IsLog, next, seen, find-seen, last_opnum-next, seen_inside, seen_number,
}
use ledger_database.Replication.Log.Transfer.{From, Shows, install-Installed}

-- What `Dump` returns: the entries from `s` to the log's end.
pub record Dumped (l : Log) (s : ℕ) (out : Run (List LogEntry)) : Type 0 where
  pub entries : List LogEntry
  pub returns : out ≡ ok entries
  pub numbered : From s entries
  pub to_end : s + length entries ≡ next l
  pub same : (k : ℕ) → k < length entries → get_elem? entries k ≡ seen l (s + k)

same_cons :
    (l : Log) (x : LogEntry) (es : List LogEntry) (s : ℕ)
    → seen l s ≡ some x
    → ((k : ℕ) → k < length es → get_elem? es k ≡ seen l (s + 1 + k))
    → (k : ℕ) → k < length (x ∷ es)
    → get_elem? (x ∷ es) k ≡ seen l (s + k)
same_cons l x es s there ih zero h = sym there ∙ ap (seen l) (omega arith)
same_cons l x es s there ih (suc k) h = ih k (omega arith) ∙ ap (seen l) (omega arith)

dump_loop-Dumped :
    (l : Log) (n s : ℕ) → IsLog l → l.start ≤ s → s + n ≡ next l → Dumped l s (dump_loop l n s)
unfolding dump_loop
dump_loop-Dumped l zero s i le e = record {
  entries = [];
  returns = refl;
  numbered = tt;
  to_end = omega (arith, e);
  same = λ k h. absurd (omega arith);
}
dump_loop-Dumped l (suc n) s i le e =
    let (x, there) = seen_inside l s le (omega arith) in
    let ih = dump_loop-Dumped l n (s + 1) i (omega arith) (omega arith) in
    record {
      entries = x ∷ ih.entries;
      returns = rw (find-seen l i s) (rw there (rw ih.returns refl));
      numbered = (seen_number l s i there, ih.numbered);
      to_end = omega (arith, ih.to_end);
      same = same_cons l x ih.entries s there ih.same;
    }

-- `Dump` from a number of the log, or from before it.
pub dump-Dumped :
    (l : Log) (from : ℕ)
    → IsLog l
    → max from l.start ≤ next l
    → Dumped l (max from l.start) (dump l from)
unfolding dump
dump-Dumped l from i h =
    dump_loop-Dumped l (last_opnum l + 1 - max from l.start) (max from l.start) i (omega arith)
      (omega (arith, last_opnum-next l i))

Shows-at :
    (old l : Log) (es : List LogEntry) (s k : ℕ) {y : LogEntry}
    → Shows old l es
    → From s es
    → get_elem? es k ≡ some y
    → (x : LogEntry) × (seen l (s + k) ≡ some x) × (x.viewstamp.view ≡ y.viewstamp.view)
Shows-at old l [] s k sh f at = absurd (cc)
Shows-at old l (e ∷ es) s zero {y} sh f at =
    let first : e ≡ y = cc in
    (
      sh.0.entry,
      ap (seen l) (omega (arith, f.0)) ∙ sh.0.there,
      sh.0.view ∙ ap (λ (z : LogEntry). z.viewstamp.view) first,
    )
Shows-at old l (e ∷ es) s (suc k) sh f at =
    let (x, there, same) = Shows-at old l es (s + 1) k sh.1 f.1 at in
    (x, ap (seen l) (omega arith) ∙ there, same)

-- The receiver's log `m` after it installs what the log `l` shows from `s` on.
pub record Shipped (l m : Log) (s : ℕ) (out : Run Log) : Type 0 where
  pub log : Log
  pub returns : out ≡ ok log
  pub valid : IsLog log
  pub start : log.start ≡ m.start
  pub agrees :
      (n : ℕ)
      → s ≤ n
      → n < next l
      → (x : LogEntry) × (y : LogEntry) × (seen log n ≡ some x)
        × (seen l n ≡ some y)
        × (x.viewstamp.view ≡ y.viewstamp.view)
  pub below : (n : ℕ) → n < s → seen log n ≡ seen m n

-- Sending a log from a number on and installing it at a replica whose log reaches that number
-- fails no assertion: the receiver then has an entry of the sender's view under each of the
-- sender's numbers from there on, and below it what it had.
pub dump-install-Shipped :
    (sha1 : List ℕ → List ℕ) (l m : Log) (from : ℕ)
    → IsLog l
    → IsLog m
    → max from l.start ≤ next l
    → m.start ≤ max from l.start
    → max from l.start ≤ next m
    → Shipped l m (max from l.start) (dump l from >>= install sha1 m)
dump-install-Shipped sha1 l m from i j h le reach =
    let d = dump-Dumped l from i h in
    let done =
      install-Installed sha1 d.entries m (max from l.start) j le reach d.numbered
        (omega (arith, d.to_end, i.room)) in
    record {
      log = done.log;
      returns = rw d.returns done.returns;
      valid = done.valid;
      start = done.start;
      agrees = λ n at_least before.
          let k = n - max from l.start in
          let (y, there) = seen_inside l n (omega arith) before in
          let at = d.same k (omega (arith, d.to_end)) in
          let place : max from l.start + k ≡ n = omega arith in
          let (x, shown, view) =
            Shows-at m done.log d.entries (max from l.start) k done.shows d.numbered
              (at ∙ ap (seen l) place ∙ there) in
          (x, y, ap (seen done.log) (sym place) ∙ shown, there, view);
      below = done.below;
    }
