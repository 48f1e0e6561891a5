-- ===== src/Replication/Log/Transfer.antt =====
-- Sending a part of a log and installing it elsewhere: `Dump` and `Install`.
use native.Mathlib.Decide.{dec_lt}
use ledger_database.Prelude.{
  ℕ, ◌+◌, ◌^◌, ◌≤◌, ◌<◌, ◌≡◌, ◌≢◌, refl, sym, ap, ◌∙◌, List, [], ◌∷◌, ◌⊎◌, none, some, true, false,
  not, length, ◌==◌, arith, Option-cases, inl, inr, ℕ_discrete,
}
use ledger_database.Panic.{Run, ok}
use ledger_database.Replication.{Viewstamp}
use ledger_database.Replication.Log.{
  LogEntry, Log, prepared, find, remove_after, diverge, append_all, install,
}
use ledger_database.Replication.Log.Entries.{
  IsLog, next, seen, find-seen, append-Appended, seen_beyond, seen_inside,
}
use ledger_database.Replication.Log.Removal.{remove_after-Removed}

-- Entries numbered one by one from `s`.
abbrev pub From : ℕ → List LogEntry → Type 0
From s [] = Unit
From s (e ∷ es) = (e.viewstamp.opnum ≡ s) × From (s + 1) es

-- What a log that was `old` has under the number of an entry to install: an entry of its view, which
-- was there before, or is new, with its request, and prepared.
pub record Has (old log : Log) (e : LogEntry) : Type 0 where
  pub entry : LogEntry
  pub there : seen log e.viewstamp.opnum ≡ some entry
  pub view : entry.viewstamp.view ≡ e.viewstamp.view
  pub origin :
      (seen old e.viewstamp.opnum ≡ some entry)
      ⊎ ((entry.request ≡ e.request) × (entry.state ≡ prepared))

abbrev pub Shows : (old log : Log) → List LogEntry → Type 0
Shows old log [] = Unit
Shows old log (e ∷ es) = Has old log e × Shows old log es

-- What installing the entries `es`, numbered from `s`, leaves in the place of `l`, for a log that was
-- `old` to begin with.
pub record Installed (old l : Log) (s : ℕ) (es : List LogEntry) (out : Run Log) : Type 0 where
  pub log : Log
  pub returns : out ≡ ok log
  pub valid : IsLog log
  pub start : log.start ≡ l.start
  pub shows : Shows old log es
  pub below : (n : ℕ) → n < s → seen log n ≡ seen l n
  pub reach : s + length es ≤ next log

module _ (sha1 : List ℕ → List ℕ) where
  append_all-Installed :
      (old : Log) (es : List LogEntry) (l : Log)
      → IsLog l
      → From (next l) es
      → next l + length es < 2 ^ 64
      → Installed old l (next l) es (append_all sha1 l es)
  unfolding append_all
  append_all-Installed old [] l i f r = record {
    log = l;
    returns = refl;
    valid = i;
    start = refl;
    shows = tt;
    below = λ n h. refl;
    reach = omega arith;
  }
  append_all-Installed old (e ∷ es) l i f r =
      let a = append-Appended sha1 l e.viewstamp e.request prepared i f.0 (omega arith) in
      let ih =
        append_all-Installed old es a.log a.valid (rw a.grows f.1) (omega (arith, a.grows)) in
      record {
        log = ih.log;
        returns = rw a.returns ih.returns;
        valid = ih.valid;
        start = ih.start ∙ a.start;
        shows = (
          record {
            entry = a.entry;
            there = ih.below e.viewstamp.opnum (omega (arith, a.grows, f.0)) ∙ a.new;
            view = ap (λ (v : Viewstamp). v.view) a.stamp;
            origin = inr (a.request, a.marked);
          },
          ih.shows,
        );
        below = λ n h.
            ih.below n (omega (arith, a.grows)) ∙ a.others n (λ q. absurd (omega (arith, f.0)));
        reach = omega (arith, ih.reach, a.grows);
      }

  append_all-nil : (l : Log) → install sha1 l [] ≡ ok l
  unfolding install diverge append_all
  append_all-nil l = refl

  install-cons-none :
      (l : Log) (e : LogEntry) (es : List LogEntry)
      → find l e.viewstamp.opnum ≡ ok none
      → install sha1 l (e ∷ es) ≡ append_all sha1 l (e ∷ es)
  unfolding install diverge
  install-cons-none l e es h = rw h

  install-cons-same :
      (l : Log) (e old : LogEntry) (es : List LogEntry)
      → find l e.viewstamp.opnum ≡ ok (some old)
      → e.viewstamp.view ≡ old.viewstamp.view
      → install sha1 l (e ∷ es) ≡ install sha1 l es
  unfolding install diverge
  install-cons-same l e old es h same =
      let test : not (e.viewstamp.view == old.viewstamp.view) ≡ false = ground arith in
      rw h (rw test)

  install-cons-cut :
      (l cut : Log) (e old : LogEntry) (es : List LogEntry)
      → find l e.viewstamp.opnum ≡ ok (some old)
      → e.viewstamp.view ≢ old.viewstamp.view
      → remove_after l e.viewstamp.opnum ≡ ok cut
      → install sha1 l (e ∷ es) ≡ append_all sha1 cut (e ∷ es)
  unfolding install diverge
  install-cons-cut l cut e old es h differ c =
      let test : not (e.viewstamp.view == old.viewstamp.view) ≡ true = ground arith in
      rw h (rw test (rw c))

  below_next : (l : Log) (n : ℕ) {e : LogEntry} → seen l n ≡ some e → n < next l
  below_next l n there = elim (dec_lt n (next l)) [
    | yes inside ↦ inside
    | no outside ↦ let gone = seen_beyond l n (omega arith) in absurd (cc)
  ]

  -- The log ends at the first entry to install.
  install-unseen :
      (e : LogEntry) (es : List LogEntry) (l : Log) (s : ℕ)
      → IsLog l
      → l.start ≤ s
      → s ≤ next l
      → From s (e ∷ es)
      → s + length (e ∷ es) < 2 ^ 64
      → seen l e.viewstamp.opnum ≡ none
      → Installed l l s (e ∷ es) (install sha1 l (e ∷ es))
  install-unseen e es l s i le h f r none_there =
      let at_end : s ≡ next l = elim (dec_lt s (next l)) [
        | yes inside ↦ let (old, there) = seen_inside l s le inside in absurd (cc (f.0))
        | no outside ↦ omega arith
      ] in
      rw (install-cons-none l e es (find-seen l i e.viewstamp.opnum ∙ ap ok none_there))
        (rw at_end (append_all-Installed l (e ∷ es) l i (rw (sym at_end) f) (rw (sym at_end) r)))

  -- The log has the entry from the same view.
  install-agrees :
      (e : LogEntry) (es : List LogEntry) (l : Log) (s : ℕ)
      → IsLog l
      → l.start ≤ s
      → s ≤ next l
      → From s (e ∷ es)
      → (old : LogEntry) → seen l e.viewstamp.opnum ≡ some old
      → e.viewstamp.view ≡ old.viewstamp.view
      → Installed l l (s + 1) es (install sha1 l es)
      → Installed l l s (e ∷ es) (install sha1 l (e ∷ es))
  install-agrees e es l s i le h f old there same ih = record {
    log = ih.log;
    returns =
        install-cons-same l e old es (find-seen l i e.viewstamp.opnum ∙ ap ok there) same
        ∙ ih.returns;
    valid = ih.valid;
    start = ih.start;
    shows = (
      record {
        entry = old;
        there = ih.below e.viewstamp.opnum (omega (arith, f.0)) ∙ there;
        view = sym same;
        origin = inl there;
      },
      ih.shows,
    );
    below = λ n h. ih.below n (omega arith);
    reach = omega (arith, ih.reach);
  }

  -- The log has the entry from another view.
  install-cuts :
      (e : LogEntry) (es : List LogEntry) (l : Log) (s : ℕ)
      → IsLog l
      → l.start ≤ s
      → s ≤ next l
      → From s (e ∷ es)
      → s + length (e ∷ es) < 2 ^ 64
      → (old : LogEntry) → seen l e.viewstamp.opnum ≡ some old
      → e.viewstamp.view ≢ old.viewstamp.view
      → Installed l l s (e ∷ es) (install sha1 l (e ∷ es))
  install-cuts e es l s i le h f r old there differ =
      let inside = below_next l e.viewstamp.opnum there in
      let c = remove_after-Removed l e.viewstamp.opnum i (omega (arith, f.0)) in
      let ends : s ≡ next c.log = omega (arith, c.ends, f.0) in
      let done =
        append_all-Installed l (e ∷ es) c.log c.valid (rw (sym ends) f) (rw (sym ends) r) in
      record {
        log = done.log;
        returns =
            install-cons-cut l c.log e old es (find-seen l i e.viewstamp.opnum ∙ ap ok there) differ
              c.returns
            ∙ done.returns;
        valid = done.valid;
        start = done.start ∙ c.start;
        shows = done.shows;
        below = λ n h. done.below n (omega (arith, ends)) ∙ c.before n (omega (arith, f.0));
        reach = omega (arith, done.reach, ends);
      }

  -- Installing entries numbered one by one, with no gap behind the log's end, succeeds. Under the
  -- number of each of them the log then has an entry of its view, which it had before or which is
  -- new, prepared and with the request of the entry installed; below them it shows what it showed
  -- before.
  pub install-Installed :
      (es : List LogEntry) (l : Log) (s : ℕ)
      → IsLog l
      → l.start ≤ s
      → s ≤ next l
      → From s es
      → s + length es < 2 ^ 64
      → Installed l l s es (install sha1 l es)
  install-Installed [] l s i le h f r = record {
    log = l;
    returns = append_all-nil l;
    valid = i;
    start = refl;
    shows = tt;
    below = λ n h. refl;
    reach = omega arith;
  }
  install-Installed (e ∷ es) l s i le h f r = elim (Option-cases (seen l e.viewstamp.opnum)) [
    | inl none_there ↦ install-unseen e es l s i le h f r none_there
    | inr (old, there) ↦ elim (ℕ_discrete e.viewstamp.view old.viewstamp.view) [
      | yes same ↦ install-agrees e es l s i le h f old there same (
          install-Installed es l (s + 1) i (omega arith)
            (omega (arith, below_next l e.viewstamp.opnum there, f.0)) f.1 (omega (arith)))
      | no differ ↦ install-cuts e es l s i le h f r old there differ
    ]
  ]
