-- ===== src/Replication/Log/Removal.antt =====
-- Cutting the end of the log off: `RemoveAfter`.
use ledger_database.Prelude.{
  ℕ, ◌-◌, ◌≤◌, ◌<◌, ◌≡◌, refl, sym, ◌∙◌, none, take, arith, min, length-take, get_elem?-take_below,
  get_elem?-take_above,
}
use native.Mathlib.Decide.{dec_lt}
use ledger_database.Panic.{Run, ok}
use ledger_database.Replication.Log.Entries.{IsLog, next, seen, last_opnum-next, seen_beyond}
use ledger_database.Replication.Log.{Log, remove_after}

-- What `RemoveAfter` leaves in the place of `l`.
pub record Removed (l : Log) (op : ℕ) (out : Run Log) : Type 0 where
  pub log : Log
  pub returns : out ≡ ok log
  pub valid : IsLog log
  pub start : log.start ≡ l.start
  pub ends : next log ≡ min op (next l)
  pub before : (n : ℕ) → n < op → seen log n ≡ seen l n
  pub gone : (n : ℕ) → op ≤ n → seen log n ≡ none

abbrev shorter : Log → ℕ → Log
shorter l op = record l { entries = take (op - l.start) l.entries }

shorter-IsLog : (l : Log) (op : ℕ) → IsLog l → IsLog (shorter l op)
shorter-IsLog l op i = record {
  from_one = i.from_one;
  room = omega (arith, i.room, length-take (op - l.start) l.entries);
  numbered = λ n e at. elim (dec_lt n (op - l.start)) [
    | yes kept ↦ i.numbered n e (sym (get_elem?-take_below (op - l.start) l.entries n kept) ∙ at)
    | no cut ↦
        let gone = get_elem?-take_above (op - l.start) l.entries n (omega arith) in absurd (cc)
  ];
}

remove_after-shorter :
    (l : Log) (op : ℕ)
    → IsLog l
    → l.start ≤ op
    → op < next l
    → remove_after l op ≡ ok (shorter l op)
unfolding remove_after
remove_after-shorter l op i le lt = ground (
  arith,
  i.room,
  i.from_one,
  last_opnum-next l i,
  last_opnum-next (shorter l op) (shorter-IsLog l op i),
  length-take (op - l.start) l.entries,
)

remove_after-whole : (l : Log) (op : ℕ) → IsLog l → ¬ (op < next l) → remove_after l op ≡ ok l
unfolding remove_after
remove_after-whole l op i h = ground (arith, last_opnum-next l i)

seen-shorter : (l : Log) (op n : ℕ) → n < op → seen (shorter l op) n ≡ seen l n
seen-shorter l op n lt = elim (dec_lt n l.start) [
  | yes before ↦ ground arith
  | no after ↦
      ground (arith, get_elem?-take_below (op - l.start) l.entries (n - l.start) (omega arith))
]

gone_shorter : (l : Log) (op n : ℕ) → op ≤ n → l.start ≤ op → seen (shorter l op) n ≡ none
gone_shorter l op n le h =
    ground (arith, get_elem?-take_above (op - l.start) l.entries (n - l.start) (omega arith))

-- Cutting the log at a number from its start on succeeds: the numbers below still show what they
-- showed, nothing is left from there on, and the log is numbered as before.
pub remove_after-Removed :
    (l : Log) (op : ℕ) → IsLog l → l.start ≤ op → Removed l op (remove_after l op)
unfolding remove_after
remove_after-Removed l op i le = elim (dec_lt op (next l)) [
  | yes inside ↦ record {
    log = shorter l op;
    returns = remove_after-shorter l op i le inside;
    valid = shorter-IsLog l op i;
    start = refl;
    ends = omega (arith, length-take (op - l.start) l.entries);
    before = seen-shorter l op;
    gone = λ n h. gone_shorter l op n h le;
  }
  | no outside ↦ record {
    log = l;
    returns = remove_after-whole l op i outside;
    valid = i;
    start = refl;
    ends = omega arith;
    before = λ n h. refl;
    gone = λ n h. seen_beyond l n (omega arith);
  }
]
