-- ===== src/Merkle/Loop.antt =====
-- The `while` loop of `update` as a whole.
use ledger_database.Prelude.{
  [], ◌∷◌, get_elem?, ℕ, zero, suc, ◌+◌, ◌/◌, ◌<◌, ◌≡◌, refl, ap, ◌∙◌, List, [], Option, some, Bool,
  false, ◌||◌, length, get_or, drop, ltb, lt→ltb, arith, length-drop,
}
use native.Mathlib.Decide.{dec_lt}
use ledger_database.Hash.{Blake2b}
use ledger_database.Db.{DbKey, mt}
use ledger_database.Merkle.{Climb, climb_step, climb}
use ledger_database.Merkle.Spec.{
  AllHash, next_full, full_top, double-eq, pairs, length-pairs, AllHash-pairs, Tree, root,
}
use ledger_database.Merkle.Level.{Below}
use ledger_database.Merkle.Rise.{Rising, load_previous-loaded}
use ledger_database.Merkle.Round.{round-Rising, round-Below}

first-some : (xs : List (List ℕ)) → 0 < length xs → get_elem? xs 0 ≡ some (get_or xs 0 [])
first-some [] h = absurd (omega arith)
first-some (x ∷ xs) h = refl

-- What the loop has made when it ends, over a level `xs` at height `k`.
pub record Risen (blake : Blake2b) (c k : ℕ) (full : Bool) (xs : List (List ℕ)) (s : Climb)
    (out : Option Climb) : Type 0 where
  pub top : Climb
  pub height : ℕ
  pub ends : out ≡ some top
  pub tree : Tree blake top.db c k full xs height
  pub level : top.level ≡ k + height
  pub complete : top.complete ≡ full_top height full (length xs)
  pub hash : get_elem? top.level_hashes 0 ≡ some (root blake height xs)
  pub below : (key : DbKey) → Below k key → top.db key ≡ s.db key

module _ (blake : Blake2b) (prev : Option ℕ) (c : ℕ) where
  step-Rising :
      (k : ℕ) (full : Bool) (xs : List (List ℕ)) (s : Climb)
      → AllHash xs
      → Rising blake c k full xs s
      → Rising blake c
          (k + 1)
          (next_full full (length xs))
          (pairs blake xs)
          (climb_step blake prev c s)
  unfolding climb_step
  step-Rising k full xs s a r = rw (load_previous-loaded blake c k full xs prev s a r) (
      round-Rising blake c k (s.level_starting_seq / 2) full xs s.db s.level_starting_seq refl
        r.kept (omega (arith, r.new, double-eq (s.level_starting_seq / 2))))

  step-Below :
      (k : ℕ) (full : Bool) (xs : List (List ℕ)) (s : Climb)
      → AllHash xs
      → Rising blake c k full xs s
      → (key : DbKey) → Below k key
      → (climb_step blake prev c s).db key ≡ s.db key
  unfolding climb_step
  step-Below k full xs s a r key b =
      rw (load_previous-loaded blake c k full xs prev s a r)
        (round-Below blake c k (s.level_starting_seq / 2) full xs s.db key b)

  Below-next : (k : ℕ) (key : DbKey) → Below k key → Below (k + 1) key
  Below-next k (mt l i s) b = omega arith
  Below-next k _ b = b

  -- The loop goes on exactly while the level has two nodes.
  goes_on :
      (k : ℕ) (full : Bool) (xs : List (List ℕ)) (s : Climb)
      → Rising blake c k full xs s
      → (ltb 1 (length s.level_hashes) || ltb 0 s.level_starting_seq) ≡ ltb 1 (length xs)
  goes_on k full xs s r =
      ground (arith, r.new, ap length r.hashes, length-drop s.level_starting_seq xs)

  climbed :
      (k : ℕ) (full : Bool) (xs : List (List ℕ)) (s : Climb) (out : Option Climb)
      → 1 < length xs
      → AllHash xs
      → Rising blake c k full xs s
      → Risen blake c
          (k + 1)
          (next_full full (length xs))
          (pairs blake xs)
          (climb_step blake prev c s)
          out
      → Risen blake c k full xs s out
  climbed k full xs s out more a r ih =
      let same : (key : DbKey) → Below k key → ih.top.db key ≡ s.db key =
        λ key b. ih.below key (Below-next k key b) ∙ step-Below k full xs s a r key b in
      record {
        top = ih.top;
        height = suc ih.height;
        ends = ih.ends;
        tree = (more, λ i lt. same (mt k i _) (omega arith) ∙ r.stored i lt, ih.tree);
        level = omega (arith, ih.level);
        complete =
            ih.complete
            ∙ ap (full_top ih.height (next_full full (length xs))) (length-pairs blake xs);
        hash = ih.hash;
        below = same;
      }

  arrived :
      (k : ℕ) (full : Bool) (xs : List (List ℕ)) (s : Climb)
      → ¬ (1 < length xs)
      → Rising blake c k full xs s
      → Risen blake c k full xs s (some s)
  arrived k full xs s one r =
      let start : s.level_starting_seq ≡ 0 = omega (arith, r.new) in
      record {
        top = s;
        height = 0;
        ends = refl;
        tree = (omega (arith, r.new), r.stored);
        level = omega (arith, r.level);
        complete = r.complete;
        hash =
            ap (λ l. get_elem? l 0) (r.hashes ∙ ap (λ n. drop n xs) start)
            ∙ first-some xs (omega (arith, r.new));
        below = λ key b. refl;
      }

  pub climb-Risen :
      (fuel k : ℕ) (full : Bool) (xs : List (List ℕ)) (s : Climb)
      → length xs < fuel
      → AllHash xs
      → Rising blake c k full xs s
      → Risen blake c k full xs s (climb blake fuel prev c s)
  unfolding climb
  climb-Risen zero k full xs s f a r = elim f [ ]
  climb-Risen (suc fuel) k full xs s f a r = elim (dec_lt 1 (length xs)) [
    | yes more ↦
        rw (goes_on k full xs s r, lt→ltb 1 (length xs) more)
          (climbed k full xs s _ more a r (
            climb-Risen fuel (k + 1) (next_full full (length xs)) (pairs blake xs)
              (climb_step blake prev c s) (omega (arith, length-pairs blake xs))
              (AllHash-pairs blake xs a) (step-Rising k full xs s a r)))
    | no one ↦
        let stop : ltb 1 (length xs) ≡ false = ground arith in
        rw (goes_on k full xs s r, stop) (arrived k full xs s one r)
  ]
