-- ===== src/Configuration.antt =====
-- distributed/lib/configuration.cc: who leads a view, and how many replicas make a quorum. The
-- addresses and the reading of the file are left out.
use native.Mathlib.Nat.{mod-lt, mod-eq_of_lt, mod-eq-sub-mod, mod-add-mod, add-mod_right}
use native.Mathlib.Decide.{dec_lt}
use ledger_database.Prelude.{ℕ, ◌+◌, ◌/◌, ◌%◌, ◌≤◌, ◌<◌, sym, ◌∙◌, ◌-◌, ◌≡◌, ◌≢◌, arith}

pub record Configuration : Type 0 where
  pub n : ℕ
  pub f : ℕ

unfoldable pub get_leader_index : Configuration → ℕ → ℕ
get_leader_index c view = view % c.n

unfoldable pub quorum_size : Configuration → ℕ
quorum_size c = c.f + 1

abbrev pub fast_quorum_size : Configuration → ℕ
fast_quorum_size c = c.f + (c.f + 1) / 2 + 1

-- What the leaders of views must be.
pub record IsRotation (c : Configuration) (view k : ℕ) : Type 0 where
  pub inside : get_leader_index c view < c.n
  pub returns : get_leader_index c (view + c.n) ≡ get_leader_index c view
  pub changes : 0 < k → k < c.n → get_leader_index c (view + k) ≢ get_leader_index c view

module _ (c : Configuration) (view k : ℕ) where
  -- `(view + k) % n` against `view % n`.
  index_differs : 0 < k → k < c.n → ¬ ((view + k) % c.n ≡ view % c.n)
  index_differs h lt e =
      let r = view % c.n in
      let small : r < c.n = mod-lt view (omega arith) in
      let moved : (r + k) % c.n ≡ r = mod-add-mod view c.n k ∙ e in
      elim (dec_lt (r + k) c.n) [
        | yes below ↦ absurd (omega (arith, sym (mod-eq_of_lt below) ∙ moved))
        | no over ↦
            let le : c.n ≤ r + k = omega arith in
            let less : r + k - c.n < c.n = omega arith in
            absurd (omega (arith, sym (mod-eq_of_lt less) ∙ sym (mod-eq-sub-mod le) ∙ moved))
      ]

  -- With at least one replica, the leader of every view is a replica, the views take turns (the
  -- leader returns after `n` views), and no two of any `n` views in a row have the same leader.
  get_leader_index-IsRotation : 0 < c.n → IsRotation c view k
  unfolding get_leader_index
  get_leader_index-IsRotation some_replica = record {
    inside = mod-lt view some_replica;
    returns = add-mod_right view c.n;
    changes = index_differs;
  }
