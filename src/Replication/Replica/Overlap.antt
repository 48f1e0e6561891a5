-- ===== src/Replication/Replica/Overlap.antt =====
-- A quorum of acknowledgements and one of view changes, at replicas that
-- distributed/replication/vr/replica.cc has made.
mod Tests
use ledger_database.Prelude.{
  ℕ, ◌+◌, ◌-◌, ◌*◌, ◌≡◌, ◌≤◌, ◌<◌, ◌⊎◌, inl, inr, refl, sym, ap, subst, List, none, some, Bool,
  true, false, ◌==◌, ◌||◌, is_some, Bool-cases, ℕ_discrete, arith,
}
use ledger_database.Maps.{number_order, lookup, IsSorted}
use ledger_database.Configuration.{Configuration, quorum_size}
use ledger_database.Replication.Quorum.{quorum_of}
use ledger_database.Replication.Quorum.Meet.{count, meet, AllBelow, with_self, count-with_self}
use ledger_database.Replication.Messages.{PrepareOk, DoViewChange}
use ledger_database.Replication.Replica.{Host}
use ledger_database.Replication.Replica.Methods.{new_replica}

-- A replica of a configuration, with the messages it has from the others.
pub record IsCollected {Msg : Type 0} (c : Configuration) (my_idx : ℕ) (m : List (ℕ × Msg))
    : Type 0 where
  pub inside : my_idx < c.n
  pub sorted : IsSorted m
  pub below : AllBelow c.n m
  pub others : lookup m my_idx ≡ none

takes_part :
    {Msg : Type 0} (a i : ℕ) (m : List (ℕ × Msg))
    → with_self a m i ≡ true
    → (i ≡ a) ⊎ (is_some (lookup m i) ≡ true)
takes_part a i m h = elim (ℕ_discrete i a) [
  | yes itself ↦ inl itself
  | no other ↦ let test : (i == a) ≡ false = ground arith in inr (rw test at h)
]

-- In a configuration of at most `2 f + 1` replicas, one replica has as many acknowledgements from the
-- others as its constructor asks for, and another as many view changes. Then some replica takes part in
-- both: each time it is the collecting replica itself or has sent one of the messages.
pub new_replica-overlap :
    (h h' : Host) (m : List (ℕ × PrepareOk)) (m' : List (ℕ × DoViewChange))
    {acks : List (ℕ × PrepareOk)} {changes : List (ℕ × DoViewChange)}
    → h'.configuration ≡ h.configuration
    → h.configuration.n ≤ 2 * h.configuration.f + 1
    → IsCollected h.configuration h.my_idx m
    → IsCollected h.configuration h'.my_idx m'
    → quorum_of (new_replica h).prepare_ok_quorum.num_required m ≡ some acks
    → quorum_of (new_replica h').do_view_change_quorum.num_required m' ≡ some changes
    → (i : ℕ) × (i < h.configuration.n)
      × ((i ≡ h.my_idx) ⊎ (is_some (lookup acks i) ≡ true))
      × ((i ≡ h'.my_idx) ⊎ (is_some (lookup changes i) ≡ true))
unfolding new_replica quorum_size
new_replica-overlap h h' m m' {acks = acks} {changes = changes} same few k k' q q' =
    let c = h.configuration in
    let first =
      count-with_self c.n (quorum_size c - 1) h.my_idx m k.inside k.sorted k.below k.others q in
    let q2 = subst (λ d. quorum_of (quorum_size d - 1) m' ≡ some changes) same q' in
    let second =
      count-with_self c.n (quorum_size c - 1) h'.my_idx m' k'.inside k'.sorted k'.below k'.others
        q2 in
    let (i, lt, here, here') =
      meet c.n (with_self h.my_idx acks) (with_self h'.my_idx changes)
        (omega (arith, first, second, few)) in
    (i, lt, takes_part h.my_idx i acks here, takes_part h'.my_idx i changes here')
