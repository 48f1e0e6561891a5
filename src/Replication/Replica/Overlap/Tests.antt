-- ===== src/Replication/Replica/Overlap/Tests.antt =====
-- The theorem on two quorums at three replicas: the first has an acknowledgement of the second, and the
-- third a view change of the second.
use ledger_database.Prelude.{
  ℕ, ◌≡◌, ◌<◌, ◌⊎◌, refl, List, [], ◌∷◌, none, some, true, is_some, arith,
}
use ledger_database.Maps.{number_order, lookup}
use ledger_database.Configuration.{quorum_size}
use ledger_database.Replication.Quorum.{quorum_of}
use ledger_database.Replication.Messages.{PrepareOk, DoViewChange}
use ledger_database.Replication.Replica.{Host}
use ledger_database.Replication.Replica.Methods.{new_replica}
use ledger_database.Replication.Replica.Overlap.{new_replica-overlap}

abbrev host : ℕ → Host
host i = record {
  configuration = record { n = 3; f = 1 };
  my_idx = i;
  app = record {
    on_leader = λ calls n op. (true, op);
    on_replica = λ calls n op. op;
    on_unlogged = λ calls op. op;
  };
  sha1 = λ bytes. bytes;
}

abbrev acks : List (ℕ × PrepareOk)
acks = (1, record { view = 0; opnum = 4; replica_idx = 1 }) ∷ []

abbrev changes : List (ℕ × DoViewChange)
changes =
    (
      1,
      record {
        view = 1;
        last_normal_view = 0;
        last_op = 4;
        last_committed = 3;
        entries = [];
        replica_idx = 1;
      },
    )
    ∷ []

acks_enough : quorum_of (new_replica (host 0)).prepare_ok_quorum.num_required acks ≡ some acks
unfolding quorum_of new_replica quorum_size
acks_enough = refl

changes_enough :
    quorum_of (new_replica (host 2)).do_view_change_quorum.num_required changes ≡ some changes
unfolding quorum_of new_replica quorum_size
changes_enough = refl

acks_others : lookup acks 0 ≡ none
unfolding lookup
acks_others = refl

changes_others : lookup changes 2 ≡ none
unfolding lookup
changes_others = refl

new_replica-overlap_example :
    (i : ℕ) × (i < 3)
    × ((i ≡ 0) ⊎ (is_some (lookup acks i) ≡ true))
    × ((i ≡ 2) ⊎ (is_some (lookup changes i) ≡ true))
new_replica-overlap_example =
    new_replica-overlap (host 0) (host 2) acks changes refl (omega arith)
      (record {
        inside = omega arith;
        sorted = (tt, tt);
        below = (omega arith, tt);
        others = acks_others;
      })
      (record {
        inside = omega arith;
        sorted = (tt, tt);
        below = (omega arith, tt);
        others = changes_others;
      })
      acks_enough changes_enough
