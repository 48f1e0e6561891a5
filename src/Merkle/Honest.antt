-- ===== src/Merkle/Honest.antt =====
-- `getProof` and `Verify` after `update`.
use ledger_database.Prelude.{
  ℕ, ◌+◌, ◌≤◌, ◌<◌, ◌≡◌, refl, sym, ap, ◌∙◌, List, [], ◌++◌, map, Option, some, true, length,
  get_or, arith, length-append,
}
use ledger_database.Hash.{Blake2b, to_base32}
use ledger_database.Db.{Db, mt, plain}
use ledger_database.Merkle.{Proof, RootKey, Updated, update, verify, get_proof, next_commit}
use ledger_database.Merkle.Spec.{AllHash, Tree-bottom, Tree-top}
use ledger_database.Merkle.Verify.{get_proof-verifies}
use ledger_database.Merkle.Grow.{Holds, Grown, update-Grown, AllHash-append}

-- What a proof of block `seq` must be, against an updated tree over the blocks `zs`.
pub record IsHonest (blake : Blake2b) (u : Updated) (zs : List (List ℕ)) (seq : ℕ) (p : Proof)
    : Type 0 where
  pub accepted : verify blake p ≡ some true
  pub against_root : p.digest ≡ u.root_hash
  pub of_block : p.value ≡ to_base32 (get_or zs seq [])

digest-get_proof :
    (db : Db) (c : Option ℕ) (r : RootKey) (tip seq : ℕ)
    → (get_proof db c r tip seq).digest ≡ db (mt r.level 0 r.suffix)
unfolding get_proof
digest-get_proof db c r tip seq = refl

value-get_proof :
    (db : Db) (c : Option ℕ) (r : RootKey) (tip seq : ℕ)
    → (get_proof db c r tip seq).value ≡ db (mt 0 seq plain)
unfolding get_proof
value-get_proof db c r tip seq = refl

Grown-IsHonest :
    {blake : Blake2b} {c : ℕ} {zs : List (List ℕ)} {out : Option Updated} (g : Grown blake c zs out)
    (tip seq : ℕ)
    → AllHash zs
    → tip + 1 ≡ length zs
    → seq ≤ tip
    → IsHonest blake g.result zs seq (get_proof g.result.store (some c) g.result.root_key tip seq)
Grown-IsHonest {blake} {c} {zs} g tip seq all e le = record {
  accepted =
      rw g.key (get_proof-verifies blake g.result.store c g.height zs tip seq g.tree all e le);
  against_root =
      digest-get_proof g.result.store (some c) g.result.root_key tip seq
      ∙ ap (λ (r : RootKey). g.result.store (mt r.level 0 r.suffix)) g.key
      ∙ Tree-top blake g.result.store c g.height 0 g.height true zs (omega arith) g.tree
      ∙ sym g.hash;
  of_block =
      value-get_proof g.result.store (some c) g.result.root_key tip seq
      ∙ Tree-bottom blake g.result.store c g.height 0 true zs g.tree seq (omega arith);
}

-- If the store holds the tree over `xs`, then after an `update` with at least one more block the
-- proof that `getProof` makes for any block of `xs ++ ys`, from the root key that `update`
-- returned, is accepted by `Verify`, carries the root hash that `update` returned as its digest
-- and the text of that block's hash as its value.
pub get_proof-update :
    (blake : Blake2b) (db : Db) (prev : Option ℕ) (xs ys : List (List ℕ)) (tip seq : ℕ)
    → Holds blake db prev xs
    → AllHash xs
    → AllHash ys
    → 0 < length ys
    → tip + 1 ≡ length xs + length ys
    → seq ≤ tip
    → (u : Updated) × (update blake db (length xs) (map to_base32 ys) prev ≡ some u)
      × IsHonest blake u
          (xs ++ ys)
          seq
          (get_proof u.store (some (next_commit prev)) u.root_key tip seq)
get_proof-update blake db prev xs ys tip seq held old new some_new e le =
    let c = next_commit prev in
    let g = update-Grown blake db prev xs ys held old new some_new in
    (
      g.result,
      g.returns,
      Grown-IsHonest g tip seq (AllHash-append xs ys old new) (omega (arith, length-append xs ys))
          le,
    )
