-- ===== src/Merkle/Tests.antt =====
-- The Merkle theorems at a small ledger, over a hash function that sums its input.

use ledger_database.Prelude.{
  ℕ, zero, suc, ◌+◌, ◌%◌, ◌<◌, ◌≡◌, refl, ◌⊎◌, List, [], ◌∷◌, map, none, some, true, arith,
}
use ledger_database.Hash.{Blake2b, IsBytes, IsHash, to_base32, from_base32}
use ledger_database.Hash.Base32.{from_base32-to_base32}
use ledger_database.Db.{Db}
use ledger_database.Merkle.{Updated, Proof, update, get_proof, verify}
use ledger_database.Merkle.Spec.{AllHash, root_suffix}
use ledger_database.Merkle.Verify.{get_proof-verifies}
use ledger_database.Merkle.Grow.{Grown, update-Grown}
use ledger_database.Merkle.Honest.{IsHonest, get_proof-update}
use ledger_database.Merkle.Bind.{Collision, hashed_by, verify-binds}
use ledger_database.Merkle.Batches.{update_all, batches-root}

abbrev filled : ℕ → ℕ → List ℕ
filled zero b = []
filled (suc n) b = b ∷ filled n b

abbrev total : List ℕ → ℕ
total [] = 0
total (x ∷ xs) = x + total xs

filled-IsBytes : (n b : ℕ) → b < 256 → IsBytes (filled n b)
filled-IsBytes zero b h = tt
filled-IsBytes (suc n) b h = (h, filled-IsBytes n b h)

sum-IsBytes : (d : List ℕ) → IsBytes (filled 64 (total d % 256))
sum-IsBytes d = filled-IsBytes 64 (total d % 256) (omega arith)

abbrev summing : Blake2b
summing = record {
  calculate_digest = λ d. filled 64 (total d % 256);
  digest_size = λ d. refl;
  digest_bytes = sum-IsBytes;
}

filled-IsHash : (b : ℕ) → b < 256 → IsHash (filled 20 b)
filled-IsHash b h = record { size = refl; bytes = filled-IsBytes 20 b h }

abbrev one : List ℕ
one = filled 20 1

abbrev two : List ℕ
two = filled 20 2

abbrev three : List ℕ
three = filled 20 3

abbrev blocks : List (List ℕ)
blocks = one ∷ two ∷ three ∷ []

blocks-AllHash : AllHash blocks
blocks-AllHash = (
  filled-IsHash 1 (omega arith),
  (filled-IsHash 2 (omega arith), (filled-IsHash 3 (omega arith), tt)),
)

abbrev no_store : Db
no_store key = []

from_base32-to_base32_example : from_base32 (to_base32 two) ≡ two
from_base32-to_base32_example = from_base32-to_base32 two (filled-IsHash 2 (omega arith))

grown : Grown summing 0 blocks (update summing no_store 0 (map to_base32 blocks) none)
grown = update-Grown summing no_store none [] blocks refl tt blocks-AllHash (omega arith)

update-Grown_example :
    Grown summing 0 blocks (update summing no_store 0 (map to_base32 blocks) none)
update-Grown_example =
    update-Grown summing no_store none [] blocks refl tt blocks-AllHash (omega arith)

get_proof-update_example :
    (u : Updated) × (update summing no_store 0 (map to_base32 blocks) none ≡ some u)
    × IsHonest summing u blocks 2 (get_proof u.store (some 0) u.root_key 2 2)
get_proof-update_example =
    get_proof-update summing no_store none [] blocks 2 2 refl tt blocks-AllHash (omega arith) refl
      (omega arith)

get_proof-verifies_example :
    verify summing (
      get_proof grown.result.store
        (some 0)
        (record { level = grown.height; suffix = root_suffix 0 grown.height blocks })
        2
        0)
    ≡ some true
get_proof-verifies_example =
    get_proof-verifies summing grown.result.store 0 grown.height blocks 2 0 grown.tree
      blocks-AllHash refl (omega arith)

batches-root_example :
    (u u' : Updated) × (update_all summing no_store none 0 blocks [] ≡ some u)
    × (update_all summing no_store none 0 (one ∷ []) ((two ∷ []) ∷ (three ∷ []) ∷ []) ≡ some u')
    × (u.root_hash ≡ u'.root_hash)
batches-root_example =
    batches-root summing no_store blocks (one ∷ []) [] ((two ∷ []) ∷ (three ∷ []) ∷ [])
      (omega arith, blocks-AllHash)
      (
        omega arith,
        (filled-IsHash 1 (omega arith), tt),
        (
          omega arith,
          (filled-IsHash 2 (omega arith), tt),
          (omega arith, (filled-IsHash 3 (omega arith), tt)),
        ),
      )
      refl

abbrev shown : Proof
shown =
    get_proof grown.result.store (some 0)
      (record { level = grown.height; suffix = root_suffix 0 grown.height blocks }) 2 0

shown_verifies : verify summing shown ≡ some true
shown_verifies =
    get_proof-verifies summing grown.result.store 0 grown.height blocks 2 0 grown.tree
      blocks-AllHash refl (omega arith)

verify-binds_example :
    Collision summing (hashed_by summing shown) (hashed_by summing shown)
    ⊎ (from_base32 shown.value ≡ from_base32 shown.value)
verify-binds_example = verify-binds summing shown shown shown_verifies shown_verifies refl refl refl
