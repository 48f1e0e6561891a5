-- ===== src/Merkle/Verify.antt =====
-- `Proof::Verify` on what `getProof` reads from a stored tree.
use ledger_database.Prelude.{
  ℕ, zero, suc, ◌+◌, ◌-◌, ◌/◌, ◌%◌, ◌≤◌, ◌<◌, ◌≡◌, refl, ap, ◌⊎◌, List, [], ◌∷◌, some, Bool, true,
  ◌&&◌, length, get_or, ◌==◌, arith, ℕ_discrete,
}
use ledger_database.Hash.{Blake2b, IsHash, to_base32}
use ledger_database.Hash.Base32.{from_base32-to_base32, to_base32_nonempty}
use ledger_database.Db.{Db, mt, plain}
use ledger_database.Merkle.{
  same_bytes, verify, get_proof, parent_of, parent_of_one, combine, verify_loop, sibling, path,
}
use ledger_database.Merkle.Spec.{
  AllHash-root, root_suffix, Tree-top, Tree-bottom, AllHash, next_full, LevelStored, double,
  double-eq, pairs, Tree, root, get_or-pairs, get_or-pairs_last, get_or-IsHash, length-pairs,
  AllHash-pairs,
}

halves : (n : ℕ) → (n ≡ double (n / 2)) ⊎ (n ≡ suc (double (n / 2)))
halves n = omega (arith, double-eq (n / 2))

module _ (blake : Blake2b) where
  combine_left : (x y : List ℕ) → IsHash y → combine blake x (to_base32 y) 0 ≡ parent_of blake y x
  unfolding combine
  combine_left x y i = rw (from_base32-to_base32 y i)

  combine_right : (x y : List ℕ) → IsHash y → combine blake x (to_base32 y) 1 ≡ parent_of blake x y
  unfolding combine
  combine_right x y i = ground (arith, to_base32_nonempty y i, from_base32-to_base32 y i)

  combine_alone : (x : List ℕ) → combine blake x [] 1 ≡ parent_of_one blake x
  unfolding combine
  combine_alone x = refl

module _ (blake : Blake2b) (db : Db) (c k : ℕ) (full : Bool) (xs : List (List ℕ))
    (stored : LevelStored db c k full xs) (hashes : AllHash xs) (bottom : k ≡ 0 → full ≡ true) where
  sibling_right :
      (ptr last : ℕ) (complete : Bool)
      → ptr % 2 ≡ 0
      → ptr < last
      → last + 1 ≡ length xs
      → complete ≡ (full && (last % 2 == 1))
      → sibling db (some c) k ptr last complete ≡ (to_base32 (get_or xs (ptr + 1) []), 1)
  unfolding sibling
  sibling_right ptr last complete even h e flag =
      ground (arith, bottom, stored (ptr + 1) (omega arith))

  sibling_alone :
      (ptr : ℕ) (complete : Bool) → ptr % 2 ≡ 0 → sibling db (some c) k ptr ptr complete ≡ ([], 1)
  unfolding sibling
  sibling_alone ptr complete even = ground arith

  sibling_left :
      (ptr last : ℕ) (complete : Bool)
      → ptr % 2 ≡ 1
      → ptr < length xs
      → sibling db (some c) k ptr last complete ≡ (to_base32 (get_or xs (ptr - 1) []), 0)
  unfolding sibling
  sibling_left ptr last complete odd h = ground (arith, stored (ptr - 1) (omega arith))

  up_right :
      (ptr : ℕ)
      → ptr % 2 ≡ 0
      → ptr + 1 < length xs
      → combine blake (get_or xs ptr []) (to_base32 (get_or xs (ptr + 1) [])) 1
        ≡ get_or (pairs blake xs) (ptr / 2) []
  up_right ptr even h =
      let here : ptr ≡ double (ptr / 2) = omega (arith, double-eq (ptr / 2)) in
      let beside : ptr + 1 ≡ suc (double (ptr / 2)) = omega (arith, double-eq (ptr / 2)) in
      cc (
        here,
        beside,
        combine_right blake (get_or xs ptr []) _ (get_or-IsHash xs (ptr + 1) hashes h),
        get_or-pairs blake (ptr / 2) xs (omega arith),
      )

  up_left :
      (ptr : ℕ)
      → ptr % 2 ≡ 1
      → ptr < length xs
      → combine blake (get_or xs ptr []) (to_base32 (get_or xs (ptr - 1) [])) 0
        ≡ get_or (pairs blake xs) (ptr / 2) []
  up_left ptr odd h =
      let beside : ptr - 1 ≡ double (ptr / 2) = omega (arith, double-eq (ptr / 2)) in
      let here : ptr ≡ suc (double (ptr / 2)) = omega (arith, double-eq (ptr / 2)) in
      cc (
        here,
        beside,
        combine_left blake (get_or xs ptr []) _ (get_or-IsHash xs (ptr - 1) hashes (omega arith)),
        get_or-pairs blake (ptr / 2) xs (omega arith),
      )

  up_alone :
      (ptr : ℕ)
      → ptr % 2 ≡ 0
      → ptr + 1 ≡ length xs
      → combine blake (get_or xs ptr []) [] 1 ≡ get_or (pairs blake xs) (ptr / 2) []
  up_alone ptr even h =
      let here : ptr ≡ double (ptr / 2) = omega (arith, double-eq (ptr / 2)) in
      cc (
        here,
        combine_alone blake (get_or xs ptr []),
        get_or-pairs_last blake (ptr / 2) xs (omega arith),
      )

  -- One level up: the node and its sibling make the parent.
  combine-sibling :
      (ptr last : ℕ) (complete : Bool)
      → ptr < length xs
      → last + 1 ≡ length xs
      → complete ≡ (full && (last % 2 == 1))
      → combine blake
          (get_or xs ptr [])
          (sibling db (some c) k ptr last complete).0
          (sibling db (some c) k ptr last complete).1
        ≡ get_or (pairs blake xs) (ptr / 2) []
  combine-sibling ptr last complete h e flag = elim (ℕ_discrete (ptr % 2) 0) [
    | yes even ↦ elim (ℕ_discrete ptr last) [
      | yes alone ↦ rw (← alone, sibling_alone ptr complete even) (up_alone ptr even (omega arith))
      | no more ↦
          rw (sibling_right ptr last complete even (omega arith) e flag)
            (up_right ptr even (omega arith))
    ]
    | no odd ↦ rw (sibling_left ptr last complete (omega arith) h) (up_left ptr (omega arith) h)
  ]

-- The flag `complete` of one round, from that of the round before.
flag_up :
    (full complete b : Bool) (n last : ℕ)
    → last + 1 ≡ n
    → complete ≡ (full && (last % 2 == 1))
    → (complete && b) ≡ (next_full full n && b)
flag_up full complete b n last e flag = ground arith

-- Every proof read from a stored tree leads from the node that it starts at to the root.
path-verifies :
    (blake : Blake2b) (db : Db) (c : ℕ) (h k : ℕ) (full : Bool) (xs : List (List ℕ)) (ptr last : ℕ)
    (complete : Bool)
    → Tree blake db c k full xs h
    → AllHash xs
    → (k ≡ 0 → full ≡ true)
    → ptr < length xs
    → last + 1 ≡ length xs
    → complete ≡ (full && (last % 2 == 1))
    → verify_loop blake
        (get_or xs ptr [])
        (path db (some c) h k ptr last complete).0
        (path db (some c) h k ptr last complete).1
      ≡ some (root blake h xs)
unfolding path verify_loop
path-verifies blake db c zero k full xs ptr last complete t a b h e flag =
    ap (λ i. some (get_or xs i [])) (omega (arith, t.0))
path-verifies blake db c (suc n) k full xs ptr last complete (more, stored, t) a b h e flag =
    rw (combine-sibling blake db c k full xs stored a b ptr last complete h e flag) (
      path-verifies blake db c n (k + 1) (next_full full (length xs)) (pairs blake xs) (ptr / 2)
        (last / 2) (complete && (last / 2 % 2 == 1)) t (AllHash-pairs blake xs a)
        (λ z. absurd (omega arith)) (omega (arith, length-pairs blake xs))
        (omega (arith, length-pairs blake xs)) (flag_up full complete _ (length xs) last e flag))

same_bytes_refl : (h : List ℕ) → same_bytes h h ≡ true
same_bytes_refl [] = refl
same_bytes_refl (x ∷ h) = ground (arith, same_bytes_refl h)

-- Where the store holds the tree of a list of block hashes at commit `c`, the proof that
-- `getProof` builds for any block of the list is accepted by `Proof::Verify`.
pub get_proof-verifies :
    (blake : Blake2b) (db : Db) (c h : ℕ) (xs : List (List ℕ)) (tip seq : ℕ)
    → Tree blake db c 0 true xs h
    → AllHash xs
    → tip + 1 ≡ length xs
    → seq ≤ tip
    → verify blake
        (get_proof db (some c) (record { level = h; suffix = root_suffix c h xs }) tip seq)
      ≡ some true
unfolding get_proof verify
get_proof-verifies blake db c h xs tip seq t a e le =
    let value : db (mt 0 seq plain) ≡ to_base32 (get_or xs seq []) =
      Tree-bottom blake db c h 0 true xs t seq (omega arith) in
    rw
      (
        value,
        Tree-top blake db c h 0 h true xs (omega arith) t,
        from_base32-to_base32 (get_or xs seq []) (get_or-IsHash xs seq a (omega arith)),
        from_base32-to_base32 (root blake h xs) (AllHash-root blake db c h 0 true xs t a),
        path-verifies blake db c h 0 true xs seq tip (tip % 2 == 1) t a (λ _. refl) (omega arith) e
            refl,
      )
      (ap some (same_bytes_refl (root blake h xs)))
