-- ===== src/Merkle/Bind.antt =====
-- Two proofs of one digest and one position under `Proof::Verify`, and collisions.
use mathlib.Core.Option
use mathlib.Core.List.{Memᴰ}
use ledger_database.Prelude.{
  ℕ, ◌≡◌, ◌≢◌, refl, sym, ap, ◌∙◌, subst, ◌⊎◌, inl, inr, List, [], ◌∷◌, ◌++◌, Option, none, some,
  true, length, take, drop, ◌==◌, ltb, if◌then◌else◌, arith, ℕ_discrete, Bool-cases, drop-append,
}
use ledger_database.Hash.{Blake2b, compute_from, compute_from-IsHash, from_base32}
use ledger_database.Hash.Base32.{from_base32-IsHash}
use ledger_database.Merkle.{Proof, combine, verify_loop, verify, same_bytes}

-- Two byte strings with one hash, of which one is in the first list and one in the second.
pub record Collision (blake : Blake2b) (xs ys : List (List ℕ)) : Type 0 where
  pub left : List ℕ
  pub right : List ℕ
  pub from_first : Memᴰ left xs
  pub from_second : Memᴰ right ys
  pub differ : left ≢ right
  pub same : compute_from blake left ≡ compute_from blake right

pub later_Collision :
    {blake : Blake2b} {xs ys : List (List ℕ)} (x y : List ℕ)
    → Collision blake xs ys
    → Collision blake (x ∷ xs) (y ∷ ys)
later_Collision x y c = record {
  left = c.left;
  right = c.right;
  from_first = Memᴰ.tail c.from_first;
  from_second = Memᴰ.tail c.from_second;
  differ = c.differ;
  same = c.same;
}

pub bytes_discrete : Discrete (List ℕ)
bytes_discrete = hlevel ℕ_discrete

take-append : (xs ys : List ℕ) → take (length xs) (xs ++ ys) ≡ xs
take-append [] ys = refl
take-append (x ∷ xs) ys = ap (λ l. x ∷ l) (take-append xs ys)

take-all : (xs : List ℕ) → take (length xs) xs ≡ xs
take-all [] = refl
take-all (x ∷ xs) = ap (λ l. x ∷ l) (take-all xs)

-- The bytes that one round of `Verify` hashes.
abbrev pub hashed : List ℕ → List ℕ → ℕ → List ℕ
hashed x p q =
    if q == 0 then from_base32 p ++ x else if ltb 0 (length p) then x ++ from_base32 p else x

-- The hash so far stands at a fixed place among them.
part : ℕ → List ℕ → List ℕ
part q l = if q == 0 then drop 20 l else take 20 l

part-hashed : (x p : List ℕ) (q : ℕ) → length x ≡ 20 → part q (hashed x p q) ≡ x
unfolding part
part-hashed x p q e =
    let size = (from_base32-IsHash p).size in
    elim (Bool-cases (q == 0)) [
      | inl left ↦
          rw left (ap (λ n. drop n (from_base32 p ++ x)) (sym size) ∙ drop-append (from_base32 p) x)
      | inr right ↦ elim (Bool-cases (ltb 0 (length p))) [
        | inl two ↦
            rw (right, two)
              (ap (λ n. take n (x ++ from_base32 p)) (sym e) ∙ take-append x (from_base32 p))
        | inr one ↦ rw (right, one) (ap (λ n. take n x) (sym e) ∙ take-all x)
      ]
    ]

pub same_bytes_sound : (a b : List ℕ) → same_bytes a b ≡ true → a ≡ b
same_bytes_sound [] [] h = refl
same_bytes_sound [] (y ∷ b) h = cc
same_bytes_sound (x ∷ a) [] h = cc
same_bytes_sound (x ∷ a) (y ∷ b) h = ground (arith, same_bytes_sound a b)

-- Only a hash that agrees with the digest is accepted.
accepted :
    (out : Option (List ℕ)) (d : List ℕ)
    → Option.map (λ h. same_bytes h d) out ≡ some true
    → out ≡ some d
accepted none d h = absurd (cc)
accepted (some r) d h = ap some (same_bytes_sound r d (cc))

module _ (blake : Blake2b) where
  combine-eq-hash : (x p : List ℕ) (q : ℕ) → combine blake x p q ≡ compute_from blake (hashed x p q)
  unfolding combine
  combine-eq-hash x p q = ground arith

  -- The byte strings that the rounds of `Verify` hash, from the hash `x` on.
  abbrev pub inputs : List ℕ → List (List ℕ) → List ℕ → List (List ℕ)
  inputs x (p ∷ proof) (q ∷ pos) =
      hashed x p q ∷ inputs (compute_from blake (hashed x p q)) proof pos
  inputs x _ _ = []

  abbrev pub hashed_by : Proof → List (List ℕ)
  hashed_by p = inputs (from_base32 p.value) p.proof p.pos

  hashed-bind :
      (x y p p' : List ℕ) (q : ℕ) (xs ys : List (List ℕ))
      → length x ≡ 20
      → length y ≡ 20
      → compute_from blake (hashed x p q) ≡ compute_from blake (hashed y p' q)
      → Collision blake (hashed x p q ∷ xs) (hashed y p' q ∷ ys) ⊎ (x ≡ y)
  hashed-bind x y p p' q xs ys hx hy e = elim (bytes_discrete (hashed x p q) (hashed y p' q)) [
    | yes same ↦ inr (sym (part-hashed x p q hx) ∙ ap (part q) same ∙ part-hashed y p' q hy)
    | no differ ↦ inl (record {
      left = hashed x p q;
      right = hashed y p' q;
      from_first = Memᴰ.head refl;
      from_second = Memᴰ.head refl;
      differ = differ;
      same = e;
    })
  ]

  verify_loop-bind :
      (proof proof' : List (List ℕ)) (pos x y : List ℕ) {r : List ℕ}
      → length x ≡ 20
      → length y ≡ 20
      → length proof ≡ length proof'
      → verify_loop blake x proof pos ≡ some r
      → verify_loop blake y proof' pos ≡ some r
      → Collision blake (inputs x proof pos) (inputs y proof' pos) ⊎ (x ≡ y)
  unfolding verify_loop
  verify_loop-bind [] [] pos x y hx hy e v w = inr (cc)
  verify_loop-bind [] (p' ∷ proof') pos x y hx hy e v w = absurd (omega arith)
  verify_loop-bind (p ∷ proof) [] pos x y hx hy e v w = absurd (omega arith)
  verify_loop-bind (p ∷ proof) (p' ∷ proof') [] x y hx hy e v w = absurd (cc)
  verify_loop-bind (p ∷ proof) (p' ∷ proof') (q ∷ pos) x y hx hy e v w =
      let a = hashed x p q in
      let b = hashed y p' q in
      let go = λ (z : List ℕ) (ps : List (List ℕ)). verify_loop blake z ps pos in
      let from_a = sym (ap (λ z. go z proof) (combine-eq-hash x p q)) ∙ v in
      let from_b = sym (ap (λ z. go z proof') (combine-eq-hash y p' q)) ∙ w in
      elim (verify_loop-bind proof proof' pos (compute_from blake a) (compute_from blake b)
        (compute_from-IsHash blake a).size (compute_from-IsHash blake b).size (omega arith) from_a
        from_b) [
          | inl c ↦ inl (later_Collision a b c)
          | inr same ↦ hashed-bind x y p p' q _ _ hx hy same
        ]

  verified :
      (p : Proof)
      → verify blake p ≡ some true
      → verify_loop blake (from_base32 p.value) p.proof p.pos ≡ some (from_base32 p.digest)
  unfolding verify
  verified p h = accepted _ _ h

-- Two accepted proofs of one digest at one position, of equally many hashes, show the same block
-- hash, or else some round of one and some round of the other hash different byte strings to the
-- same hash.
pub verify-binds :
    (blake : Blake2b) (p q : Proof)
    → verify blake p ≡ some true
    → verify blake q ≡ some true
    → p.digest ≡ q.digest
    → p.pos ≡ q.pos
    → length p.proof ≡ length q.proof
    → Collision blake (hashed_by blake p) (hashed_by blake q)
      ⊎ (from_base32 p.value ≡ from_base32 q.value)
verify-binds blake p q hp hq e f g =
    let same_place = ap (verify_loop blake (from_base32 q.value) q.proof) f in
    let outcome =
      verify_loop-bind blake p.proof q.proof p.pos (from_base32 p.value) (from_base32 q.value)
        (from_base32-IsHash p.value).size (from_base32-IsHash q.value).size g (verified blake p hp)
        (same_place ∙ verified blake q hq ∙ ap (λ d. some (from_base32 d)) (sym e)) in
    subst
      (λ pos.
        Collision blake (hashed_by blake p) (inputs blake (from_base32 q.value) q.proof pos)
        ⊎ (from_base32 p.value ≡ from_base32 q.value))
      f outcome
