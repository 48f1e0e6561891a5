-- ===== src/Audit/Chain.antt =====
-- The loop of `Auditor::Audit` over the commits, from the digest back.
use mathlib.Core.List.{Memᴰ}
use mathlib.Core.List.Memᴰ
use ledger_database.Prelude.{
  some-inj, ℕ, ◌+◌, ◌≡◌, refl, sym, ap, ◌∙◌, ◌⊎◌, inl, inr, List, [], ◌∷◌, none, some, Bool, true,
  false, length, arith, Bool-cases, Option-cases,
}
use ledger_database.Hash.{Blake2b, compute_from, to_base32, from_base32, compute_from-IsHash}
use ledger_database.Hash.Base32.{from_base32-to_base32}
use ledger_database.Db.{Db}
use ledger_database.Merkle.{same_bytes}
use ledger_database.Merkle.Bind.{Collision, later_Collision, same_bytes_sound, bytes_discrete}
use ledger_database.Info.{CommitInfo, read_commit_info}
use ledger_database.Audit.{Linked, unlinked, link, follow, backwards, audit}

cons-inj : {x y : List ℕ} {xs ys : List (List ℕ)} → x ∷ xs ≡ y ∷ ys → (x ≡ y) × (xs ≡ ys)
cons-inj h = (cc, cc)

module _ (blake : Blake2b) where
  -- A commit that the loop passes hashes to the target, and the loop goes on at its `prev_digest`.
  follow-cons :
      (l : Linked) (c : List ℕ) (commits : List (List ℕ)) {l' : Linked}
      → follow blake l (c ∷ commits) ≡ some (some l')
      → (cinfo : CommitInfo) × (to_base32 (compute_from blake c) ≡ l.target)
        × (read_commit_info c ≡ some cinfo)
        × (follow blake (link cinfo) commits ≡ some (some l'))
  unfolding follow
  follow-cons l c commits {l' = l'} h =
      elim (Bool-cases (same_bytes (to_base32 (compute_from blake c)) l.target)) [
        | inr differ ↦
            let left : follow blake l (c ∷ commits) ≡ some none = rw (follow, differ) refl in
            absurd (cc (left, h))
        | inl same ↦ elim (Option-cases (read_commit_info c)) [
          | inl unread ↦
              let left : follow blake l (c ∷ commits) ≡ none = rw (follow, same, unread) refl in
              absurd (cc (left, h))
          | inr (cinfo, there) ↦
              let left : follow blake l (c ∷ commits) ≡ follow blake (link cinfo) commits =
                rw (follow, same, there) refl in
              (cinfo, same_bytes_sound _ _ same, there, sym left ∙ h)
        ]
      ]

  same_hash :
      (c d : List ℕ) (cs ds : List (List ℕ))
      → to_base32 (compute_from blake c) ≡ to_base32 (compute_from blake d)
      → Collision blake (c ∷ cs) (d ∷ ds) ⊎ (c ≡ d)
  same_hash c d cs ds e = elim (bytes_discrete c d) [
    | yes same ↦ inr same
    | no differ ↦ inl (record {
      left = c;
      right = d;
      from_first = Memᴰ.head refl;
      from_second = Memᴰ.head refl;
      differ = differ;
      same =
          sym (from_base32-to_base32 (compute_from blake c) (compute_from-IsHash blake c))
          ∙ ap from_base32 e
          ∙ from_base32-to_base32 (compute_from blake d) (compute_from-IsHash blake d);
    })
  ]

  follow-binds :
      (xs ys : List (List ℕ)) (l m : Linked) {l' m' : Linked}
      → length xs ≡ length ys
      → l.target ≡ m.target
      → follow blake l xs ≡ some (some l')
      → follow blake m ys ≡ some (some m')
      → Collision blake xs ys ⊎ (xs ≡ ys)
  unfolding link
  follow-binds [] [] l m n t h g = inr refl
  follow-binds [] (y ∷ ys) l m n t h g = absurd (omega arith)
  follow-binds (x ∷ xs) [] l m n t h g = absurd (omega arith)
  follow-binds (x ∷ xs) (y ∷ ys) l m n t h g =
      let (c, hashes, there, rest) = follow-cons l x xs h in
      let (d, hashes', there', rest') = follow-cons m y ys g in
      elim (same_hash x y xs ys (hashes ∙ t ∙ sym hashes')) [
        | inl collision ↦ inl collision
        | inr same ↦
            let info : c ≡ d = some-inj (sym there ∙ ap read_commit_info same ∙ there') in
            elim (follow-binds xs ys (link c) (link d) (omega arith)
              (ap (λ (i : CommitInfo). i.prev_digest) info) rest rest') [
                | inl collision ↦ inl (later_Collision x y collision)
                | inr same_rest ↦ inr (cc (same, same_rest))
              ]
      ]

backwards-inj :
    (xs ys acc acc' : List (List ℕ))
    → length xs ≡ length ys
    → backwards acc xs ≡ backwards acc' ys
    → (acc ≡ acc') × (xs ≡ ys)
unfolding backwards
backwards-inj [] [] acc acc' n e = (e, refl)
backwards-inj [] (y ∷ ys) acc acc' n e = absurd (omega arith)
backwards-inj (x ∷ xs) [] acc acc' n e = absurd (omega arith)
backwards-inj (x ∷ xs) (y ∷ ys) acc acc' n e =
    let (accs, rest) = backwards-inj xs ys (x ∷ acc) (y ∷ acc') (omega arith) e in
    let (first, before) = cons-inj accs in (before, cc (first, rest))

from_either :
    (xs acc : List (List ℕ)) {c : List ℕ} → Memᴰ c (backwards acc xs) → Memᴰ c xs ⊎ Memᴰ c acc
unfolding backwards
from_either [] acc m = inr m
from_either (x ∷ xs) acc m = elim (from_either xs (x ∷ acc) m) [
  | inl later ↦ inl (Memᴰ.tail later)
  | inr earlier ↦ elim (Memᴰ.cases_cons earlier) [
    | inl here ↦ inl (Memᴰ.head here)
    | inr before ↦ inr before
  ]
]

Memᴰ-backwards : (xs : List (List ℕ)) {c : List ℕ} → Memᴰ c (backwards [] xs) → Memᴰ c xs
Memᴰ-backwards xs m = elim (from_either xs [] m) [
  | inl there ↦ there
  | inr nowhere ↦ absurd (Memᴰ.not-nil nowhere)
]

length-backwards : (xs acc : List (List ℕ)) → length (backwards acc xs) ≡ length acc + length xs
unfolding backwards
length-backwards [] acc = omega arith
length-backwards (x ∷ xs) acc = omega (arith, length-backwards xs (x ∷ acc))

module _ {Proof : Type 0} (verify_proof : Proof → List ℕ → List ℕ → Bool) (blake : Blake2b) where
  audit-follow :
      (db : Db) (digest : List ℕ) (first : ℕ) (commits blocks : List (List ℕ)) (proofs : List Proof)
      → audit verify_proof blake db digest first commits blocks proofs ≡ some true
      → (l : Linked) × (follow blake (unlinked digest) (backwards [] commits) ≡ some (some l))
  unfolding audit
  audit-follow db digest first commits blocks proofs h =
      elim (Option-cases (follow blake (unlinked digest) (backwards [] commits))) [
        | inl stuck ↦
            let left : audit verify_proof blake db digest first commits blocks proofs ≡ none =
              rw (audit, stuck) refl in
            absurd (cc (left, h))
        | inr (none, broken) ↦
            let left : audit verify_proof blake db digest first commits blocks proofs ≡ some false =
              rw (audit, broken) refl in
            absurd (cc (left, h))
        | inr (some l, fine) ↦ (l, fine)
      ]

  -- Two accepted audits of one digest with equally many commits have the same commits, or else a
  -- commit of one and a different commit of the other hash alike.
  pub audit-binds :
      (db db' : Db) (digest : List ℕ) (first first' : ℕ)
      (commits commits' blocks blocks' : List (List ℕ)) (proofs proofs' : List Proof)
      → length commits ≡ length commits'
      → audit verify_proof blake db digest first commits blocks proofs ≡ some true
      → audit verify_proof blake db' digest first' commits' blocks' proofs' ≡ some true
      → Collision blake commits commits' ⊎ (commits ≡ commits')
  audit-binds db db' digest first first' commits commits' blocks blocks' proofs proofs' n h g =
      let (l, chain) = audit-follow db digest first commits blocks proofs h in
      let (l', chain') = audit-follow db' digest first' commits' blocks' proofs' g in
      elim (follow-binds blake (backwards [] commits) (backwards [] commits') (unlinked digest)
        (unlinked digest) (omega (arith, length-backwards commits [], length-backwards commits' []))
        refl chain chain') [
          | inl c ↦ inl (record {
            left = c.left;
            right = c.right;
            from_first = Memᴰ-backwards commits c.from_first;
            from_second = Memᴰ-backwards commits' c.from_second;
            differ = c.differ;
            same = c.same;
          })
          | inr same ↦ inr (backwards-inj commits commits' [] [] n same).1
        ]
