-- ===== src/Panic.antt =====
-- distributed/lib/assert.h and message.h: `ASSERT` and `Panic` end the process. Code that may end
-- it returns a `Run`.
use ledger_database.Prelude.{
  ◌≡◌, ◌⊎◌, inl, inr, refl, Option, none, some, Bool, true, false, if◌then◌else◌,
}

pub data Run {ℓ} (A : Type ℓ) : Type ℓ where
  ok : A → Run A
  panic : Run A

infixl 5 ◌>>=◌ ◌>>◌
abbrev pub ◌>>=◌ {ℓ κ} : {A : Type ℓ} {B : Type κ} → Run A → (A → Run B) → Run B
panic >>= next_step = panic
ok a >>= next_step = next_step a

abbrev pub ◌>>◌ {ℓ} : {B : Type ℓ} → Run (Unit {0}) → Run B → Run B
m >> k = m >>= λ _. k

abbrev pub assert : Bool → Run (Unit {0})
assert true = ok tt
assert false = panic

-- Reading through a pointer that may be `NULL`.
abbrev pub or_panic {ℓ} : {A : Type ℓ} → Option A → Run A
or_panic none = panic
or_panic (some a) = ok a

-- `if (auto a = …) … else …`.
abbrev pub when_some {ℓ κ} : {A : Type ℓ} {B : Type κ} → Option A → (A → B) → B → B
when_some none f other = other
when_some (some a) f other = f a

pub ok-inj {ℓ} : {A : Type ℓ} {a b : A} → ok a ≡ ok b → a ≡ b
ok-inj h = cc

pub Run-cases {ℓ} : {A : Type ℓ} (m : Run A) → (m ≡ panic) ⊎ ((a : A) × (m ≡ ok a))
Run-cases panic = inl refl
Run-cases (ok a) = inr (a, refl)

-- What holds of the result of a run that ends without a panic.
pub data Ensures {ℓ κ} {A : Type ℓ} (P : A → Type κ) : Run A → Type (ℓ ⊔ κ) where
  returns : {a : A} → P a → Ensures P (ok a)
  panics : Ensures P panic

-- A bind, where the first part ensures something, and where nothing is asked of it.
module _ {ℓ κ μ ν} {A : Type ℓ} {B : Type κ} (Q : B → Type ν) where
  pub Ensures->>= :
      (P : A → Type μ) {m : Run A} (f : A → Run B)
      → Ensures P m
      → ((a : A) → P a → Ensures Q (f a))
      → Ensures Q (m >>= f)
  Ensures->>= P f (returns p) h = h _ p
  Ensures->>= P f panics h = panics

module _ {ℓ κ ν} {A : Type ℓ} {B : Type κ} (Q : B → Type ν) where
  pub bind_any : (m : Run A) (f : A → Run B) → ((a : A) → Ensures Q (f a)) → Ensures Q (m >>= f)
  bind_any (ok a) f h = h a
  bind_any panic f h = panics

module _ {κ ν} {B : Type κ} (Q : B → Type ν) where
  pub after_assert : (b : Bool) {m : Run B} → Ensures Q m → Ensures Q (assert b >> m)
  after_assert true h = h
  after_assert false h = panics

  pub if_asserted : (b : Bool) {m : Run B} → (b ≡ true → Ensures Q m) → Ensures Q (assert b >> m)
  if_asserted true h = h refl
  if_asserted false h = panics

  pub either : (b : Bool) {x y : Run B} → Ensures Q x → Ensures Q y → Ensures Q (if b then x else y)
  either true h k = h
  either false h k = k

  pub either_if :
      (b : Bool) {x y : Run B}
      → (b ≡ true → Ensures Q x)
      → (b ≡ false → Ensures Q y)
      → Ensures Q (if b then x else y)
  either_if true h k = h refl
  either_if false h k = k refl

  pub either_some {ℓ} :
      {A : Type ℓ} (o : Option A) {f : A → Run B} {other : Run B}
      → ((a : A) → Ensures Q (f a))
      → Ensures Q other
      → Ensures Q (when_some o f other)
  either_some none h k = k
  either_some (some a) h k = h a

  pub ensured : {m : Run B} {b : B} → Ensures Q m → m ≡ ok b → Q b
  ensured (returns q) e = rw (ok-inj e) at q
  ensured panics e = absurd (cc)

pub weaken {ℓ κ ν} :
    {A : Type ℓ} {P : A → Type κ} {Q : A → Type ν} {m : Run A}
    → ((a : A) → P a → Q a)
    → Ensures P m
    → Ensures Q m
weaken f (returns p) = returns (f _ p)
weaken f panics = panics
