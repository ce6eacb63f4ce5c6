-- ===== src/Prelude/Outcomes.antt =====
-- A Rust `Result` with its type of errors, and its `?` as the bind of a do block.
use mathlib.Core.Path.{◌≡◌, refl}
use mathlib.Core.Bool.{Bool, true, false}
use mathlib.Core.Option.{Option, none, some}
use anchor_rs.Prelude.Tests.{if◌then◌else◌}

pub data Outcome {ℓ} (E A : Type ℓ) : Type ℓ where
  success : A → Outcome E A
  failure : E → Outcome E A

infixl 5 ◌>>=◌
abbrev pub ◌>>=◌ {ℓ} : {E A B : Type ℓ} → Outcome E A → (A → Outcome E B) → Outcome E B
success a >>= f = f a
failure e >>= f = failure e

-- `Option::ok_or`
abbrev pub ok_or {ℓ} : {E A : Type ℓ} → E → Option A → Outcome E A
ok_or e none = failure e
ok_or e (some a) = success a

pub ok_or-success {ℓ} :
    {E A : Type ℓ} (e : E) (o : Option A) (a : A) → ok_or e o ≡ success a → o ≡ some a
ok_or-success e none a h = cc
ok_or-success e (some b) a h = cc

-- What follows a test that may fail with `e`.
pub guard-success {ℓ} :
    {E A : Type ℓ} (e : E) {a c : A} (b : Bool)
    → (if b then success a else failure e) ≡ success c
    → (b ≡ true) × (a ≡ c)
guard-success e true h = (refl, cc)
guard-success e false h = cc

pub guard-fail {ℓ} :
    {E A : Type ℓ} (e : E) {a c : A} (b : Bool)
    → (if b then failure e else success a) ≡ success c
    → (b ≡ false) × (a ≡ c)
guard-fail e true h = cc
guard-fail e false h = (refl, cc)

-- A chain that succeeds has a first step that succeeds.
pub bind-success {ℓ} :
    {E A B : Type ℓ} {f : A → Outcome E B} {b : B} (m : Outcome E A)
    → (m >>= f) ≡ success b
    → (a : A) × (m ≡ success a) × (f a ≡ success b)
bind-success (success a) h = (a, refl, h)
bind-success (failure e) h = cc

pub success_injective {ℓ} :
    {E A : Type ℓ} {a b : A} → ◌≡◌ {A = Outcome E A} (success a) (success b) → a ≡ b
success_injective h = cc
