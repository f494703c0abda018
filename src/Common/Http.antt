-- ===== src/Common/Http.antt =====
-- A route's computation, which returns a value or raises `HTTPException` with a status code.
use Prim.Native.Nat.{ℕ}
use mathlib.Core.Path.{◌≡◌, refl}
use mathlib.Core.Logic.{◌⊎◌, inl, inr}
use mathlib.Core.Bool.{Bool, true}
use mathlib.Core.Option.{Option, none, some}
use meetkai.Common.Try.{Try, returned, raised}

pub data Http {ℓ} (A : Type ℓ) : Type ℓ where
  ok : A → Http A
  http_error : ℕ → Http A

infixl 5 ◌>>=◌
abbrev pub ◌>>=◌ {ℓ κ} : {A : Type ℓ} {B : Type κ} → Http A → (A → Http B) → Http B
ok a >>= f = f a
http_error status >>= f = http_error status

infixl 5 ◌>>◌
abbrev pub ◌>>◌ {ℓ κ} : {A : Type ℓ} {B : Type κ} → Http A → Http B → Http B
ok a >> m = m
http_error status >> m = http_error status

-- `if test: raise HTTPException(status)`
abbrev pub refuse_if : Bool → ℕ → Http (Unit {0})
refuse_if true status = http_error status
refuse_if _ status = ok tt

-- `if x is None: raise HTTPException(status)`
abbrev pub or_error {ℓ} : {A : Type ℓ} → ℕ → Option A → Http A
or_error status none = http_error status
or_error status (some a) = ok a

-- `except Exception: raise HTTPException(status)`
abbrev pub or_status {ℓ} : {A : Type ℓ} → ℕ → Try A → Http A
or_status status raised = http_error status
or_status status (returned a) = ok a

pub Http-cases {ℓ} :
    {A : Type ℓ} (m : Http A) → ((a : A) × (m ≡ ok a)) ⊎ ((s : ℕ) × (m ≡ http_error s))
Http-cases (ok a) = inl (a, refl)
Http-cases (http_error s) = inr (s, refl)

pub >>=-eq-ok {ℓ κ} :
    {A : Type ℓ} {B : Type κ} (answer : Http A) (next : A → Http B) {last : B}
    → (answer >>= next) ≡ ok last
    → (given : A) × (answer ≡ ok given) × (next given ≡ ok last)
>>=-eq-ok (ok given) next h = (given, refl, h)
>>=-eq-ok (http_error status) next h = cc

pub or_error-eq-ok {ℓ} :
    {A : Type ℓ} (status : ℕ) (o : Option A) {a : A} → or_error status o ≡ ok a → o ≡ some a
or_error-eq-ok status none h = cc
or_error-eq-ok status (some b) h = cc

pub refuse_if-eq-ok :
    (test : Bool) (status : ℕ) {u : Unit {0}} → refuse_if test status ≡ ok u → test ≡ Bool.false
refuse_if-eq-ok true status h = cc
refuse_if-eq-ok Bool.false status h = refl

pub >>-eq-ok {ℓ κ} :
    {A : Type ℓ} {B : Type κ} (m : Http A) (n : Http B) {b : B}
    → (m >> n) ≡ ok b
    → ((a : A) × (m ≡ ok a)) × (n ≡ ok b)
>>-eq-ok (ok a) n h = ((a, refl), h)
>>-eq-ok (http_error s) n h = cc

pub ok-inj {ℓ} : {A : Type ℓ} {a b : A} → ok a ≡ ok b → a ≡ b
ok-inj h = cc
