-- ===== src/Prelude/Results.antt =====
-- Results of code that can stop the process: a failed assertion, a thrown exception, or an access
-- that C++ leaves undefined.
use mathlib.Core.Path.{◌≡◌, refl, ap}
use mathlib.Core.Logic.{◌≢◌}

pub data Fault : Type 0 where
  -- a call through a null pointer
  null_dereference : Fault
  -- a false `assert`
  assertion_failed : Fault
  -- a read past the bytes of the buffer
  over_read : Fault
  -- a write past the end of the buffer
  over_write : Fault
  -- a step of an iterator whose element was erased
  erased_iterator : Fault
  -- an exception of the standard library that nothing catches
  length_error : Fault
  -- the process ends by `exit`
  exited : Fault
  -- an error that the interface of a call does not declare: the caller gets another exception
  undeclared_error : Fault
  -- a call of a process that does not run
  not_running : Fault
  -- a wait that nothing ends, where calls come one after the other
  blocked : Fault
  -- the bound on the depth of calls that the model sets
  out_of_fuel : Fault

pub data Result {ℓ} (A : Type ℓ) : Type ℓ where
  ok : A → Result A
  fault : Fault → Result A

-- A chain stops at the first fault.
module _ {ℓ κ} {A : Type ℓ} {B : Type κ} where
  infixl 5 ◌>>=◌
  abbrev pub ◌>>=◌ : Result A → (A → Result B) → Result B
  fault why >>= k = fault why
  ok x >>= k = k x

  -- What a successful chain went through.
  pub >>=-eq-ok :
      (m : Result A) (k : A → Result B) {y : B}
      → (m >>= k) ≡ ok y
      → (x : A) × (m ≡ ok x) × (k x ≡ ok y)
  >>=-eq-ok (fault why) k h = cc
  >>=-eq-ok (ok x) k h = (x, refl, h)

pub ok-injective {ℓ} : {A : Type ℓ} {a b : A} → ok a ≡ ok b → a ≡ b
ok-injective h = cc

-- The computation does not fail an assertion.
abbrev pub IsSafe {ℓ} : {A : Type ℓ} → Result A → Type ℓ
IsSafe m = m ≢ fault assertion_failed

pub IsSafe-ok {ℓ} : {A : Type ℓ} (a : A) → IsSafe (ok a)
IsSafe-ok a = λ e. cc

fault-injective {ℓ} : {A : Type ℓ} {e f : Fault} → ◌≡◌ {A = Result A} (fault e) (fault f) → e ≡ f
fault-injective h = cc

pub IsSafe-bind {ℓ} :
    {A B : Type ℓ} (m : Result A) (f : A → Result B)
    → IsSafe m
    → ((a : A) → m ≡ ok a → IsSafe (f a))
    → IsSafe (m >>= f)
IsSafe-bind (ok a) f h k = k a refl
IsSafe-bind (fault e) f h k = λ p. h (ap fault (fault-injective p))

-- Two continuations that agree on the result of a computation.
pub >>=-cong {ℓ κ} :
    {A : Type ℓ} {B : Type κ} (m : Result A) (f g : A → Result B)
    → ((a : A) → m ≡ ok a → f a ≡ g a)
    → (m >>= f) ≡ (m >>= g)
>>=-cong (ok a) f g h = h a refl
>>=-cong (fault e) f g h = refl
