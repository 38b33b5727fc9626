-- ===== src/Prelude/Errors.antt =====
-- `Error` and `Result` of src/lib.rs, and the library's monad on `Option`.
use Prim.Native.String.{String}
use mathlib.Core.Path.{◌≡◌, refl}
use mathlib.Core.Logic.{◌⊎◌, inl, inr}
use mathlib.Core.Bool.{Bool, true, false}
use mathlib.Core.List.{List, [], ◌∷◌}
use mathlib.Core.Option.{Option, none, some}

-- `Error::{Io, Json, Invalid}`; the payloads of the first two belong to other libraries.
pub data Error : Type 0 where
  io json : Error
  invalid : String → Error

pub data Result {κ} (T : Type κ) : Type κ where
  err : Error → Result T
  ok : T → Result T

-- The `?` of the source.
infixl 5 ◌>>=◌
abbrev pub ◌>>=◌ {κ ℓ} : {T : Type κ} {U : Type ℓ} → Result T → (T → Result U) → Result U
err e >>= next = err e
ok value >>= next = next value

infixl 5 ◌>>◌
abbrev pub ◌>>◌ {κ} : {T : Type κ} → Result (Unit {0}) → Result T → Result T
first >> next = first >>= λ done. next

-- `if test { return Err(invalid(message)); }`
abbrev pub refuse_if : Bool → String → Result (Unit {0})
refuse_if true m = err (invalid m)
refuse_if false m = ok tt

-- `ok_or_else(|| invalid(message))?`
abbrev pub ok_or {ℓ} : {A : Type ℓ} → Option A → String → Result A
ok_or none m = err (invalid m)
ok_or (some a) m = ok a

abbrev pub and_then {ℓ κ} : {A : Type ℓ} {B : Type κ} → Option A → (A → Option B) → Option B
and_then none f = none
and_then (some a) f = f a

-- `for x in xs { f(x)?; }`
abbrev pub for_each {ℓ} : {A : Type ℓ} → (A → Result (Unit {0})) → List A → Result (Unit {0})
for_each f [] = ok tt
for_each f (x ∷ xs) = f x >>= λ _. for_each f xs

-- `fold` with `?` in its body.
abbrev pub try_fold {ℓ κ} : {A : Type ℓ} {S : Type κ} → (S → A → Result S) → S → List A → Result S
try_fold f s [] = ok s
try_fold f s (x ∷ xs) = f s x >>= λ s'. try_fold f s' xs

-- A bind that succeeds had a value to hand on.
pub >>=-eq-ok {κ ℓ} :
    {T : Type κ} {U : Type ℓ} (first : Result T) (next : T → Result U) {u : U}
    → (first >>= next) ≡ ok u
    → (t : T) × (first ≡ ok t) × (next t ≡ ok u)
>>=-eq-ok (err e) next h = cc
>>=-eq-ok (ok t) next h = (t, refl, h)

pub refuse_if-eq-ok : (b : Bool) (m : String) {u : Unit {0}} → refuse_if b m ≡ ok u → b ≡ false
refuse_if-eq-ok true m h = cc
refuse_if-eq-ok false m h = refl

pub ok_or-eq-ok {ℓ} :
    {A : Type ℓ} (o : Option A) (m : String) {a : A} → ok_or o m ≡ ok a → o ≡ some a
ok_or-eq-ok none m h = cc
ok_or-eq-ok (some b) m h = cc

-- To split on a computed result and keep the equation.
pub Result-cases {ℓ} :
    {A : Type ℓ} (r : Result A) → ((a : A) × (r ≡ ok a)) ⊎ ((e : Error) × (r ≡ err e))
Result-cases (ok a) = inl (a, refl)
Result-cases (err e) = inr (e, refl)

pub ok-injective {ℓ} : {A : Type ℓ} {a b : A} → ◌≡◌ {A = Result A} (ok a) (ok b) → a ≡ b
ok-injective h = cc

pub >>-eq-ok {ℓ} :
    {B : Type ℓ} (m : Result (Unit {0})) (k : Result B) {b : B}
    → (m >> k) ≡ ok b
    → (m ≡ ok tt) × (k ≡ ok b)
>>-eq-ok (ok u) k h = (refl, h)
>>-eq-ok (err e) k h = cc

pub some_eq {ℓ} : {A : Type ℓ} {a b : A} → ◌≡◌ {A = Option A} (some a) (some b) → a ≡ b
some_eq e = cc

pub bind_assoc {ℓ κ ν} :
    {A : Type ℓ} {B : Type κ} {C : Type ν} (m : Result A) (f : A → Result B) (g : B → Result C)
    → ((m >>= f) >>= g) ≡ (m >>= λ a. f a >>= g)
bind_assoc (ok a) f g = refl
bind_assoc (err e) f g = refl
