-- ===== src/Base/Result.antt =====
-- `anyhow::Result` and the `?` operator. A panic is an outcome of its own: no caller of the source
-- catches it.
use mathlib.Core.Path.{◌≡◌, refl, subst}
use mathlib.Core.Bool.{Bool, true, false}
use inspequte.Base.Tests.{if◌then◌else◌}
use mathlib.Core.Option.{Option, none, some}

-- one constructor for each message of the modelled code
pub data Error : Type 0 where
  u16_out_of_bounds u32_out_of_bounds : Error
  unsupported_opcode invalid_tableswitch_range invalid_lookupswitch_pairs missing_wide_opcode :
      Error
  invalid_bytecode_length bipush_operand sipush_operand ldc_index : Error
  unresolved parse_method_descriptor : Error
  class_file_out_of_bounds missing_class_entry missing_class_name missing_utf8 : Error
  invalid_method_signature invalid_type_parameters invalid_parameter_type : Error
  invalid_return_type invalid_type_signature : Error
  unsupported_tag invalid_magic duplicate_classes : Error

pub data Result {ℓ} (A : Type ℓ) : Type ℓ where
  ok : (value : A) → Result A
  err : (message : Error) → Result A
  panic : Result A

-- the way on after a call marked with `?`
module _ {ℓ κ} {A : Type ℓ} {B : Type κ} where
  infixl 5 ◌>>=◌
  abbrev pub ◌>>=◌ : Result A → (A → Result B) → Result B
  panic >>= next = panic
  err message >>= next = err message
  ok value >>= next = next value

  -- a chain that returns is one whose parts return
  pub >>=-eq-ok :
      (first : Result A) (next : A → Result B) {end : B}
      → (first >>= next) ≡ ok end
      → (middle : A) × (first ≡ ok middle) × (next middle ≡ ok end)
  >>=-eq-ok panic next e = cc
  >>=-eq-ok (err message) next e = cc
  >>=-eq-ok (ok value) next e = (value, refl, e)

-- `Option::context`
abbrev pub context {ℓ} : {A : Type ℓ} → Error → Option A → Result A
context e none = err e
context e (some a) = ok a

pub ok-injective {ℓ} : {A : Type ℓ} {a b : A} → ok a ≡ ok b → a ≡ b
ok-injective h = cc

-- No panic, and a value that is returned satisfies `P`.
abbrev pub Returns {ℓ} : {A : Type ℓ} → (A → Type 0) → Result A → Type 0
Returns P panic = ⊥
Returns P (err message) = Unit
Returns P (ok value) = P value

module _ {ℓ} {A : Type ℓ} {P : A → Type 0} where
  pub Returns-imp :
      {Q : A → Type 0} (r : Result A)
      → Returns P r
      → ((value : A) → P value → Q value)
      → Returns Q r
  Returns-imp panic h weaken = elim h [ ]
  Returns-imp (err message) h weaken = tt
  Returns-imp (ok value) h weaken = weaken value h

module _ {ℓ κ} {A : Type ℓ} {B : Type κ} where
  pub Returns-bind :
      (P : A → Type 0) (Q : B → Type 0) (first : Result A) (next : A → Result B)
      → Returns P first
      → ((middle : A) → P middle → Returns Q (next middle))
      → Returns Q (first >>= next)
  Returns-bind P Q panic next h rest = elim h [ ]
  Returns-bind P Q (err message) next h rest = tt
  Returns-bind P Q (ok value) next h rest = rest value h

pub Returns-context {ℓ} :
    {A : Type ℓ} (e : Error) (o : Option A) → Returns (λ _. Unit {0}) (context e o)
Returns-context e none = tt
Returns-context e (some a) = tt

pub Returns-ok {ℓ} :
    {A : Type ℓ} (P : A → Type 0) (r : Result A) {a : A} → Returns P r → r ≡ ok a → P a
Returns-ok P (ok b) h e = subst P (ok-injective e) h
Returns-ok P (err x) h e = cc
Returns-ok P panic h e = cc

-- A value that is returned satisfies `P`, and a panic is explained by `O`.
abbrev pub Outcome {ℓ} : {A : Type ℓ} → (A → Type 0) → Type 0 → Result A → Type 0
Outcome P O panic = O
Outcome P O (err message) = Unit
Outcome P O (ok value) = P value

module _ {ℓ} {A : Type ℓ} (P : A → Type 0) (O : Type 0) where
  pub Outcome-Returns : (r : Result A) → Returns P r → Outcome P O r
  Outcome-Returns panic h = elim h [ ]
  Outcome-Returns (err message) h = tt
  Outcome-Returns (ok value) h = h

  pub Outcome-ok : (r : Result A) → O → ((value : A) → r ≡ ok value → P value) → Outcome P O r
  Outcome-ok panic o h = o
  Outcome-ok (err message) o h = tt
  Outcome-ok (ok value) o h = h value refl

  pub Outcome-value : (r : Result A) {value : A} → Outcome P O r → r ≡ ok value → P value
  Outcome-value (ok value) h e = subst P (ok-injective e) h
  Outcome-value (err message) h e = cc
  Outcome-value panic h e = cc

module _ {ℓ κ} {A : Type ℓ} {B : Type κ} (Q : B → Type 0) (O : Type 0) where
  pub Outcome-after :
      (P : A → Type 0) (first : Result A) (next : A → Result B)
      → Returns P first
      → ((middle : A) → P middle → Outcome Q O (next middle))
      → Outcome Q O (first >>= next)
  Outcome-after P panic next h rest = elim h [ ]
  Outcome-after P (err message) next h rest = tt
  Outcome-after P (ok value) next h rest = rest value h

  pub Outcome-bind :
      (P : A → Type 0) (first : Result A) (next : A → Result B)
      → Outcome P O first
      → ((middle : A) → P middle → Outcome Q O (next middle))
      → Outcome Q O (first >>= next)
  Outcome-bind P panic next h rest = h
  Outcome-bind P (err message) next h rest = tt
  Outcome-bind P (ok value) next h rest = rest value h

-- `Returns P`, as a type that an `if` does not compute away.
pub data Settles {ℓ} {A : Type ℓ} (P : A → Type 0) (r : Result A) : Type 0 where
  settled : Returns P r → Settles P r

pub Settles-value {ℓ} : {A : Type ℓ} {P : A → Type 0} {r : Result A} → Settles P r → Returns P r
Settles-value (settled h) = h

pub Settles-if {ℓ} :
    {A : Type ℓ} {P : A → Type 0} (b : Bool) {x y : Result A}
    → Settles P x
    → Settles P y
    → Settles P (if b then x else y)
Settles-if true hx hy = hx
Settles-if false hx hy = hy
