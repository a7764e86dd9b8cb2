-- ===== src/Prelude/Error.antt =====
-- crates/celcommon/src/error.rs: the error taxonomy, and fallible code as values.
use mathlib.Core.Path.{◌≡◌, refl}
use mathlib.Core.Logic.{◌⊎◌, inl, inr}
use mathlib.Core.Bool.{Bool, true, false}
use mathlib.Core.Option.{Option, none, some}
use Prim.Native.String.{String}

pub data CelError : Type 0 where
  capability_denied exhausted invalid hardware io timeout storage internal : String → CelError

pub data CelResult {ℓ} (A : Type ℓ) : Type ℓ where
  ok : A → CelResult A
  err : CelError → CelResult A

infixl 5 ◌>>=◌ ◌>>◌
abbrev pub ◌>>=◌ {ℓ κ} : {A : Type ℓ} {B : Type κ} → CelResult A → (A → CelResult B) → CelResult B
ok a >>= f = f a
err e >>= f = err e

abbrev pub ◌>>◌ {ℓ} : {B : Type ℓ} → CelResult (Unit {0}) → CelResult B → CelResult B
m >> k = m >>= λ _. k

-- `if c { return Err(e); }`
abbrev pub refuse_if : Bool → CelError → CelResult (Unit {0})
refuse_if true e = err e
refuse_if false e = ok tt

-- `o.ok_or(e)?`
abbrev pub ok_or {ℓ} : {A : Type ℓ} → Option A → CelError → CelResult A
ok_or none e = err e
ok_or (some a) e = ok a

abbrev pub code : CelError → String
code (capability_denied s) = "cap_denied"
code (exhausted s) = "exhausted"
code (invalid s) = "invalid"
code (hardware s) = "hardware"
code (io s) = "io"
code (timeout s) = "timeout"
code (storage s) = "storage"
code (internal s) = "internal"

pub CelResult-cases {ℓ} :
    {A : Type ℓ} (r : CelResult A) → ((a : A) × (r ≡ ok a)) ⊎ ((e : CelError) × (r ≡ err e))
CelResult-cases (ok a) = inl (a, refl)
CelResult-cases (err e) = inr (e, refl)
