-- ===== src/Hyper/Error.antt =====
-- crates/celhyper/src/error.rs: the errors of the kernel, and fallible code as values.
use mathlib.Core.Bool.{Bool, true, false}
use mathlib.Core.Path.{◌≡◌, refl}
use mathlib.Core.Logic.{◌⊎◌, inl, inr}
use Prim.Native.String.{String}

pub data HyperError : Type 0 where
  invalid_handoff unsupported_cpu hardware exhausted denied invalid unimplemented internal :
      String → HyperError

pub data HyperResult {ℓ} (A : Type ℓ) : Type ℓ where
  ok : A → HyperResult A
  err : HyperError → HyperResult A

infixl 5 ◌>>=◌ ◌>>◌
abbrev pub ◌>>=◌ {ℓ κ} :
    {A : Type ℓ} {B : Type κ} → HyperResult A → (A → HyperResult B) → HyperResult B
ok a >>= f = f a
err e >>= f = err e

abbrev pub ◌>>◌ {ℓ} : {B : Type ℓ} → HyperResult (Unit {0}) → HyperResult B → HyperResult B
m >> k = m >>= λ _. k

abbrev pub refuse_if : Bool → HyperError → HyperResult (Unit {0})
refuse_if true e = err e
refuse_if false e = ok tt

pub HyperResult-cases {ℓ} :
    {A : Type ℓ} (r : HyperResult A) → ((a : A) × (r ≡ ok a)) ⊎ ((e : HyperError) × (r ≡ err e))
HyperResult-cases (ok a) = inl (a, refl)
HyperResult-cases (err e) = inr (e, refl)

pub ok_inj {ℓ} : {A : Type ℓ} {a b : A} → ok a ≡ ok b → a ≡ b
ok_inj e = cc
