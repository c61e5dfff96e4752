-- ===== src/Base/Calls.antt =====
-- What a Go call comes to: a value, a returned error, or a panic.
use hush_go.Base.Tests.{if◌then◌else◌}
use Prim.Native.Nat.{ℕ}
use mathlib.Core.Path.{◌≡◌, refl, subst}
use mathlib.Core.Logic.{◌≢◌}
use mathlib.Core.Bool.{Bool, true, false}

-- The errors that the modelled packages return or wrap, one for each `fmt.Errorf` and sentinel.
pub data Error : Type 0 where
  eof unexpected_eof : Error
  payload_too_large invalid_varint nested_too_deep short_payload : Error
  key_not_string missing_value expected_map : Error
  unknown_type : ℕ → Error
  frame_too_large frame_too_short request_too_short response_too_short : Error
  ciphertext_too_short bad_key_size no_randomness not_authentic : Error
  key_id_too_long unknown_key_id bad_public_key no_shared_secret no_derived_key : Error
  varint_overflow media_not_enabled : Error
  not_dialed connection_closed no_stream : Error
  dial_failed handshake_failed resolve_failed listen_failed no_tls_config : Error

-- `out_of_fuel` is no outcome of the program: a model's loop met its bound.
pub data Outcome {ℓ} (A : Type ℓ) : Type ℓ where
  ok : A → Outcome A
  err : Error → Outcome A
  panics out_of_fuel : Outcome A

infixl 5 ◌>>=◌ ◌>>◌
abbrev pub ◌>>=◌ {ℓ κ} : {A : Type ℓ} {B : Type κ} → Outcome A → (A → Outcome B) → Outcome B
ok a >>= f = f a
err e >>= f = err e
panics >>= f = panics
out_of_fuel >>= f = out_of_fuel

abbrev pub ◌>>◌ {ℓ} : {B : Type ℓ} → Outcome (Unit {0}) → Outcome B → Outcome B
m >> k = m >>= λ _. k

-- The run stayed in its fuel and did not panic, and `P` holds of the value if there is one.
pub data Ensures {ℓ κ} {A : Type ℓ} (P : A → Type κ) : Outcome A → Type (ℓ ⊔ κ) where
  returns : {a : A} → P a → Ensures P (ok a)
  fails : {e : Error} → Ensures P (err e)

module _ {ℓ κ} {A : Type ℓ} {P : A → Type κ} where
  pub Ensures-ok : {r : Outcome A} {a : A} → Ensures P r → r ≡ ok a → P a
  Ensures-ok (returns h) e = subst P (cc) h
  Ensures-ok fails e = cc

  pub Ensures-ne-out_of_fuel : {r : Outcome A} → Ensures P r → r ≢ out_of_fuel
  Ensures-ne-out_of_fuel (returns h) = cc
  Ensures-ne-out_of_fuel fails = cc

  pub Ensures-ne-panics : {r : Outcome A} → Ensures P r → r ≢ panics
  Ensures-ne-panics (returns h) = cc
  Ensures-ne-panics fails = cc

  pub Ensures-if :
      (b : Bool) {x y : Outcome A}
      → (b ≡ true → Ensures P x)
      → (b ≡ false → Ensures P y)
      → Ensures P (if b then x else y)
  Ensures-if true hx hy = hx refl
  Ensures-if false hx hy = hy refl

  pub Ensures-bind {ℓ' κ'} :
      {B : Type ℓ'} {Q : B → Type κ'} {r : Outcome A} {f : A → Outcome B}
      → Ensures P r
      → ((a : A) → P a → Ensures Q (f a))
      → Ensures Q (r >>= f)
  Ensures-bind (returns {a} h) k = k a h
  Ensures-bind fails k = fails

  pub Ensures-map {κ'} :
      {Q : A → Type κ'} {r : Outcome A} → Ensures P r → ((a : A) → P a → Q a) → Ensures Q r
  Ensures-map (returns {a} p) k = returns (k a p)
  Ensures-map fails k = fails

-- `P` holds of the value, if there is one.
abbrev pub OnOk {ℓ κ} : {A : Type ℓ} → (A → Type κ) → Outcome A → Type κ
OnOk P (ok a) = P a
OnOk P _ = Unit

pub OnOk-bind {ℓ κ ℓ' κ'} :
    {A : Type ℓ} {B : Type ℓ'} (P : A → Type κ) (Q : B → Type κ') (r : Outcome A)
    (f : A → Outcome B)
    → OnOk P r
    → ((a : A) → P a → OnOk Q (f a))
    → OnOk Q (r >>= f)
OnOk-bind P Q (ok a) f h k = k a h
OnOk-bind P Q (err e) f h k = tt
OnOk-bind P Q panics f h k = tt
OnOk-bind P Q out_of_fuel f h k = tt

pub OnOk-if {ℓ κ} :
    {A : Type ℓ} (P : A → Type κ) (b : Bool) (x y : Outcome A)
    → OnOk P x
    → (b ≡ false → OnOk P y)
    → OnOk P (if b then x else y)
OnOk-if P true x y h k = h
OnOk-if P false x y h k = k refl

pub OnOk-Ensures {ℓ κ} : {A : Type ℓ} {P : A → Type κ} {r : Outcome A} → Ensures P r → OnOk P r
OnOk-Ensures (returns h) = h
OnOk-Ensures fails = tt

pub OnOk-any {ℓ} : {A : Type ℓ} (r : Outcome A) → OnOk (λ _. Unit {0}) r
OnOk-any (ok a) = tt
OnOk-any (err e) = tt
OnOk-any panics = tt
OnOk-any out_of_fuel = tt
