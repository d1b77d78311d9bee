-- ===== src/Wire/Reading.antt =====
-- src/protocol/common.ts: errors, and what it is to read a value or a property. A reading has the
-- type that it promises, and gives the same when what it gave is encoded and read again.
-- The text of an error is left out, so only the reason says what was wrong.
use mathlib.Core.Option
use tailii_host.Prelude.{Bool, true, Option, string_eq, ◌≡◌}
use tailii_host.Wire.Values.{Value, canonicalize}
use tailii_host.Wire.Shapes.{Shape, conforms, conforms_option}

-- `ProtocolDecodeError.reason`.
pub data Reason : Type 0 where
  invalid_json missing_type unknown_type unsupported_version : Reason
  legacy_unsupported_type missing_field : Reason

pub data Result {ℓ} (A : Type ℓ) : Type ℓ where
  ok : A → Result A
  fail : Reason → Result A

pub ok-inversion {ℓ} : {A : Type ℓ} {a b : A} → ok a ≡ ok b → a ≡ b
ok-inversion h = cc

pub fail-inversion {ℓ} : {A : Type ℓ} {r s : Reason} → ◌≡◌ {A = Result A} (fail r) (fail s) → r ≡ s
fail-inversion h = cc

infixl 5 ◌>>=◌
abbrev pub ◌>>=◌ {ℓ κ} : {A : Type ℓ} {B : Type κ} → Result A → (A → Result B) → Result B
ok a >>= f = f a
fail reason >>= f = fail reason

-- A test on a value that is taken as it is.
pub record Kind : Type 0 where
  pub holds : Value → Bool
  pub type : Shape
  pub plain : (v : Value) → holds v ≡ true → canonicalize v ≡ v
  pub typed : (v : Value) → holds v ≡ true → conforms type v ≡ true

-- The reading of a value that is there.
pub record Element : Type 0 where
  pub run : Value → Result Value
  pub type : Shape
  pub steady : (v w : Value) → run v ≡ ok w → run (canonicalize w) ≡ ok w
  pub typed : (v w : Value) → run v ≡ ok w → conforms type w ≡ true
  pub refuses : (v : Value) (reason : Reason) → run v ≡ fail reason → reason ≡ missing_field

-- The reading of `raw[key]`, which may be missing.
pub record Reader : Type 0 where
  pub read : Option Value → Result (Option Value)
  pub optional : Bool
  pub type : Shape
  pub steady :
      (o out : Option Value) → read o ≡ ok out → read (Option.map canonicalize out) ≡ ok out
  pub typed : (o out : Option Value) → read o ≡ ok out → conforms_option optional type out ≡ true
  pub refuses : (o : Option Value) (reason : Reason) → read o ≡ fail reason → reason ≡ missing_field
