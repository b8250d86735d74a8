-- ===== src/Base/Errors.antt =====
-- Go's error values, as far as the program tells them apart, and results that may be errors.
use Prim.Native.Nat.{ℕ}
use Prim.Native.String.{String}
use mathlib.Core.Path.{◌≡◌, refl, subst}
use mathlib.Core.Logic.{◌⊎◌, ◌≢◌, inl, inr}
use mathlib.Core.Bool.{Bool, true, false}
use mathlib.Core.Option.{Option, none, some}

-- sdkerr.ServiceResponseError of the Huawei Cloud SDK.
pub record ServiceResponseError : Type 0 where
  pub status_code : ℕ
  pub error_code : String
  pub error_message : String

-- `plain` is fmt.Errorf with no %w, by its format; `wrapped` is fmt.Errorf with %w. `not_found` and
-- `conflict` are the API server's reasons; the next three are Karpenter's own error types.
pub data Error : Type 0 where
  plain : String → Error
  wrapped : String → Error → Error
  service : ServiceResponseError → Error
  not_found conflict : Error
  insufficient_capacity node_claim_not_found node_class_not_ready : Error → Error
  create_error : Error → String → String → Error

-- errors.As(err, &serviceErr)
unfoldable pub as_service : Error → Option ServiceResponseError
as_service (service e) = some e
as_service (wrapped _ e) = as_service e
as_service _ = none

pub data Result {ℓ} (A : Type ℓ) : Type ℓ where
  err : Error → Result A
  ok : A → Result A

infixl 5 ◌>>=◌
abbrev pub ◌>>=◌ {ℓ κ} : {A : Type ℓ} {B : Type κ} → Result A → (A → Result B) → Result B
err failure >>= rest = err failure
ok value >>= rest = rest value

-- if cond { return err }
abbrev pub fail_if : Bool → Error → Result (Unit {0})
fail_if true e = err e
fail_if false e = ok tt

-- %w: the error of `m`, wrapped by the message.
abbrev pub wrap_error {ℓ} : {A : Type ℓ} → String → Result A → Result A
wrap_error msg (ok a) = ok a
wrap_error msg (err e) = err (wrapped msg e)

-- `first`, and `rest` if it succeeds.
infixl 5 ◌>>◌
abbrev pub ◌>>◌ {ℓ} : {B : Type ℓ} → Result (Unit {0}) → Result B → Result B
first >> rest = first >>= λ done. rest

-- What holds of the value of a result, if it has one.
abbrev pub IfOk {ℓ κ} : {A : Type ℓ} → (A → Type κ) → Result A → Type κ
IfOk P (ok a) = P a
IfOk P (err e) = Unit

pub Result-cases {ℓ} :
    {A : Type ℓ} (r : Result A) → ((a : A) × (r ≡ ok a)) ⊎ ((e : Error) × (r ≡ err e))
Result-cases (ok a) = inl (a, refl)
Result-cases (err e) = inr (e, refl)

pub ok_ne_err {ℓ} : {A : Type ℓ} {a : A} {e : Error} → ok a ≢ err e
ok_ne_err {a = a} {e = e} h = subst (λ r. elim r [ ok _ ↦ Unit {0} | err _ ↦ ⊥ ]) h tt

-- A chain that succeeds does so by the value of its first part.
pub >>=-eq-ok {ℓ κ} :
    {A : Type ℓ} {B : Type κ} (first : Result A) (rest : A → Result B) {value : B}
    → (first >>= rest) ≡ ok value
    → (start : A) × (first ≡ ok start) × (rest start ≡ ok value)
>>=-eq-ok (err failure) rest e = cc
>>=-eq-ok (ok start) rest e = (start, refl, e)
