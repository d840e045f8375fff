-- ===== src/Base/Errors.antt =====
-- common/Error.h and common/Result.h.
use Prim.Native.Nat.{ℕ}
use Prim.Native.String.{String}
use mathlib.Core.Path.{◌≡◌, refl}
use mathlib.Core.Logic.{◌⊎◌, inl, inr}
use mathlib.Core.Bool.{Bool, true, false}
use mathlib.Core.List.{List, []}
use custom_game_launcher_bac.Base.Integers.{ℤ}
use custom_game_launcher_bac.Base.ByteStrings.{Bytes}

pub data ErrorCode : Type 0 where
  invalid_input unauthenticated forbidden password_change_required not_found conflict quota_exceeded
        rate_limited dependency_failure internal :
      ErrorCode

-- The pieces that a detail is concatenated from: a literal of the source, a text, a number.
pub data Part : Type 0 where
  lit : String → Part
  text : Bytes → Part
  num : ℕ → Part
  int : ℤ → Part

pub record Error : Type 0 where
  pub code : ErrorCode
  pub detail : List Part
  pub rule : String
  pub rule_args : List Part

pub data Result {ℓ} (A : Type ℓ) : Type ℓ where
  ok : A → Result A
  err : Error → Result A

abbrev pub VoidResult : Type 0
VoidResult = Result (Unit {0})

abbrev pub success : VoidResult
success = ok tt

-- Result<T>::failure(code, detail).
abbrev pub failure {ℓ} : {A : Type ℓ} → ErrorCode → List Part → Result A
failure c d = err (record { code = c; detail = d; rule = ""; rule_args = [] })

-- failure(invalidInput(detail, rule, args)).
abbrev pub broken_rule {ℓ} : {A : Type ℓ} → List Part → String → List Part → Result A
broken_rule d r args = err (record { code = invalid_input; detail = d; rule = r; rule_args = args })

-- `if (auto check = first; !check.ok()) return check.error();`, with and without the value.
abbrev pub ◌>>=◌ {ℓ κ} : {A : Type ℓ} {B : Type κ} → Result A → (A → Result B) → Result B
err refused >>= next = err refused
ok value >>= next = next value

abbrev pub ◌>>◌ {ℓ κ} : {A : Type ℓ} {B : Type κ} → Result A → Result B → Result B
check >> rest = check >>= λ _. rest

infixl 5 ◌>>=◌ ◌>>◌
-- `if (test) return failure(code, detail);`
abbrev pub refuse_if : Bool → ErrorCode → List Part → VoidResult
refuse_if true c d = failure c d
refuse_if false c d = success

abbrev pub is_ok {ℓ} : {A : Type ℓ} → Result A → Bool
is_ok (ok a) = true
is_ok (err e) = false

-- `if (auto check = …; !check.ok()) return check.error();` before a step on the state.
abbrev pub checked {ℓ κ} : {S : Type ℓ} {A : Type κ} → VoidResult → S → Result A × S → Result A × S
checked (err e) s rest = (err e, s)
checked (ok _) s rest = rest

pub Result-cases {ℓ} :
    {A : Type ℓ} (r : Result A) → ((a : A) × (r ≡ ok a)) ⊎ ((e : Error) × (r ≡ err e))
Result-cases (ok a) = inl (a, refl)
Result-cases (err e) = inr (e, refl)
