-- ===== src/Errors.antt =====
-- packages/core/src/errors.ts: the platform's error codes and their classes; and what a call comes
-- to, a value or what it throws (a `CapitalError`, or a plain `Error` with its message).
use capital_os.Shared.{Text, Bool, true, false, ◌&&◌, not, Option, none, some, ◌≡◌, refl, arith}

pub data ErrorClass : Type 0 where
  retryable_read requote user_action investigation : ErrorClass

pub data ErrorCode : Type 0 where
  provider_timeout rate_limited quote_expired cap_reached oracle_stale : ErrorCode
  quorum_disagreement user_rejected insufficient_balance network_mismatch : ErrorCode
  unsupported_wallet unsupported_action plan_invalid capability_disabled : ErrorCode
  broadcast_unknown reorg_detected reconciliation_mismatch unclassified : ErrorCode

unfoldable pub error_class : ErrorCode → ErrorClass
error_class provider_timeout = retryable_read
error_class rate_limited = retryable_read
error_class quote_expired = requote
error_class cap_reached = requote
error_class oracle_stale = requote
error_class quorum_disagreement = requote
error_class user_rejected = user_action
error_class insufficient_balance = user_action
error_class network_mismatch = user_action
error_class unsupported_wallet = user_action
error_class unsupported_action = user_action
error_class plan_invalid = user_action
error_class capability_disabled = user_action
error_class broadcast_unknown = investigation
error_class reorg_detected = investigation
error_class reconciliation_mismatch = investigation
error_class unclassified = investigation

pub record CapitalError : Type 0 where
  pub code : ErrorCode
  pub class : ErrorClass
  pub message : Text

unfoldable pub capital_error : ErrorCode → Text → CapitalError
capital_error code message = record { code = code; class = error_class code; message = message }

-- The predicates also take a wire object, whose class may stand under either of two keys.
pub record ErrorLike : Type 0 where
  pub code : ErrorCode
  pub has_class : Bool
  pub class : Option ErrorClass
  pub error_class : Option ErrorClass

abbrev pub like : CapitalError → ErrorLike
like e = record { code = e.code; has_class = true; class = some e.class; error_class = none }

unfoldable pub class_of : ErrorLike → Option ErrorClass
class_of e = elim e.has_class [ true ↦ e.class | false ↦ e.error_class ]

abbrev is_class : ErrorClass → Option ErrorClass → Bool
is_class retryable_read (some retryable_read) = true
is_class requote (some requote) = true
is_class user_action (some user_action) = true
is_class investigation (some investigation) = true
is_class _ _ = false

unfoldable pub is_retryable_read : ErrorLike → Bool
unfolding class_of
is_retryable_read e = is_class retryable_read (class_of e)

unfoldable pub is_requote_error : ErrorLike → Bool
unfolding class_of
is_requote_error e = is_class requote (class_of e)

unfoldable pub is_user_action_error : ErrorLike → Bool
unfolding class_of
is_user_action_error e = is_class user_action (class_of e)

unfoldable pub is_investigation_error : ErrorLike → Bool
unfolding class_of
is_investigation_error e = is_class investigation (class_of e)

abbrev is_broadcast_unknown : ErrorCode → Bool
is_broadcast_unknown broadcast_unknown = true
is_broadcast_unknown _ = false

unfoldable pub allows_write_retry : ErrorLike → Bool
unfolding class_of
allows_write_retry e =
    not (is_broadcast_unknown e.code) && not (is_class investigation (class_of e))

pub data Thrown : Type 0 where
  capital : CapitalError → Thrown
  error : Text → Thrown

-- What a call comes to.
pub data Result {ℓ} (A : Type ℓ) : Type ℓ where
  err : Thrown → Result A
  ok : A → Result A

module _ {ℓ κ} {A : Type ℓ} {B : Type κ} where
  infixl 5 ◌>>=◌
  -- The next statement, given the value of the one before; an exception passes it by.
  abbrev pub ◌>>=◌ : Result A → (A → Result B) → Result B
  err thrown >>= next = err thrown
  ok value >>= next = next value

  -- A call that goes through went through its first half.
  pub bind-ok :
      (first : Result A) (next : A → Result B) (last : B)
      → (first >>= next) ≡ ok last
      → (value : A) × (first ≡ ok value) × (next value ≡ ok last)
  bind-ok (err thrown) next last through = absurd (ground arith)
  bind-ok (ok value) next last through = (value, refl, through)

infixl 5 ◌>>◌
abbrev pub ◌>>◌ {κ} : {B : Type κ} → Result (Unit {0}) → Result B → Result B
check >> rest = check >>= λ passed. rest

-- `throw capitalError(code, message)`
abbrev pub throw {ℓ} : {A : Type ℓ} → ErrorCode → Text → Result A
throw code message = err (capital (capital_error code message))

abbrev pub throw_if : Bool → ErrorCode → Text → Result (Unit {0})
throw_if true code message = throw code message
throw_if false code message = ok tt

pub same_ok {ℓ} : {A : Type ℓ} (r : Result A) (a b : A) → r ≡ ok a → r ≡ ok b → a ≡ b
same_ok r a b h k = ground arith

pub ok_inj {ℓ} : {A : Type ℓ} (u v : A) → ok u ≡ ok v → u ≡ v
ok_inj u v e = ground (arith, e)
