-- ===== src/Errors.antt =====
-- internal/domain/errors/errors.go: the domain errors, their constructors and the type checks. An
-- error is the chain of its causes, as `Unwrap` walks it. The context, the details and the time
-- stamps, which no decision of the program reads, are left out.
use multi_network_interface.Prelude.{
  ℕ, ◌==◌, ◌≡◌, ◌⊎◌, inl, inr, refl, Bool, true, false, Option, none, some, ◌++◌, if◌then◌else◌,
}
use multi_network_interface.Prelude.Text.{Text, text, is_empty}

-- `ErrorType`.
pub data ErrorType : Type 0 where
  validation not_found conflict system network timeout configuration permission resource : ErrorType

-- A value of Go's `error`: nil, one without a cause (`errors.New`), one that wraps another with
-- `%w`, or a `DomainError` with its type, code, message, cause and `Retryable`.
pub data GoError : Type 0 where
  nil : GoError
  plain : Text → GoError
  wrapped : Text → GoError → GoError
  domain : ErrorType → Text → Text → GoError → Bool → GoError

-- `err == nil`
abbrev pub is_nil : GoError → Bool
is_nil nil = true
is_nil _ = false

pub is_nil_lem : (e : GoError) → is_nil e ≡ true → e ≡ nil
is_nil_lem nil h = refl
is_nil_lem (plain m) h = absurd (cc)
is_nil_lem (wrapped m c) h = absurd (cc)
is_nil_lem (domain t c m x r) h = absurd (cc)

-- A function that returns a value and an `error`.
pub data Result {ℓ} (A : Type ℓ) : Type ℓ where
  ok : A → Result A
  err : GoError → Result A

pub Result-cases {ℓ} :
    {A : Type ℓ} (r : Result A) → ((a : A) × (r ≡ ok a)) ⊎ ((e : GoError) × (r ≡ err e))
Result-cases (ok a) = inl (a, refl)
Result-cases (err e) = inr (e, refl)

-- The rest of a function, behind `if err != nil { return err }`.
infixl 5 ◌>>=◌
abbrev pub ◌>>=◌ {ℓ κ} : {B : Type ℓ} {C : Type κ} → Result B → (B → Result C) → Result C
err failure >>= rest = err failure
ok value >>= rest = rest value

-- Inversion of a chain that succeeds.
pub >>=-elim {ℓ κ ι} :
    {A : Type ℓ} {B : Type κ} {C : Type ι} (m : Result A) (f : A → Result B) {b : B}
    → (m >>= f) ≡ ok b
    → ((a : A) → m ≡ ok a → f a ≡ ok b → C)
    → C
>>=-elim (ok a) f h k = k a refl h
>>=-elim (err e) f h k = absurd (cc)

-- The string that each `ErrorType` constant stands for.
unfoldable pub type_text : ErrorType → Text
type_text validation = text "VALIDATION"
type_text not_found = text "NOT_FOUND"
type_text conflict = text "CONFLICT"
type_text system = text "SYSTEM"
type_text network = text "NETWORK"
type_text timeout = text "TIMEOUT"
type_text configuration = text "CONFIGURATION"
type_text permission = text "PERMISSION"
type_text resource = text "RESOURCE"

-- The `[type:code] message` of `Error`, before the cause is added.
domain_text : ErrorType → Text → Text → Text
unfolding type_text
domain_text t code message =
    if is_empty code
    then text "[" ++ (type_text t ++ (text "] " ++ message))
    else text "[" ++ (type_text t ++ (text ":" ++ (code ++ (text "] " ++ message))))

-- `err.Error()`; the cause is added unless it is nil.
unfoldable pub error_text : GoError → Text
unfolding domain_text
error_text nil = text ""
error_text (plain message) = message
error_text (wrapped message cause) = message ++ (text ": " ++ error_text cause)
error_text (domain t code message nil retryable) = domain_text t code message
error_text (domain t code message cause retryable) =
    domain_text t code message ++ (text ": " ++ error_text cause)

-- `Unwrap`.
unfoldable pub unwrap : GoError → GoError
unwrap (wrapped message cause) = cause
unwrap (domain t code message cause retryable) = cause
unwrap _ = nil

unfoldable pub with_retryable : Bool → GoError → GoError
with_retryable b (domain t code message cause _) = domain t code message cause b
with_retryable b e = e

unfoldable pub new_error : ErrorType → Text → Text → GoError → GoError
new_error t code message cause = domain t code message cause false

unfoldable pub new_validation_error : Text → GoError → GoError
unfolding new_error
new_validation_error message cause = new_error validation (text "VAL001") message cause

unfoldable pub new_validation_error_with_code : Text → Text → GoError → GoError
unfolding new_error
new_validation_error_with_code code message cause = new_error validation code message cause

unfoldable pub new_not_found_error : Text → GoError
unfolding new_error
new_not_found_error message = new_error not_found (text "NOT001") message nil

unfoldable pub new_conflict_error : Text → GoError
unfolding new_error
new_conflict_error message = new_error conflict (text "CON001") message nil

unfoldable pub new_system_error : Text → GoError → GoError
unfolding new_error with_retryable
new_system_error message cause =
    with_retryable true (new_error system (text "SYS001") message cause)

unfoldable pub new_network_error : Text → GoError → GoError
unfolding new_error with_retryable
new_network_error message cause =
    with_retryable true (new_error network (text "NET001") message cause)

unfoldable pub new_timeout_error : Text → GoError
unfolding new_error with_retryable
new_timeout_error message = with_retryable true (new_error timeout (text "TIM001") message nil)

unfoldable pub new_configuration_error : Text → GoError → GoError
unfolding new_error
new_configuration_error message cause = new_error configuration (text "CFG001") message cause

unfoldable pub new_permission_error : Text → GoError → GoError
unfolding new_error
new_permission_error message cause = new_error permission (text "PER001") message cause

unfoldable pub new_resource_error : Text → GoError → GoError
unfolding new_error with_retryable
new_resource_error message cause =
    with_retryable true (new_error resource (text "RES001") message cause)

-- `errors.As(err, &domainErr)`: the type of the first `DomainError` along the chain of causes.
unfoldable pub as_domain : GoError → Option ErrorType
as_domain nil = none
as_domain (plain message) = none
as_domain (wrapped message cause) = as_domain cause
as_domain (domain t code message cause retryable) = some t

-- `err.(*DomainError)`: the type of the error itself, without a walk.
unfoldable pub domain_type : GoError → Option ErrorType
domain_type (domain t code message cause retryable) = some t
domain_type _ = none

-- The constants of `ErrorType` are distinct strings, so they are compared by their position.
abbrev pub rank : ErrorType → ℕ
rank validation = 0
rank not_found = 1
rank conflict = 2
rank system = 3
rank network = 4
rank timeout = 5
rank configuration = 6
rank permission = 7
rank resource = 8

-- `domainErr.Type == t` behind `errors.As`.
abbrev pub has_type : ErrorType → Option ErrorType → Bool
has_type t none = false
has_type t (some u) = rank u == rank t

unfoldable pub is_validation_error : GoError → Bool
unfolding as_domain
is_validation_error e = has_type validation (as_domain e)

unfoldable pub is_not_found_error : GoError → Bool
unfolding as_domain
is_not_found_error e = has_type not_found (as_domain e)

unfoldable pub is_system_error : GoError → Bool
unfolding as_domain
is_system_error e = has_type system (as_domain e)

unfoldable pub is_network_error : GoError → Bool
unfolding as_domain
is_network_error e = has_type network (as_domain e)

unfoldable pub is_timeout_error : GoError → Bool
unfolding as_domain
is_timeout_error e = has_type timeout (as_domain e)

-- `(*DomainError).Is`: two domain errors match when their types do.
unfoldable pub is_match : GoError → GoError → Bool
unfolding domain_type
is_match e target = elim (domain_type target) [ none ↦ false | some t ↦ has_type t (domain_type e) ]
