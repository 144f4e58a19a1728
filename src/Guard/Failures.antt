-- ===== src/Guard/Failures.antt =====
-- The guard client's typed failures: stellar/src/guard/errors.ts, on the tables of the keeper.
use stellar_voice_control_pr.Common.{ℕ, ◌≡◌, Option, none, some, ◌∷◌, ◌++◌, arith}
use stellar_voice_control_pr.Common.Text.{Text, codes}
use stellar_voice_control_pr.Decimal.{to_text}
use stellar_voice_control_pr.Errors.{
  ErrorKind, ErrorName, named, contract_error, unknown_contract, ClassifiedError, GuardErrorDef,
  error_def, first_line, classify_contract_text, Thrown, classify_thrown,
}
use stellar_voice_control_pr.Errors.Classify.{
  kind_of, name_of, host_error_is_classified, classify_contract_text-message,
}

-- `GuardClientError` with all its fields.
pub record GuardFailure : Type 0 where
  pub name : ErrorName
  pub kind : ErrorKind
  pub message : Text
  pub code : Option ℕ

unfoldable pub guard_error_from_classified : ClassifiedError → GuardFailure
guard_error_from_classified c = record {
  name = c.name;
  kind = c.kind;
  message = c.message;
  code = c.code;
}

-- `message ?? …`: the default message for a code, whose wording is left out, is an argument.
abbrev or_default : Option Text → Text → Text
or_default none text = text
or_default (some message) text = message

abbrev failure_of_def : ℕ → Text → Option GuardErrorDef → GuardFailure
failure_of_def code message none = record {
  name = contract_error code;
  kind = unknown_contract;
  message = message;
  code = some code;
}
failure_of_def code message (some d) = record {
  name = named d.name;
  kind = d.kind;
  message = message;
  code = some code;
}

unfoldable pub guard_error_from_code : (default : Text) → ℕ → Option Text → GuardFailure
unfolding error_def
guard_error_from_code default code message =
    failure_of_def code (or_default message default) (error_def code)

unfoldable pub classify_guard_text : Text → GuardFailure
unfolding guard_error_from_classified
classify_guard_text text = guard_error_from_classified (classify_contract_text text none)

-- A failure that is thrown already, or any other thrown value.
pub data ThrownGuard : Type 0 where
  a_failure : GuardFailure → ThrownGuard
  a_thrown : Thrown → ThrownGuard

unfoldable pub as_guard_client_error : ThrownGuard → GuardFailure
unfolding guard_error_from_classified
as_guard_client_error (a_failure f) = f
as_guard_client_error (a_thrown e) = guard_error_from_classified (classify_thrown e)

from_fields :
    (c : ClassifiedError) (default text : Text) (code : ℕ)
    → (c.code ≡ some code)
      × (c.kind ≡ kind_of (error_def code))
      × (c.name ≡ name_of code (error_def code))
    → c.message ≡ text
    → guard_error_from_classified c ≡ guard_error_from_code default code (some text)
unfolding guard_error_from_classified guard_error_from_code
from_fields c default text code h m = ground arith

-- A simulation error text of the host and the bare contract code that it quotes give the same
-- failure, if the first line of the text is taken as the message.
classify_guard_text-from_code :
    (code : ℕ) (rest default : Text)
    → let text = codes "HostError: Error(Contract, #" ++ (to_text code ++ b')' ∷ rest) in
      classify_guard_text text ≡ guard_error_from_code default code (some (first_line text))
unfolding classify_guard_text
classify_guard_text-from_code code rest default =
    let text = codes "HostError: Error(Contract, #" ++ (to_text code ++ b')' ∷ rest) in
    from_fields (classify_contract_text text none) default (first_line text) code
      (host_error_is_classified code rest) (classify_contract_text-message text none)
