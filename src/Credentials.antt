-- ===== src/Credentials.antt =====
-- unoq_ota/iot_credentials.py: the exchange of the device's certificate for credentials. The request and
-- the parsing of its body are one parameter, and so are the printing of values and of JSON.
use unoq_ota.Prelude.{ℕ, pos, String, ◌<>◌, none, some}
use unoq_ota.Outcome.{Outcome, ok, raised, Raised, other_error, message}
use unoq_ota.Python.{Value, int, obj, Fields, end, field, get_field, find_field}

-- What the exchange gives: credentials, an `IotCredentialsError`, or another exception, which escapes.
pub data Exchange : Type 0 where
  granted : Fields → Exchange
  refused : String → Exchange
  escaped : Raised → Exchange

-- `creds[key]`, whose KeyError is an IotCredentialsError, then the rest
abbrev required : Fields → String → (Value → Exchange) → Exchange
required creds key rest = elim (find_field key creds) [
  | none ↦ refused ("credentials response missing " <> key)
  | some v ↦ rest v
]

unfoldable credentials_of : Fields → Exchange
credentials_of creds = required creds "accessKeyId" (λ access.
    required creds "secretAccessKey" (λ secret. required creds "sessionToken" (λ token.
      required creds "expiration" (λ expiration. granted (
        field "Version" (int (pos 1)) (
          field "AccessKeyId" access (
            field "SecretAccessKey" secret
              (field "SessionToken" token (field "Expiration" expiration end)))))))))

-- `creds if isinstance(creds, dict)`
unfoldable usable_credentials : Value → Exchange
unfolding credentials_of
usable_credentials (obj creds) = credentials_of creds
usable_credentials _ = refused "no usable credentials in response"

-- `body.get("credentials")`, which is an AttributeError on anything but a dict
unfoldable from_body : Value → Exchange
unfolding usable_credentials
from_body (obj body) = usable_credentials (get_field "credentials" body)
from_body _ = escaped (other_error "object has no attribute 'get'")

-- `answer` is what the body of the `try` gives.
unfoldable fetch_role_alias_credentials : Outcome Value → Exchange
unfolding from_body
fetch_role_alias_credentials (raised e) =
    refused ("IoT Credentials Provider request failed: " <> message e)
fetch_role_alias_credentials (ok body) = from_body body

-- The exit code and what is printed, on the standard output for code 0 and on the other for 1.
abbrev exit_of : (Fields → String) → Exchange → Outcome (ℕ × String)
exit_of dumps (granted creds) = ok (0, dumps creds)
exit_of dumps (refused m) = ok (1, m)
exit_of dumps (escaped e) = raised e

-- `main`, from its parsed options on
unfoldable pub credential_process : (Fields → String) → Outcome Value → Outcome (ℕ × String)
unfolding fetch_role_alias_credentials
credential_process dumps answer = exit_of dumps (fetch_role_alias_credentials answer)
