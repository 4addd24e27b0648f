-- ===== src/PasswordReset/Email.antt =====
-- `sendPasswordResetEmail` of src/services/email/sendReset.ts. The schema of the input, the transport
-- and the test of an error's message are arguments.
use veritasor_backend.Prelude.{
  ℕ, Bool, false, ◌&&◌, ◌||◌, Option, none, some, List, [], ◌∷◌, ltb, leb, if◌then◌else◌,
}
use veritasor_backend.Prelude.Text.{Text, codes, includes}

-- The result without an error, or with one and whether it is retryable.
pub data EmailResult : Type 0 where
  delivered : EmailResult
  failed : Bool → EmailResult

-- What the transport throws: another value, with the test of it as text, or an `Error` with its codes
-- and the test of its message.
pub data Thrown : Type 0 where
  not_an_error : Bool → Thrown
  shape : Option ℕ → Option Text → Bool → Thrown

abbrev pub retryable_email_error_codes : List Text
retryable_email_error_codes =
    codes "ECONNECTION"
    ∷ codes "ECONNREFUSED"
    ∷ codes "ECONNRESET"
    ∷ codes "EAI_AGAIN"
    ∷ codes "ESOCKET"
    ∷ codes "ETIMEDOUT"
    ∷ []

abbrev pub has_code : Option Text → Bool
has_code none = false
has_code (some code) = includes retryable_email_error_codes code

unfoldable pub is_retryable_email_error : Thrown → Bool
is_retryable_email_error (not_an_error text_matches) = false
is_retryable_email_error (shape (some response_code) code message_matches) =
    leb 400 response_code && ltb response_code 500
is_retryable_email_error (shape none code message_matches) = has_code code || message_matches

-- `err instanceof Error ? err : new Error(String(err))`
abbrev pub as_error : Thrown → Thrown
as_error (not_an_error text_matches) = shape none none text_matches
as_error (shape response_code code message_matches) = shape response_code code message_matches

abbrev pub outcome_of : Option Thrown → EmailResult
outcome_of none = delivered
outcome_of (some e) = failed (is_retryable_email_error (as_error e))

-- `transport` sends, and gives what it throws; it is missing without configuration.
unfoldable pub send_password_reset_email :
    (Text → Text → Bool) → Bool → Option (Text → Text → Option Thrown) → Text → Text → EmailResult
send_password_reset_email is_valid is_dev none email reset_link =
    if is_valid email reset_link then (if is_dev then delivered else failed false) else failed false
send_password_reset_email is_valid is_dev (some send_mail) email reset_link =
    if is_valid email reset_link then outcome_of (send_mail email reset_link) else failed false
