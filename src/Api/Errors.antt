-- ===== src/Api/Errors.antt =====
-- Errors of the HTTP API: `responders::Error` and the constructors of `errors.rs`
-- (api/src/responders.rs, api/src/errors.rs). Messages and descriptions are left out.
use prose_pod_server.Common.{ℕ, Text, text}

pub record Error : Type 0 where
  pub kind : Text
  pub code : Text
  pub status : ℕ

unfoldable pub internal_server_error : Text → Error
internal_server_error c = record { kind = text "INTERNAL_ERROR"; code = c; status = 500 }

unfoldable pub forbidden : Error
forbidden = record { kind = text "AUTH_ERROR"; code = text "FORBIDDEN"; status = 403 }

unfoldable pub too_early : Text → Error
too_early c = record { kind = text "LIFECYCLE_ERROR"; code = c; status = 425 }

-- `service_unavailable`, and `service_unavailable_err`, which only describes more
unfoldable pub service_unavailable : Text → Error
service_unavailable c = record { kind = text "LIFECYCLE_ERROR"; code = c; status = 503 }

unfoldable pub configuration_error : Text → Error
configuration_error c = record { kind = text "CONFIGURATION_ERROR"; code = c; status = 503 }

unfoldable pub validation_error : Text → Error
validation_error c = record { kind = text "VALIDATION_ERROR"; code = c; status = 400 }

unfoldable pub unsupported_media_type : Text → Error
unsupported_media_type c = record { kind = text "VALIDATION_ERROR"; code = c; status = 415 }

-- `NoContext::no_context` on an error
unfoldable pub no_context : Error
no_context = internal_server_error (text "INTERNAL_ERROR")
