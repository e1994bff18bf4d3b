-- ===== src/Core/Error.antt =====
-- src/core/error.rs: the errors of the providers, of the parsers and of HTTP.
use panshou.Prelude.{◌++◌}
use panshou.Text.{Text, text}

pub data ProviderError : Type 0 where
  timeout auth_required rate_limited blocked : ProviderError
  network parse protocol unavailable invalid_source : Text → ProviderError

pub data ParseError : Type 0 where
  unknown_cloud_type invalid_url invalid_response : Text → ParseError

-- `Display`, by thiserror's `#[error(..)]` lines.
unfoldable pub provider_message : ProviderError → Text
provider_message timeout = text "provider timed out"
provider_message (network m) = text "network error: " ++ m
provider_message (parse m) = text "response parse error: " ++ m
provider_message auth_required = text "authentication required"
provider_message rate_limited = text "provider rate limited the request"
provider_message blocked = text "provider blocked the request"
provider_message (protocol m) = text "provider protocol error: " ++ m
provider_message (unavailable m) = text "provider is unavailable: " ++ m
provider_message (invalid_source m) = text "invalid search source: " ++ m
