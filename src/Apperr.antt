-- ===== src/Apperr.antt =====
-- internal/pkg/apperr: the error that crosses the boundary between the use cases and HTTP.
use buat_postingan.Base.{ℕ, String, Bool}
use Prim.Native.String.{◌++◌ as append}

-- `Code`
pub data Code : Type 0 where
  not_implemented thread_not_found not_found thread_busy floor_locked : Code
  docs_index_not_ready forbidden unauthorized not_initiator validation : Code
  empty not_retryable rate_limited internal upstream : Code

-- The maps that the code puts into `Extra`, one constructor for each set of keys.
pub data Extra : Type 0 where
  no_extra : Extra
  docs_index : Bool → String → String → ℕ → Extra
  floor : ℕ → ℕ → Extra

-- `app` is `*Error`, its `Cause` last; `plain` is any other `error`, by its text.
pub data Error : Type 0 where
  plain : String → Error
  app : ℕ → Code → String → Extra → Error
  caused : ℕ → Code → String → Extra → Error → Error

-- `New`
unfoldable pub new : ℕ → Code → String → Error
new http_status code message = app http_status code message no_extra

-- `Wrap`
unfoldable pub wrap : ℕ → Code → String → Error → Error
wrap http_status code message cause = caused http_status code message no_extra cause

-- the words of the codes
abbrev pub code_text : Code → String
code_text not_implemented = "not_implemented"
code_text thread_not_found = "thread_not_found"
code_text not_found = "not_found"
code_text thread_busy = "thread_busy"
code_text floor_locked = "floor_locked"
code_text docs_index_not_ready = "docs_index_not_ready"
code_text forbidden = "forbidden"
code_text unauthorized = "unauthorized"
code_text not_initiator = "not_initiator"
code_text validation = "validation"
code_text empty = "empty"
code_text not_retryable = "not_retryable"
code_text rate_limited = "rate_limited"
code_text internal = "internal"
code_text upstream = "upstream"

abbrev bracketed : Code → String → String
bracketed code message = append "[" (append (code_text code) (append "] " message))

-- `Error`
unfoldable pub error_text : Error → String
error_text (plain s) = s
error_text (app status code message extra) = bracketed code message
error_text (caused status code message extra cause) =
    append (bracketed code message) (append ": " (error_text cause))
