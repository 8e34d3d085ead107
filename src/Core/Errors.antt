-- ===== src/Core/Errors.antt =====
-- src/gg_relay/core/exceptions.py: the classification of errors of the SDK.
use Prim.Native.String.{String}
use text.Mathlib.Text.{starts_with}
use gg_proxy.Base.{Bool, ◌||◌, if◌then◌else◌}

-- The subclasses of `SDKError`.
pub data Category : Type 0 where
  timeout permission connect transport query unknown : Category

abbrev pub label : Category → String
label timeout = "timeout"
label permission = "permission"
label connect = "connect"
label transport = "transport"
label query = "query"
label unknown = "unknown"

abbrev pub http_status : Category → String
http_status timeout = "504"
http_status permission = "403"
http_status connect = "503"
http_status transport = "502"
http_status query = "400"
http_status unknown = "500"

-- `needle in text`
unfoldable pub occurs : String → String → Bool
occurs needle String.[] = starts_with String.[] needle
occurs needle (String.◌∷◌ c s) =
    let later = occurs needle s in starts_with (String.◌∷◌ c s) needle || later

-- An exception: one that is classified, or another by its class's name and its text, both in lower
-- case.
pub data Exn : Type 0 where
  sdk_error : Category → Exn
  other : String → String → Exn

-- The order of the tests matters.
unfoldable pub classify_sdk_error : Exn → Category
classify_sdk_error (sdk_error c) = c
classify_sdk_error (other name msg) =
    if occurs "timeout" name || (occurs "timeout" msg || occurs "timed out" msg)
    then timeout
    else if occurs "permission" name
        || (occurs "forbidden" msg
            || (occurs "unauthorized" msg || (occurs "401" msg || occurs "403" msg)))
    then permission
    else if occurs "connect" name
        || (occurs "connection" msg || (occurs "refused" msg || occurs "unreachable" msg))
    then connect
    else if occurs "transport" name || (occurs "protocol" msg || occurs "handshake" msg)
    then transport
    else if occurs "query" name
        || (occurs "invalid" msg || (occurs "malformed" msg || occurs "bad request" msg))
    then query
    else unknown
