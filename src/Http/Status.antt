-- ===== src/Http/Status.antt =====
-- The status codes and their texts: the macros `HTTP_...`, `HTTP_..._S` and `HTTP_..._T` of
-- src/fasterhttp.h.
use hetao.Base.{ℕ, List, [], ◌∷◌}
use Prim.Native.Char.{code}
use Prim.Native.String.{String}

-- A text of the source as bytes.
abbrev pub bytes_of : String → List ℕ
bytes_of String.[] = []
bytes_of (String.◌∷◌ c s) = code c ∷ bytes_of s

-- `struct HttpStatus`, with the texts of `HTTP_..._S` and `HTTP_..._T`.
pub record HttpStatus : Type 0 where
  pub status : ℕ
  pub status_s : List ℕ
  pub status_t : List ℕ

abbrev pub http_status : ℕ → String → String → HttpStatus
http_status n s t = record { status = n; status_s = bytes_of s; status_t = bytes_of t }

abbrev pub http_continue : HttpStatus
http_continue = http_status 100 "100" "Continue"

abbrev pub http_switching_protocol : HttpStatus
http_switching_protocol = http_status 101 "101" "Switching Protocol"

abbrev pub http_ok : HttpStatus
http_ok = http_status 200 "200" "OK"

abbrev pub http_created : HttpStatus
http_created = http_status 201 "201" "Created"

abbrev pub http_accepted : HttpStatus
http_accepted = http_status 202 "202" "Accepted"

abbrev pub http_non_authoritative_information : HttpStatus
http_non_authoritative_information = http_status 203 "203" "Non Authoritative Information"

abbrev pub http_no_content : HttpStatus
http_no_content = http_status 204 "204" "No Content"

abbrev pub http_reset_content : HttpStatus
http_reset_content = http_status 205 "205" "Reset Content"

abbrev pub http_partial_content : HttpStatus
http_partial_content = http_status 206 "206" "Partial Content"

abbrev pub http_multiple_choices : HttpStatus
http_multiple_choices = http_status 300 "300" "Multiple Choices"

abbrev pub http_moved_permannetly : HttpStatus
http_moved_permannetly = http_status 301 "301" "Moved Permannetly"

abbrev pub http_found : HttpStatus
http_found = http_status 302 "302" "Found"

abbrev pub http_see_other : HttpStatus
http_see_other = http_status 303 "303" "See Other"

abbrev pub http_not_modified : HttpStatus
http_not_modified = http_status 304 "304" "Not Modified"

abbrev pub http_use_proxy : HttpStatus
http_use_proxy = http_status 305 "305" "Use Proxy"

abbrev pub http_temporary_redirect : HttpStatus
http_temporary_redirect = http_status 307 "307" "Temporary Redirect"

abbrev pub http_bad_request : HttpStatus
http_bad_request = http_status 400 "400" "Bad Request"

abbrev pub http_unauthorized : HttpStatus
http_unauthorized = http_status 401 "401" "Unauthorized"

abbrev pub http_payment_required : HttpStatus
http_payment_required = http_status 402 "402" "Payment Required"

abbrev pub http_forbidden : HttpStatus
http_forbidden = http_status 403 "403" "Forbidden"

abbrev pub http_not_found : HttpStatus
http_not_found = http_status 404 "404" "Not Found"

abbrev pub http_method_not_allowed : HttpStatus
http_method_not_allowed = http_status 405 "405" "Method Not Allowed"

abbrev pub http_not_acceptable : HttpStatus
http_not_acceptable = http_status 406 "406" "Not Acceptable"

abbrev pub http_proxy_authentication_required : HttpStatus
http_proxy_authentication_required = http_status 407 "407" "Proxy Authentication Required"

abbrev pub http_request_timeout : HttpStatus
http_request_timeout = http_status 408 "408" "Request Timeout"

abbrev pub http_conflict : HttpStatus
http_conflict = http_status 409 "409" "Conflict"

abbrev pub http_gone : HttpStatus
http_gone = http_status 410 "410" "Gone"

abbrev pub http_length_required : HttpStatus
http_length_required = http_status 411 "411" "Length Request"

abbrev pub http_precondition_failed : HttpStatus
http_precondition_failed = http_status 412 "412" "Precondition Failed"

abbrev pub http_request_entity_too_large : HttpStatus
http_request_entity_too_large = http_status 413 "413" "Request Entity Too Large"

abbrev pub http_uri_too_long : HttpStatus
http_uri_too_long = http_status 414 "414" "Request URI Too Long"

abbrev pub http_unsupported_media_type : HttpStatus
http_unsupported_media_type = http_status 415 "415" "Unsupported Media Type"

abbrev pub http_requested_range_not_satisfiable : HttpStatus
http_requested_range_not_satisfiable = http_status 416 "416" "Requested Range Not Satisfiable"

abbrev pub http_expectation_failed : HttpStatus
http_expectation_failed = http_status 417 "417" "Expectation Failed"

abbrev pub http_internal_server_error : HttpStatus
http_internal_server_error = http_status 500 "500" "Internal Server Error"

abbrev pub http_not_implemented : HttpStatus
http_not_implemented = http_status 501 "501" "Not Implemented"

abbrev pub http_bad_gateway : HttpStatus
http_bad_gateway = http_status 502 "502" "Bad Gateway"

abbrev pub http_service_unavailable : HttpStatus
http_service_unavailable = http_status 503 "503" "Service Unavailable"

abbrev pub http_gateway_timeout : HttpStatus
http_gateway_timeout = http_status 504 "504" "Gateway Timeout"

abbrev pub http_version_not_supported : HttpStatus
http_version_not_supported = http_status 505 "505" "HTTP Version Not Supported"
