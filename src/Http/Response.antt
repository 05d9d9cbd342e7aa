-- ===== src/Http/Response.antt =====
-- The status lines of src/fasterhttp.h and src/fasterhttp.c: SetHttpStatus, GetHttpStatus,
-- ResetAllHttpStatus and FormatHttpResponseStartLine.
pub mod Statuses
pub mod Examples
use hetao.Base.{
  ℕ, zero, suc, ◌+◌, ◌/◌, ◌%◌, Bool, true, false, Option, none, some, List, [], ◌∷◌, ◌++◌, ltb, leb,
  ◌==◌, if◌then◌else◌, length,
}
use hetao.Base.Int.{ℤ, pos, pos_part}
use hetao.Http.Buffer.{
  Result, returned, undefined_result, overrun, endless, realloc_http_buffer, on_success, make_room,
  strcat_http_buffer, print_loop, strcatf_http_buffer, strcatv_http_buffer, strcpyf_loop,
  strcpyf_http_buffer,
}
use hetao.Http.Environment.{Environment, when_some}
use hetao.Http.KeepAlive.{check_http_keep_alive}
use hetao.Http.SplitUri.{printed}
use hetao.Http.Status.{
  bytes_of, HttpStatus, http_continue, http_switching_protocol, http_ok, http_created,
  http_accepted, http_non_authoritative_information, http_no_content, http_reset_content,
  http_partial_content, http_multiple_choices, http_moved_permannetly, http_found, http_see_other,
  http_not_modified, http_use_proxy, http_temporary_redirect, http_bad_request, http_unauthorized,
  http_payment_required, http_forbidden, http_not_found, http_method_not_allowed,
  http_not_acceptable, http_proxy_authentication_required, http_request_timeout, http_conflict,
  http_gone, http_length_required, http_precondition_failed, http_request_entity_too_large,
  http_uri_too_long, http_unsupported_media_type, http_requested_range_not_satisfiable,
  http_expectation_failed, http_internal_server_error, http_not_implemented, http_bad_gateway,
  http_service_unavailable, http_gateway_timeout, http_version_not_supported,
}
use hetao.Http.Transport.Send.{buffer_at}
use hetao.Http.Types.{HttpBuffer, BufferName, other_buffer, Code, success, failure}
use Prim.Native.Char.{code}
use Prim.Native.String.{String}

-- The calls of SetHttpStatus in ResetAllHttpStatus, in their order.
abbrev pub set_statuses : List HttpStatus
set_statuses =
    http_continue ∷ http_switching_protocol ∷ http_ok ∷ http_created ∷ http_accepted
    ∷ http_non_authoritative_information ∷ http_no_content ∷ http_reset_content
    ∷ http_partial_content ∷ http_multiple_choices ∷ http_moved_permannetly ∷ http_found
    ∷ http_see_other ∷ http_not_modified ∷ http_use_proxy ∷ http_temporary_redirect
    ∷ http_bad_request ∷ http_unauthorized ∷ http_payment_required ∷ http_forbidden ∷ http_not_found
    ∷ http_method_not_allowed ∷ http_not_acceptable ∷ http_proxy_authentication_required
    ∷ http_request_timeout ∷ http_conflict ∷ http_gone ∷ http_length_required
    ∷ http_precondition_failed ∷ http_request_entity_too_large ∷ http_uri_too_long
    ∷ http_unsupported_media_type ∷ http_requested_range_not_satisfiable ∷ http_expectation_failed
    ∷ http_internal_server_error ∷ http_not_implemented ∷ http_bad_gateway
    ∷ http_service_unavailable ∷ http_gateway_timeout ∷ http_version_not_supported ∷ []

-- The cases of the `switch` in FormatHttpResponseStartLine, in their order: the code and the texts
-- that are printed.
abbrev pub switch_cases : List HttpStatus
switch_cases =
    http_continue ∷ http_switching_protocol ∷ http_ok ∷ http_created ∷ http_accepted
    ∷ http_non_authoritative_information ∷ http_no_content ∷ http_reset_content
    ∷ http_partial_content ∷ http_multiple_choices ∷ http_moved_permannetly ∷ http_found
    ∷ http_see_other ∷ http_not_modified ∷ http_use_proxy ∷ http_temporary_redirect
    ∷ http_bad_request ∷ http_unauthorized ∷ http_payment_required ∷ http_forbidden ∷ http_not_found
    ∷ http_method_not_allowed ∷ http_not_acceptable ∷ http_proxy_authentication_required
    ∷ http_request_timeout ∷ http_conflict ∷ http_gone ∷ http_length_required
    ∷ http_precondition_failed ∷ http_request_entity_too_large ∷ http_uri_too_long
    ∷ http_unsupported_media_type ∷ http_requested_range_not_satisfiable ∷ http_expectation_failed
    ∷ http_internal_server_error ∷ http_not_implemented ∷ http_bad_gateway
    ∷ http_service_unavailable ∷ http_gateway_timeout ∷ http_version_not_supported ∷ []

-- `g_httpstatus_array`; `none` is an entry with NULL pointers.
abbrev pub StatusTable : Type 0
StatusTable = ℕ → Option (List ℕ × List ℕ)

-- The array has 506 elements: `none` is a write outside it.
unfoldable pub set_http_status : StatusTable → HttpStatus → Option StatusTable
set_http_status table x =
    if ltb 505 x.status
    then none
    else some (λ n. if n == x.status then some (x.status_s, x.status_t) else table n)

abbrev pub set_all : StatusTable → List HttpStatus → Option StatusTable
set_all table [] = some table
set_all table (x ∷ xs) = when_some (set_http_status table x) (λ t. set_all t xs)

abbrev pub zero_statuses : StatusTable
zero_statuses n = none

-- `inited` is `g_init_httpstatus`.
unfoldable pub reset_all_http_status : Bool → StatusTable → Option StatusTable
unfolding set_http_status
reset_all_http_status inited table = if inited then some table else set_all table set_statuses

-- What `GetHttpStatus` reads: texts, NULL pointers, or memory outside the array.
pub data StatusTexts : Type 0 where
  texts : List ℕ → List ℕ → StatusTexts
  null_texts outside_table : StatusTexts

abbrev pub texts_of : Option (List ℕ × List ℕ) → StatusTexts
texts_of none = null_texts
texts_of (some (s, t)) = texts s t

unfoldable pub get_http_status : StatusTable → ℕ → StatusTexts
get_http_status table n = if ltb 505 n then outside_table else texts_of (table n)

-- The `switch` over the status codes: the case of a code, and the default's.
unfoldable pub find_status : List HttpStatus → ℕ → Option HttpStatus
find_status [] n = none
find_status (x ∷ xs) n = let rest = find_status xs n in if n == x.status then some x else rest

abbrev pub default_status : HttpStatus
default_status = http_internal_server_error

abbrev pub case_of : Option HttpStatus → HttpStatus
case_of none = default_status
case_of (some x) = x

abbrev pub line_end_text : List ℕ
line_end_text = b'\r' ∷ b'\n' ∷ []

abbrev pub status_line : HttpStatus → List ℕ
status_line x = b' ' ∷ (x.status_s ++ b' ' ∷ (x.status_t ++ line_end_text))

-- `%d` of a number, with at most `k` digits.
abbrev pub decimal : ℕ → ℕ → List ℕ
decimal zero n = []
decimal (suc k) n =
    let front = decimal k (n / 10) in (if ltb n 10 then [] else front) ++ (b'0' + n % 10) ∷ []

abbrev pub status_body : List ℕ → List ℕ
status_body t =
    bytes_of "Content-length: "
    ++ (decimal 10 (length t) ++ (line_end_text ++ (line_end_text ++ t)))

-- `GetHttpHeaderPtr_VERSION` and what `%.*s` prints of it; `none` is NULL.
abbrev pub version_in : Environment → Option BufferName → Option (List ℕ)
version_in v none = none
version_in v (some name) =
    let h = v.parser.headers.version_header in
    some (printed (buffer_at name v).base h.value_offset (pos_part h.value_len))

pub data Formatted : Type 0 where
  formatted : Environment → Code → Formatted
  format_undefined : Formatted
  format_endless : Formatted

abbrev pub with_status_code : Environment → Environment
with_status_code v = record v {
  parser = record v.parser {
    headers = record v.parser.headers {
      statuscode_header = record v.parser.headers.statuscode_header {
        p_buffer = some other_buffer;
        value_offset = 0;
        value_len = pos 3;
      };
    };
  };
}

abbrev pub with_response : Environment → Result → (Environment → Formatted) → Formatted
with_response v (returned b success) go_on = go_on (record v { response = b })
with_response v (returned b c) go_on = formatted (record v { response = b }) c
with_response v undefined_result go_on = format_undefined
with_response v overrun go_on = format_undefined
with_response v endless go_on = format_endless

-- The end of FormatHttpResponseStartLine; `strlen(NULL)` is undefined.
abbrev pub fill_body : (ℕ → Bool) → Bool → Environment → StatusTexts → Formatted
fill_body malloc_succeeds fill v outside_table = format_undefined
fill_body malloc_succeeds false v null_texts = formatted (with_status_code v) success
fill_body malloc_succeeds true v null_texts = format_undefined
fill_body malloc_succeeds false v (texts s t) = formatted (with_status_code v) success
fill_body malloc_succeeds true v (texts s t) =
    with_response (with_status_code v)
      (strcatf_http_buffer malloc_succeeds v.response (status_body t)) (λ w. formatted w success)

-- `extra` is what the format and its arguments print, `none` a NULL format.
abbrev pub add_extra : (ℕ → Bool) → Option (List ℕ) → HttpBuffer → Result
add_extra malloc_succeeds none b = returned b success
add_extra malloc_succeeds (some text) b = strcatv_http_buffer malloc_succeeds b text

abbrev pub add_lines : (ℕ → Bool) → Bool → Option (List ℕ) → HttpBuffer → Result
add_lines malloc_succeeds keep_alive extra b =
    on_success
      (if keep_alive
        then strcat_http_buffer malloc_succeeds b (bytes_of "Connection: keep-alive\r\n")
        else returned b success)
      (λ c. add_extra malloc_succeeds extra c)

abbrev pub format_with :
    (ℕ → Bool)
    → StatusTable
    → ℕ
    → Environment
    → Bool
    → Option (List ℕ)
    → Option (List ℕ)
    → Formatted
format_with malloc_succeeds table n v fill extra none = formatted v failure
format_with malloc_succeeds table n v fill extra (some version) =
    with_response v
      (on_success (strcpyf_http_buffer malloc_succeeds v.response version) (λ b.
        on_success
          (strcatf_http_buffer malloc_succeeds b
            (status_line (case_of (find_status switch_cases n))))
          (add_lines malloc_succeeds (check_http_keep_alive v.parser) extra)))
      (λ w. fill_body malloc_succeeds fill w (get_http_status table n))

-- `version_len` is not below 0: the parser writes it.
unfoldable pub format_http_response_start_line :
    (ℕ → Bool) → StatusTable → ℤ → Environment → Bool → Option (List ℕ) → Formatted
unfolding find_status get_http_status strcpyf_http_buffer strcpyf_loop strcatf_http_buffer
    strcatv_http_buffer strcat_http_buffer print_loop make_room realloc_http_buffer
    check_http_keep_alive printed
format_http_response_start_line malloc_succeeds table status_code v fill extra =
    format_with malloc_succeeds table
      (if leb (pos_part status_code) 0 then 500 else pos_part status_code) v fill extra
      (version_in v v.parser.headers.version_header.p_buffer)
