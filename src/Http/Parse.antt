-- ===== src/Http/Parse.antt =====
-- `ParseHttpBuffer`, `ParseHttpRequest` and `ParseHttpResponse` of src/fasterhttp.c: the switch over
-- the steps.
pub mod Alike
pub mod RequestLine
pub mod Resume
pub mod Recorded
pub mod ResumeExample
pub mod LineExample
pub mod StatusLine
pub mod StatusExample
pub mod Runs
pub mod Total
pub mod Within
pub mod Rounds
use hetao.Base.{ℕ, zero, suc, ◌+◌, ◌*◌, Bool}
use hetao.Http.Body.{
  step_body, add_size_digit, read_size, end_size, after_size, step_chunked_size, step_chunked_data,
}
use hetao.Http.HeaderLine.{go_parsing_body, step_header_name0, step_header_name, step_header_value0}
use hetao.Http.HeaderValue.{
  trimmed, read_header, is_trailer, next_header, after_header, store_header, end_header,
  step_header_value,
}
use hetao.Http.Scan.{Next, jump, stop, undefined, scan, find}
use hetao.Http.StartLine.{
  begin_field, end_field, end_line, method_of, version_of, step_method0, accept_method, step_method,
  step_uri0, step_uri, step_version0, accept_version, step_request_version, step_response_version,
  step_statuscode0, step_statuscode, step_reasonphrase0, step_reasonphrase,
}
use hetao.Http.Types.{
  HttpBuffer, BufferName, request_buffer, response_buffer, other_buffer, ParseStep, begin,
  request_method0, request_method, request_uri0, request_uri, request_version0, request_version,
  response_version0, response_version, response_statuscode0, response_statuscode,
  response_reasonphrase0, response_reasonphrase, header_name0, header_name, header_value0,
  header_value, body, chunked_size, chunked_data, done, HttpEnv, Code, success, error_paramter,
}

-- How a call ends. Each `case` that goes on is a round; `out_of_fuel` means that the rounds given
-- did not suffice.
pub data Outcome : Type 0 where
  returns : HttpBuffer → HttpEnv → Code → Outcome
  undefined_behaviour : Outcome
  out_of_fuel : Outcome

unfoldable pub dispatch : (ℕ → Bool) → BufferName → ParseStep → HttpBuffer → HttpEnv → ℕ → Next
dispatch realloc_succeeds name begin b e p = stop b e error_paramter
dispatch realloc_succeeds name request_method0 b e p = step_method0 name b e p
dispatch realloc_succeeds name request_method b e p = step_method b e p
dispatch realloc_succeeds name request_uri0 b e p = step_uri0 name b e p
dispatch realloc_succeeds name request_uri b e p = step_uri b e p
dispatch realloc_succeeds name request_version0 b e p = step_version0 request_version name b e p
dispatch realloc_succeeds name request_version b e p = step_request_version b e p
dispatch realloc_succeeds name response_version0 b e p = step_version0 response_version name b e p
dispatch realloc_succeeds name response_version b e p = step_response_version b e p
dispatch realloc_succeeds name response_statuscode0 b e p = step_statuscode0 name b e p
dispatch realloc_succeeds name response_statuscode b e p = step_statuscode b e p
dispatch realloc_succeeds name response_reasonphrase0 b e p = step_reasonphrase0 name b e p
dispatch realloc_succeeds name response_reasonphrase b e p = step_reasonphrase b e p
dispatch realloc_succeeds name header_name0 b e p = step_header_name0 name b e p
dispatch realloc_succeeds name header_name b e p = step_header_name b e p
dispatch realloc_succeeds name header_value0 b e p = step_header_value0 b e p
dispatch realloc_succeeds name header_value b e p = step_header_value realloc_succeeds name b e p
dispatch realloc_succeeds name body b e p = step_body b e
dispatch realloc_succeeds name chunked_size b e p = step_chunked_size b e p
dispatch realloc_succeeds name chunked_data b e p = step_chunked_data b e
dispatch realloc_succeeds name done b e p = stop b e success

-- What a round leads to, where `go_on` is the rest of the loop.
abbrev pub after_round : (HttpBuffer → HttpEnv → ℕ → Outcome) → Next → Outcome
after_round go_on (jump b e p) = go_on b e p
after_round go_on (stop b e c) = returns b e c
after_round go_on undefined = undefined_behaviour

unfoldable pub run : (ℕ → Bool) → BufferName → ℕ → HttpBuffer → HttpEnv → ℕ → Outcome
run realloc_succeeds name zero b e p = out_of_fuel
run realloc_succeeds name (suc k) b e p =
    after_round (run realloc_succeeds name k) (dispatch realloc_succeeds name e.parse_step b e p)

-- `FASTERHTTP_PARSESTEP_BEGIN` becomes the first step of a request or of a response. For another
-- buffer it stays, and `dispatch` returns FASTERHTTP_ERROR_PARAMTER.
abbrev pub first_step : BufferName → ParseStep → ParseStep
first_step request_buffer begin = request_method0
first_step response_buffer begin = response_version0
first_step other_buffer begin = begin
first_step _ s = s

abbrev pub enter : BufferName → HttpEnv → HttpEnv
enter name e = record e { parse_step = first_step name e.parse_step }

-- The rounds given: two for each byte received, and two more.
unfoldable pub parse_http_buffer : (ℕ → Bool) → BufferName → HttpBuffer → HttpEnv → Outcome
unfolding run dispatch find scan begin_field end_field end_line step_method0 step_method step_uri0
    step_uri step_version0 step_request_version step_response_version step_statuscode0
    step_statuscode step_reasonphrase0 step_reasonphrase accept_method method_of accept_version
    version_of step_header_name0 step_header_name step_header_value0 step_header_value
    go_parsing_body end_header after_header is_trailer next_header store_header read_header trimmed
    step_body step_chunked_size read_size add_size_digit after_size end_size step_chunked_data
parse_http_buffer realloc_succeeds name b e =
    run realloc_succeeds name (2 * b.fill_ptr + 2) b (enter name e) b.process_ptr
