-- ===== src/Http/Response/Examples.antt =====
-- Tests of FormatHttpResponseStartLine (src/fasterhttp.c) and an instance of the theorem on the
-- table of status lines.
use hetao.Base.{ℕ, ◌≡◌, refl, Bool, true, false, Option, none, some, List, arith}
use hetao.Base.Int.{ℤ, pos}
use hetao.Http.Environment.{Environment, zero_buffer, zero_headers, begun_parser, zero_env}
use hetao.Http.Parse.Runs.{filled}
use hetao.Http.Response.{
  switch_cases, StatusTable, zero_statuses, reset_all_http_status, null_texts, texts_of,
  get_http_status, find_status, default_status, case_of, Formatted, formatted,
  format_http_response_start_line,
}
use hetao.Http.Response.Statuses.{entry_or, get_http_status-cases}
use hetao.Http.Status.{bytes_of}
use hetao.Http.Transport.{bytes_from}
use hetao.Http.Types.{request_buffer, zero_header, version_1_1, success}

abbrev asked : Environment
asked = record zero_env {
  request = filled "GET / HTTP/1.1" 14;
  response = record zero_buffer { buf_size = 1024; base_null = false };
  parser = record (begun_parser false (zero_headers 8)) {
    headers = record (zero_headers 8) {
      version = version_1_1;
      version_header = record zero_header {
        p_buffer = some request_buffer;
        value_offset = 6;
        value_len = pos 8;
      };
    };
  };
}

abbrev response_text : Formatted → Option (List ℕ)
response_text (formatted v success) = some (bytes_from v.response.base 0 v.response.fill_ptr)
response_text f = none

abbrev format_status : ℤ → Bool → Option (List ℕ) → Option (List ℕ)
format_status n fill extra = elim (reset_all_http_status false zero_statuses) [
  | none ↦ none
  | some table ↦
      response_text (format_http_response_start_line (λ _. true) table n asked fill extra)
]

not_found_body :
    format_status (pos 404) true none
    ≡ some (
        bytes_of
          "HTTP/1.1 404 Not Found\r\nConnection: keep-alive\r\nContent-length: 9\r\n\r\nNot Found")
unfolding format_http_response_start_line reset_all_http_status
not_found_body = refl

extra_line :
    format_status (pos 200) false (some (bytes_of "Server: x\r\n"))
    ≡ some (bytes_of "HTTP/1.1 200 OK\r\nConnection: keep-alive\r\nServer: x\r\n")
unfolding format_http_response_start_line reset_all_http_status
extra_line = refl

-- A code without a case gets the line of 500, and no text for its body: undefined behaviour.
unknown_status :
    (format_status (pos 418) false none
      ≡ some (bytes_of "HTTP/1.1 500 Internal Server Error\r\nConnection: keep-alive\r\n"))
    × (format_status (pos 418) true none ≡ none)
unfolding format_http_response_start_line reset_all_http_status
unknown_status = (refl, refl)

get_http_status-cases_example :
    (table : StatusTable) × (reset_all_http_status false zero_statuses ≡ some table)
    × (get_http_status table 404 ≡ texts_of (entry_or (find_status switch_cases 404) none))
    × (get_http_status table 404 ≡ null_texts
        → case_of (find_status switch_cases 404) ≡ default_status)
get_http_status-cases_example = get_http_status-cases 404 (omega arith)
