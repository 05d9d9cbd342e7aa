-- ===== src/Http/StartLine.antt =====
-- The start-line steps of `ParseHttpBuffer` in src/fasterhttp.c: METHOD0 to REASONPHRASE.
pub mod Fields
use hetao.Base.{ℕ, ◌+◌, ◌-◌, Option, none, some, [], ◌∷◌, leb, ◌==◌, if◌then◌else◌}
use hetao.Base.Int.{pos}
use hetao.Http.Scan.{
  Next, jump, stop, find, need_more, newline, carriage_return, is_newline, not_space,
  space_or_newline, bytes_are,
}
use hetao.Http.Types.{
  Memory, HttpBuffer, BufferName, HttpHeader, Method, get, post, head, trace, options, put, delete,
  Version, version_1_0, version_1_1, HttpHeaders, ParseStep, request_method, request_uri0,
  request_uri, request_version0, response_statuscode0, response_statuscode, response_reasonphrase0,
  response_reasonphrase, header_name0, HttpEnv, Code, error_method_invalid,
  error_version_not_supported, error_http_headerstartline_invalid,
}

-- The `...0` steps: skip spaces; a newline is refused; else a field begins here. `begun` records
-- the offset and the next step.
unfoldable pub begin_field : Code → (ℕ → HttpEnv) → HttpBuffer → HttpEnv → ℕ → Next
begin_field refusal begun b e p =
    let q = find not_space b p in
    if leb b.fill_ptr q
    then need_more b e q
    else if b.base q == newline
    then stop b e refusal
    else jump b (begun q) (q + 1)

-- The steps that a space ends: a newline before it is refused. `ended` goes on at the space.
unfoldable pub end_field : (ℕ → Next) → HttpBuffer → HttpEnv → ℕ → Next
end_field ended b e p =
    let q = find space_or_newline b p in
    if leb b.fill_ptr q
    then need_more b e q
    else if b.base q == newline
    then stop b e error_http_headerstartline_invalid
    else ended q

-- The steps that the line's end ends.
unfoldable pub end_line : (ℕ → Next) → HttpBuffer → HttpEnv → ℕ → Next
end_line ended b e p =
    let q = find is_newline b p in if leb b.fill_ptr q then need_more b e q else ended q

-- `p_buffer = b ; value_offset = p - b->base`
abbrev pub begin_value : BufferName → ℕ → HttpHeader → HttpHeader
begin_value name q h = record h { p_buffer = some name; value_offset = q }

-- `value_len = p - (b->base+value_offset)`
abbrev pub end_value : ℕ → HttpHeader → HttpHeader
end_value q h = record h { value_len = pos (q - h.value_offset) }

unfoldable pub method_of : Memory → ℕ → ℕ → Option Method
unfolding bytes_are
method_of base p len =
    if len == 3
    then if bytes_are base p (b'G' ∷ b'E' ∷ b'T' ∷ [])
      then some get
      else if bytes_are base p (b'P' ∷ b'U' ∷ b'T' ∷ [])
      then some put
      else none
    else if len == 4
    then if bytes_are base p (b'P' ∷ b'O' ∷ b'S' ∷ b'T' ∷ [])
      then some post
      else if bytes_are base p (b'H' ∷ b'E' ∷ b'A' ∷ b'D' ∷ [])
      then some head
      else none
    else if len == 5
    then if bytes_are base p (b'T' ∷ b'R' ∷ b'A' ∷ b'C' ∷ b'E' ∷ []) then some trace else none
    else if len == 6
    then if bytes_are base p (b'D' ∷ b'E' ∷ b'L' ∷ b'E' ∷ b'T' ∷ b'E' ∷ [])
      then some delete
      else none
    else if len == 7
    then if bytes_are base p (b'O' ∷ b'P' ∷ b'T' ∷ b'I' ∷ b'O' ∷ b'N' ∷ b'S' ∷ [])
      then some options
      else none
    else none

-- The test of the version: `none` is FASTERHTTP_ERROR_VERSION_NOT_SUPPORTED. Eight bytes with
-- another prefix than `HTTP/1.` pass, and leave the version as it is.
unfoldable pub version_of : Memory → ℕ → ℕ → Version → Option Version
unfolding bytes_are
version_of base p len old =
    if len == 8
    then if bytes_are base p (b'H' ∷ b'T' ∷ b'T' ∷ b'P' ∷ b'/' ∷ b'1' ∷ b'.' ∷ [])
      then if base (p + 7) == b'0'
        then some version_1_0
        else if base (p + 7) == b'1'
        then some version_1_1
        else none
      else some old
    else none

abbrev pub with_headers : HttpEnv → ParseStep → HttpHeaders → HttpEnv
with_headers e s h = record e { parse_step = s; headers = h }

unfoldable pub step_method0 : BufferName → HttpBuffer → HttpEnv → ℕ → Next
step_method0 name b e p =
    let h = e.headers in
    begin_field error_http_headerstartline_invalid
      (λ q.
        with_headers e request_method
          (record h { method_header = begin_value name q h.method_header }))
      b e p

-- An unknown method is refused after `value_len` is written.
abbrev pub with_method : HttpBuffer → HttpEnv → ℕ → HttpHeaders → Option Method → Next
with_method b e q h none = stop b (record e { headers = h }) error_method_invalid
with_method b e q h (some m) =
    jump b (with_headers e request_uri0 (record h { method = m })) (q + 1)

unfoldable pub accept_method : HttpBuffer → HttpEnv → ℕ → HttpHeaders → Next
accept_method b e q h =
    let off = h.method_header.value_offset in with_method b e q h (method_of b.base off (q - off))

unfoldable pub step_method : HttpBuffer → HttpEnv → ℕ → Next
step_method b e p =
    let h = e.headers in
    end_field (λ q. accept_method b e q (record h { method_header = end_value q h.method_header }))
      b e p

unfoldable pub step_uri0 : BufferName → HttpBuffer → HttpEnv → ℕ → Next
step_uri0 name b e p =
    let h = e.headers in
    begin_field error_http_headerstartline_invalid
      (λ q. with_headers e request_uri (record h { uri_header = begin_value name q h.uri_header }))
      b e p

unfoldable pub step_uri : HttpBuffer → HttpEnv → ℕ → Next
step_uri b e p =
    let h = e.headers in
    end_field
      (λ q.
        jump b
          (with_headers e request_version0 (record h { uri_header = end_value q h.uri_header }))
          (q + 1))
      b e p

unfoldable pub step_version0 : ParseStep → BufferName → HttpBuffer → HttpEnv → ℕ → Next
step_version0 next name b e p =
    let h = e.headers in
    begin_field error_http_headerstartline_invalid
      (λ q. with_headers e next (record h { version_header = begin_value name q h.version_header }))
      b e p

-- An unknown version is refused after `value_len` is written; `len` is that `value_len`.
abbrev pub with_version : ParseStep → HttpBuffer → HttpEnv → ℕ → HttpHeaders → Option Version → Next
with_version next b e q h none = stop b (record e { headers = h }) error_version_not_supported
with_version next b e q h (some v) = jump b (with_headers e next (record h { version = v })) (q + 1)

unfoldable pub accept_version : ParseStep → HttpBuffer → HttpEnv → ℕ → ℕ → HttpHeaders → Next
accept_version next b e q len h =
    with_version next b e q h (version_of b.base h.version_header.value_offset len h.version)

abbrev pub line_end : Memory → ℕ → ℕ
line_end base q = if base (q - 1) == carriage_return then q - 1 else q

unfoldable pub step_request_version : HttpBuffer → HttpEnv → ℕ → Next
step_request_version b e p =
    let h = e.headers in
    end_line
      (λ q.
        accept_version header_name0 b e q (line_end b.base q - h.version_header.value_offset)
          (record h { version_header = end_value (line_end b.base q) h.version_header }))
      b e p

unfoldable pub step_response_version : HttpBuffer → HttpEnv → ℕ → Next
step_response_version b e p =
    let h = e.headers in
    end_field
      (λ q.
        accept_version response_statuscode0 b e q (q - h.version_header.value_offset)
          (record h { version_header = end_value q h.version_header }))
      b e p

unfoldable pub step_statuscode0 : BufferName → HttpBuffer → HttpEnv → ℕ → Next
step_statuscode0 name b e p =
    let h = e.headers in
    begin_field error_http_headerstartline_invalid
      (λ q.
        with_headers e response_statuscode
          (record h { statuscode_header = begin_value name q h.statuscode_header }))
      b e p

unfoldable pub step_statuscode : HttpBuffer → HttpEnv → ℕ → Next
step_statuscode b e p =
    let h = e.headers in
    end_field
      (λ q.
        jump b
          (with_headers e response_reasonphrase0
            (record h { statuscode_header = end_value q h.statuscode_header }))
          (q + 1))
      b e p

unfoldable pub step_reasonphrase0 : BufferName → HttpBuffer → HttpEnv → ℕ → Next
step_reasonphrase0 name b e p =
    let h = e.headers in
    begin_field error_http_headerstartline_invalid
      (λ q.
        with_headers e response_reasonphrase
          (record h { reasonphrase_header = begin_value name q h.reasonphrase_header }))
      b e p

unfoldable pub step_reasonphrase : HttpBuffer → HttpEnv → ℕ → Next
step_reasonphrase b e p =
    let h = e.headers in
    end_line
      (λ q.
        jump b
          (with_headers e header_name0 (record h {
            reasonphrase_header = end_value (line_end b.base q) h.reasonphrase_header;
          }))
          (q + 1))
      b e p
