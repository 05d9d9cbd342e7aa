-- ===== src/Http/HeaderLine.antt =====
-- The header-line steps of `ParseHttpBuffer` in src/fasterhttp.c: HEADER_NAME0 to HEADER_VALUE.
use hetao.Base.{ℕ, ◌+◌, ◌-◌, Bool, true, false, some, ltb, leb, ◌==◌, if◌then◌else◌, get_or, modify}
use hetao.Base.Int.{pos, ltb_ℤ}
use hetao.Http.Scan.{
  Next, jump, stop, find, need_more, newline, carriage_return, not_space, colon_or_newline,
  name_end,
}
use hetao.Http.StartLine.{begin_field, with_headers}
use hetao.Http.Types.{
  HttpBuffer, BufferName, HttpHeader, zero_header, head, HttpHeaders, header_name, header_value0,
  header_value, body, chunked_size, done, HttpEnv, success, need_more_http_buffer,
  error_http_header_invalid,
}

-- `p_header`, the element of `header_array` at `header_array_count`
abbrev pub p_header : HttpHeaders → HttpHeader
p_header h = get_or h.header_array h.header_array_count zero_header

abbrev pub with_p_header : HttpHeaders → HttpHeader → HttpHeaders
with_p_header h f = record h { header_array = modify h.header_array h.header_array_count (λ _. f) }

-- `b->process_ptr = p ; *(p_parse_step) = FASTERHTTP_PARSESTEP_DONE ; return 0`
abbrev pub finish : HttpBuffer → HttpEnv → ℕ → Next
finish b e p = stop (record b { process_ptr = p }) (record e { parse_step = done }) success

-- ... with `if( b->fill_ptr > b->process_ptr ) e->reforming_flag = 1`
abbrev pub finish_reforming : HttpBuffer → HttpEnv → ℕ → Next
finish_reforming b e p =
    finish b (record e { reforming_flag = if ltb p b.fill_ptr then true else e.reforming_flag }) p

-- The macro `_IF_THEN_GO_PARSING_BODY`, with `is_head` for `method == HTTP_METHOD_HEAD_N`.
unfoldable pub go_parsing_body : Bool → BufferName → HttpBuffer → HttpEnv → ℕ → Next
go_parsing_body is_head name b e p =
    if is_head
    then finish b e p
    else if ltb_ℤ (pos 0) e.headers.content_length
    then jump b (record e { p_body_buffer = some name; body_base_offset = p; parse_step = body }) p
    else if e.headers.transfer_encoding_chunked
    then jump b
        (record e {
          p_body_buffer = some name;
          body_base_offset = p;
          chunked_body_end = p;
          parse_step = chunked_size;
        })
        p
    else finish b e p

abbrev pub is_head : HttpHeaders → Bool
is_head h = elim h.method [ head ↦ true | _ ↦ false ]

-- At a carriage return in the last byte received, `process_ptr` is not written.
unfoldable pub step_header_name0 : BufferName → HttpBuffer → HttpEnv → ℕ → Next
step_header_name0 name b e p =
    let q = find not_space b p in
    let h = e.headers in
    if leb b.fill_ptr q
    then need_more b e q
    else if b.base q == carriage_return
    then if leb b.fill_ptr (q + 1)
      then stop b e need_more_http_buffer
      else go_parsing_body (is_head h) name b e (if b.base (q + 1) == newline then q + 2 else q + 1)
    else if b.base q == newline
    then go_parsing_body (is_head h) name b e (q + 1)
    else jump b
        (with_headers e header_name
          (with_p_header h (record (p_header h) { p_buffer = some name; name_offset = q })))
        (q + 1)

-- The second walk reads `*p` before it looks whether `p` is still inside the buffer's data.
unfoldable pub step_header_name : HttpBuffer → HttpEnv → ℕ → Next
step_header_name b e p =
    let h = e.headers in
    let q = find name_end b p in
    let named = record e {
      headers = with_p_header h (record (p_header h) { name_len = q - (p_header h).name_offset });
    } in
    let r = find colon_or_newline b q in
    if leb b.fill_ptr q
    then need_more b e q
    else if b.base q == newline
    then stop b e error_http_header_invalid
    else if b.base r == newline
    then stop b named error_http_header_invalid
    else if leb b.fill_ptr r
    then need_more b named r
    else jump b (record named { parse_step = header_value0 }) (r + 1)

unfoldable pub step_header_value0 : HttpBuffer → HttpEnv → ℕ → Next
step_header_value0 b e p =
    let h = e.headers in
    begin_field error_http_header_invalid
      (λ q.
        with_headers e header_value (with_p_header h (record (p_header h) { value_offset = q })))
      b e p
