-- ===== src/Http/Environment.antt =====
-- `struct HttpEnv` of src/fasterhttp.c as a whole, and the functions that create it, set its
-- timeout and make it ready for the next message.
pub mod Examples
pub mod Reset
use hetao.Base.{
  ℕ, ◌-◌, ◌*◌, Bool, true, false, not, ◌&&◌, Option, none, some, ltb, leb, ◌==◌, if◌then◌else◌,
  replicate,
}
use hetao.Base.Int.{ℤ, pos, neg_part}
use hetao.Http.Buffer.{
  Result, returned, undefined_result, overrun, endless, init_http_buffer, reforming_http_buffer,
  reset_http_buffer, realloc_http_buffer,
}
use hetao.Http.Types.{
  HttpBuffer, HttpHeader, zero_header, no_method, no_version, HttpHeaders, begin, HttpEnv, success,
}

pub record Timeval : Type 0 where
  pub tv_sec : ℤ
  pub tv_usec : ℤ

-- The fields of `struct HttpEnv`; those that the parser works on are `parser`. `wait_limited` says
-- that `p_timeout` is `& (e->timeout)`, not NULL. The buffer behind `p_append_buffer` is `append`.
pub record Environment : Type 0 where
  pub init_timeout : ℤ
  pub timeout : Timeval
  pub wait_limited : Bool
  pub enable_response_compressing : ℕ
  pub request : HttpBuffer
  pub response : HttpBuffer
  pub append : Option HttpBuffer
  pub parser : HttpEnv
  pub send_proc_flag : Bool

abbrev pub timeout_default : ℕ
timeout_default = 60

abbrev pub request_bufsize_default : ℕ
request_bufsize_default = 512

abbrev pub response_bufsize_default : ℕ
response_bufsize_default = 1024

abbrev pub header_arraysize_default : ℕ
header_arraysize_default = 8

abbrev pub request_bufsize_max : ℕ
request_bufsize_max = 10 * 1024

abbrev pub response_bufsize_max : ℕ
response_bufsize_max = 100 * 1024

abbrev pub header_arraysize_max : ℕ
header_arraysize_max = 32

unfoldable pub reset_http_timeout : Environment → Environment
reset_http_timeout v =
    if leb (neg_part v.init_timeout) 0
    then record v {
      timeout = record { tv_sec = v.init_timeout; tv_usec = pos 0 };
      wait_limited = true;
    }
    else record v { wait_limited = false }

unfoldable pub set_http_timeout : Environment → ℤ → Environment
unfolding reset_http_timeout
set_http_timeout v seconds = reset_http_timeout (record v { init_timeout = seconds })

unfoldable pub enable_http_response_compressing : Environment → ℕ → Environment
enable_http_response_compressing v flag = record v { enable_response_compressing = flag }

unfoldable pub append_http_buffer : Environment → HttpBuffer → Environment
append_http_buffer v b = record v { append = some b }

-- A `struct HttpBuffer` filled with zeros by `memset`.
abbrev pub zero_buffer : HttpBuffer
zero_buffer = record {
  buf_size = 0;
  base = λ _. 0;
  base_null = true;
  ref_flag = false;
  fill_ptr = 0;
  process_ptr = 0;
}

abbrev pub zero_headers : ℕ → HttpHeaders
zero_headers size = record {
  method_header = zero_header;
  method = no_method;
  uri_header = zero_header;
  version_header = zero_header;
  version = no_version;
  statuscode_header = zero_header;
  reasonphrase_header = zero_header;
  content_length = pos 0;
  transfer_encoding_chunked = false;
  trailer_header = zero_header;
  connection_keepalive = pos 0;
  header_array = replicate size zero_header;
  header_array_size = size;
  header_array_count = 0;
}

abbrev pub begun_parser : Bool → HttpHeaders → HttpEnv
begun_parser reforming h = record {
  reforming_flag = reforming;
  parse_step = begin;
  headers = h;
  p_body_buffer = none;
  body_base_offset = 0;
  chunked_body = 0;
  chunked_body_end = 0;
  chunked_length = 0;
  chunked_length_length = 0;
}

abbrev pub zero_env : Environment
zero_env = record {
  init_timeout = pos 0;
  timeout = record { tv_sec = pos 0; tv_usec = pos 0 };
  wait_limited = false;
  enable_response_compressing = 0;
  request = zero_buffer;
  response = zero_buffer;
  append = none;
  parser = begun_parser false (zero_headers 0);
  send_proc_flag = false;
}

-- What a buffer function of the model returns, on success; `none` is a failed allocation.
abbrev pub buffer_of : Result → Option HttpBuffer
buffer_of (returned b success) = some b
buffer_of r = none

abbrev pub when_some {ℓ κ} : {A : Type ℓ} {B : Type κ} → Option A → (A → Option B) → Option B
when_some none f = none
when_some (some a) f = f a

-- `none` is NULL. `malloc_succeeds n` says whether the allocator finds `n` bytes, or `n` headers;
-- `env_allocated` whether it finds the environment.
unfoldable pub create_http_env : Bool → (ℕ → Bool) → Option Environment
unfolding set_http_timeout init_http_buffer
create_http_env env_allocated malloc_succeeds =
    let v = set_http_timeout zero_env (pos timeout_default) in
    if env_allocated
    then when_some (buffer_of (init_http_buffer malloc_succeeds request_bufsize_default v.request))
        (λ request'.
          when_some
            (buffer_of (init_http_buffer malloc_succeeds response_bufsize_default v.response))
            (λ response'.
              if malloc_succeeds header_arraysize_default
              then some (record v {
                request = request';
                response = response';
                parser = begun_parser false (zero_headers header_arraysize_default);
              })
              else none))
    else none

-- Whether a buffer's data that has not been processed is moved to its front.
abbrev pub is_reformed : Bool → HttpBuffer → Bool
is_reformed reforming b = not b.ref_flag && (ltb b.process_ptr b.fill_ptr && reforming)

abbrev pub reset_buffer : Bool → HttpBuffer → HttpBuffer
reset_buffer reforming b =
    if is_reformed reforming b then reforming_http_buffer b else reset_http_buffer b

-- The buffer that a call of `ReallocHttpBuffer` leaves; its code is not looked at. `none` is
-- undefined behaviour.
abbrev pub buffer_after : Result → Option HttpBuffer
buffer_after (returned b c) = some b
buffer_after undefined_result = none
buffer_after overrun = none
buffer_after endless = none

abbrev pub shrink_buffer : (ℕ → Bool) → Bool → ℕ → HttpBuffer → Option HttpBuffer
shrink_buffer malloc_succeeds too_large size b =
    if too_large then buffer_after (realloc_http_buffer malloc_succeeds b (some size)) else some b

abbrev pub is_large_request : HttpBuffer → Bool
is_large_request b =
    not b.ref_flag
    && (ltb request_bufsize_max b.buf_size && ltb (b.fill_ptr - b.process_ptr) request_bufsize_max)

abbrev pub is_large_response : HttpBuffer → Bool
is_large_response b = not b.ref_flag && ltb response_bufsize_max b.buf_size

-- A field of the start line, or the trailer: its name is left as it is.
abbrev pub reset_header : HttpHeader → HttpHeader
reset_header h = record h { p_buffer = none; value_offset = 0; value_len = pos 0 }

-- `realloc` to the default size where the array is larger than the maximum.
abbrev pub reset_array_size : (ℕ → Bool) → ℕ → ℕ
reset_array_size realloc_succeeds size =
    if ltb header_arraysize_max size && realloc_succeeds header_arraysize_default
    then header_arraysize_default
    else size

abbrev pub reset_headers : (ℕ → Bool) → HttpHeaders → HttpHeaders
reset_headers realloc_succeeds h =
    let size = reset_array_size realloc_succeeds h.header_array_size in
    record (zero_headers size) {
      method_header = reset_header h.method_header;
      uri_header = reset_header h.uri_header;
      version_header = reset_header h.version_header;
      statuscode_header = reset_header h.statuscode_header;
      reasonphrase_header = reset_header h.reasonphrase_header;
      trailer_header = reset_header h.trailer_header;
    }

-- The rest of ResetHttpEnv, with both buffers made ready and the `reforming_flag` that is left.
abbrev pub reset_fields : (ℕ → Bool) → Environment → Bool → HttpBuffer → HttpBuffer → Environment
reset_fields realloc_succeeds v reforming b c = record v {
  enable_response_compressing =
      if v.enable_response_compressing == 2 then 1 else v.enable_response_compressing;
  request = b;
  response = c;
  append = none;
  parser = begun_parser reforming (reset_headers realloc_succeeds v.parser.headers);
  send_proc_flag = false;
}

-- `none` is undefined behaviour.
unfoldable pub reset_http_env : (ℕ → Bool) → (ℕ → Bool) → Environment → Option Environment
reset_http_env malloc_succeeds realloc_succeeds v =
    let reforming = v.parser.reforming_flag in
    let reforming' = reforming && not (is_reformed reforming v.request) in
    let b = reset_buffer reforming v.request in
    let c = reset_buffer reforming' v.response in
    when_some
      (shrink_buffer malloc_succeeds
        (not b.ref_flag
          && (ltb request_bufsize_max b.buf_size
              && ltb (b.fill_ptr - b.process_ptr) request_bufsize_max))
        request_bufsize_max b)
      (λ b'.
        when_some
          (shrink_buffer malloc_succeeds (not c.ref_flag && ltb response_bufsize_max c.buf_size)
            response_bufsize_max c)
          (λ c'. some (
            reset_fields realloc_succeeds (reset_http_timeout v)
              (reforming' && not (is_reformed reforming' v.response)) b' c')))
