-- ===== src/Http/Parse/Runs.antt =====
-- Runs of `ParseHttpBuffer` (src/fasterhttp.c) on whole and on split messages.
use hetao.Base.{ℕ, zero, suc, ◌≡◌, refl, ◌≢◌, Bool, true, false, Option, none, some, replicate}
use hetao.Base.Int.{pos}
use hetao.Http.HeaderValue.{strtol}
use hetao.Http.Parse.{Outcome, returns, out_of_fuel, parse_http_buffer}
use hetao.Http.Parse.Total.{parse_http_buffer-ne-out_of_fuel}
use hetao.Http.Types.{
  HttpBuffer, request_buffer, zero_header, no_method, no_version, HttpHeaders, ParseStep, begin,
  header_name, done, HttpEnv, Code, success, need_more_http_buffer, error_http_header_invalid,
}
use Prim.Native.Char.{code}
use Prim.Native.String.{String}

-- A text as bytes, with zeros behind it; `\` stands for a carriage return and a newline.
abbrev pub text_at : String → ℕ → ℕ
text_at String.[] i = 0
text_at (String.◌∷◌ c s) zero = code c
text_at (String.◌∷◌ c s) (suc i) = text_at s i

abbrev pub filled : String → ℕ → HttpBuffer
filled s n = record {
  buf_size = 512;
  base = text_at s;
  base_null = false;
  ref_flag = false;
  fill_ptr = n;
  process_ptr = 0;
}

abbrev pub fresh_headers : HttpHeaders
fresh_headers = record {
  method_header = zero_header;
  method = no_method;
  uri_header = zero_header;
  version_header = zero_header;
  version = no_version;
  statuscode_header = zero_header;
  reasonphrase_header = zero_header;
  content_length = pos 0;
  transfer_encoding_chunked = false;
  trailer_header = zero_header;
  connection_keepalive = pos 0;
  header_array = replicate 8 zero_header;
  header_array_size = 8;
  header_array_count = 0;
}

abbrev pub fresh_env : HttpEnv
fresh_env = record {
  reforming_flag = false;
  parse_step = begin;
  headers = fresh_headers;
  p_body_buffer = none;
  body_base_offset = 0;
  chunked_body = 0;
  chunked_body_end = 0;
  chunked_length = 0;
  chunked_length_length = 0;
}

-- The code, `process_ptr` and the step of a call that returns.
abbrev pub summary : Outcome → Option (Code × ℕ × ParseStep)
summary (returns b e c) = some (c, b.process_ptr, e.parse_step)
summary _ = none

abbrev pub always : ℕ → Bool
always n = true

abbrev request : String
request = "GET /a?b HTTP/1.1\r\nHost: x.y\r\nContent-Length: 2\r\n\r\nokGET"

whole_request :
    summary (parse_http_buffer always request_buffer (filled request 55) fresh_env)
    ≡ some (success, 53, done)
unfolding parse_http_buffer strtol hetao.Base.Int.to_int
whole_request = refl

abbrev simple : String
simple = "GET / HTTP/1.1\r\nHost: a\r\n\r\n"

-- A second call, when `n` bytes have come in.
abbrev pub again : String → ℕ → Outcome → Outcome
again s n (returns b e need_more_http_buffer) =
    parse_http_buffer (λ _. true) request_buffer (record b { fill_ptr = n }) e
again s n o = o

-- The request is received whole ...
simple_whole :
    summary (parse_http_buffer always request_buffer (filled simple 27) fresh_env)
    ≡ some (success, 27, done)
unfolding parse_http_buffer
simple_whole = refl

-- ... or cut in the middle of a header: the second call ends as the one call does.
simple_cut :
    summary (again simple 27 (parse_http_buffer always request_buffer (filled simple 20) fresh_env))
    ≡ some (success, 27, done)
unfolding parse_http_buffer
simple_cut = refl

-- Cut between the last carriage return and newline, it is refused: the first call does not move
-- `process_ptr`, and the second reads the request line as a header.
simple_cut_in_line_end :
    summary (again simple 27 (parse_http_buffer always request_buffer (filled simple 26) fresh_env))
    ≡ some (error_http_header_invalid, 0, header_name)
unfolding parse_http_buffer
simple_cut_in_line_end = refl

parse_http_buffer-ne-out_of_fuel_example :
    parse_http_buffer always request_buffer (filled simple 20) fresh_env ≢ out_of_fuel
parse_http_buffer-ne-out_of_fuel_example =
    parse_http_buffer-ne-out_of_fuel always request_buffer (filled simple 20) fresh_env
