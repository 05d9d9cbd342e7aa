-- ===== src/Http/Parse/ResumeExample.antt =====
-- A start line that `ParseHttpBuffer` (src/fasterhttp.c) gets in two pieces, and cuts in a header
-- that change what it makes of the message.
use hetao.Base.{
  ℕ, zero, suc, ◌≤◌, ◌<◌, ◌≡◌, refl, inl, inr, Bool, false, Option, none, some, arith, ◌==◌,
  Bool-cases, get_or,
}
use hetao.Base.Int.{ℤ, pos}
use hetao.Http.HeaderValue.{strtol}
use hetao.Http.Parse.{Outcome, returns, parse_http_buffer}
use hetao.Http.Parse.Alike.{with_process, verdict}
use hetao.Http.Parse.Recorded.{Recorded}
use hetao.Http.Parse.Recorded.Run.{LeavesAllRecorded, parse_http_buffer-Recorded}
use hetao.Http.Parse.Resume.{parse_http_buffer-resumes}
use hetao.Http.Parse.Resume.Steps.{NoNewline}
use hetao.Http.Parse.Resume.Walk.{Extends}
use hetao.Http.Parse.Runs.{filled, fresh_headers, fresh_env, always, again}
use hetao.Http.Scan.{scan, is_newline}
use hetao.Http.StartLine.{begin_value, end_value}
use hetao.Http.Types.{
  Memory, HttpBuffer, request_buffer, zero_header, get, request_method0, request_version, HttpEnv,
  need_more_http_buffer,
}
use Prim.Native.String.{String}

scan-passes :
    (stops : ℕ → Bool) (base : Memory) (n p i : ℕ)
    → p ≤ i
    → i < scan stops base n p
    → stops (base i) ≡ false
unfolding scan
scan-passes stops base zero p i l h = absurd (omega arith)
scan-passes stops base (suc n) p i l h = elim (Bool-cases (stops (base p))) [
  | inl e ↦ let h' : i < p = rw e at h in absurd (omega arith)
  | inr e ↦
      let h' : i < scan stops base n (suc p) = rw e at h in
      elim (Bool-cases (i == p)) [
        | inl t ↦ let same : i ≡ p = ground arith in rw same e
        | inr t ↦ scan-passes stops base n (suc p) i (ground arith) h'
      ]
]

abbrev get_text : String
get_text = "GET / HTTP/1.1\r\nHost: a\r\n\r\n"

abbrev first_piece : HttpBuffer
first_piece = filled get_text 10

abbrev both_pieces : HttpBuffer
both_pieces = filled get_text 27

pieces-Extends : Extends first_piece both_pieces
pieces-Extends = record { longer = omega arith; agrees = λ i l. refl }

newline_behind : scan is_newline first_piece.base 10 0 ≡ 10
unfolding scan
newline_behind = refl

first_piece-NoNewline : NoNewline first_piece 0
first_piece-NoNewline i l h = scan-passes is_newline first_piece.base 10 0 i l (rw newline_behind h)

-- The state after the first piece: method and URI are recorded, and the version has begun.
abbrev after_first : HttpEnv
after_first = record fresh_env {
  parse_step = request_version;
  headers = record fresh_headers {
    method_header = end_value 3 (begin_value request_buffer 0 zero_header);
    method = get;
    uri_header = end_value 5 (begin_value request_buffer 4 zero_header);
    version_header = begin_value request_buffer 6 zero_header;
  };
}

first_call :
    parse_http_buffer always request_buffer first_piece fresh_env
    ≡ returns (with_process first_piece 10) after_first need_more_http_buffer
unfolding parse_http_buffer
first_call = refl

parse_http_buffer-resumes_example :
    verdict (parse_http_buffer always request_buffer (with_process both_pieces 10) after_first)
    ≡ verdict (parse_http_buffer always request_buffer both_pieces fresh_env)
parse_http_buffer-resumes_example =
    parse_http_buffer-resumes always request_buffer first_piece both_pieces
      (with_process first_piece 10) fresh_env after_first pieces-Extends refl (omega arith)
      first_piece-NoNewline refl first_call

-- The name's length that is recorded for the first header.
abbrev first_name_len : Outcome → Option ℕ
first_name_len (returns b e c) = some (get_or e.headers.header_array 0 zero_header).name_len
first_name_len _ = none

abbrev blanks : String
blanks = "GET / HTTP/1.1\r\nHost  : a\r\n\r\n"

-- With blanks before the colon the name is four bytes long where the header comes at once ...
name_whole :
    first_name_len (parse_http_buffer always request_buffer (filled blanks 29) fresh_env) ≡ some 4
unfolding parse_http_buffer
name_whole = refl

-- ... and five where it is cut between the blanks.
name_cut :
    first_name_len
      (again blanks 29 (parse_http_buffer always request_buffer (filled blanks 21) fresh_env))
    ≡ some 5
unfolding parse_http_buffer
name_cut = refl

abbrev empty_length : String
empty_length = "GET / HTTP/1.1\r\nContent-Length: \r\n3: x\r\n\r\nabc"

abbrev content_length_of : Outcome → Option ℤ
content_length_of (returns b e c) = some e.headers.content_length
content_length_of _ = none

-- An empty `Content-Length` takes its number from the next line.
length_from_next_line :
    content_length_of (parse_http_buffer always request_buffer (filled empty_length 45) fresh_env)
    ≡ some (pos 3)
unfolding parse_http_buffer strtol hetao.Base.Int.to_int
length_from_next_line = refl

fresh_headers-Recorded : Recorded request_method0 27 0 fresh_headers
fresh_headers-Recorded = (
  omega arith,
  omega arith,
  omega arith,
  omega arith,
  omega arith,
  tt,
  λ i l. absurd (omega arith),
)

parse_http_buffer-Recorded_example :
    LeavesAllRecorded 27 (parse_http_buffer always request_buffer both_pieces fresh_env)
parse_http_buffer-Recorded_example =
    parse_http_buffer-Recorded always request_buffer both_pieces fresh_env (omega arith)
      fresh_headers-Recorded
