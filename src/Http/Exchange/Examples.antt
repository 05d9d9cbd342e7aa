-- ===== src/Http/Exchange/Examples.antt =====
-- Runs of ResponseAllHttp (src/fasterhttp.c) on one connection.
use hetao.Base.{
  ℕ, ◌<◌, ◌≡◌, refl, ◌⊎◌, Bool, true, false, Option, none, some, List, [], ◌++◌, arith,
  if◌then◌else◌, length,
}
use hetao.Base.Int.{ℤ, pos, negsuc, to_int}
use hetao.Http.Environment.{Environment, zero_buffer, reset_http_env}
use hetao.Http.Exchange.{response_all_http}
use hetao.Http.Exchange.Spoiled.{reset_http_env-end_text}
use hetao.Http.Parse.Runs.{filled, fresh_env}
use hetao.Http.Response.{zero_statuses, reset_all_http_status}
use hetao.Http.Status.{bytes_of}
use hetao.Http.Transport.{ready, accepted, delivered, Network}
use hetao.Http.Transport.Receive.{end_text, with_parsed}
use hetao.Http.Transport.ReceiveExamples.{no_uncompress, listening, arriving}
use hetao.Http.Transport.Send.{Reply, replied}
use hetao.Http.Types.{HttpBuffer, request_buffer, Code, success, error_method_invalid}
use Prim.Native.String.{String}

-- A connection on which all bytes of a text have arrived before the peer closes; the state is what
-- has been sent to the peer, and whether the text has been taken.
abbrev one_text : String → ℕ → Network (List ℕ × Bool)
one_text text n = record {
  now = λ s. (s, record { tv_sec = pos 0; tv_usec = pos 0 });
  wait_writable = λ s t. (s, ready, record { tv_sec = pos 0; tv_usec = pos 0 });
  wait_readable = λ s t. (s, ready, record { tv_sec = pos 0; tv_usec = pos 0 });
  send = λ s bytes. ((s.0 ++ bytes, s.1), accepted (length bytes));
  recv = λ s room. if s.1 then (s, delivered []) else ((s.0, true), delivered (arriving text n));
}

abbrev serving : Environment
serving = record listening { response = record zero_buffer { buf_size = 1024; base_null = false } }

abbrev says_yes : Environment → Environment × ℤ
says_yes v = (v, pos 200)

abbrev sent_by : Reply (List ℕ × Bool) → Option (Code × List ℕ)
sent_by (replied s v c) = some (c, s.0)
sent_by r = none

abbrev serve_text : String → ℕ → (Environment → Environment × ℤ) → Option (Code × List ℕ)
serve_text text n process = elim (reset_all_http_status false zero_statuses) [
  | none ↦ none
  | some table ↦ sent_by (
      response_all_http (one_text text n) (λ _. true) (λ _. true) table no_uncompress no_uncompress
        none none process 4 3 ([], false) serving)
]

one_request :
    serve_text "GET / HTTP/1.1\r\n\r\n" 18 says_yes
    ≡ some (success, bytes_of "HTTP/1.1 200 OK\r\nConnection: keep-alive\r\n")
unfolding response_all_http reset_all_http_status
one_request = refl

refused_request :
    serve_text "GET / HTTP/1.0\r\n\r\n" 18 (λ v. (v, negsuc 403999))
    ≡ some (success, bytes_of "HTTP/1.0 404 Not Found\r\nContent-length: 9\r\n\r\nNot Found")
unfolding response_all_http reset_all_http_status
refused_request = refl

-- Two requests at once: the second is thrown away where the first has no body ...
two_at_once :
    serve_text "GET / HTTP/1.1\r\n\r\nGET / HTTP/1.1\r\n\r\n" 36 says_yes
    ≡ some (success, bytes_of "HTTP/1.1 200 OK\r\nConnection: keep-alive\r\n")
unfolding response_all_http reset_all_http_status
two_at_once = refl

-- ... and refused where it has one: the NUL behind the first has overwritten its first byte.
two_with_body :
    serve_text "PUT / HTTP/1.1\r\nContent-Length: 1\r\n\r\nxGET / HTTP/1.0\r\n\r\n" 56 says_yes
    ≡ some (error_method_invalid, bytes_of "HTTP/1.1 200 OK\r\nConnection: keep-alive\r\n")
unfolding response_all_http reset_all_http_status to_int
two_with_body = refl

-- A buffer with a request that has been read and two bytes of the next one.
abbrev read_part : HttpBuffer
read_part = record (filled "GET / HTTP/1.1\r\n\r\nGE" 20) { process_ptr = 18 }

reset_http_env-end_text_example :
    (w : Environment) × (reset_http_env
        (λ _. true)
        (λ _. true)
        (with_parsed request_buffer serving (end_text read_part) fresh_env)
      ≡ some w)
    × ((w.request.fill_ptr ≡ 0) ⊎ ((0 < w.request.fill_ptr) × (w.request.base 0 ≡ 0)))
reset_http_env-end_text_example =
    reset_http_env-end_text (λ _. true) (λ _. true) serving read_part fresh_env
      (record { fill_lt = omega arith; process_le = omega arith })
      (record { fill_lt = omega arith; process_le = omega arith }) (omega arith) (omega arith)
