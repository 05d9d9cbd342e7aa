-- ===== src/Http/Transport/ReceiveExamples.antt =====
-- Tests of src/fasterhttp.c's receiving and instances of its theorems, over a connection with given
-- answers: the state is what has been taken from it, and the answers to come.
use hetao.Base.{
  ℕ, zero, suc, ◌≤◌, ◌≡◌, refl, true, false, Option, none, some, List, [], ◌∷◌, ◌++◌, arith, length,
  take,
}
use hetao.Base.Int.{pos, negsuc}
use hetao.Http.Environment.{Environment, zero_headers, begun_parser, zero_env}
use hetao.Http.Parse.{parse_http_buffer}
use hetao.Http.Parse.Runs.{text_at, filled, fresh_env}
use hetao.Http.Parse.Within.{StaysWithin, parse_http_buffer-StaysWithin}
use hetao.Http.Transport.{
  ready, send_blocked, Received, delivered, receive_blocked, connection_reset, receive_failed,
  Network, bytes_from, receive_http_buffer, room_all,
}
use hetao.Http.Transport.Fills.{
  Delivers, RecvLaws, Owns, Receives, Modest, receive_http_buffer-Receives,
}
use hetao.Http.Transport.Receive.{receive_http_request_nonblock}
use hetao.Http.Transport.Send.{Reply, replied, Hook}
use hetao.Http.Types.{
  request_buffer, ParseStep, begin, header_name, done, Code, success, error_http_header_invalid,
  info_tcp_close,
}
use Prim.Native.String.{String}

-- An answer to `recv` for at most `n` bytes; without one, nothing has arrived.
abbrev scripted_recv : List ℕ × List Received → ℕ → (List ℕ × List Received) × Received
scripted_recv (got, []) n = ((got, []), receive_blocked)
scripted_recv (got, delivered bytes ∷ rest) n =
    ((got ++ take n bytes, rest), delivered (take n bytes))
scripted_recv (got, r ∷ rest) n = ((got, rest), r)

abbrev scripted : Network (List ℕ × List Received)
scripted = record {
  now = λ s. (s, record { tv_sec = pos 0; tv_usec = pos 0 });
  wait_writable = λ s t. (s, ready, record { tv_sec = pos 0; tv_usec = pos 0 });
  wait_readable = λ s t. (s, ready, record { tv_sec = pos 0; tv_usec = pos 0 });
  send = λ s bytes. (s, send_blocked);
  recv = scripted_recv;
}

length-take-le : (n : ℕ) (xs : List ℕ) → length (take n xs) ≤ n
length-take-le zero xs = omega arith
length-take-le (suc n) [] = omega arith
length-take-le (suc n) (x ∷ xs) = omega (arith, length-take-le n xs)

scripted-RecvLaws : RecvLaws scripted (λ s. s.0)
scripted-RecvLaws = record {
  now_inbox = λ s. refl;
  wait_inbox = λ s t. refl;
  recv_inbox = scripted_delivers;
}
  where
    scripted_delivers :
        (s : List ℕ × List Received) (n : ℕ)
        → Delivers s.0 n (scripted_recv s n).0.0 (scripted_recv s n).1
    scripted_delivers (got, []) n = refl
    scripted_delivers (got, delivered bytes ∷ rest) n = (length-take-le n bytes, refl)
    scripted_delivers (got, receive_blocked ∷ rest) n = refl
    scripted_delivers (got, connection_reset ∷ rest) n = refl
    scripted_delivers (got, receive_failed ∷ rest) n = refl

room_all-Modest : Modest room_all
room_all-Modest b l = omega arith

abbrev pub no_uncompress : Hook
no_uncompress v = (v, success)

abbrev pub listening : Environment
listening = record zero_env {
  init_timeout = negsuc 0;
  request = record {
    buf_size = 512;
    base = λ _. 0;
    base_null = false;
    ref_flag = false;
    fill_ptr = 0;
    process_ptr = 0;
  };
  parser = begun_parser false (zero_headers 8);
}

abbrev pub arriving : String → ℕ → List ℕ
arriving text n = bytes_from (text_at text) 0 n

-- The code, with where the parser is, how many headers there are, and how many answers are left.
abbrev outcome : Reply (List ℕ × List Received) → Option (Code × ParseStep × ℕ × ℕ)
outcome (replied s v c) =
    some (c, v.parser.parse_step, v.parser.headers.header_array_count, length s.1)
outcome r = none

abbrev poll : ℕ → List Received → Reply (List ℕ × List Received)
poll k answers =
    receive_http_request_nonblock scripted (λ _. true) (λ _. true) none no_uncompress k
      ([], answers) listening room_all

abbrev plain : List ℕ
plain = arriving "GET / HTTP/1.1\r\nA: b\r\n\r\n" 24

abbrev first_bytes : String → ℕ → List Received
first_bytes text n = delivered (arriving text n) ∷ delivered (b'\n' ∷ []) ∷ []

whole_request : outcome (poll 2 (delivered plain ∷ [])) ≡ some (success, done, 1, 0)
unfolding receive_http_request_nonblock
whole_request = refl

-- In two parts, with the loop asking for the second.
parted_request :
    outcome (
      poll 3 (
        delivered (take 9 plain)
        ∷ delivered (bytes_from (text_at "GET / HTTP/1.1\r\nA: b\r\n\r\n") 9 15)
        ∷ []))
    ≡ some (success, done, 1, 0)
unfolding receive_http_request_nonblock
parted_request = refl

-- Without its last newline so far, it is refused; the newline is not asked for.
unfinished_request :
    outcome (poll 3 (first_bytes "GET / HTTP/1.1\r\nA: b\r\n\r" 23))
    ≡ some (error_http_header_invalid, header_name, 1, 1)
unfolding receive_http_request_nonblock
unfinished_request = refl

-- ... and with a colon in its URI, the loop goes round without receiving anything: the request line
-- is read as a header again and again.
spinning_request : outcome (poll 12 (first_bytes "GET a:b HTTP/1.1\r\nA: b\r\n\r" 25)) ≡ none
unfolding receive_http_request_nonblock
spinning_request = refl

-- A peer that closes before it sends anything.
closed_at_once : outcome (poll 1 (delivered [] ∷ [])) ≡ some (info_tcp_close, begin, 0, 0)
unfolding receive_http_request_nonblock
closed_at_once = refl

listening-Owns : Owns listening.request
listening-Owns = record {
  grows = record { owned = refl; not_empty = omega arith };
  small = omega arith;
  fits = record { fill_lt = omega arith; process_le = omega arith };
}

receive_http_buffer-Receives_example :
    Receives {S = List ℕ × List Received}
      (λ s. s.0)
      []
      listening
      listening.request
      (receive_http_buffer scripted
        (λ _. true)
        room_all
        true
        ([], delivered plain ∷ [])
        listening
        listening.request)
receive_http_buffer-Receives_example =
    receive_http_buffer-Receives scripted (λ s. s.0) scripted-RecvLaws room_all room_all-Modest
      listening.request (omega arith) (λ _. true) true ([], delivered plain ∷ []) listening
      listening-Owns

parse_http_buffer-StaysWithin_example :
    StaysWithin
      (filled "GET / HTTP/1.1\r\n" 16)
      (parse_http_buffer (λ _. true) request_buffer (filled "GET / HTTP/1.1\r\n" 16) fresh_env)
parse_http_buffer-StaysWithin_example =
    parse_http_buffer-StaysWithin (λ _. true) request_buffer (filled "GET / HTTP/1.1\r\n" 16)
      fresh_env (omega arith)
