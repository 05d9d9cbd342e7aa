-- ===== src/Http/Transport/Receive.antt =====
-- `ReceiveHttpRequest`, `ReceiveHttpResponse` and their non-blocking forms of src/fasterhttp.c: a
-- loop of receiving and parsing.
use hetao.Base.{ℕ, zero, suc, Bool, true, false, Option, none, some, ◌==◌, if◌then◌else◌}
use hetao.Http.Buffer.{make_room}
use hetao.Http.Environment.{Environment}
use hetao.Http.Parse.{Outcome, returns, undefined_behaviour, out_of_fuel, parse_http_buffer}
use hetao.Http.Transport.{
  Network, Moved, moved_to, moved_undefined, moved_endless, after_recv, recv_when, recv_into,
  receive_http_buffer, room_all,
}
use hetao.Http.Transport.Send.{
  buffer_at, with_buffer, Reply, replied, reply_undefined, reply_overflow, reply_endless, Hook,
  then_hook,
}
use hetao.Http.Types.{
  HttpBuffer, BufferName, request_buffer, response_buffer, ParseStep, begin, HttpEnv, Code, success,
  need_more_http_buffer, error_tcp_close, info_tcp_close,
}

-- `*(b->process_ptr) = '\0'`
abbrev pub end_text : HttpBuffer → HttpBuffer
end_text b = record b { base = λ i. if i == b.process_ptr then 0 else b.base i }

-- The code of a closed connection where nothing of a request has been parsed.
abbrev pub close_code : BufferName → ParseStep → Code → Code
close_code request_buffer begin error_tcp_close = info_tcp_close
close_code name s c = c

abbrev pub with_parsed : BufferName → Environment → HttpBuffer → HttpEnv → Environment
with_parsed name v b e = record (with_buffer name v b) { parser = e }

-- The function that is called after receiving, if there is one, and `UncompressHttpBody`.
abbrev pub call_after_receive : Option Hook → Hook → Hook
call_after_receive none uncompress v = uncompress v
call_after_receive (some hook) uncompress v = then_hook (hook v) uncompress

abbrev pub reply_of {ℓ} : {S : Type ℓ} → S → Environment × Code → Reply S
reply_of s (v, c) = replied s v c

-- `malloc_succeeds` is asked for bytes, `realloc_succeeds` for headers.
module _ {ℓ} {S : Type ℓ} (net : Network S) (malloc_succeeds realloc_succeeds : ℕ → Bool)
    (room : HttpBuffer → ℕ) (wait_flag : Bool) (name : BufferName) (after_receive : Option Hook)
    (uncompress : Hook) where
  unfoldable pub after_parse : (S → Environment → Reply S) → S → Environment → Outcome → Reply S
  after_parse go_on s v (returns b e need_more_http_buffer) = go_on s (with_parsed name v b e)
  after_parse go_on s v (returns b e success) =
      reply_of s (call_after_receive after_receive uncompress (with_parsed name v (end_text b) e))
  after_parse go_on s v (returns b e c) = replied s (with_parsed name v b e) c
  after_parse go_on s v undefined_behaviour = reply_overflow s v
  after_parse go_on s v out_of_fuel = reply_endless

  unfoldable pub after_receiving : (S → Environment → Reply S) → Moved S → Reply S
  after_receiving go_on (moved_to s v b success) =
      after_parse go_on s (with_buffer name v b)
        (parse_http_buffer realloc_succeeds name b v.parser)
  after_receiving go_on (moved_to s v b c) =
      replied s (with_buffer name v b) (close_code name v.parser.parse_step c)
  after_receiving go_on moved_undefined = reply_undefined
  after_receiving go_on moved_endless = reply_endless

  -- `while(1)`, in at most so many rounds.
  unfoldable pub receive_loop : ℕ → S → Environment → Reply S
  receive_loop zero s v = reply_endless
  receive_loop (suc k) s v =
      after_receiving (receive_loop k)
        (receive_http_buffer net malloc_succeeds room wait_flag s v (buffer_at name v))

module _ {ℓ} {S : Type ℓ} (net : Network S) (malloc_succeeds realloc_succeeds : ℕ → Bool)
    (after_receive : Option Hook) (uncompress : Hook) (k : ℕ) (s : S) (v : Environment) where
  unfoldable pub receive_http_request : Reply S
  receive_http_request =
      receive_loop net malloc_succeeds realloc_succeeds room_all true request_buffer after_receive
        uncompress k s v

  unfoldable pub receive_http_response : Reply S
  receive_http_response =
      receive_loop net malloc_succeeds realloc_succeeds room_all true response_buffer after_receive
        uncompress k s v

  -- With `room_one` for ReceiveHttpRequestNonblock1 and ReceiveHttpResponseNonblock1.
  unfoldable pub receive_http_request_nonblock : (HttpBuffer → ℕ) → Reply S
  unfolding receive_loop after_receiving after_parse receive_http_buffer recv_into recv_when
      after_recv make_room parse_http_buffer
  receive_http_request_nonblock room =
      receive_loop net malloc_succeeds realloc_succeeds room false request_buffer after_receive
        uncompress k s v

  unfoldable pub receive_http_response_nonblock : (HttpBuffer → ℕ) → Reply S
  receive_http_response_nonblock room =
      receive_loop net malloc_succeeds realloc_succeeds room false response_buffer after_receive
        uncompress k s v
