-- ===== src/Http/Exchange.antt =====
-- `ParseHttpRequest`, `ParseHttpResponse`, `RequestHttp` and `ResponseAllHttp` of src/fasterhttp.c:
-- whole exchanges over one connection.
pub mod Examples
pub mod Spoiled
use hetao.Base.{
  ℕ, zero, suc, ◌+◌, ◌/◌, Bool, true, false, ◌&&◌, Option, none, some, ◌==◌, if◌then◌else◌,
}
use hetao.Base.Int.{ℤ, pos, pos_part, neg_part}
use hetao.Http.Buffer.{reforming_http_buffer, reset_http_buffer, realloc_http_buffer, make_room}
use hetao.Http.Environment.{Environment, reset_http_timeout, reset_http_env}
use hetao.Http.KeepAlive.{check_http_keep_alive}
use hetao.Http.Parse.{Outcome, returns, parse_http_buffer}
use hetao.Http.Response.{
  StatusTable, Formatted, formatted, format_undefined, format_endless,
  format_http_response_start_line,
}
use hetao.Http.Transport.{
  Network, after_send, send_when, send_http_buffer, after_recv, recv_when, recv_into,
  receive_http_buffer,
}
use hetao.Http.Transport.Receive.{
  with_parsed, after_parse, after_receiving, receive_loop, receive_http_request,
  receive_http_response,
}
use hetao.Http.Transport.Send.{
  Reply, replied, reply_undefined, reply_endless, after_append, after_buffer, send_once, Hook,
  send_loop, send_http_request, send_http_response,
}
use hetao.Http.Types.{BufferName, request_buffer, response_buffer, Code, success, info_tcp_close}

-- `ParseHttpBuffer( e , & (e->request_buffer) )`, and the same of the response's buffer.
abbrev pub parsed_as : BufferName → Environment → Outcome → Option (Environment × Code)
parsed_as name v (returns b e c) = some (with_parsed name v b e, c)
parsed_as name v o = none

unfoldable pub parse_http_request : (ℕ → Bool) → Environment → Option (Environment × Code)
parse_http_request realloc_succeeds v =
    parsed_as request_buffer v
      (parse_http_buffer realloc_succeeds request_buffer v.request v.parser)

unfoldable pub parse_http_response : (ℕ → Bool) → Environment → Option (Environment × Code)
parse_http_response realloc_succeeds v =
    parsed_as response_buffer v
      (parse_http_buffer realloc_succeeds response_buffer v.response v.parser)

abbrev pub then_reply {ℓ} : {S : Type ℓ} → Reply S → (S → Environment → Reply S) → Reply S
then_reply (replied s v success) go_on = go_on s v
then_reply r go_on = r

abbrev pub reply_to {ℓ} : {S : Type ℓ} → S → Formatted → Reply S
reply_to s (formatted v c) = replied s v c
reply_to s format_undefined = reply_undefined
reply_to s format_endless = reply_endless

abbrev pub abs_ℤ : ℤ → ℕ
abs_ℤ a = pos_part a + neg_part a

-- A peer that has closed between two requests is no error.
abbrev pub after_request {ℓ} : {S : Type ℓ} → Reply S → (S → Environment → Reply S) → Reply S
after_request (replied s v success) go_on = go_on s v
after_request (replied s v info_tcp_close) go_on = replied s v success
after_request r go_on = r

-- What the system, the allocator, the callbacks and the functions over zlib are.
module _ {ℓ} {S : Type ℓ} (net : Network S) (malloc_succeeds realloc_succeeds : ℕ → Bool)
    (table : StatusTable) (compress uncompress : Hook)
    (before_send after_receive : Option Hook) where
  unfoldable pub request_http : ℕ → S → Environment → Reply S
  request_http k s v = then_reply (send_http_request net compress before_send k s v) (λ s' w.
      receive_http_response net malloc_succeeds realloc_succeeds after_receive uncompress k s' w)

  -- `pfuncProcessHttpRequest` returns HTTP_OK, or a status code times a thousand, of any sign.
  abbrev pub answer : S → Environment × ℤ → Reply S
  answer s (v, n) =
      if (pos_part n == 200) && (neg_part n == 0)
      then replied s v success
      else reply_to s
          (format_http_response_start_line malloc_succeeds table (pos (abs_ℤ n / 1000)) v true none)

  abbrev pub reset_or_undefined : (Environment → Reply S) → Option Environment → Reply S
  reset_or_undefined go_on none = reply_undefined
  reset_or_undefined go_on (some v) = go_on v

  -- After the response: the next request, if the connection is kept.
  abbrev pub next_request : (S → Environment → Reply S) → S → Environment → Reply S
  next_request go_on s v =
      if check_http_keep_alive v.parser
      then reset_or_undefined (go_on s) (reset_http_env malloc_succeeds realloc_succeeds v)
      else replied s v success

  -- `n` requests at most, with `k` rounds for each loop of sending or receiving.
  unfoldable pub response_all_http :
      (Environment → Environment × ℤ) → ℕ → ℕ → S → Environment → Reply S
  unfolding receive_http_request receive_loop after_receiving after_parse receive_http_buffer
      recv_into recv_when after_recv make_room parse_http_buffer format_http_response_start_line
      send_http_response send_loop send_once send_http_buffer send_when after_send after_buffer
      after_append reset_http_env reset_http_timeout reforming_http_buffer reset_http_buffer
      realloc_http_buffer check_http_keep_alive
  response_all_http process k zero s v = reply_endless
  response_all_http process k (suc n) s v =
      after_request
        (receive_http_request net malloc_succeeds realloc_succeeds after_receive uncompress k s v)
        (λ s1 v1.
          then_reply
            (reply_to s1
              (format_http_response_start_line malloc_succeeds table (pos 200) v1 false none))
            (λ s2 v2. then_reply (answer s2 (process v2)) (λ s3 v3.
              then_reply (send_http_response net compress before_send k s3 v3)
                (next_request (response_all_http process k n)))))
