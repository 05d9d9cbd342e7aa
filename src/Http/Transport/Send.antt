-- ===== src/Http/Transport/Send.antt =====
-- `SendHttpRequest`, `SendHttpResponse` and their non-blocking forms of src/fasterhttp.c.
use hetao.Base.{
  ℕ, zero, suc, Bool, true, false, not, ◌&&◌, Option, none, some, List, [], ◌∷◌, ltb, ◌==◌,
  if◌then◌else◌,
}
use hetao.Http.Environment.{Environment}
use hetao.Http.Scan.{bytes_are}
use hetao.Http.Transport.{
  Network, offered_all, Moved, moved_to, moved_undefined, moved_endless, send_http_buffer,
}
use hetao.Http.Types.{
  HttpBuffer, BufferName, request_buffer, response_buffer, head, Code, success,
  info_tcp_send_wouldblock,
}

abbrev pub buffer_at : BufferName → Environment → HttpBuffer
buffer_at request_buffer v = v.request
buffer_at _ v = v.response

abbrev pub with_buffer : BufferName → Environment → HttpBuffer → Environment
with_buffer request_buffer v b = record v { request = b }
with_buffer _ v b = record v { response = b }

abbrev pub has_unsent : Option HttpBuffer → Bool
has_unsent none = false
has_unsent (some a) = ltb a.process_ptr a.fill_ptr

-- How a function of the library that uses the connection ends. The parser's signed overflow is
-- `reply_overflow`, with the environment that the parser was called with; other undefined behaviour
-- is `reply_undefined`.
pub data Reply {ℓ} (S : Type ℓ) : Type ℓ where
  replied : S → Environment → Code → Reply S
  reply_undefined : Reply S
  reply_overflow : S → Environment → Reply S
  reply_endless : Reply S

module _ {ℓ} {S : Type ℓ} (net : Network S) (offered : HttpBuffer → List ℕ) (wait_flag : Bool) where
  -- From `_CONTINUE_TO_SEND` on.
  unfoldable pub after_append : Moved S → Reply S
  after_append (moved_to s v a c) = replied s (record v { append = some a }) c
  after_append moved_undefined = reply_undefined
  after_append moved_endless = reply_endless

  abbrev pub send_append : S → Environment → Option HttpBuffer → Reply S
  send_append s v none = replied s v success
  send_append s v (some a) = after_append (send_http_buffer net offered wait_flag s v a)

  unfoldable pub after_buffer : BufferName → Moved S → Reply S
  after_buffer name (moved_to s v b success) = send_append s (with_buffer name v b) v.append
  after_buffer name (moved_to s v b c) = replied s (with_buffer name v b) c
  after_buffer name moved_undefined = reply_undefined
  after_buffer name moved_endless = reply_endless

  -- One pass: the message's buffer, then what is appended to it.
  unfoldable pub send_once : BufferName → S → Environment → Reply S
  send_once name s v =
      let b = buffer_at name v in
      if ltb b.process_ptr b.fill_ptr
      then after_buffer name (send_http_buffer net offered wait_flag s v b)
      else if has_unsent v.append
      then send_append s v v.append
      else replied s v success

-- `CompressHttpBody` and the function that is called before sending, if there is one.
abbrev pub Hook : Type 0
Hook = Environment → Environment × Code

abbrev pub run_hook : Bool → Hook → Environment → Environment × Code
run_hook false hook v = (v, success)
run_hook true hook v = hook v

abbrev pub then_hook : Environment × Code → Hook → Environment × Code
then_hook (v, success) hook = hook v
then_hook (v, c) hook = (v, c)

abbrev pub call_before_send : (Environment → Environment) → Option Hook → Hook
call_before_send mark none v = (v, success)
call_before_send mark (some hook) v =
    if v.send_proc_flag then (v, success) else then_hook (hook v) (λ w. (mark w, success))

abbrev pub prepare :
    (Environment → Environment) → (Environment → Environment) → Hook → Option Hook → Hook
prepare compressed called compress before_send v =
    then_hook
      (if v.enable_response_compressing == 1
        then then_hook (compress v) (λ w. (compressed w, success))
        else (v, success))
      (call_before_send called before_send)

-- A non-blocking function marks what it has done, for the calls that go on with the message.
abbrev pub mark_compressed : Environment → Environment
mark_compressed v = record v { enable_response_compressing = 2 }

abbrev pub mark_called : Environment → Environment
mark_called v = record v { send_proc_flag = true }

abbrev pub unmark_compressed : Environment → Environment
unmark_compressed v =
    if v.enable_response_compressing == 2 then record v { enable_response_compressing = 1 } else v

abbrev pub finish_nonblock {ℓ} : {S : Type ℓ} → Reply S → Reply S
finish_nonblock (replied s v success) = replied s (unmark_compressed v) success
finish_nonblock r = r

-- `p[0] == HTTP_METHOD_HEAD[0] && ...` of the request's buffer.
abbrev pub note_head : Environment → Environment
note_head v =
    if not v.request.base_null && bytes_are v.request.base 0 (b'H' ∷ b'E' ∷ b'A' ∷ b'D' ∷ [])
    then record v {
      parser = record v.parser { headers = record v.parser.headers { method = head } };
    }
    else v

module _ {ℓ} {S : Type ℓ} (net : Network S) where
  abbrev pub when_prepared : S → Environment × Code → (Environment → Reply S) → Reply S
  when_prepared s (v, success) go_on = go_on v
  when_prepared s (v, c) go_on = replied s v c

  -- `while(1)` around a pass, which goes on while the socket takes no more.
  abbrev pub while_blocked : (S → Environment → Reply S) → Reply S → Reply S
  while_blocked go_on (replied s v info_tcp_send_wouldblock) = go_on s v
  while_blocked go_on r = r

  unfoldable pub send_loop : BufferName → ℕ → S → Environment → Reply S
  send_loop name zero s v = reply_endless
  send_loop name (suc k) s v =
      while_blocked (send_loop name k) (send_once net offered_all true name s v)

  unfoldable pub send_http_request : Hook → Option Hook → ℕ → S → Environment → Reply S
  send_http_request compress before_send k s v =
      when_prepared s (prepare (λ w. w) (λ w. w) compress before_send (note_head v))
        (send_loop request_buffer k s)

  unfoldable pub send_http_response : Hook → Option Hook → ℕ → S → Environment → Reply S
  send_http_response compress before_send k s v =
      when_prepared s (prepare (λ w. w) (λ w. w) compress before_send v)
        (send_loop response_buffer k s)

  unfoldable pub send_http_request_nonblock : Hook → Option Hook → S → Environment → Reply S
  send_http_request_nonblock compress before_send s v =
      when_prepared s (prepare mark_compressed mark_called compress before_send v)
        (λ w. finish_nonblock (send_once net offered_all false request_buffer s (note_head w)))

  -- SendHttpResponseNonblock, and SendHttpResponseNonblock1 where ten bytes are offered.
  unfoldable pub send_http_response_nonblock :
      (HttpBuffer → List ℕ) → Hook → Option Hook → S → Environment → Reply S
  send_http_response_nonblock offered compress before_send s v =
      when_prepared s (prepare mark_compressed mark_called compress before_send v)
        (λ w. finish_nonblock (send_once net offered false response_buffer s w))
