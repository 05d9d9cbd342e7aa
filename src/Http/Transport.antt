-- ===== src/Http/Transport.antt =====
-- `AjustTimeval`, `SendHttpBuffer` and `ReceiveHttpBuffer` of src/fasterhttp.c, as built for Linux,
-- over an interface of what they ask of the system: select, send, recv and gettimeofday.
pub mod Blocking
pub mod Bounds
pub mod Conserves
pub mod Examples
pub mod Fills
pub mod Passes
pub mod Polls
pub mod Receive
pub mod ReceiveExamples
pub mod Send
pub mod TimeLeft
use hetao.Base.{
  ℕ, zero, suc, ◌+◌, ◌-◌, Bool, true, false, ◌&&◌, Option, none, some, List, [], ◌∷◌, ltb, leb,
  ◌==◌, if◌then◌else◌,
}
use hetao.Base.Int.{pos, negsuc, neg_part, ◌+ℤ◌, sub_ℤ}
use hetao.Http.Buffer.{
  Result, returned, undefined_result, overrun, endless, make_room, rounds, append_bytes,
}
use hetao.Http.Environment.{Timeval, Environment}
use hetao.Http.Types.{
  Memory, HttpBuffer, Code, success, need_more_http_buffer, error_tcp_select_send,
  error_tcp_select_send_timeout, error_tcp_send, error_tcp_select_receive,
  error_tcp_select_receive_timeout, error_tcp_receive, error_tcp_close, info_tcp_send_wouldblock,
}

-- What `select` returns: 1, 0, or another number.
pub data Readiness : Type 0 where
  ready timed_out wait_failed : Readiness

-- What `send` or `SSL_write` returns: a length, or -1 with `errno` EAGAIN or another.
pub data Sent : Type 0 where
  accepted : ℕ → Sent
  send_blocked send_failed : Sent

-- What `recv` or `SSL_read` returns: bytes (none where the peer has closed), or -1 with `errno`
-- EAGAIN, ECONNRESET or another.
pub data Received : Type 0 where
  delivered : List ℕ → Received
  receive_blocked connection_reset receive_failed : Received

-- The system, with a state that holds the connection and the clock. `select` also gives the time
-- out as it leaves it behind the pointer passed to it, which is NULL for `none`.
pub record Network {ℓ} (S : Type ℓ) : Type ℓ where
  pub now : S → S × Timeval
  pub wait_writable : S → Option Timeval → S × Readiness × Timeval
  pub wait_readable : S → Option Timeval → S × Readiness × Timeval
  pub send : S → List ℕ → S × Sent
  pub recv : S → ℕ → S × Received

-- `while( ptv->tv_usec < 0 ) { ptv->tv_usec += 1000000 ; ptv->tv_sec--; }` in at most so many rounds.
unfoldable pub carry_seconds : ℕ → Timeval → Timeval
carry_seconds zero t = t
carry_seconds (suc k) t =
    let rest =
      carry_seconds k
        (record { tv_sec = t.tv_sec +ℤ negsuc 0; tv_usec = t.tv_usec +ℤ pos 1000000 }) in
    if leb (neg_part t.tv_usec) 0 then t else rest

abbrev pub at_least_zero : Timeval → Timeval
at_least_zero t = if leb (neg_part t.tv_sec) 0 then t else record t { tv_sec = pos 0 }

-- Each round adds a million, so there are not more of them than microseconds below zero.
abbrev pub settle : Timeval → Timeval
settle t = at_least_zero (carry_seconds (neg_part t.tv_usec) t)

unfoldable pub adjust_timeval : Timeval → Timeval → Timeval → Timeval
adjust_timeval t t1 t2 = settle (record {
  tv_sec = sub_ℤ t.tv_sec (sub_ℤ t2.tv_sec t1.tv_sec);
  tv_usec = sub_ℤ t.tv_usec (sub_ℤ t2.tv_usec t1.tv_usec);
})

-- `n` bytes from an offset on.
abbrev pub bytes_from : Memory → ℕ → ℕ → List ℕ
bytes_from base p zero = []
bytes_from base p (suc n) = base p ∷ bytes_from base (suc p) n

abbrev pub unsent : HttpBuffer → List ℕ
unsent b = bytes_from b.base b.process_ptr (b.fill_ptr - b.process_ptr)

-- What SendHttpBuffer offers to `send`, and SendHttpBuffer1: ten bytes.
abbrev pub offered_all : HttpBuffer → List ℕ
offered_all = unsent

abbrev pub offered_ten : HttpBuffer → List ℕ
offered_ten b = bytes_from b.base b.process_ptr 10

abbrev pub has_time_limit : Environment → Bool
has_time_limit v = leb (neg_part v.init_timeout) 0

abbrev pub time_limit : Environment → Option Timeval
time_limit v = if v.wait_limited then some v.timeout else none

-- What `select` leaves in `e->timeout`, where it has its address.
abbrev pub with_time_left : Environment → Timeval → Environment
with_time_left v t = if v.wait_limited then record v { timeout = t } else v

-- How a function that moves a buffer's data ends.
pub data Moved {ℓ} (S : Type ℓ) : Type ℓ where
  moved_to : S → Environment → HttpBuffer → Code → Moved S
  moved_undefined : Moved S
  moved_endless : Moved S

module _ {ℓ} {S : Type ℓ} (net : Network S) where
  -- The time is read only if there is a limit.
  abbrev pub clock : S → Environment → S × Timeval
  clock s v =
      if has_time_limit v then net.now s else (s, record { tv_sec = pos 0; tv_usec = pos 0 })

  abbrev pub time_passed : Environment → Timeval → Timeval → Environment
  time_passed v t1 t2 =
      if has_time_limit v then record v { timeout = adjust_timeval v.timeout t1 t2 } else v

  -- The wait for the socket, if it is asked for.
  abbrev pub waited :
      (S → Option Timeval → S × Readiness × Timeval)
      → Bool
      → S
      → Environment
      → S × Environment × Readiness
  waited wait false s v = (s, v, ready)
  waited wait true s v = let (s', r, t) = wait s (time_limit v) in (s', with_time_left v t, r)

  unfoldable pub after_send : Timeval → Environment → HttpBuffer → S × Sent → Moved S
  after_send t1 v b (s, accepted n) =
      let (s', t2) = clock s v in
      let c = record b { process_ptr = b.process_ptr + n } in
      moved_to s' (time_passed v t1 t2) c
        (if leb c.fill_ptr c.process_ptr then success else info_tcp_send_wouldblock)
  after_send t1 v b (s, send_blocked) = moved_to s v b info_tcp_send_wouldblock
  after_send t1 v b (s, send_failed) = moved_to s v b error_tcp_send

  unfoldable pub send_when :
      (HttpBuffer → List ℕ) → Timeval → HttpBuffer → S × Environment × Readiness → Moved S
  send_when offered t1 b (s, v, ready) = after_send t1 v b (net.send s (offered b))
  send_when offered t1 b (s, v, timed_out) = moved_to s v b error_tcp_select_send_timeout
  send_when offered t1 b (s, v, wait_failed) = moved_to s v b error_tcp_select_send

  -- SendHttpBuffer and SendHttpBuffer1.
  unfoldable pub send_http_buffer :
      (HttpBuffer → List ℕ) → Bool → S → Environment → HttpBuffer → Moved S
  send_http_buffer offered wait_flag s v b =
      let (s', t1) = clock s v in
      let sent = send_when offered t1 b (waited net.wait_writable wait_flag s' v) in
      if leb b.fill_ptr b.process_ptr then moved_to s v b success else sent

  -- What SSL_read or `recv` put behind the data is part of it from now on.
  unfoldable pub after_recv : Timeval → Environment → HttpBuffer → S × Received → Moved S
  after_recv t1 v b (s, delivered []) = moved_to s v b error_tcp_close
  after_recv t1 v b (s, delivered (x ∷ xs)) =
      let (s', t2) = clock s v in
      moved_to s' (time_passed v t1 t2) (append_bytes b (x ∷ xs)) success
  after_recv t1 v b (s, receive_blocked) = moved_to s v b need_more_http_buffer
  after_recv t1 v b (s, connection_reset) = moved_to s v b error_tcp_close
  after_recv t1 v b (s, receive_failed) = moved_to s v b error_tcp_receive

  unfoldable pub recv_when :
      (HttpBuffer → ℕ) → Timeval → HttpBuffer → S × Environment × Readiness → Moved S
  recv_when room t1 b (s, v, ready) = after_recv t1 v b (net.recv s (room b))
  recv_when room t1 b (s, v, timed_out) = moved_to s v b error_tcp_select_receive_timeout
  recv_when room t1 b (s, v, wait_failed) = moved_to s v b error_tcp_select_receive

  -- Behind the loop that enlarges the buffer.
  unfoldable pub recv_into : (HttpBuffer → ℕ) → Bool → S → Environment → Result → Moved S
  recv_into room wait_flag s v (returned b success) =
      let (s', t1) = clock s v in recv_when room t1 b (waited net.wait_readable wait_flag s' v)
  recv_into room wait_flag s v (returned b c) = moved_to s v b c
  recv_into room wait_flag s v undefined_result = moved_undefined
  recv_into room wait_flag s v overrun = moved_undefined
  recv_into room wait_flag s v endless = moved_endless

  -- ReceiveHttpBuffer, and ReceiveHttpBuffer1, which receives one byte.
  unfoldable pub receive_http_buffer :
      (ℕ → Bool) → (HttpBuffer → ℕ) → Bool → S → Environment → HttpBuffer → Moved S
  receive_http_buffer malloc_succeeds room wait_flag s v b =
      let received =
        recv_into room wait_flag s v (make_room malloc_succeeds rounds (b.fill_ptr + 1) b) in
      if (b.process_ptr == 0) && ltb b.process_ptr b.fill_ptr
      then moved_to s v b success
      else received

abbrev pub room_all : HttpBuffer → ℕ
room_all b = b.buf_size - 1 - b.fill_ptr

abbrev pub room_one : HttpBuffer → ℕ
room_one b = 1
