-- ===== src/Http/Transport/Examples.antt =====
-- Tests of src/fasterhttp.c's sending and instances of its theorems, over a socket that takes three
-- bytes at a time. The system's state is what the peer has been sent.
use hetao.Base.{
  ℕ, zero, suc, ◌+◌, ◌-◌, ◌≤◌, ◌<◌, ◌≡◌, refl, sym, ap, inr, true, false, none, some, List, [], ◌∷◌,
  ◌++◌, arith, length, take,
}
use hetao.Base.Int.{pos, negsuc}
use hetao.Http.Buffer.{write_bytes}
use hetao.Http.Environment.{Environment, zero_env}
use hetao.Http.Transport.{
  ready, accepted, delivered, Network, carry_seconds, adjust_timeval, offered_ten, moved_to,
  after_send, send_when, send_http_buffer,
}
use hetao.Http.Transport.Blocking.{TakesSome, Ended, send_http_response-Ended}
use hetao.Http.Transport.Conserves.{SendLaws}
use hetao.Http.Transport.Passes.{pending}
use hetao.Http.Transport.Polls.{
  Polls, called_last, called_again, response_call, send_http_response_nonblock-Polls,
}
use hetao.Http.Transport.Send.{
  after_append, after_buffer, send_once, Hook, send_http_response, send_http_response_nonblock,
}
use hetao.Http.Transport.TimeLeft.{time_of, in_microseconds, adjust_timeval-Adjusts}
use hetao.Http.Types.{HttpBuffer, response_buffer, success}

abbrev three_at_a_time : Network (List ℕ)
three_at_a_time = record {
  now = λ s. (s, record { tv_sec = pos 0; tv_usec = pos 0 });
  wait_writable = λ s t. (s, ready, record { tv_sec = pos 0; tv_usec = pos 0 });
  wait_readable = λ s t. (s, ready, record { tv_sec = pos 0; tv_usec = pos 0 });
  send = λ s bytes. (s ++ take 3 bytes, accepted (length (take 3 bytes)));
  recv = λ s n. (s, delivered []);
}

take-length-take :
    (n : ℕ) (xs : List ℕ)
    → (length (take n xs) ≤ length xs) × (take (length (take n xs)) xs ≡ take n xs)
take-length-take zero xs = (omega arith, refl)
take-length-take (suc n) [] = (omega arith, refl)
take-length-take (suc n) (x ∷ xs) =
    let (l, e) = take-length-take n xs in (omega arith, ap (λ ys. x ∷ ys) e)

three-SendLaws : SendLaws three_at_a_time (λ s. s)
three-SendLaws = record {
  now_wire = λ s. refl;
  wait_wire = λ s t. refl;
  send_wire = λ s bytes.
      ((take-length-take 3 bytes).0, ap (λ x. s ++ x) (sym (take-length-take 3 bytes).1));
}

length-take_pos : (n : ℕ) (xs : List ℕ) → 0 < length xs → 0 < length (take (suc n) xs)
length-take_pos n [] l = l
length-take_pos n (x ∷ xs) l = omega arith

three-TakesSome : TakesSome three_at_a_time
three-TakesSome s bytes l = length-take_pos 2 bytes l

abbrev text_buffer : List ℕ → HttpBuffer
text_buffer text = record {
  buf_size = 64;
  base = write_bytes (λ _. 0) 0 text;
  base_null = false;
  ref_flag = false;
  fill_ptr = length text;
  process_ptr = 0;
}

-- A response of seven bytes with four bytes appended.
abbrev responding : Environment
responding = record zero_env {
  init_timeout = negsuc 0;
  response = text_buffer (1 ∷ 2 ∷ 3 ∷ 4 ∷ 5 ∷ 6 ∷ 7 ∷ []);
  append = some (text_buffer (8 ∷ 9 ∷ 10 ∷ 11 ∷ []));
}

abbrev marks_only : Hook
marks_only v = (v, success)

abbrev to_be_compressed : Environment
to_be_compressed = record responding { enable_response_compressing = 1 }

abbrev compressed : Environment
compressed = record responding { enable_response_compressing = 2; send_proc_flag = true }

abbrev text_sent : List ℕ
text_sent = 1 ∷ 2 ∷ 3 ∷ 4 ∷ 5 ∷ 6 ∷ 7 ∷ 8 ∷ 9 ∷ 10 ∷ 11 ∷ []

abbrev delivered_to : Environment
delivered_to = record responding {
  enable_response_compressing = 1;
  send_proc_flag = true;
  response = record (text_buffer (1 ∷ 2 ∷ 3 ∷ 4 ∷ 5 ∷ 6 ∷ 7 ∷ [])) { process_ptr = 7 };
  append = some (record (text_buffer (8 ∷ 9 ∷ 10 ∷ 11 ∷ [])) { process_ptr = 4 });
}

four_calls :
    Polls
      (λ s. s)
      (response_call three_at_a_time marks_only (some marks_only))
      []
      to_be_compressed
      text_sent
      delivered_to
      success
unfolding send_http_response_nonblock send_once send_http_buffer send_when after_send after_buffer
    after_append
four_calls =
    called_again refl refl (called_again refl refl (called_again refl refl (called_last refl)))

send_http_response_nonblock-Polls_example :
    (text_sent ++ pending response_buffer delivered_to ≡ [] ++ pending response_buffer compressed)
    × (success ≡ success → text_sent ≡ [] ++ pending response_buffer compressed)
send_http_response_nonblock-Polls_example =
    send_http_response_nonblock-Polls three_at_a_time (λ s. s) three-SendLaws marks_only
      (some marks_only) compressed refl (refl, inr refl) four_calls

send_http_response-Ended_example :
    Ended
      (λ s. s)
      response_buffer
      ([] ++ pending response_buffer responding)
      (send_http_response three_at_a_time marks_only none 12 [] responding)
send_http_response-Ended_example =
    send_http_response-Ended three_at_a_time (λ s. s) three-SendLaws three-TakesSome marks_only none
      12 [] responding responding refl (omega arith)

adjust_timeval-Adjusts_example :
    (sec' : ℕ) × (usec' : ℕ) × (adjust_timeval (time_of 60 0) (time_of 7 900000) (time_of 8 100000)
      ≡ time_of sec' usec')
    × (in_microseconds sec' usec' + (in_microseconds 8 100000 - in_microseconds 7 900000)
        ≡ in_microseconds 60 0)
adjust_timeval-Adjusts_example =
    adjust_timeval-Adjusts 60 0 7 900000 8 100000 (omega arith) (omega arith) (omega arith)
      (omega arith) (omega arith) (omega arith)

-- Half a second is left, 0.6 seconds pass, and 0.9 seconds are left.
more_left_than_before :
    adjust_timeval (time_of 0 500000) (time_of 7 100000) (time_of 7 700000) ≡ time_of 0 900000
unfolding adjust_timeval carry_seconds hetao.Base.Int.◌+ℤ◌
more_left_than_before = refl

-- A socket that takes all.
abbrev all_at_once : Network (List ℕ)
all_at_once = record three_at_a_time { send = λ s bytes. (s ++ bytes, accepted (length bytes)) }

-- `SendHttpBuffer1` with three bytes to be sent: ten are.
three_sent_as_ten :
    send_http_buffer all_at_once offered_ten false [] responding (text_buffer (1 ∷ 2 ∷ 3 ∷ []))
    ≡ moved_to
        (1 ∷ 2 ∷ 3 ∷ 0 ∷ 0 ∷ 0 ∷ 0 ∷ 0 ∷ 0 ∷ 0 ∷ [])
        responding
        (record (text_buffer (1 ∷ 2 ∷ 3 ∷ [])) { process_ptr = 10 })
        success
unfolding send_http_buffer send_when after_send
three_sent_as_ten = refl
