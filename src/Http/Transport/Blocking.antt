-- ===== src/Http/Transport/Blocking.antt =====
-- The blocking functions of src/fasterhttp.c send a message to its end.
use hetao.Base.{
  ℕ, zero, suc, ◌+◌, ◌-◌, ◌≤◌, ◌<◌, ◌≡◌, refl, sym, ap, ◌∙◌, ◌≢◌, inl, inr, true, Option, none,
  some, List, [], ◌∷◌, ◌++◌, arith, ltb, leb, leb→gt, Bool-cases, length, take, length-append,
}
use hetao.Http.Environment.{Timeval, Environment}
use hetao.Http.Transport.{
  Readiness, ready, timed_out, wait_failed, Sent, accepted, send_blocked, send_failed, Network,
  unsent, offered_all, time_limit, with_time_left, Moved, moved_to, moved_undefined, moved_endless,
  clock, after_send, send_when, send_http_buffer,
}
use hetao.Http.Transport.Conserves.{Accepts, SendLaws, length-bytes_from, clock-wire}
use hetao.Http.Transport.Passes.{pending, Passes, Passes-marks, send_once-Passes}
use hetao.Http.Transport.Send.{
  buffer_at, with_buffer, has_unsent, Reply, replied, reply_undefined, reply_overflow,
  reply_endless, after_append, send_append, after_buffer, send_once, Hook, prepare, note_head,
  while_blocked, send_loop, send_http_request, send_http_response,
}
use hetao.Http.Types.{
  HttpBuffer, BufferName, request_buffer, response_buffer, Code, success, info_tcp_send_wouldblock,
}
use mathlib.Core.List.{append-nil}
use mathlib.Core.Path.{subst}

-- A socket that takes what it is offered in part at least, or fails.
abbrev pub Advances : Sent → Type 0
Advances (accepted n) = 0 < n
Advances send_blocked = ⊥
Advances send_failed = Unit {0}

-- As select says before each call: the socket can take at least one byte.
abbrev pub TakesSome {ℓ} : {S : Type ℓ} → Network S → Type ℓ
TakesSome {S} net = (s : S) (bytes : List ℕ) → 0 < length bytes → Advances (net.send s bytes).1

pub length-take : (n : ℕ) (xs : List ℕ) → n ≤ length xs → length (take n xs) ≡ n
length-take zero xs h = refl
length-take (suc n) [] h = elim h [ ]
length-take (suc n) (x ∷ xs) h = ap suc (length-take n xs (omega arith))

-- The peer is not sent less than before; where the function is to be called again, it is sent more.
abbrev pub Longer : ℕ → ℕ → Code → Type 0
Longer m n c = (m ≤ n) × (c ≡ info_tcp_send_wouldblock → m < n)

module _ {ℓ} {S : Type ℓ} (wire : S → List ℕ) where
  abbrev pub Lengthens : ℕ → Moved S → Type 0
  Lengthens m (moved_to s v b c) = Longer m (length (wire s)) c
  Lengthens m moved_undefined = ⊥
  Lengthens m moved_endless = ⊥

  abbrev pub Replies : ℕ → Reply S → Type 0
  Replies m (replied s v c) = Longer m (length (wire s)) c
  Replies m reply_undefined = ⊥
  Replies m (reply_overflow s u) = ⊥
  Replies m reply_endless = ⊥

  Replies-le : (m n : ℕ) (r : Reply S) → m ≤ n → Replies n r → Replies m r
  Replies-le m n (replied t w c) l h = (omega (arith, h.0), λ e. omega (arith, h.1 e))
  Replies-le m n reply_undefined l h = h
  Replies-le m n (reply_overflow s u) l h = h
  Replies-le m n reply_endless l h = h

  -- A reply that is not to be waited for, with nothing lost, and on success nothing pending.
  abbrev pub Ended : BufferName → List ℕ → Reply S → Type 0
  Ended name total (replied s w c) =
      (wire s ++ pending name w ≡ total)
      × (c ≡ success → wire s ≡ total)
      × (c ≢ info_tcp_send_wouldblock)
  Ended name total reply_undefined = ⊥
  Ended name total (reply_overflow s u) = ⊥
  Ended name total reply_endless = ⊥

module _ {ℓ} {S : Type ℓ} (net : Network S) (wire : S → List ℕ) (laws : SendLaws net wire)
    (takes : TakesSome net) where
  after_send-Lengthens :
      (t1 : Timeval) (v : Environment) (b : HttpBuffer) (s : S) (r : Sent) (before : List ℕ)
      → Advances r
      → Accepts before (unsent b) (wire s) r
      → Lengthens wire (length before) (after_send net t1 v b (s, r))
  unfolding after_send
  after_send-Lengthens t1 v b s (accepted n) before h (l, e) =
      let longer : length (wire (clock net s v).0) ≡ length before + n =
        ap length (clock-wire net wire laws s v ∙ e)
        ∙ length-append before (take n (unsent b))
        ∙ ap (λ k. length before + k) (length-take n (unsent b) l) in
      (omega (arith, longer), λ _. omega (arith, longer))
  after_send-Lengthens t1 v b s send_blocked before h a = elim h [ ]
  after_send-Lengthens t1 v b s send_failed before h a = (rw a (omega arith), λ e. cc)

  send_when-Lengthens :
      (t1 : Timeval) (v : Environment) (b : HttpBuffer) (s : S) (r : Readiness)
      → 0 < length (unsent b)
      → Lengthens wire (length (wire s)) (send_when net offered_all t1 b (s, v, r))
  unfolding send_when
  send_when-Lengthens t1 v b s ready l =
      after_send-Lengthens t1 v b _ _ (wire s) (takes s (unsent b) l) (laws.send_wire s (unsent b))
  send_when-Lengthens t1 v b s timed_out l = (omega arith, λ e. cc)
  send_when-Lengthens t1 v b s wait_failed l = (omega arith, λ e. cc)

  send_http_buffer-Lengthens :
      (s : S) (v : Environment) (b : HttpBuffer)
      → Lengthens wire (length (wire s)) (send_http_buffer net offered_all true s v b)
  unfolding send_http_buffer
  send_http_buffer-Lengthens s v b = elim (Bool-cases (leb b.fill_ptr b.process_ptr)) [
    | inl e ↦ rw e (omega arith, λ h. cc)
    | inr e ↦
        let (s1, t1) = clock net s v in
        let (s2, r, t) = net.wait_writable s1 (time_limit v) in
        rw e (
          subst
            (λ x.
              Lengthens wire (length x)
                (send_when net offered_all t1 b (s2, with_time_left v t, r)))
            (laws.wait_wire s1 (time_limit v) ∙ clock-wire net wire laws s v)
            (send_when-Lengthens t1 (with_time_left v t) b s2 r (
              omega (
                arith,
                leb→gt _ _ e,
                length-bytes_from b.base b.process_ptr (b.fill_ptr - b.process_ptr),
              ))))
  ]

  after_append-Replies :
      (m : ℕ) (r : Moved S)
      → Lengthens wire m r
      → Replies wire m (after_append net offered_all true r)
  unfolding after_append
  after_append-Replies m (moved_to s v a c) h = h
  after_append-Replies m moved_undefined h = h
  after_append-Replies m moved_endless h = h

  send_append-Replies :
      (m : ℕ) (s : S) (v : Environment) (o : Option HttpBuffer)
      → m ≤ length (wire s)
      → Replies wire m (send_append net offered_all true s v o)
  send_append-Replies m s v none l = (l, λ e. cc)
  send_append-Replies m s v (some a) l =
      Replies-le wire m (length (wire s)) _ l
        (after_append-Replies (length (wire s)) _ (send_http_buffer-Lengthens s v a))

  after_buffer-Replies :
      (m : ℕ) (name : BufferName) (r : Moved S)
      → Lengthens wire m r
      → Replies wire m (after_buffer net offered_all true name r)
  unfolding after_buffer
  after_buffer-Replies m name (moved_to s v b success) h =
      send_append-Replies m s (with_buffer name v b) v.append h.0
  after_buffer-Replies m name (moved_to s v b c) h = h
  after_buffer-Replies m name moved_undefined h = h
  after_buffer-Replies m name moved_endless h = h

  send_once-Replies :
      (name : BufferName) (s : S) (v : Environment)
      → Replies wire (length (wire s)) (send_once net offered_all true name s v)
  unfolding send_once
  send_once-Replies name s v =
      let b = buffer_at name v in
      elim (Bool-cases (ltb b.process_ptr b.fill_ptr)) [
        | inl e ↦ rw e (after_buffer-Replies _ name _ (send_http_buffer-Lengthens s v b))
        | inr e ↦ elim (Bool-cases (has_unsent v.append)) [
          | inl more ↦ rw (e, more) (send_append-Replies _ s v v.append (omega arith))
          | inr fewer ↦ rw (e, fewer) (omega arith, λ h. cc)
        ]
      ]

  while_blocked-Ended :
      (name : BufferName) (total : List ℕ) (m : ℕ) (v : Environment)
      (go_on : S → Environment → Reply S) (r : Reply S)
      → Passes wire name total v r
      → Replies wire m r
      → ((s : S) (w : Environment)
          → wire s ++ pending name w ≡ total
          → m < length (wire s)
          → Ended wire name total (go_on s w))
      → Ended wire name total (while_blocked net go_on r)
  while_blocked-Ended name total m v go_on (replied s w info_tcp_send_wouldblock) p h rest =
      rest s w p.0 (h.1 refl)
  while_blocked-Ended name total m v go_on (replied s w c) (p, q, n) h rest =
      (p, λ e. sym (append-nil (wire s)) ∙ ap (λ x. wire s ++ x) (sym (q e)) ∙ p, λ e. cc)
  while_blocked-Ended name total m v go_on reply_undefined p h rest = p
  while_blocked-Ended name total m v go_on (reply_overflow s u) p h rest = p
  while_blocked-Ended name total m v go_on reply_endless p h rest = p

  send_loop-Ended :
      (name : BufferName) (k : ℕ) (s : S) (v : Environment) (total : List ℕ)
      → wire s ++ pending name v ≡ total
      → length total < k + length (wire s)
      → Ended wire name total (send_loop net name k s v)
  unfolding send_loop
  send_loop-Ended name zero s v total e l =
      absurd (omega (arith, length-append (wire s) (pending name v), ap length e))
  send_loop-Ended name (suc k) s v total e l =
      while_blocked-Ended name total (length (wire s)) v (send_loop net name k) _
        (Passes-marks wire name _ total v v _ (refl, refl) e
          (send_once-Passes net wire laws true name s v))
        (send_once-Replies name s v)
        (λ s' w e' l'. send_loop-Ended name k s' w total e' (omega arith))

  -- SendHttpResponse, from a state where what is to be done before sending ends in `u`, with a
  -- socket that takes at least one byte each time that it is waited for: with more rounds than there
  -- are bytes to be sent it comes to an end, and does not return that the socket would block; what
  -- the peer has been sent and what is left unsent are together the bytes that it had been sent
  -- before and those of the response and of the appended buffer, in this order and each once, and
  -- where it returns 0 the peer has been sent all of them.
  pub send_http_response-Ended :
      (compress : Hook) (before_send : Option Hook) (k : ℕ) (s : S) (v u : Environment)
      → prepare (λ w. w) (λ w. w) compress before_send v ≡ (u, success)
      → length (pending response_buffer u) < k
      → Ended wire response_buffer
          (wire s ++ pending response_buffer u)
          (send_http_response net compress before_send k s v)
  unfolding send_http_response
  send_http_response-Ended compress before_send k s v u h l = rw h (
      send_loop-Ended response_buffer k s u _ refl
        (omega (arith, length-append (wire s) (pending response_buffer u))))

  -- The same of SendHttpRequest.
  pub send_http_request-Ended :
      (compress : Hook) (before_send : Option Hook) (k : ℕ) (s : S) (v u : Environment)
      → prepare (λ w. w) (λ w. w) compress before_send (note_head v) ≡ (u, success)
      → length (pending request_buffer u) < k
      → Ended wire request_buffer
          (wire s ++ pending request_buffer u)
          (send_http_request net compress before_send k s v)
  unfolding send_http_request
  send_http_request-Ended compress before_send k s v u h l = rw h (
      send_loop-Ended request_buffer k s u _ refl
        (omega (arith, length-append (wire s) (pending request_buffer u))))
