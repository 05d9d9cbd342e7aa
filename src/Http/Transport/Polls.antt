-- ===== src/Http/Transport/Polls.antt =====
-- A response that a non-blocking function of src/fasterhttp.c sends in as many calls as it takes.
use hetao.Base.{
  ℕ, ◌≡◌, refl, sym, ap, ◌∙◌, ◌⊎◌, inl, inr, true, false, Option, none, some, List, [], ◌++◌, ◌==◌,
  Bool-cases,
}
use hetao.Http.Environment.{Environment}
use hetao.Http.Transport.{Network, offered_all}
use hetao.Http.Transport.Conserves.{SendLaws}
use hetao.Http.Transport.Passes.{pending, SameMarks, Passes, send_once-Passes}
use hetao.Http.Transport.Send.{
  Reply, replied, reply_undefined, reply_overflow, reply_endless, Hook, prepare, mark_compressed,
  mark_called, unmark_compressed, finish_nonblock, send_http_response_nonblock,
}
use hetao.Http.Types.{
  BufferName, request_buffer, response_buffer, other_buffer, Code, success,
  info_tcp_send_wouldblock,
}
use mathlib.Core.List.{append-nil}
use mathlib.Core.Path.{subst}

-- The calls of a function until one does not ask to be called again. Between two calls the event
-- loop does other things with the system.
pub data Polls {ℓ} {S : Type ℓ} (wire : S → List ℕ) (call : S → Environment → Reply S)
    : S → Environment → S → Environment → Code → Type ℓ where
  called_last :
      {s t : S} {v w : Environment} {c : Code}
      → call s v ≡ replied t w c
      → Polls wire call s v t w c
  called_again :
      {s s' s'' t : S} {v v' w : Environment} {c : Code}
      → call s v ≡ replied s' v' info_tcp_send_wouldblock
      → wire s'' ≡ wire s'
      → Polls wire call s'' v' t w c
      → Polls wire call s v t w c

-- Neither the compression nor the function to be called before sending is still to be run.
abbrev pub Prepared : Option Hook → Environment → Type 0
Prepared before_send v =
    ((v.enable_response_compressing == 1) ≡ false)
    × ((before_send ≡ none) ⊎ (v.send_proc_flag ≡ true))

Prepared-marks :
    (before_send : Option Hook) (v w : Environment)
    → SameMarks v w
    → Prepared before_send v
    → Prepared before_send w
Prepared-marks before_send v w m (e, inl h) = (ap (λ n. n == 1) m.0 ∙ e, inl h)
Prepared-marks before_send v w m (e, inr h) = (ap (λ n. n == 1) m.0 ∙ e, inr (m.1 ∙ h))

prepare-Prepared :
    (compress : Hook) (before_send : Option Hook) (v : Environment)
    → Prepared before_send v
    → prepare mark_compressed mark_called compress before_send v ≡ (v, success)
prepare-Prepared compress none v (e, h) = rw e
prepare-Prepared compress (some hook) v (e, inl h) = absurd (cc h)
prepare-Prepared compress (some hook) v (e, inr h) = rw (e, h)

pending-compressing :
    (name : BufferName) (w : Environment)
    → pending name (record w { enable_response_compressing = 1 }) ≡ pending name w
pending-compressing request_buffer w = refl
pending-compressing response_buffer w = refl
pending-compressing other_buffer w = refl

pending-unmark :
    (name : BufferName) (w : Environment) → pending name (unmark_compressed w) ≡ pending name w
pending-unmark name w = elim (Bool-cases (w.enable_response_compressing == 2)) [
  | inl e ↦ rw e (pending-compressing name w)
  | inr e ↦ rw e
]

module _ {ℓ} {S : Type ℓ} (wire : S → List ℕ) (name : BufferName) where
  -- As `Passes`, for a call that takes back its marks where it is done.
  abbrev pub Calls : List ℕ → Environment → Reply S → Type 0
  Calls total v (replied s w c) =
      (wire s ++ pending name w ≡ total)
      × (c ≡ success → pending name w ≡ [])
      × (c ≡ info_tcp_send_wouldblock → SameMarks v w)
  Calls total v reply_undefined = ⊥
  Calls total v (reply_overflow s u) = ⊥
  Calls total v reply_endless = ⊥

  finish_nonblock-Calls :
      (total : List ℕ) (v : Environment) (r : Reply S)
      → Passes wire name total v r
      → Calls total v (finish_nonblock r)
  finish_nonblock-Calls total v (replied s w success) (p, q, m) =
      (ap (λ x. wire s ++ x) (pending-unmark name w) ∙ p, λ e. pending-unmark name w ∙ q e, λ e. cc)
  finish_nonblock-Calls total v (replied s w c) (p, q, m) = (p, q, λ e. m)
  finish_nonblock-Calls total v reply_undefined p = p
  finish_nonblock-Calls total v (reply_overflow s u) p = p
  finish_nonblock-Calls total v reply_endless p = p

abbrev pub response_call {ℓ} :
    {S : Type ℓ} → Network S → Hook → Option Hook → S → Environment → Reply S
response_call net = send_http_response_nonblock net offered_all

module _ {ℓ} {S : Type ℓ} (net : Network S) (wire : S → List ℕ) (laws : SendLaws net wire)
    (compress : Hook) (before_send : Option Hook) where
  response_call-Calls :
      (s : S) (v u : Environment)
      → prepare mark_compressed mark_called compress before_send v ≡ (u, success)
      → Calls wire response_buffer
          (wire s ++ pending response_buffer u)
          u
          (response_call net compress before_send s v)
  unfolding send_http_response_nonblock
  response_call-Calls s v u h = rw h (
      finish_nonblock-Calls wire response_buffer _ u _
        (send_once-Passes net wire laws false response_buffer s u))

  pending-Polls :
      {s t : S} {v w : Environment} {c : Code} (u : Environment)
      → prepare mark_compressed mark_called compress before_send v ≡ (u, success)
      → Prepared before_send u
      → Polls wire (response_call net compress before_send) s v t w c
      → (wire t ++ pending response_buffer w ≡ wire s ++ pending response_buffer u)
        × (c ≡ success → pending response_buffer w ≡ [])
  pending-Polls {s} {v} u h p (called_last e) =
      let (q, r, m) = subst (Calls wire response_buffer _ u) e (response_call-Calls s v u h) in
      (q, r)
  pending-Polls {s} {v} u h p (called_again {v' = v'} e same rest) =
      let (q, r, m) = subst (Calls wire response_buffer _ u) e (response_call-Calls s v u h) in
      let p' = Prepared-marks before_send u v' (m refl) p in
      let (q', r') = pending-Polls v' (prepare-Prepared compress before_send v' p') p' rest in
      (q' ∙ ap (λ x. x ++ pending response_buffer v') same ∙ q, r')

  -- SendHttpResponseNonblock called again and again while the socket takes no more, from a state
  -- where what is to be done before sending ends in `u`, marked as done: however the socket cuts
  -- the response up, and whatever else happens between the calls, what the peer has been sent and
  -- what is still to be sent are together the bytes that it had been sent before and those of the
  -- response and of the appended buffer, in this order and each once; where the last call returns
  -- 0, the peer has been sent all of them.
  pub send_http_response_nonblock-Polls :
      {s t : S} {v w : Environment} {c : Code} (u : Environment)
      → prepare mark_compressed mark_called compress before_send v ≡ (u, success)
      → Prepared before_send u
      → Polls wire (response_call net compress before_send) s v t w c
      → (wire t ++ pending response_buffer w ≡ wire s ++ pending response_buffer u)
        × (c ≡ success → wire t ≡ wire s ++ pending response_buffer u)
  send_http_response_nonblock-Polls {t} u h p polls =
      let (q, r) = pending-Polls u h p polls in
      (q, λ e. sym (append-nil (wire t)) ∙ ap (λ x. wire t ++ x) (sym (r e)) ∙ q)
