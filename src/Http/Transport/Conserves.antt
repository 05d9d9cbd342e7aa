-- ===== src/Http/Transport/Conserves.antt =====
-- What the sending of src/fasterhttp.c does to the bytes that are still to be sent.
use hetao.Base.{
  ℕ, zero, suc, ◌+◌, ◌-◌, ◌≤◌, ◌≡◌, refl, ap, ◌∙◌, inl, inr, Bool, true, false, Option, List, [],
  ◌∷◌, ◌++◌, arith, leb, Bool-cases, length, take,
}
use hetao.Http.Environment.{Timeval, Environment}
use hetao.Http.Transport.{
  Readiness, ready, timed_out, wait_failed, Sent, accepted, send_blocked, send_failed, Network,
  adjust_timeval, bytes_from, unsent, offered_all, has_time_limit, time_limit, with_time_left,
  Moved, moved_to, moved_undefined, moved_endless, clock, time_passed, waited, after_send,
  send_when, send_http_buffer,
}
use hetao.Http.Types.{Memory, HttpBuffer, success}
use mathlib.Core.List.{append_assoc}
use mathlib.Core.Path.{subst}

-- What the peer has been sent before and after a call of `send`.
abbrev pub Accepts : List ℕ → List ℕ → List ℕ → Sent → Type 0
Accepts before bytes after (accepted n) = (n ≤ length bytes) × (after ≡ before ++ take n bytes)
Accepts before bytes after send_blocked = after ≡ before
Accepts before bytes after send_failed = after ≡ before

-- `wire s` is what has been accepted for the peer. Only `send` adds to it, a first part of what it
-- is offered.
pub record SendLaws {ℓ} {S : Type ℓ} (net : Network S) (wire : S → List ℕ) : Type ℓ where
  pub now_wire : (s : S) → wire (net.now s).0 ≡ wire s
  pub wait_wire : (s : S) (t : Option Timeval) → wire (net.wait_writable s t).0 ≡ wire s
  pub send_wire :
      (s : S) (bytes : List ℕ)
      → Accepts (wire s) bytes (wire (net.send s bytes).0) (net.send s bytes).1

pub length-bytes_from : (base : Memory) (p n : ℕ) → length (bytes_from base p n) ≡ n
length-bytes_from base p zero = refl
length-bytes_from base p (suc n) = ap suc (length-bytes_from base (suc p) n)

-- What `k` bytes leave of `n`.
take-bytes_from :
    (base : Memory) (p n k : ℕ)
    → k ≤ n
    → take k (bytes_from base p n) ++ bytes_from base (p + k) (n - k) ≡ bytes_from base p n
take-bytes_from base p n zero l =
    let here : p + 0 ≡ p = omega arith in let rest : n - 0 ≡ n = omega arith in rw (here, rest)
take-bytes_from base p zero (suc k) l = elim l [ ]
take-bytes_from base p (suc n) (suc k) l =
    let here : p + suc k ≡ suc p + k = omega arith in
    let rest : suc n - suc k ≡ n - k = omega arith in
    rw (here, rest) (ap (λ bytes. base p ∷ bytes) (take-bytes_from base (suc p) n k (omega arith)))

take-unsent :
    (b : HttpBuffer) (k : ℕ)
    → k ≤ b.fill_ptr - b.process_ptr
    → take k (unsent b) ++ unsent (record b { process_ptr = b.process_ptr + k }) ≡ unsent b
take-unsent b k l =
    let rest : b.fill_ptr - (b.process_ptr + k) ≡ b.fill_ptr - b.process_ptr - k = omega arith in
    rw rest (take-bytes_from b.base b.process_ptr (b.fill_ptr - b.process_ptr) k l)

pub unsent-done : (b : HttpBuffer) → leb b.fill_ptr b.process_ptr ≡ true → unsent b ≡ []
unsent-done b h =
    ap (bytes_from b.base b.process_ptr)
      (let none_left : b.fill_ptr - b.process_ptr ≡ 0 = ground arith in none_left)

-- Only the time left may differ.
abbrev pub SameButTime : Environment → Environment → Type 0
SameButTime v w = w ≡ record v { timeout = w.timeout }

pub time_passed-SameButTime {ℓ} :
    {S : Type ℓ} (net : Network S) (v w : Environment) (t1 t2 : Timeval)
    → SameButTime v w
    → SameButTime v (time_passed net w t1 t2)
time_passed-SameButTime net v w t1 t2 h = elim (Bool-cases (has_time_limit w)) [
  | inl e ↦ rw e (
      ap {A = Environment} {B = Environment}
        (λ x. record x { timeout = adjust_timeval w.timeout t1 t2 }) h)
  | inr e ↦ rw e h
]

pub with_time_left-SameButTime :
    (v : Environment) (t : Timeval) → SameButTime v (with_time_left v t)
with_time_left-SameButTime v t = elim (Bool-cases v.wait_limited) [ inl e ↦ rw e | inr e ↦ rw e ]

module _ {ℓ} {S : Type ℓ} (wire : S → List ℕ) where
  -- All that was sent or unsent still is, in the same order; on success none is left unsent.
  abbrev pub SendsOn : List ℕ → Environment → HttpBuffer → Moved S → Type 0
  SendsOn total v b (moved_to s w c code) =
      SameButTime v w × (wire s ++ unsent c ≡ total) × (code ≡ success → unsent c ≡ [])
  SendsOn total v b moved_undefined = ⊥
  SendsOn total v b moved_endless = ⊥

module _ {ℓ} {S : Type ℓ} (net : Network S) (wire : S → List ℕ) (laws : SendLaws net wire) where
  pub clock-wire : (s : S) (v : Environment) → wire (clock net s v).0 ≡ wire s
  clock-wire s v = elim (Bool-cases (has_time_limit v)) [
    | inl e ↦ rw e (laws.now_wire s)
    | inr e ↦ rw e
  ]

  after_send-SendsOn :
      (t1 : Timeval) (v w : Environment) (b : HttpBuffer) (s : S) (r : Sent) (before : List ℕ)
      → SameButTime v w
      → Accepts before (unsent b) (wire s) r
      → SendsOn wire (before ++ unsent b) v b (after_send net t1 w b (s, r))
  unfolding after_send
  after_send-SendsOn t1 v w b s (accepted n) before h a = (
    time_passed-SameButTime net v w t1 _ h,
    ap (λ x. x ++ unsent (record b { process_ptr = b.process_ptr + n })) (clock-wire s w ∙ a.1)
        ∙ append_assoc before (take n (unsent b)) _
        ∙ ap (λ x. before ++ x)
            (take-unsent b n (rw (length-bytes_from b.base b.process_ptr _) at a.0)),
    λ e. unsent-done (record b { process_ptr = b.process_ptr + n }) (ground (arith, e)),
  )
  after_send-SendsOn t1 v w b s send_blocked before h a = (h, ap (λ x. x ++ unsent b) a, λ e. cc)
  after_send-SendsOn t1 v w b s send_failed before h a = (h, ap (λ x. x ++ unsent b) a, λ e. cc)

  send_when-SendsOn :
      (t1 : Timeval) (v w : Environment) (b : HttpBuffer) (s : S) (r : Readiness)
      → SameButTime v w
      → SendsOn wire (wire s ++ unsent b) v b (send_when net offered_all t1 b (s, w, r))
  unfolding send_when
  send_when-SendsOn t1 v w b s ready h =
      after_send-SendsOn t1 v w b _ _ (wire s) h (laws.send_wire s (unsent b))
  send_when-SendsOn t1 v w b s timed_out h = (h, refl, λ e. cc)
  send_when-SendsOn t1 v w b s wait_failed h = (h, refl, λ e. cc)

  waited-SendsOn :
      (wait_flag : Bool) (t1 : Timeval) (v : Environment) (b : HttpBuffer) (s : S)
      → SendsOn wire
          (wire s ++ unsent b)
          v
          b
          (send_when net offered_all t1 b (waited net net.wait_writable wait_flag s v))
  waited-SendsOn false t1 v b s = send_when-SendsOn t1 v v b s ready refl
  waited-SendsOn true t1 v b s =
      let (s', r, t) = net.wait_writable s (time_limit v) in
      subst
        (λ x.
          SendsOn wire (x ++ unsent b) v b
            (send_when net offered_all t1 b (s', with_time_left v t, r)))
        (laws.wait_wire s (time_limit v))
        (send_when-SendsOn t1 v (with_time_left v t) b s' r (with_time_left-SameButTime v t))

  pub send_http_buffer-SendsOn :
      (wait_flag : Bool) (s : S) (v : Environment) (b : HttpBuffer)
      → SendsOn wire (wire s ++ unsent b) v b (send_http_buffer net offered_all wait_flag s v b)
  unfolding send_http_buffer
  send_http_buffer-SendsOn wait_flag s v b = elim (Bool-cases (leb b.fill_ptr b.process_ptr)) [
    | inl e ↦ rw e (refl, refl, λ _. unsent-done b e)
    | inr e ↦ rw e (
        subst
          (λ x. SendsOn wire (x ++ unsent b) v b (
            send_when net offered_all (clock net s v).1 b
              (waited net net.wait_writable wait_flag (clock net s v).0 v)))
          (clock-wire s v) (waited-SendsOn wait_flag (clock net s v).1 v b (clock net s v).0))
  ]
