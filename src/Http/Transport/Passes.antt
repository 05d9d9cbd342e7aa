-- ===== src/Http/Transport/Passes.antt =====
-- One pass over a message's buffer and what is appended to it (src/fasterhttp.c) loses no byte.
use hetao.Base.{
  ℕ, ◌≡◌, refl, sym, ap, ◌∙◌, ◌≢◌, inl, inr, Bool, false, Option, none, some, List, [], ◌++◌, arith,
  ltb, le→leb, ltb→ge, Bool-cases,
}
use hetao.Http.Environment.{Environment}
use hetao.Http.Transport.{
  Network, unsent, offered_all, Moved, moved_to, moved_undefined, moved_endless, send_http_buffer,
}
use hetao.Http.Transport.Conserves.{
  SendLaws, unsent-done, SameButTime, SendsOn, send_http_buffer-SendsOn,
}
use hetao.Http.Transport.Send.{
  buffer_at, with_buffer, has_unsent, Reply, replied, reply_undefined, reply_overflow,
  reply_endless, after_append, send_append, after_buffer, send_once,
}
use hetao.Http.Types.{
  HttpBuffer, BufferName, request_buffer, response_buffer, other_buffer, Code, success,
}
use mathlib.Core.List.{append-nil, append_assoc}

abbrev pub unsent_append : Option HttpBuffer → List ℕ
unsent_append none = []
unsent_append (some a) = unsent a

-- What the peer is still to be sent of a message.
abbrev pub pending : BufferName → Environment → List ℕ
pending name v = unsent (buffer_at name v) ++ unsent_append v.append

-- The marks that a non-blocking function leaves for its next call.
abbrev pub SameMarks : Environment → Environment → Type 0
SameMarks v w =
    (w.enable_response_compressing ≡ v.enable_response_compressing)
    × (w.send_proc_flag ≡ v.send_proc_flag)

-- All that was sent or pending still is, in the same order; on success nothing is pending.
abbrev pub Passes {ℓ} :
    {S : Type ℓ} → (S → List ℕ) → BufferName → List ℕ → Environment → Reply S → Type 0
Passes wire name total v (replied s w c) =
    (wire s ++ pending name w ≡ total) × (c ≡ success → pending name w ≡ []) × SameMarks v w
Passes wire name total v reply_undefined = ⊥
Passes wire name total v (reply_overflow s u) = ⊥
Passes wire name total v reply_endless = ⊥

buffer_at-append :
    (name : BufferName) (v w : Environment) (o : Option HttpBuffer)
    → SameButTime v w
    → buffer_at name (record w { append = o }) ≡ buffer_at name v
buffer_at-append request_buffer v w o h = ap (λ x. x.request) h
buffer_at-append response_buffer v w o h = ap (λ x. x.response) h
buffer_at-append other_buffer v w o h = ap (λ x. x.response) h

pub buffer_at-with_buffer :
    (name : BufferName) (v : Environment) (b : HttpBuffer)
    → buffer_at name (with_buffer name v b) ≡ b
buffer_at-with_buffer request_buffer v b = refl
buffer_at-with_buffer response_buffer v b = refl
buffer_at-with_buffer other_buffer v b = refl

append-with_buffer :
    (name : BufferName) (v : Environment) (b : HttpBuffer)
    → (with_buffer name v b).append ≡ v.append
append-with_buffer request_buffer v b = refl
append-with_buffer response_buffer v b = refl
append-with_buffer other_buffer v b = refl

with_buffer-SameMarks :
    (name : BufferName) (v w : Environment) (b : HttpBuffer)
    → SameButTime v w
    → SameMarks v (with_buffer name w b)
with_buffer-SameMarks request_buffer v w b h =
    (ap (λ x. x.enable_response_compressing) h, ap (λ x. x.send_proc_flag) h)
with_buffer-SameMarks response_buffer v w b h =
    (ap (λ x. x.enable_response_compressing) h, ap (λ x. x.send_proc_flag) h)
with_buffer-SameMarks other_buffer v w b h =
    (ap (λ x. x.enable_response_compressing) h, ap (λ x. x.send_proc_flag) h)

pending-with_buffer :
    (name : BufferName) (v w : Environment) (c : HttpBuffer)
    → SameButTime v w
    → pending name (with_buffer name w c) ≡ unsent c ++ unsent_append v.append
pending-with_buffer name v w c h =
    ap (λ x. unsent x ++ unsent_append (with_buffer name w c).append)
      (buffer_at-with_buffer name w c)
    ∙ ap (λ x. unsent c ++ unsent_append x) (append-with_buffer name w c ∙ ap (λ x. x.append) h)

pub Passes-marks {ℓ} :
    {S : Type ℓ} (wire : S → List ℕ) (name : BufferName) (total total' : List ℕ) (v w : Environment)
    (r : Reply S)
    → SameMarks v w
    → total ≡ total'
    → Passes wire name total w r
    → Passes wire name total' v r
Passes-marks wire name total total' v w (replied s u c) m e (p, q, n) =
    (p ∙ e, q, (n.0 ∙ m.0, n.1 ∙ m.1))
Passes-marks wire name total total' v w reply_undefined m e p = p
Passes-marks wire name total total' v w (reply_overflow s u) m e p = p
Passes-marks wire name total total' v w reply_endless m e p = p

module _ {ℓ} {S : Type ℓ} (net : Network S) (wire : S → List ℕ) (laws : SendLaws net wire)
    (wait_flag : Bool) (name : BufferName) where
  after_append-Passes :
      (total : List ℕ) (v : Environment) (a : HttpBuffer) (m : Moved S)
      → unsent (buffer_at name v) ≡ []
      → SendsOn wire total v a m
      → Passes wire name total v (after_append net offered_all wait_flag m)
  unfolding after_append
  after_append-Passes total v a (moved_to s w a' c) empty (h, e, d) =
      let none_left : unsent (buffer_at name (record w { append = some a' })) ≡ [] =
        ap unsent (buffer_at-append name v w (some a') h) ∙ empty in
      (
        ap (λ x. wire s ++ (x ++ unsent a')) none_left ∙ e,
        λ ok. ap (λ x. x ++ unsent a') none_left ∙ d ok,
        (ap (λ x. x.enable_response_compressing) h, ap (λ x. x.send_proc_flag) h),
      )
  after_append-Passes total v a moved_undefined empty p = p
  after_append-Passes total v a moved_endless empty p = p

  send_append-Passes :
      (s : S) (v : Environment) (o : Option HttpBuffer)
      → v.append ≡ o
      → unsent (buffer_at name v) ≡ []
      → Passes wire name (wire s ++ unsent_append o) v (send_append net offered_all wait_flag s v o)
  send_append-Passes s v none e empty =
      let nothing : pending name v ≡ [] =
        ap (λ x. x ++ unsent_append v.append) empty ∙ ap unsent_append e in
      (ap (λ x. wire s ++ x) nothing, λ _. nothing, (refl, refl))
  send_append-Passes s v (some a) e empty =
      after_append-Passes (wire s ++ unsent a) v a
        (send_http_buffer net offered_all wait_flag s v a) empty
        (send_http_buffer-SendsOn net wire laws wait_flag s v a)

  blocked-Passes :
      (total : List ℕ) (v w : Environment) (s : S) (b c : HttpBuffer) (code : Code)
      → (code ≢ success)
      → SendsOn wire total v b (moved_to s w c code)
      → Passes wire name (total ++ unsent_append v.append) v (replied s (with_buffer name w c) code)
  blocked-Passes total v w s b c code bad (h, e, d) = (
    ap (λ x. wire s ++ x) (pending-with_buffer name v w c h)
        ∙ sym (append_assoc (wire s) (unsent c) _)
        ∙ ap (λ x. x ++ unsent_append v.append) e,
    λ ok. absurd (bad ok),
    with_buffer-SameMarks name v w c h,
  )

  after_buffer-Passes :
      (total : List ℕ) (v : Environment) (b : HttpBuffer) (m : Moved S)
      → SendsOn wire total v b m
      → Passes wire name
          (total ++ unsent_append v.append)
          v
          (after_buffer net offered_all wait_flag name m)
  unfolding after_buffer
  after_buffer-Passes total v b (moved_to s w c success) (h, e, d) =
      let kept : w.append ≡ v.append = ap (λ x. x.append) h in
      let sent_all : wire s ≡ total =
        sym (append-nil (wire s)) ∙ ap (λ x. wire s ++ x) (sym (d refl)) ∙ e in
      Passes-marks wire name _ _ v (with_buffer name w c) _ (with_buffer-SameMarks name v w c h)
        (ap (λ x. x ++ unsent_append w.append) sent_all ∙ ap (λ x. total ++ unsent_append x) kept)
        (send_append-Passes s (with_buffer name w c) w.append (append-with_buffer name w c)
          (ap unsent (buffer_at-with_buffer name w c) ∙ d refl))
  after_buffer-Passes total v b (moved_to s w c code) p =
      blocked-Passes total v w s b c code (λ h. cc) p
  after_buffer-Passes total v b moved_undefined p = p
  after_buffer-Passes total v b moved_endless p = p

  no_append : (o : Option HttpBuffer) → has_unsent o ≡ false → unsent_append o ≡ []
  no_append none h = refl
  no_append (some a) h = unsent-done a (ground arith)

  pub send_once-Passes :
      (s : S) (v : Environment)
      → Passes wire name (wire s ++ pending name v) v (send_once net offered_all wait_flag name s v)
  unfolding send_once
  send_once-Passes s v =
      let b = buffer_at name v in
      elim (Bool-cases (ltb b.process_ptr b.fill_ptr)) [
        | inl e ↦ rw e (
            Passes-marks wire name _ _ v v _ (refl, refl)
              (append_assoc (wire s) (unsent b) (unsent_append v.append))
              (after_buffer-Passes (wire s ++ unsent b) v b _
                (send_http_buffer-SendsOn net wire laws wait_flag s v b)))
        | inr e ↦
            let empty : unsent b ≡ [] = unsent-done b (le→leb _ _ (ltb→ge _ _ e)) in
            elim (Bool-cases (has_unsent v.append)) [
              | inl more ↦
                  rw (e, more)
                    (Passes-marks wire name _ _ v v _ (refl, refl)
                      (ap (λ x. wire s ++ (x ++ unsent_append v.append)) (sym empty))
                      (send_append-Passes s v v.append refl empty))
              | inr fewer ↦
                  rw (e, fewer)
                    (
                      refl,
                      λ _. ap (λ x. x ++ unsent_append v.append) empty ∙ no_append v.append fewer,
                      (refl, refl),
                    )
            ]
      ]
