-- ===== src/Http/Transport/Fills.antt =====
-- What `ReceiveHttpBuffer` (src/fasterhttp.c) receives is in the buffer, behind what was there.
use hetao.Base.{
  ℕ, ◌+◌, ◌-◌, ◌≤◌, ◌<◌, ◌≡◌, refl, sym, ◌∙◌, ◌⊎◌, inl, inr, Bool, true, false, ◌&&◌, Option, List,
  [], ◌∷◌, ◌++◌, arith, ltb, ◌==◌, Bool-cases, length,
}
use hetao.Http.Buffer.{Result, returned, undefined_result, overrun, endless, bound_int, rounds}
use hetao.Http.Buffer.Append.{Appended, append_bytes-Appended}
use hetao.Http.Buffer.Room.{CanGrow, Keeps, Ends, make_room-HasRoom, Plenty-rounds, make_room-ends}
use hetao.Http.Environment.{Timeval, Environment}
use hetao.Http.Environment.Reset.{Fits}
use hetao.Http.Transport.{
  Readiness, ready, timed_out, wait_failed, Received, delivered, receive_blocked, connection_reset,
  receive_failed, Network, has_time_limit, time_limit, with_time_left, Moved, moved_to,
  moved_undefined, moved_endless, clock, waited, after_recv, recv_when, recv_into,
  receive_http_buffer,
}
use hetao.Http.Transport.Conserves.{
  SameButTime, time_passed-SameButTime, with_time_left-SameButTime,
}
use hetao.Http.Types.{HttpBuffer, Code, success, error_alloc}
use mathlib.Core.List.{append-nil}
use mathlib.Core.Path.{subst}

-- What has arrived from the peer before and after a call of `recv` for at most `n` bytes.
abbrev pub Delivers : List ℕ → ℕ → List ℕ → Received → Type 0
Delivers before n after (delivered bytes) = (length bytes ≤ n) × (after ≡ before ++ bytes)
Delivers before n after receive_blocked = after ≡ before
Delivers before n after connection_reset = after ≡ before
Delivers before n after receive_failed = after ≡ before

-- `inbox s` is what has been taken from the connection. Only `recv` adds to it.
pub record RecvLaws {ℓ} {S : Type ℓ} (net : Network S) (inbox : S → List ℕ) : Type ℓ where
  pub now_inbox : (s : S) → inbox (net.now s).0 ≡ inbox s
  pub wait_inbox : (s : S) (t : Option Timeval) → inbox (net.wait_readable s t).0 ≡ inbox s
  pub recv_inbox : (s : S) (n : ℕ) → Delivers (inbox s) n (inbox (net.recv s n).0) (net.recv s n).1

-- A buffer that owns its memory, of less than 2 GB, with its data and `process_ptr` inside.
pub record Owns (b : HttpBuffer) : Type 0 where
  pub grows : CanGrow b
  pub small : b.buf_size < bound_int
  pub fits : Fits b

-- `text` has been taken from the connection and stands behind the data.
pub record Takes (before : List ℕ) (b : HttpBuffer) (after : List ℕ) (c : HttpBuffer) : Type 0 where
  pub text : List ℕ
  pub taken : after ≡ before ++ text
  pub appended : Appended b text c
  pub owns : Owns c

module _ {ℓ} {S : Type ℓ} (inbox : S → List ℕ) where
  -- Nothing is claimed of a call whose allocator fails, or that needs more than 2 GB.
  abbrev pub Receives : List ℕ → Environment → HttpBuffer → Moved S → Type 0
  Receives before v b (moved_to s w c error_alloc) = Unit {0}
  Receives before v b (moved_to s w c code) = SameButTime v w × Takes before b (inbox s) c
  Receives before v b moved_undefined = Unit {0}
  Receives before v b moved_endless = ⊥

-- The buffer as `make_room` leaves it for the receiving.
abbrev pub Ready : HttpBuffer → HttpBuffer → Type 0
Ready b c = Keeps b c × CanGrow c × (c.buf_size < bound_int) × (b.fill_ptr + 1 < c.buf_size)

-- How much is asked for fits behind the data.
abbrev pub Modest : (HttpBuffer → ℕ) → Type 0
Modest room = (b : HttpBuffer) → b.fill_ptr + 1 < b.buf_size → room b ≤ b.buf_size - 1 - b.fill_ptr

module _ {ℓ} {S : Type ℓ} (net : Network S) (inbox : S → List ℕ) (laws : RecvLaws net inbox)
    (room : HttpBuffer → ℕ) (modest : Modest room) (b : HttpBuffer)
    (inside : b.process_ptr ≤ b.fill_ptr) where
  nothing_taken :
      (v w : Environment) (c : HttpBuffer)
      → Ready b c
      → {before after : List ℕ} → after ≡ before
      → Takes before b after c
  nothing_taken v w c (k, g, s, r) {before} e = record {
    text = [];
    taken = e ∙ sym (append-nil before);
    appended = record {
      same = k.same;
      holds = λ j l. elim l [ ];
      fill = omega (arith, k.fill);
      process = k.process;
      room = omega (arith, k.fill);
    };
    owns = record {
      grows = g;
      small = s;
      fits = record {
        fill_lt = omega (arith, k.fill);
        process_le = omega (arith, k.fill, k.process);
      };
    };
  }

  recv_clock : (s : S) (v : Environment) → inbox (clock net s v).0 ≡ inbox s
  recv_clock s v = elim (Bool-cases (has_time_limit v)) [
    | inl e ↦ rw e (laws.now_inbox s)
    | inr e ↦ rw e
  ]

  after_recv-Receives :
      (t1 : Timeval) (v w : Environment) (c : HttpBuffer) (s : S) (r : Received) (before : List ℕ)
      → Ready b c
      → SameButTime v w
      → Delivers before (room c) (inbox s) r
      → Receives inbox before v b (after_recv net t1 w c (s, r))
  unfolding after_recv
  after_recv-Receives t1 v w c s (delivered []) before k h (l, e) =
      (h, nothing_taken v w c k (e ∙ append-nil before))
  after_recv-Receives t1 v w c s (delivered (x ∷ xs)) before (k, g, small, r) h (l, e) =
      let text : List ℕ = x ∷ xs in
      let bound : c.fill_ptr + 1 < c.buf_size = omega (arith, k.fill) in
      let reach : b.fill_ptr + length text < c.buf_size = omega (arith, modest c bound, k.fill) in
      (
        time_passed-SameButTime net v w t1 _ h,
        record {
          text = text;
          taken = recv_clock s w ∙ e;
          appended = append_bytes-Appended (λ _. true) b text c k reach;
          owns = record {
            grows = record { owned = g.owned; not_empty = g.not_empty };
            small = small;
            fits = record {
              fill_lt = omega (arith, k.fill);
              process_le = omega (arith, k.fill, k.process);
            };
          };
        },
      )
  after_recv-Receives t1 v w c s receive_blocked before k h e = (h, nothing_taken v w c k e)
  after_recv-Receives t1 v w c s connection_reset before k h e = (h, nothing_taken v w c k e)
  after_recv-Receives t1 v w c s receive_failed before k h e = (h, nothing_taken v w c k e)

  recv_when-Receives :
      (t1 : Timeval) (v w : Environment) (c : HttpBuffer) (s : S) (r : Readiness)
      → Ready b c
      → SameButTime v w
      → Receives inbox (inbox s) v b (recv_when net room t1 c (s, w, r))
  unfolding recv_when
  recv_when-Receives t1 v w c s ready k h =
      after_recv-Receives t1 v w c _ _ (inbox s) k h (laws.recv_inbox s (room c))
  recv_when-Receives t1 v w c s timed_out k h = (h, nothing_taken v w c k refl)
  recv_when-Receives t1 v w c s wait_failed k h = (h, nothing_taken v w c k refl)

  recv_waited-Receives :
      (wait_flag : Bool) (t1 : Timeval) (v : Environment) (c : HttpBuffer) (s : S)
      → Ready b c
      → Receives inbox
          (inbox s)
          v
          b
          (recv_when net room t1 c (waited net net.wait_readable wait_flag s v))
  recv_waited-Receives false t1 v c s k = recv_when-Receives t1 v v c s ready k refl
  recv_waited-Receives true t1 v c s k =
      let (s', r, t) = net.wait_readable s (time_limit v) in
      subst (λ x. Receives inbox x v b (recv_when net room t1 c (s', with_time_left v t, r)))
        (laws.wait_inbox s (time_limit v))
        (recv_when-Receives t1 v (with_time_left v t) c s' r k (with_time_left-SameButTime v t))

  recv_into-Receives :
      (wait_flag : Bool) (s : S) (v : Environment) (r : Result)
      → Ends (λ c. Keeps b c × CanGrow c × (b.fill_ptr + 1 < c.buf_size)) r
      → ((c : HttpBuffer) (code : Code)
          → r ≡ returned c code
          → ((code ≡ success) × (c.buf_size < bound_int)) ⊎ (code ≡ error_alloc))
      → Receives inbox (inbox s) v b (recv_into net room wait_flag s v r)
  unfolding recv_into
  recv_into-Receives wait_flag s v (returned c success) (k, g, l) codes =
      let (s', t1) = clock net s v in
      let small : c.buf_size < bound_int = elim (codes c success refl) [
        | inl (_, small) ↦ small
        | inr e ↦ cc e
      ] in
      subst
        (λ x.
          Receives inbox x v b
            (recv_when net room t1 c (waited net net.wait_readable wait_flag s' v)))
        (recv_clock s v) (recv_waited-Receives wait_flag t1 v c s' (k, g, small, l))
  recv_into-Receives wait_flag s v (returned c error_alloc) h codes = tt
  recv_into-Receives wait_flag s v (returned c code) h codes = elim (codes c code refl) [
    | inl (e, _) ↦ absurd (cc e)
    | inr e ↦ absurd (cc e)
  ]
  recv_into-Receives wait_flag s v undefined_result h codes = tt
  recv_into-Receives wait_flag s v overrun h codes = elim h [ ]
  recv_into-Receives wait_flag s v endless h codes = h

  unchanged : (v : Environment) (s : S) → Owns b → Takes (inbox s) b (inbox s) b
  unchanged v s o = record {
    text = [];
    taken = sym (append-nil (inbox s));
    appended = record {
      same = λ i l. refl;
      holds = λ j l. elim l [ ];
      fill = omega arith;
      process = refl;
      room = o.fits.fill_lt;
    };
    owns = o;
  }

  -- `ReceiveHttpBuffer` (and `ReceiveHttpBuffer1`) on a buffer that owns its memory: it comes to an
  -- end, and unless the buffer would grow to 2 GB or an allocation fails, exactly the bytes that
  -- were taken from the connection stand behind the old data, in their order; the old data and
  -- `process_ptr` are unchanged, and the data still ends inside the memory.
  pub receive_http_buffer-Receives :
      (malloc_succeeds : ℕ → Bool) (wait_flag : Bool) (s : S) (v : Environment)
      → Owns b
      → Receives inbox (inbox s) v b (receive_http_buffer net malloc_succeeds room wait_flag s v b)
  unfolding receive_http_buffer
  receive_http_buffer-Receives malloc_succeeds wait_flag s v o =
      elim (Bool-cases ((b.process_ptr == 0) && ltb b.process_ptr b.fill_ptr)) [
        | inl e ↦ rw e (refl, unchanged v s o)
        | inr e ↦ rw e (
            recv_into-Receives wait_flag s v _
              (make_room-HasRoom malloc_succeeds (b.fill_ptr + 1) rounds b o.grows o.small
                (Plenty-rounds b.buf_size o.grows.not_empty))
              (λ c code. make_room-ends malloc_succeeds rounds (b.fill_ptr + 1) b o.small))
      ]
