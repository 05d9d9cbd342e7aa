-- ===== src/Http/Buffer/Print.antt =====
-- The printing functions on buffers in src/fasterhttp.c: one is bounded, two overrun.
use hetao.Base.{
  ℕ, zero, suc, ◌+◌, ◌-◌, ◌≤◌, ◌<◌, ◌≡◌, refl, ap, inl, inr, Bool, true, false, List, [], ◌∷◌, ◌++◌,
  arith, ltb, leb, ◌==◌, lt→ltb, leb→gt, gt→leb, Bool-cases, length, get_or, take, length-append,
}
use hetao.Http.Buffer.{
  returned, bound_int, grown_size, realloc_http_buffer, rounds, vsnprintf, print_loop,
  strcatf_http_buffer, strcatv_http_buffer, strcpyf_loop, strcpyf_http_buffer,
}
use hetao.Http.Buffer.Append.{Appended}
use hetao.Http.Buffer.Room.{
  CanGrow, Plenty, Plenty-grown_size, Ends, Grown, Ends-mono, Plenty-rounds,
}
use hetao.Http.Types.{Memory, HttpBuffer, success}

take-length : (text : List ℕ) (n : ℕ) → length text ≤ n → take n text ≡ text
take-length [] zero h = refl
take-length [] (suc n) h = refl
take-length (x ∷ text) zero h = elim h [ ]
take-length (x ∷ text) (suc n) h = ap (◌∷◌ x) (take-length text n (omega arith))

get_or-append : (xs ys : List ℕ) (j : ℕ) → j < length xs → get_or (xs ++ ys) j 0 ≡ get_or xs j 0
get_or-append [] ys j h = elim h [ ]
get_or-append (x ∷ xs) ys zero h = refl
get_or-append (x ∷ xs) ys (suc j) h = get_or-append xs ys j (omega arith)

vsnprintf-below :
    (base : Memory) (at room : ℕ) (text : List ℕ) (i : ℕ)
    → i < at
    → vsnprintf base at room text i ≡ base i
vsnprintf-below base at zero text i h = refl
vsnprintf-below base at (suc room) text i h = ground arith

vsnprintf-inside :
    (base : Memory) (at room : ℕ) (text : List ℕ) (j : ℕ)
    → length text < room
    → j < length text
    → vsnprintf base at room text (at + j) ≡ get_or text j 0
vsnprintf-inside base at zero text j h l = elim h [ ]
vsnprintf-inside base at (suc room) text j h l =
    let whole = take-length text room (omega arith) in
    let here : leb at (at + j) ≡ true = ground arith in
    let before : ltb (at + j) (at + length (text ++ 0 ∷ [])) ≡ true =
      lt→ltb _ _ (omega (arith, length-append {0} text (0 ∷ []))) in
    let back : at + j - at ≡ j = omega arith in
    rw (whole, here, before, back) (get_or-append text (0 ∷ []) j l)

module _ (malloc_succeeds : ℕ → Bool) (text : List ℕ) where
  abbrev Printed : HttpBuffer → HttpBuffer
  Printed b = record b { base = vsnprintf b.base b.fill_ptr (b.buf_size - 1 - b.fill_ptr) text }

  Printed-Appended :
      (b : HttpBuffer)
      → length text < b.buf_size - 1 - b.fill_ptr
      → Appended b text (record (Printed b) { fill_ptr = b.fill_ptr + length text })
  Printed-Appended b h = record {
    same = λ i l. vsnprintf-below b.base b.fill_ptr (b.buf_size - 1 - b.fill_ptr) text i l;
    holds = λ j l. vsnprintf-inside b.base b.fill_ptr (b.buf_size - 1 - b.fill_ptr) text j h l;
    fill = refl;
    process = refl;
    room = omega arith;
  }

  Appended-Grown :
      (b : HttpBuffer) (size : ℕ) (d : HttpBuffer)
      → Appended (Grown malloc_succeeds 0 (Printed b) size) text d
      → Appended b text d
  Appended-Grown b size d a = record {
    same = λ i l. ground (
      arith,
      a.same i l,
      vsnprintf-below b.base b.fill_ptr (b.buf_size - 1 - b.fill_ptr) text i l,
    );
    holds = a.holds;
    fill = a.fill;
    process = a.process;
    room = a.room;
  }

  print_loop-round :
      (k : ℕ) (b : HttpBuffer)
      → CanGrow b
      → b.fill_ptr < b.buf_size
      → (grown_size b.buf_size < bound_int
          → Ends (Appended b text) (
              print_loop leb malloc_succeeds k text
                (Grown malloc_succeeds 0 (Printed b) (grown_size b.buf_size))))
      → Ends (Appended b text) (print_loop leb malloc_succeeds (suc k) text b)
  unfolding print_loop realloc_http_buffer
  print_loop-round k b g l rest =
      let inside : leb b.buf_size b.fill_ptr ≡ false = gt→leb _ _ l in
      elim (Bool-cases (leb (b.buf_size - 1 - b.fill_ptr) (length text))) [
        | inl e ↦ elim (Bool-cases (leb bound_int (grown_size b.buf_size))) [
          | inl f ↦ ground (arith, g.owned)
          | inr f ↦ ground (arith, g.owned, rest (leb→gt _ _ f))
        ]
        | inr e ↦ rw (inside, e, Ends) (Printed-Appended b (leb→gt _ _ e))
      ]

  print_loop-Appended :
      (k : ℕ) (b : HttpBuffer)
      → CanGrow b
      → b.fill_ptr < b.buf_size
      → b.buf_size < bound_int
      → Plenty k b.buf_size
      → Ends (Appended b text) (print_loop leb malloc_succeeds k text b)
  print_loop-Appended zero b g f small (inl h) = absurd (omega arith)
  print_loop-Appended zero b g f small (inr h) = absurd (omega arith)
  print_loop-Appended (suc k) b g f small h =
      let c = Grown malloc_succeeds 0 (Printed b) (grown_size b.buf_size) in
      let can : CanGrow c = record { owned = g.owned; not_empty = ground (arith, g.not_empty) } in
      let fits : c.fill_ptr < c.buf_size = ground (arith, f, g.not_empty) in
      print_loop-round k b g f (λ l.
        Ends-mono malloc_succeeds 0 (Appended c text) (Appended b text)
          (print_loop leb malloc_succeeds k text c) (Appended-Grown b (grown_size b.buf_size))
          (print_loop-Appended k c can fits l (Plenty-grown_size k b.buf_size h)))

  -- `StrcatfHttpBuffer` on a buffer of its own memory of a size in the range of `int`, with
  -- `fill_ptr` inside the memory, comes to an end and writes nothing behind the memory; where it
  -- returns success the whole printed text stands behind the old data, which is unchanged, inside
  -- the buffer. Nothing is claimed where an allocation fails, or the size leaves that range.
  pub strcatf_http_buffer-Appended :
      (b : HttpBuffer)
      → CanGrow b
      → b.fill_ptr < b.buf_size
      → b.buf_size < bound_int
      → Ends (Appended b text) (strcatf_http_buffer malloc_succeeds b text)
  unfolding strcatf_http_buffer
  strcatf_http_buffer-Appended b g f small =
      print_loop-Appended rounds b g f small (Plenty-rounds b.buf_size g.not_empty)

  strcpyf_loop-success :
      (k : ℕ) (b : HttpBuffer)
      → 0 < b.buf_size
      → (length text == b.buf_size - 1) ≡ false
      → strcpyf_loop malloc_succeeds (suc k) text b
        ≡ returned
            (record b { base = vsnprintf b.base 0 (b.buf_size - 1) text; fill_ptr = length text })
            success
  unfolding strcpyf_loop
  strcpyf_loop-success k b n e = rw (gt→leb b.buf_size 0 n, e)

  print_loop-success :
      (is_full : ℕ → ℕ → Bool) (k : ℕ) (b : HttpBuffer)
      → b.fill_ptr < b.buf_size
      → is_full (b.buf_size - 1 - b.fill_ptr) (length text) ≡ false
      → print_loop is_full malloc_succeeds (suc k) text b
        ≡ returned (record (Printed b) { fill_ptr = b.fill_ptr + length text }) success
  unfolding print_loop
  print_loop-success is_full k b f e = rw (gt→leb b.buf_size b.fill_ptr f, e)

  -- A text longer than a non-empty buffer makes `StrcpyfHttpBuffer` return success with `fill_ptr`
  -- at or behind the end of the buffer, which has not grown.
  pub strcpyf_http_buffer-overruns :
      (b : HttpBuffer)
      → 0 < b.buf_size
      → b.buf_size ≤ length text
      → (c : HttpBuffer) × (strcpyf_http_buffer malloc_succeeds b text ≡ returned c success)
        × (b.buf_size ≤ c.fill_ptr)
        × (c.buf_size ≡ b.buf_size)
  unfolding strcpyf_http_buffer
  strcpyf_http_buffer-overruns b n h = (_, strcpyf_loop-success 63 b n (ground arith), h, refl)

  -- So does `StrcatvHttpBuffer`, where `fill_ptr` stands inside the buffer and the text is longer
  -- than the room left.
  pub strcatv_http_buffer-overruns :
      (b : HttpBuffer)
      → b.fill_ptr < b.buf_size
      → b.buf_size ≤ b.fill_ptr + length text
      → (c : HttpBuffer) × (strcatv_http_buffer malloc_succeeds b text ≡ returned c success)
        × (b.buf_size ≤ c.fill_ptr)
        × (c.buf_size ≡ b.buf_size)
  unfolding strcatv_http_buffer
  strcatv_http_buffer-overruns b f h =
      (_, print_loop-success (λ room len. room == len) 63 b f (ground arith), h, refl)
