-- ===== src/Http/Buffer/Append.antt =====
-- What the functions that add to a buffer (src/fasterhttp.c) leave in it.
use hetao.Base.{ℕ, ◌+◌, ◌≤◌, ◌<◌, ◌≡◌, Bool, true, List, arith, length, get_or}
use hetao.Http.Buffer.{
  Result, returned, undefined_result, overrun, endless, bound_int, on_success, make_room, rounds,
  append_bytes, strcat_in_rounds, strcat_http_buffer,
}
use hetao.Http.Buffer.Room.{
  CanGrow, Keeps, Ends, make_room-HasRoom, Plenty-rounds, make_room-foreign,
}
use hetao.Http.Types.{HttpBuffer, success, failure}

-- `text` stands in `c` at `at`.
abbrev pub Holds : HttpBuffer → ℕ → List ℕ → Type 0
Holds c at text = (j : ℕ) → j < length text → c.base (at + j) ≡ get_or text j 0

-- `c` is `b` with `text` behind its data, and a byte to spare.
pub record Appended (b : HttpBuffer) (text : List ℕ) (c : HttpBuffer) : Type 0 where
  pub same : (i : ℕ) → i < b.fill_ptr → c.base i ≡ b.base i
  pub holds : Holds c b.fill_ptr text
  pub fill : c.fill_ptr ≡ b.fill_ptr + length text
  pub process : c.process_ptr ≡ b.process_ptr
  pub room : c.fill_ptr < c.buf_size

module _ (malloc_succeeds : ℕ → Bool) (b : HttpBuffer) where
  pub append_bytes-Appended :
      (text : List ℕ) (c : HttpBuffer)
      → Keeps b c
      → b.fill_ptr + length text < c.buf_size
      → Appended b text (append_bytes c text)
  append_bytes-Appended text c k r = record {
    same = λ i l. ground (arith, k.same i l, k.fill);
    holds = λ j l. ground (arith, k.fill);
    fill = ground (arith, k.fill);
    process = k.process;
    room = ground (arith, k.fill);
  }

  on_success-Ends :
      (P Q : HttpBuffer → Type 0) (r : Result) (go_on : HttpBuffer → Result)
      → Ends P r
      → ((c : HttpBuffer) → P c → Ends Q (go_on c))
      → Ends Q (on_success r go_on)
  on_success-Ends P Q (returned c success) go_on e h = h c e
  on_success-Ends P Q (returned c failure) go_on e h = tt
  on_success-Ends P Q (returned c _) go_on e h = tt
  on_success-Ends P Q undefined_result go_on e h = tt
  on_success-Ends P Q overrun go_on e h = elim e [ ]
  on_success-Ends P Q endless go_on e h = elim e [ ]

  -- `StrcatHttpBuffer` on a buffer of its own memory comes to an end; where it returns success the
  -- text stands behind the old data, which is unchanged, and `fill_ptr` stays inside the buffer.
  pub strcat_http_buffer-Appended :
      (text : List ℕ)
      → CanGrow b
      → b.buf_size < bound_int
      → Ends (Appended b text) (strcat_http_buffer malloc_succeeds b text)
  unfolding strcat_http_buffer strcat_in_rounds
  strcat_http_buffer-Appended text g small =
      on_success-Ends _ (Appended b text)
        (make_room malloc_succeeds rounds (b.fill_ptr + length text) b) _
        (make_room-HasRoom malloc_succeeds (b.fill_ptr + length text) rounds b g small
          (Plenty-rounds b.buf_size g.not_empty))
        (λ c (k, can, r). append_bytes-Appended text c k r)

  -- On a buffer that refers to foreign memory with too little room, `StrcatHttpBuffer` never
  -- returns: its loop uses up every number of rounds.
  pub strcat_http_buffer-foreign :
      (text : List ℕ) (k : ℕ)
      → b.ref_flag ≡ true
      → b.buf_size ≤ b.fill_ptr + length text
      → strcat_in_rounds k malloc_succeeds b text ≡ endless
  unfolding strcat_in_rounds
  strcat_http_buffer-foreign text k r h =
      rw (make_room-foreign malloc_succeeds k (b.fill_ptr + length text) b r h)
