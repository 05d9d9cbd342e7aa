-- ===== src/Http/Buffer/Room.antt =====
-- The loops that enlarge a buffer (src/fasterhttp.c) end, unless the buffer cannot grow.
use hetao.Base.{
  ℕ, zero, suc, ◌+◌, ◌-◌, ◌*◌, ◌^◌, ◌≤◌, ◌<◌, ◌≡◌, refl, ◌⊎◌, inl, inr, Bool, true, false, ◌||◌,
  arith, ltb, leb, leb→gt, gt→leb, Bool-cases,
}
use hetao.Http.Buffer.{
  Result, returned, undefined_result, overrun, endless, bound_int, zero_from, grown_size,
  realloc_http_buffer, make_room, rounds,
}
use hetao.Http.Types.{HttpBuffer, Code, success, failure, error_alloc}
use native.Mathlib.Nat.{pow-suc}

-- The buffer can grow: it owns its memory, which is not empty.
pub record CanGrow (b : HttpBuffer) : Type 0 where
  pub owned : b.ref_flag ≡ false
  pub not_empty : 0 < b.buf_size

-- The rounds left bring a size beyond the range of `int`: by steps of 100 MB, or first by doubling.
abbrev pub Plenty : ℕ → ℕ → Type 0
Plenty k size =
    ((100 * 1024 * 1024 < size) × (bound_int ≤ size + k * (100 * 1024 * 1024 - 1)))
    ⊎ ((d : ℕ) × (100 * 1024 * 1024 < size * 2 ^ d) × (d + 21 ≤ k))

pow_step :
    (size d : ℕ) → 100 * 1024 * 1024 < size * 2 ^ suc d → 100 * 1024 * 1024 < size * 2 * 2 ^ d
pow_step size d h = let h' : 100 * 1024 * 1024 < size * (2 ^ d * 2) = rw pow-suc at h in omega arith

pub Plenty-grown_size : (k size : ℕ) → Plenty (suc k) size → Plenty k (grown_size size)
Plenty-grown_size k size (inl (large, h)) = inl (ground arith, ground arith)
Plenty-grown_size k size (inr (zero, h, i)) =
    let large : 100 * 1024 * 1024 < size = omega arith in inl (ground arith, ground arith)
Plenty-grown_size k size (inr (suc d, h, i)) = elim (Bool-cases (leb size (100 * 1024 * 1024))) [
  | inl e ↦ rw e (inr (d, pow_step size d h, omega arith))
  | inr e ↦ inl (ground arith, ground arith)
]

-- What is left of a buffer with its data: where it goes on, the memory up to `fill_ptr` and the
-- pointers are as before.
pub record Keeps (b c : HttpBuffer) : Type 0 where
  pub same : (i : ℕ) → i < b.fill_ptr → c.base i ≡ b.base i
  pub fill : c.fill_ptr ≡ b.fill_ptr
  pub process : c.process_ptr ≡ b.process_ptr

-- A predicate on the buffer with which a function succeeds; it does not loop for ever, nor write
-- behind the memory.
abbrev pub Ends : (HttpBuffer → Type 0) → Result → Type 0
Ends P (returned b success) = P b
Ends P (returned b _) = Unit {0}
Ends P undefined_result = Unit {0}
Ends P overrun = ⊥
Ends P endless = ⊥

module _ (malloc_succeeds : ℕ → Bool) (n : ℕ) where
  -- The buffer as `ReallocHttpBuffer` leaves it.
  abbrev pub Grown : HttpBuffer → ℕ → HttpBuffer
  Grown b size = record b { buf_size = size; base = zero_from b.base b.fill_ptr; base_null = false }

  abbrev pub HasRoom : HttpBuffer → HttpBuffer → Type 0
  HasRoom b c = Keeps b c × CanGrow c × (n < c.buf_size)

  pub Ends-mono :
      (P Q : HttpBuffer → Type 0) (r : Result)
      → ((c : HttpBuffer) → P c → Q c)
      → Ends P r
      → Ends Q r
  Ends-mono P Q (returned c success) h e = h c e
  Ends-mono P Q (returned c failure) h e = tt
  Ends-mono P Q (returned c _) h e = tt
  Ends-mono P Q undefined_result h e = tt
  Ends-mono P Q overrun h e = elim e [ ]
  Ends-mono P Q endless h e = elim e [ ]

  Keeps-Grown : (b : HttpBuffer) (size : ℕ) → Keeps b (Grown b size)
  Keeps-Grown b size = record { same = λ i l. ground arith; fill = refl; process = refl }

  Keeps-trans : (b c : HttpBuffer) (size : ℕ) → Keeps (Grown b size) c → Keeps b c
  Keeps-trans b c size k = record {
    same = λ i l. ground (arith, k.same i l);
    fill = k.fill;
    process = k.process;
  }

  Grown-CanGrow : (b : HttpBuffer) → CanGrow b → CanGrow (Grown b (grown_size b.buf_size))
  Grown-CanGrow b g = record { owned = g.owned; not_empty = ground (arith, g.not_empty) }

  -- One round, given the rest of the loop on the larger buffer.
  round-HasRoom :
      (k : ℕ) (b : HttpBuffer)
      → CanGrow b
      → (grown_size b.buf_size < bound_int
          → Ends (HasRoom b) (make_room malloc_succeeds k n (Grown b (grown_size b.buf_size))))
      → Ends (HasRoom b) (make_room malloc_succeeds (suc k) n b)
  unfolding make_room realloc_http_buffer
  round-HasRoom k b g rest =
      let same : Keeps b b = record { same = λ i l. refl; fill = refl; process = refl } in
      elim (Bool-cases (leb bound_int (grown_size b.buf_size))) [
        | inl e ↦ ground (arith, g.owned)
        | inr e ↦ ground (arith, g.owned, rest (leb→gt _ _ e))
      ]

  pub make_room-HasRoom :
      (k : ℕ) (b : HttpBuffer)
      → CanGrow b
      → b.buf_size < bound_int
      → Plenty k b.buf_size
      → Ends (HasRoom b) (make_room malloc_succeeds k n b)
  unfolding make_room realloc_http_buffer
  make_room-HasRoom zero b g small (inl h) = omega arith
  make_room-HasRoom zero b g small (inr h) = omega arith
  make_room-HasRoom (suc k) b g small h =
      let c = Grown b (grown_size b.buf_size) in
      round-HasRoom k b g (λ l.
        Ends-mono (HasRoom c) (HasRoom b) (make_room malloc_succeeds k n c)
          (λ d (kept, can, room). (Keeps-trans b d (grown_size b.buf_size) kept, can, room))
          (make_room-HasRoom k c (Grown-CanGrow b g) l (Plenty-grown_size k b.buf_size h)))

pub Plenty-rounds : (size : ℕ) → 0 < size → Plenty rounds size
Plenty-rounds size h = inr (27, omega arith, omega arith)

-- A buffer that refers to foreign memory does not grow, and reports success: the loop goes on.
pub make_room-foreign :
    (malloc_succeeds : ℕ → Bool) (k n : ℕ) (b : HttpBuffer)
    → b.ref_flag ≡ true
    → b.buf_size ≤ n
    → make_room malloc_succeeds k n b ≡ endless
unfolding make_room realloc_http_buffer
make_room-foreign malloc_succeeds zero n b r h = refl
make_room-foreign malloc_succeeds (suc k) n b r h =
    simp (gt→leb (n + 1) b.buf_size (omega arith), r) (make_room-foreign malloc_succeeds k n b r h)

-- The loop succeeds, with a size in the range of `int`, or an allocation fails.
pub make_room-ends :
    (malloc_succeeds : ℕ → Bool) (k n : ℕ) (b : HttpBuffer) {c : HttpBuffer} {code : Code}
    → b.buf_size < bound_int
    → make_room malloc_succeeds k n b ≡ returned c code
    → ((code ≡ success) × (c.buf_size < bound_int)) ⊎ (code ≡ error_alloc)
unfolding make_room realloc_http_buffer
make_room-ends malloc_succeeds zero n b s e = cc e
make_room-ends malloc_succeeds (suc k) n b s e =
    let size = grown_size b.buf_size in
    let larger : HttpBuffer = record b {
      buf_size = size;
      base = zero_from b.base b.fill_ptr;
      base_null = false;
      ref_flag = false;
    } in
    elim (Bool-cases (leb (n + 1) b.buf_size)) [
      | inl t ↦ let e' = rw t at e in inl (cc e', ground arith)
      | inr t ↦ elim (Bool-cases b.ref_flag) [
        | inl r ↦
            make_room-ends malloc_succeeds k n (record b { ref_flag = true }) s (rw (t, r) at e)
        | inr r ↦ elim (Bool-cases (leb bound_int size)) [
          | inl l ↦ cc (rw (t, r, l) at e)
          | inr l ↦ elim (Bool-cases (malloc_succeeds size)) [
            | inl m ↦ elim (Bool-cases (ltb size b.fill_ptr || ltb b.buf_size b.fill_ptr)) [
              | inl f ↦ cc (rw (t, r, l, m, f) at e)
              | inr f ↦
                  make_room-ends malloc_succeeds k n larger (leb→gt _ _ l) (rw (t, r, l, m, f) at e)
            ]
            | inr m ↦ inr (cc (rw (t, r, l, m) at e))
          ]
        ]
      ]
    ]
