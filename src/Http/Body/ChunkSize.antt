-- ===== src/Http/Body/ChunkSize.antt =====
-- The size of a chunk as the CHUNKED_SIZE step of `ParseHttpBuffer` (src/fasterhttp.c) reads it.
use hetao.Base.{
  ℕ, zero, suc, ◌+◌, ◌-◌, ◌*◌, ◌≤◌, ◌<◌, ◌≡◌, refl, ap, ◌∙◌, false, some, List, [], ◌∷◌, arith, ltb,
  ◌==◌, gt→leb, length,
}
use hetao.Base.Int.{int_max}
use hetao.Http.Body.{
  size_digit, add_size_digit, read_size, end_size, with_size, after_size, step_chunked_size,
}
use hetao.Http.Scan.{jump, newline, carriage_return}
use hetao.Http.Types.{Memory, HttpBuffer, chunked_data, HttpEnv}

-- The number that digits stand for, behind those read before.
unfoldable pub number : ℕ → ℕ → List ℕ → ℕ
number radix total [] = total
number radix total (d ∷ ds) = number radix (total * radix + d) ds

-- At `p` stand these digits, each below ten, and a line end.
abbrev pub Digits : Memory → ℕ → List ℕ → Type 0
Digits base p [] = (base p ≡ carriage_return) × (base (suc p) ≡ newline)
Digits base p (d ∷ ds) = (d < 10) × (base p ≡ b'0' + d) × Digits base (suc p) ds

number_grows : (total : ℕ) (ds : List ℕ) → total ≤ number 10 total ds
unfolding number
number_grows total [] = omega arith
number_grows total (d ∷ ds) = omega (arith, number_grows (total * 10 + d) ds)

-- One digit.
add_size_digit-digit :
    (total d : ℕ)
    → d < 10
    → total * 10 + d + b'0' ≤ int_max
    → add_size_digit (b'0' + d) total ≡ some (total * 10 + d)
unfolding add_size_digit
add_size_digit-digit total d l h =
    let value : size_digit (b'0' + d) ≡ some d = ground arith in
    let fits : ltb int_max (total * 10 + (b'0' + d)) ≡ false = ground arith in rw (value, fits) refl

add_size_digit-carriage_return : (total : ℕ) → add_size_digit carriage_return total ≡ some total
unfolding add_size_digit
add_size_digit-carriage_return total = refl

read_size-Digits :
    (base : Memory) (n p total k : ℕ) (ds : List ℕ)
    → Digits base p ds
    → length ds + 1 < n
    → number 10 total ds + b'0' ≤ int_max
    → (q k' : ℕ) × (read_size base n p total k ≡ some (q, number 10 total ds, k'))
      × (q ≡ p + length ds + 1)
unfolding read_size number
read_size-Digits base zero p total k ds s l h = absurd (omega arith)
read_size-Digits base (suc zero) p total k ds s l h = absurd (omega arith)
read_size-Digits base (suc (suc n)) p total k [] (r, e) l h =
    rw (r, add_size_digit-carriage_return total, e) (suc p, k + 1, refl, omega arith)
read_size-Digits base (suc (suc n)) p total k (d ∷ ds) (l', c, s) l h =
    let other : (b'0' + d == newline) ≡ false = ground arith in
    let digit = add_size_digit-digit total d l' (omega (arith, number_grows (total * 10 + d) ds)) in
    let (q, k', e, at) =
      read_size-Digits base (suc n) (suc p) (total * 10 + d) (k + 1) ds s (omega arith) h in
    rw (c, other, digit) (q, k', e, omega (arith, at))

number_mono : (a b : ℕ) (ds : List ℕ) → a < b → number 10 a ds < number 16 b ds
unfolding number
number_mono a b [] h = h
number_mono a b (d ∷ ds) h = number_mono (a * 10 + d) (b * 16 + d) ds (omega arith)

after_size-chunk :
    (b : HttpBuffer) (e : HttpEnv) (q n k : ℕ)
    → q < b.fill_ptr
    → 0 < n
    → after_size b e (some (q, n, k))
      ≡ jump b
          (record (with_size e n (k + 1)) { chunked_body = q + 1; parse_step = chunked_data })
          (q + 1)
unfolding after_size end_size
after_size-chunk b e q n k h l =
    let differs : (n == 0) ≡ false = ground arith in rw (gt→leb b.fill_ptr q h, differs) refl

number_first : (d d' : ℕ) (ds : List ℕ) → 0 < d → 0 < number 10 0 (d ∷ d' ∷ ds)
unfolding number
number_first d d' ds l = omega (arith, number_grows ((0 * 10 + d) * 10 + d') ds)

number_less :
    (d d' : ℕ) (ds : List ℕ) → 0 < d → number 10 0 (d ∷ d' ∷ ds) < number 16 0 (d ∷ d' ∷ ds)
unfolding number
number_less d d' ds l =
    number_mono ((0 * 10 + d) * 10 + d') ((0 * 16 + d) * 16 + d') ds (omega arith)

-- A chunk's size of two decimal digits or more, the first not 0, which stands whole in the data and
-- within the range of `int`, with no size read before, is read as a decimal number: the step goes on to the data
-- with a length that is less than the hexadecimal number that the digits stand for.
pub step_chunked_size-decimal :
    (b : HttpBuffer) (e : HttpEnv) (p d d' : ℕ) (ds : List ℕ)
    → (e.chunked_length ≡ 0) × (0 < d)
    → Digits b.base p (d ∷ d' ∷ ds)
    → p + length ds + 3 < b.fill_ptr
    → number 10 0 (d ∷ d' ∷ ds) + b'0' ≤ int_max
    → (f : HttpEnv) × (step_chunked_size b e p ≡ jump b f (p + length ds + 4))
      × (f.parse_step ≡ chunked_data)
      × (f.chunked_length ≡ number 10 0 (d ∷ d' ∷ ds))
      × (f.chunked_length < number 16 0 (d ∷ d' ∷ ds))
unfolding step_chunked_size
step_chunked_size-decimal b e p d d' ds (z, l) s h m =
    let (q, k, r, at) =
      read_size-Digits b.base (b.fill_ptr - p) p 0 e.chunked_length_length (d ∷ d' ∷ ds) s
        (omega arith) m in
    let r' : read_size b.base (b.fill_ptr - p) p e.chunked_length e.chunked_length_length
        ≡ some (q, number 10 0 (d ∷ d' ∷ ds), k) =
      rw z r in
    let f = record (with_size e (number 10 0 (d ∷ d' ∷ ds)) (k + 1)) {
      chunked_body = q + 1;
      parse_step = chunked_data;
    } in
    let ends =
      after_size-chunk b e q (number 10 0 (d ∷ d' ∷ ds)) k (omega arith) (number_first d d' ds l) in
    (
      f,
      ap (after_size b e) r' ∙ (ends ∙ ap (jump b f) (omega (arith, at))),
      refl,
      refl,
      number_less d d' ds l,
    )
