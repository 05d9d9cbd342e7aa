-- ===== src/Http/Parse/Total.antt =====
-- `ParseHttpBuffer` (src/fasterhttp.c) always comes to an end.
use hetao.Base.{ℕ, zero, suc, ◌+◌, ◌*◌, ◌<◌, ◌≡◌, refl, ◌≢◌, Bool, arith}
use hetao.Http.Parse.{Outcome, out_of_fuel, dispatch, after_round, run, enter, parse_http_buffer}
use hetao.Http.Parse.Rounds.{measure_at, measure, Shrinks, dispatch-Shrinks}
use hetao.Http.Scan.{Next, jump, stop, undefined}
use hetao.Http.Types.{HttpBuffer, BufferName, ParseStep, chunked_data, HttpEnv}

module _ (fill m : ℕ) (go_on : HttpBuffer → HttpEnv → ℕ → Outcome) where
  after_round_congr :
      (other : HttpBuffer → HttpEnv → ℕ → Outcome) (n : Next)
      → Shrinks fill m n
      → ((b : HttpBuffer) (e : HttpEnv) (p : ℕ) → measure b e p < m → go_on b e p ≡ other b e p)
      → after_round go_on n ≡ after_round other n
  after_round_congr other (jump b e p) s same = same b e p s.1
  after_round_congr other (stop b e c) s same = refl
  after_round_congr other undefined s same = refl

  after_round-ne-out_of_fuel :
      (n : Next)
      → Shrinks fill m n
      → ((b : HttpBuffer) (e : HttpEnv) (p : ℕ) → measure b e p < m → go_on b e p ≢ out_of_fuel)
      → after_round go_on n ≢ out_of_fuel
  after_round-ne-out_of_fuel (jump b e p) s ends = ends b e p s.1
  after_round-ne-out_of_fuel (stop b e c) s ends = λ h. cc
  after_round-ne-out_of_fuel undefined s ends = λ h. cc

module _ (realloc_succeeds : ℕ → Bool) (name : BufferName) where
  -- The rest of the loop does not depend on how many rounds are left, if they suffice.
  pub run-rounds :
      (j k : ℕ) (b : HttpBuffer) (e : HttpEnv) (p : ℕ)
      → measure b e p < j
      → measure b e p < k
      → run realloc_succeeds name j b e p ≡ run realloc_succeeds name k b e p
  unfolding run
  run-rounds zero k b e p h i = elim h [ ]
  run-rounds (suc j) zero b e p h i = elim i [ ]
  run-rounds (suc j) (suc k) b e p h i =
      after_round_congr b.fill_ptr (measure b e p) (run realloc_succeeds name j)
        (run realloc_succeeds name k) (dispatch realloc_succeeds name e.parse_step b e p)
        (dispatch-Shrinks b e p realloc_succeeds name e.parse_step)
        (λ b' e' p' l. run-rounds j k b' e' p' (omega arith) (omega arith))

  run-ne-out_of_fuel :
      (k : ℕ) (b : HttpBuffer) (e : HttpEnv) (p : ℕ)
      → measure b e p < k
      → run realloc_succeeds name k b e p ≢ out_of_fuel
  unfolding run
  run-ne-out_of_fuel zero b e p h = elim h [ ]
  run-ne-out_of_fuel (suc k) b e p h =
      after_round-ne-out_of_fuel b.fill_ptr (measure b e p) (run realloc_succeeds name k)
        (dispatch realloc_succeeds name e.parse_step b e p)
        (dispatch-Shrinks b e p realloc_succeeds name e.parse_step)
        (λ b' e' p' l. run-ne-out_of_fuel k b' e' p' (omega arith))

pub measure_at-lt :
    (s : ParseStep) (b : HttpBuffer) (e : HttpEnv) (p : ℕ) → measure_at s b e p < 2 * b.fill_ptr + 2
measure_at-lt chunked_data b e p = omega arith
measure_at-lt _ b e p = omega arith

-- `ParseHttpBuffer` comes to an end on every buffer and in every state, whatever step it resumes
-- at: the rounds given, two for each byte received and two more, suffice.
pub parse_http_buffer-ne-out_of_fuel :
    (realloc_succeeds : ℕ → Bool) (name : BufferName) (b : HttpBuffer) (e : HttpEnv)
    → parse_http_buffer realloc_succeeds name b e ≢ out_of_fuel
unfolding parse_http_buffer
parse_http_buffer-ne-out_of_fuel realloc_succeeds name b e =
    run-ne-out_of_fuel realloc_succeeds name (2 * b.fill_ptr + 2) b (enter name e) b.process_ptr
      (measure_at-lt _ b (enter name e) b.process_ptr)
