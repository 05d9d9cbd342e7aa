-- ===== src/Http/Parse/Resume.antt =====
-- A start line that arrives in two pieces (src/fasterhttp.c, ParseHttpBuffer).
pub mod Steps
pub mod Walk
pub mod Dispatch
use hetao.Base.{ℕ, zero, suc, ◌+◌, ◌*◌, ◌≤◌, ◌<◌, ◌≡◌, refl, sym, ap, ◌∙◌, Bool, true, arith}
use hetao.Http.Parse.{
  Outcome, returns, dispatch, after_round, run, first_step, enter, parse_http_buffer,
}
use hetao.Http.Parse.Alike.{with_process, verdict, verdict-run}
use hetao.Http.Parse.Resume.Dispatch.{dispatch-Continues}
use hetao.Http.Parse.Resume.Steps.{is_start_line, NoNewline, Continues}
use hetao.Http.Parse.Resume.Walk.{Extends}
use hetao.Http.Parse.Total.{run-rounds, measure_at-lt}
use hetao.Http.Scan.{Next, jump, stop, undefined}
use hetao.Http.Types.{HttpBuffer, BufferName, HttpEnv, need_more_http_buffer}

module _ (realloc_succeeds : ℕ → Bool) (name : BufferName) (b c : HttpBuffer)
    (x : Extends b c) where
  -- What the loop on the first piece says of the loop on all of it, with more rounds than it needs.
  abbrev Resumes : ℕ → HttpEnv → ℕ → Outcome → Type 0
  Resumes k e p (returns b' e' code) =
      code ≡ need_more_http_buffer
      → (is_start_line e'.parse_step ≡ true)
        × (run realloc_succeeds name (suc k) c e p
            ≡ run realloc_succeeds name (suc k) c e' b'.process_ptr)
  Resumes k e p _ = Unit {0}

  Resumes-trans :
      (k : ℕ) (e e' : HttpEnv) (p p' : ℕ) (o : Outcome)
      → run realloc_succeeds name (suc k) c e p ≡ run realloc_succeeds name (suc k) c e' p'
      → Resumes k e' p' o
      → Resumes k e p o
  Resumes-trans k e e' p p' (returns b' u code) h r = λ v. ((r v).0, h ∙ (r v).1)
  Resumes-trans k e e' p p' _ h r = tt

  module _ (k : ℕ) (enough : 2 * c.fill_ptr + 2 ≤ k) (e : HttpEnv) (p : ℕ) where
    run-jump :
        (e' : HttpEnv) (p' : ℕ)
        → dispatch realloc_succeeds name e.parse_step c e p ≡ jump c e' p'
        → run realloc_succeeds name (suc k) c e p ≡ run realloc_succeeds name (suc k) c e' p'
    unfolding run
    run-jump e' p' h =
        let m = measure_at-lt e'.parse_step c e' p' in
        rw h (run-rounds realloc_succeeds name k (suc k) c e' p' (omega arith) (omega arith))

    after_round-Resumes :
        (go_on : HttpBuffer → HttpEnv → ℕ → Outcome) (n : Next)
        → Continues realloc_succeeds name b c x p n
            (dispatch realloc_succeeds name e.parse_step c e p)
        → ((e' : HttpEnv) (p' : ℕ)
            → p < p'
            → p' ≤ b.fill_ptr
            → is_start_line e'.parse_step ≡ true
            → Resumes k e' p' (go_on b e' p'))
        → Resumes k e p (after_round go_on n)
    unfolding run
    after_round-Resumes go_on (jump b' e' p') (same, l, m, at_start, h) goes_on =
        rw same (
          Resumes-trans k e e' p p' (go_on b e' p') (run-jump e' p' h) (goes_on e' p' l m at_start))
    after_round-Resumes go_on (stop b' e' code) h goes_on = λ v. ((h v).0, rw (h v).1 refl)
    after_round-Resumes go_on undefined h goes_on = tt

  run-Resumes :
      (k j : ℕ) (e : HttpEnv) (p : ℕ)
      → 2 * c.fill_ptr + 2 ≤ k
      → p ≤ b.fill_ptr
      → NoNewline b p
      → is_start_line e.parse_step ≡ true
      → Resumes k e p (run realloc_succeeds name j b e p)
  unfolding run
  run-Resumes k zero e p enough l one_line at_start = tt
  run-Resumes k (suc j) e p enough l one_line at_start =
      after_round-Resumes k enough e p (run realloc_succeeds name j)
        (dispatch realloc_succeeds name e.parse_step b e p)
        (dispatch-Continues realloc_succeeds name b c x e p l one_line e.parse_step refl at_start)
        (λ e' p' g f starts.
          run-Resumes k j e' p' enough f (λ i u. one_line i (omega arith)) starts)

enter-again :
    (name : BufferName) (e : HttpEnv) → is_start_line e.parse_step ≡ true → enter name e ≡ e
enter-again name e h = ground arith

-- The start line may come in two pieces. `b` is the buffer with a first piece, in which no newline
-- has come, and `c` is the buffer with all of it. If a call on `b` asks for more data, a second
-- call on `c`, from where the first call stopped and with the state it left, gives the same code
-- and the same state as one call on `c`.
pub parse_http_buffer-resumes :
    (realloc_succeeds : ℕ → Bool) (name : BufferName) (b c b' : HttpBuffer) (e e' : HttpEnv)
    → Extends b c
    → c.process_ptr ≡ b.process_ptr
    → b.process_ptr ≤ b.fill_ptr
    → NoNewline b b.process_ptr
    → is_start_line (first_step name e.parse_step) ≡ true
    → parse_http_buffer realloc_succeeds name b e ≡ returns b' e' need_more_http_buffer
    → verdict (parse_http_buffer realloc_succeeds name (with_process c b'.process_ptr) e')
      ≡ verdict (parse_http_buffer realloc_succeeds name c e)
unfolding parse_http_buffer
parse_http_buffer-resumes realloc_succeeds name b c b' e e' x from l one_line at_start h =
    let k = 2 * c.fill_ptr + 2 in
    let i = enter name e in
    let p = b.process_ptr in
    let y = b'.process_ptr in
    let (starts, same) =
      rw h at
        (run-Resumes realloc_succeeds name b c x k (2 * b.fill_ptr + 2) i p (omega arith) l one_line
          at_start)
        refl in
    let m = measure_at-lt i.parse_step c i p in
    let m' = measure_at-lt e'.parse_step c e' y in
    let whole : run realloc_succeeds name k c i p ≡ run realloc_succeeds name (suc k) c i p =
      run-rounds realloc_succeeds name k (suc k) c i p m (omega arith) in
    let rest : run realloc_succeeds name k c e' y ≡ run realloc_succeeds name (suc k) c e' y =
      run-rounds realloc_succeeds name k (suc k) c e' y m' (omega arith) in
    rw (enter-again name e' starts) (
      sym (verdict-run realloc_succeeds name k c y e' y)
      ∙ ap verdict (rest ∙ sym same ∙ sym whole ∙ ap (run realloc_succeeds name k c i) (sym from)))
