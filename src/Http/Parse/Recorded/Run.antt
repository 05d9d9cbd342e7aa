-- ===== src/Http/Parse/Recorded/Run.antt =====
-- The slices recorded by a call of `ParseHttpBuffer` (src/fasterhttp.c).
use hetao.Base.{ℕ, zero, suc, ◌+◌, ◌*◌, ◌≤◌, ◌≡◌, refl, sym, Bool, arith}
use hetao.Http.Parse.{
  Outcome, returns, undefined_behaviour, out_of_fuel, dispatch, after_round, run, first_step, enter,
  parse_http_buffer,
}
use hetao.Http.Parse.Recorded.{Recorded, LeavesRecorded, Records}
use hetao.Http.Parse.Recorded.Bodies.{
  step_body-Records, step_chunked_size-Records, step_chunked_data-Records,
}
use hetao.Http.Parse.Recorded.Fields.{
  begin_field-Records, end_field-Records, end_line-Records, accept_method-Records,
  accept_version-Records,
}
use hetao.Http.Parse.Recorded.Rounds.{
  step_header_value-Records, step_header_name0-Records, step_header_name-Records,
  step_header_value0-Records,
}
use hetao.Http.Parse.Within.{Stays, dispatch-Stays}
use hetao.Http.Scan.{Next, jump, stop, undefined}
use hetao.Http.StartLine.{
  step_method0, step_method, step_uri0, step_uri, step_version0, line_end, step_request_version,
  step_response_version, step_statuscode0, step_statuscode, step_reasonphrase0, step_reasonphrase,
}
use hetao.Http.Types.{
  Memory, HttpBuffer, BufferName, ParseStep, begin, request_method0, request_method, request_uri0,
  request_uri, request_version0, request_version, response_version0, response_version,
  response_statuscode0, response_statuscode, response_reasonphrase0, response_reasonphrase,
  header_name0, header_name, header_value0, header_value, body, chunked_size, chunked_data, done,
  HttpEnv,
}
use mathlib.Core.Path.{subst}

line_end_le : (base : Memory) (q : ℕ) → line_end base q ≤ q
line_end_le base q = ground arith

module _ (b : HttpBuffer) (e : HttpEnv) (p : ℕ) (l : p ≤ b.fill_ptr)
    (r : Recorded e.parse_step b.fill_ptr p e.headers) where
  pub dispatch-Records :
      (realloc_succeeds : ℕ → Bool) (name : BufferName) (s : ParseStep)
      → e.parse_step ≡ s
      → Recorded s b.fill_ptr p e.headers
      → Records b.fill_ptr (dispatch realloc_succeeds name s b e p)
  unfolding dispatch step_method0 step_method step_uri0 step_uri step_version0 step_request_version
      step_response_version step_statuscode0 step_statuscode step_reasonphrase0 step_reasonphrase
  dispatch-Records realloc_succeeds name begin at t = rw at t
  dispatch-Records realloc_succeeds name request_method0 at (m, u, v, c, w, f, k) =
      begin_field-Records b e p l r _ _ (λ x. rw at (m, u, v, c, w, f, k))
        (rw at (m, u, v, c, w, f, k)) (λ q i. (omega arith, u, v, c, w, f, k))
  dispatch-Records realloc_succeeds name request_method at (m, u, v, c, w, f, k) =
      end_field-Records b e p l r _ (λ q g i.
        accept_method-Records b e q _ (rw at (omega arith, u, v, c, w, f, k))
          (omega arith, u, v, c, w, f, k))
  dispatch-Records realloc_succeeds name request_uri0 at (m, u, v, c, w, f, k) =
      begin_field-Records b e p l r _ _ (λ x. rw at (m, u, v, c, w, f, k))
        (rw at (m, u, v, c, w, f, k)) (λ q i. (m, omega arith, v, c, w, f, k))
  dispatch-Records realloc_succeeds name request_uri at (m, u, v, c, w, f, k) =
      end_field-Records b e p l r _ (λ q g i. (m, omega arith, v, c, w, f, k))
  dispatch-Records realloc_succeeds name request_version0 at (m, u, v, c, w, f, k) =
      begin_field-Records b e p l r _ _ (λ x. rw at (m, u, v, c, w, f, k))
        (rw at (m, u, v, c, w, f, k)) (λ q i. (m, u, omega arith, c, w, f, k))
  dispatch-Records realloc_succeeds name request_version at (m, u, v, c, w, f, k) =
      end_line-Records b e p l r _ (λ q g i.
        let z = line_end_le b.base q in
        accept_version-Records b e q header_name0 _ _ (rw at (m, u, omega arith, c, w, f, k))
          (m, u, omega arith, c, w, f, k))
  dispatch-Records realloc_succeeds name response_version0 at (m, u, v, c, w, f, k) =
      begin_field-Records b e p l r _ _ (λ x. rw at (m, u, v, c, w, f, k))
        (rw at (m, u, v, c, w, f, k)) (λ q i. (m, u, omega arith, c, w, f, k))
  dispatch-Records realloc_succeeds name response_version at (m, u, v, c, w, f, k) =
      end_field-Records b e p l r _ (λ q g i.
        accept_version-Records b e q response_statuscode0 _ _
          (rw at (m, u, omega arith, c, w, f, k)) (m, u, omega arith, c, w, f, k))
  dispatch-Records realloc_succeeds name response_statuscode0 at (m, u, v, c, w, f, k) =
      begin_field-Records b e p l r _ _ (λ x. rw at (m, u, v, c, w, f, k))
        (rw at (m, u, v, c, w, f, k)) (λ q i. (m, u, v, omega arith, w, f, k))
  dispatch-Records realloc_succeeds name response_statuscode at (m, u, v, c, w, f, k) =
      end_field-Records b e p l r _ (λ q g i. (m, u, v, omega arith, w, f, k))
  dispatch-Records realloc_succeeds name response_reasonphrase0 at (m, u, v, c, w, f, k) =
      begin_field-Records b e p l r _ _ (λ x. rw at (m, u, v, c, w, f, k))
        (rw at (m, u, v, c, w, f, k)) (λ q i. (m, u, v, c, omega arith, f, k))
  dispatch-Records realloc_succeeds name response_reasonphrase at (m, u, v, c, w, f, k) =
      end_line-Records b e p l r _
        (λ q g i. let z = line_end_le b.base q in (m, u, v, c, omega arith, f, k))
  dispatch-Records realloc_succeeds name header_name0 at t =
      step_header_name0-Records b e p l r name at
  dispatch-Records realloc_succeeds name header_name at t = step_header_name-Records b e p l r at
  dispatch-Records realloc_succeeds name header_value0 at t =
      step_header_value0-Records b e p l r at
  dispatch-Records realloc_succeeds name header_value at t =
      step_header_value-Records b e p l r realloc_succeeds name at
  dispatch-Records realloc_succeeds name body at t = step_body-Records b e t at
  dispatch-Records realloc_succeeds name chunked_size at t = step_chunked_size-Records b e t p at
  dispatch-Records realloc_succeeds name chunked_data at t = step_chunked_data-Records b e t at
  dispatch-Records realloc_succeeds name done at t = rw at t

-- What a call that returns leaves recorded.
abbrev pub LeavesAllRecorded : ℕ → Outcome → Type 0
LeavesAllRecorded fill (returns b e c) = LeavesRecorded fill b e c
LeavesAllRecorded fill undefined_behaviour = Unit {0}
LeavesAllRecorded fill out_of_fuel = Unit {0}

after_round-Recorded :
    (b : HttpBuffer) (go_on : HttpBuffer → HttpEnv → ℕ → Outcome) (n : Next)
    → Stays b n
    → Records b.fill_ptr n
    → ((c : HttpBuffer) (e : HttpEnv) (p : ℕ)
        → p ≤ c.fill_ptr
        → c.process_ptr ≤ c.fill_ptr
        → Recorded e.parse_step c.fill_ptr p e.headers
        → LeavesAllRecorded c.fill_ptr (go_on c e p))
    → LeavesAllRecorded b.fill_ptr (after_round go_on n)
after_round-Recorded b go_on (jump c e p) (s, l, m) r rest =
    subst (λ x. LeavesAllRecorded x (go_on c e p)) s.same_fill
      (rest c e p (omega (arith, s.same_fill)) (omega (arith, s.same_fill))
        (subst (λ x. Recorded e.parse_step x p e.headers) (sym s.same_fill) r))
after_round-Recorded b go_on (stop c e code) h r rest = r
after_round-Recorded b go_on undefined h r rest = tt

run-Recorded :
    (realloc_succeeds : ℕ → Bool) (name : BufferName) (k : ℕ) (b : HttpBuffer) (e : HttpEnv) (p : ℕ)
    → p ≤ b.fill_ptr
    → b.process_ptr ≤ b.fill_ptr
    → Recorded e.parse_step b.fill_ptr p e.headers
    → LeavesAllRecorded b.fill_ptr (run realloc_succeeds name k b e p)
unfolding run
run-Recorded realloc_succeeds name zero b e p l m r = tt
run-Recorded realloc_succeeds name (suc k) b e p l m r =
    after_round-Recorded b (run realloc_succeeds name k)
      (dispatch realloc_succeeds name e.parse_step b e p)
      (dispatch-Stays b e p l m realloc_succeeds name e.parse_step)
      (dispatch-Records b e p l r realloc_succeeds name e.parse_step refl r)
      (λ c e' p' l' m' r'. run-Recorded realloc_succeeds name k c e' p' l' m' r')

-- All slices that `ParseHttpBuffer` records are inside the data received: if it is called with
-- `process_ptr` inside the data, and what earlier calls recorded is inside the data, then so it is
-- when it returns, with whatever code: the fields of the start line, and the name and the value of
-- each header counted, those whose length is below zero being empty. Of the field or the header
-- that is still being read, the beginning is inside the data: it is not behind the place where the
-- parser goes on, where it asks for more data.
pub parse_http_buffer-Recorded :
    (realloc_succeeds : ℕ → Bool) (name : BufferName) (b : HttpBuffer) (e : HttpEnv)
    → b.process_ptr ≤ b.fill_ptr
    → Recorded (first_step name e.parse_step) b.fill_ptr b.process_ptr e.headers
    → LeavesAllRecorded b.fill_ptr (parse_http_buffer realloc_succeeds name b e)
unfolding parse_http_buffer
parse_http_buffer-Recorded realloc_succeeds name b e l r =
    run-Recorded realloc_succeeds name (2 * b.fill_ptr + 2) b (enter name e) b.process_ptr l l r
