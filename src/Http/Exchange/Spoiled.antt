-- ===== src/Http/Exchange/Spoiled.antt =====
-- What becomes of data behind a request (src/fasterhttp.c) when the environment is reset for the
-- next request of the connection.
use hetao.Base.{
  ℕ, ◌+◌, ◌-◌, ◌<◌, ◌≡◌, ◌∙◌, ◌⊎◌, inl, inr, Bool, true, some, arith, ◌==◌, Bool-cases,
}
use hetao.Http.Environment.{Environment, response_bufsize_max, is_reformed, reset_http_env}
use hetao.Http.Environment.Reset.{Fits, kept_length, reset_http_env-Resets}
use hetao.Http.Transport.Receive.{end_text, with_parsed}
use hetao.Http.Types.{HttpBuffer, request_buffer, HttpEnv}

-- A request has been parsed into `b` and `e`, with more data behind it, and is ended with a NUL, as
-- the receiving functions do. Then ResetHttpEnv leaves nothing in the request's buffer, or data that
-- begins with a zero byte in the place of the next request's first byte.
pub reset_http_env-end_text :
    (malloc_succeeds realloc_succeeds : ℕ → Bool) (v : Environment) (b : HttpBuffer) (e : HttpEnv)
    → Fits b
    → Fits v.response
    → v.response.fill_ptr < response_bufsize_max
    → b.process_ptr < b.fill_ptr
    → (w : Environment) × (reset_http_env malloc_succeeds realloc_succeeds
          (with_parsed request_buffer v (end_text b) e)
        ≡ some w)
      × ((w.request.fill_ptr ≡ 0) ⊎ ((0 < w.request.fill_ptr) × (w.request.base 0 ≡ 0)))
reset_http_env-end_text malloc_succeeds realloc_succeeds v b e f g l more =
    let u = with_parsed request_buffer v (end_text b) e in
    let (w, reset, r) =
      reset_http_env-Resets malloc_succeeds realloc_succeeds u
        (record { fill_lt = f.fill_lt; process_le = f.process_le }) g (ground arith) in
    (
      w,
      reset,
      elim (Bool-cases (is_reformed e.reforming_flag (end_text b))) [
        | inr dropped ↦ inl (r.request_restarts.kept ∙ rw dropped)
        | inl moved ↦
            let left : kept_length e.reforming_flag (end_text b) ≡ b.fill_ptr - b.process_ptr =
              rw moved in
            inr (
              omega (arith, r.request_restarts.kept, left),
              r.request_restarts.moved 0 (omega (arith, left))
                  ∙ (let here : (b.process_ptr + 0 == b.process_ptr) ≡ true = ground arith in
                      rw here),
            )
      ],
    )
