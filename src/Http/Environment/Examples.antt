-- ===== src/Http/Environment/Examples.antt =====
-- Tests of `CreateHttpEnv` and `ResetHttpEnv` (src/fasterhttp.c), and an instance of the theorem.
use hetao.Base.{ℕ, ◌≡◌, refl, Bool, true, false, none, some, [], ◌∷◌, arith, ltb}
use hetao.Base.Int.{pos}
use hetao.Http.Buffer.{write_bytes, reforming_http_buffer, reset_http_buffer, realloc_http_buffer}
use hetao.Http.Environment.{
  Environment, reset_http_timeout, zero_buffer, zero_headers, begun_parser, zero_env, when_some,
  create_http_env, reset_http_env,
}
use hetao.Http.Environment.Reset.{Resets, reset_http_env-Resets}
use hetao.Http.Types.{done}

create_http_env_fails : create_http_env true (λ n. ltb n 1000) ≡ none
unfolding create_http_env
create_http_env_fails = refl

-- The whole of a request has been read, and two bytes of the next one.
abbrev two_requests : Environment
two_requests = record zero_env {
  init_timeout = pos 5;
  request = record {
    buf_size = 20000;
    base = write_bytes (λ _. 0) 0 (1 ∷ 2 ∷ 3 ∷ 4 ∷ 5 ∷ []);
    base_null = false;
    ref_flag = false;
    fill_ptr = 5;
    process_ptr = 3;
  };
  response = record zero_buffer { buf_size = 1024; base_null = false };
  append = some zero_buffer;
  parser = record (begun_parser true (zero_headers 40)) { parse_step = done };
  send_proc_flag = true;
}

two_requests-kept :
    when_some {B = ℕ × ℕ × ℕ × ℕ × Bool} (reset_http_env (λ _. true) (λ _. true) two_requests) (λ w.
      some (
        w.request.base 0,
        w.request.base 1,
        w.request.fill_ptr,
        w.request.buf_size,
        w.wait_limited,
      ))
    ≡ some (4, 5, 2, 10240, true)
unfolding reset_http_env reset_http_timeout reforming_http_buffer reset_http_buffer
    realloc_http_buffer
two_requests-kept = refl

reset_http_env-Resets_example :
    (w : Environment) × (reset_http_env (λ _. true) (λ _. true) two_requests ≡ some w)
    × Resets two_requests w
reset_http_env-Resets_example =
    reset_http_env-Resets (λ _. true) (λ _. true) two_requests
      (record { fill_lt = omega arith; process_le = omega arith })
      (record { fill_lt = omega arith; process_le = omega arith }) (omega arith)
