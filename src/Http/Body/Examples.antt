-- ===== src/Http/Body/Examples.antt =====
-- The chunk size of sixteen, `10`, in the CHUNKED_SIZE step of `ParseHttpBuffer` (src/fasterhttp.c).
use hetao.Base.{◌+◌, ◌≤◌, ◌<◌, ◌≡◌, refl, [], ◌∷◌, arith}
use hetao.Base.Int.{int_max}
use hetao.Http.Body.{step_chunked_size}
use hetao.Http.Body.ChunkSize.{number, step_chunked_size-decimal}
use hetao.Http.Parse.Runs.{filled, fresh_env}
use hetao.Http.Scan.{jump}
use hetao.Http.Types.{HttpBuffer, chunked_data, HttpEnv}

abbrev pub sixteen : HttpBuffer
sixteen = filled "10\r\n0123456789abcdef\r\n" 22

small_size : number 10 0 (1 ∷ 0 ∷ []) + b'0' ≤ int_max
unfolding number
small_size = omega arith

step_chunked_size-decimal_example :
    (f : HttpEnv) × (step_chunked_size sixteen fresh_env 0 ≡ jump sixteen f 4)
    × (f.parse_step ≡ chunked_data)
    × (f.chunked_length ≡ number 10 0 (1 ∷ 0 ∷ []))
    × (f.chunked_length < number 16 0 (1 ∷ 0 ∷ []))
step_chunked_size-decimal_example =
    step_chunked_size-decimal sixteen fresh_env 0 1 0 [] (refl, omega arith)
      ((omega arith, refl, (omega arith, refl, (refl, refl)))) (omega arith) small_size
