-- ===== src/Http/KeepAlive/Examples.antt =====
-- Keep-alive and tokens (src/fasterhttp.c) on examples.
use hetao.Base.{◌≡◌, refl, false, some, arith}
use hetao.Http.KeepAlive.{check_http_keep_alive, set_http_keep_alive, token_http_header_value}
use hetao.Http.KeepAlive.Tokens.{check-set_http_keep_alive, Token, token_http_header_value-Token}
use hetao.Http.Parse.Runs.{text_at, fresh_headers, fresh_env}
use hetao.Http.Scan.{scan}
use hetao.Http.Types.{Memory, version_1_1, HttpEnv}

abbrev gzip : Memory
gzip = text_at " gzip, deflate\r\n"

first_token : token_http_header_value gzip 17 0 ≡ some (1, 5)
unfolding token_http_header_value scan
first_token = refl

token_http_header_value-Token_example : Token gzip 0 16 (token_http_header_value gzip 17 0)
token_http_header_value-Token_example =
    token_http_header_value-Token gzip 17 0 16 (omega arith) (omega arith) refl

abbrev version_1_1_env : HttpEnv
version_1_1_env = record fresh_env { headers = record fresh_headers { version = version_1_1 } }

check-set_http_keep_alive_example :
    check_http_keep_alive (set_http_keep_alive version_1_1_env false) ≡ false
check-set_http_keep_alive_example = check-set_http_keep_alive version_1_1_env false (λ e. cc)
