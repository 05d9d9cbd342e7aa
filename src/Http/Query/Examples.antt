-- ===== src/Http/Query/Examples.antt =====
-- Headers of a small message, by their names (src/fasterhttp.c).
use hetao.Base.{ℕ, ◌≡◌, refl, some, List, [], ◌∷◌, arith}
use hetao.Base.Int.{pos}
use hetao.Http.Parse.Runs.{filled, fresh_headers, fresh_env}
use hetao.Http.Query.{
  Buffers, query_http_header, query_http_header_ptr, has_name, travel_http_header_ptr,
}
use hetao.Http.Query.First.{First}
use hetao.Http.Query.Named.{Queried, query_http_header-Queried, travel_http_header_ptr-First}
use hetao.Http.Types.{request_buffer, HttpHeader, zero_header, HttpEnv}

abbrev pub host_header : HttpHeader
host_header = record {
  p_buffer = some request_buffer;
  name_offset = 16;
  name_len = 4;
  value_offset = 22;
  value_len = pos 1;
}

abbrev pub host_env : HttpEnv
host_env = record fresh_env {
  headers = record fresh_headers {
    header_array = host_header ∷ zero_header ∷ [];
    header_array_size = 2;
    header_array_count = 1;
  };
}

abbrev pub host_buffers : Buffers
host_buffers name = filled "GET / HTTP/1.1\r\nHost: a\r\n\r\n" 27

abbrev pub host : List ℕ
host = b'H' ∷ b'o' ∷ b's' ∷ b't' ∷ []

host_value : query_http_header_ptr host_buffers host_env host ≡ some (request_buffer, 22)
unfolding query_http_header_ptr
host_value = refl

query_http_header-Queried_example :
    Queried host_buffers host_env host (query_http_header host_buffers host_env host)
query_http_header-Queried_example = query_http_header-Queried host_buffers host_env host

travel_http_header_ptr-First_example :
    First has_name (host_header ∷ zero_header ∷ []) 1 2 (travel_http_header_ptr host_env (some 0))
travel_http_header_ptr-First_example = travel_http_header_ptr-First host_env (some 0) (omega arith)
