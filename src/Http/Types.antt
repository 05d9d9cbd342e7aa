-- ===== src/Http/Types.antt =====
-- The structures of src/fasterhttp.c. A pointer into a buffer is its offset from the buffer's base.
use hetao.Base.{ℕ, Bool, Option, none, List}
use hetao.Base.Int.{ℤ, pos}

-- Bytes by their offset from a buffer's base.
abbrev pub Memory : Type 0
Memory = ℕ → ℕ

pub record HttpBuffer : Type 0 where
  pub buf_size : ℕ
  pub base : Memory
  pub base_null : Bool
  pub ref_flag : Bool
  pub fill_ptr : ℕ
  pub process_ptr : ℕ

-- Which buffer a header's `p_buffer` points to.
pub data BufferName : Type 0 where
  request_buffer response_buffer other_buffer : BufferName

pub record HttpHeader : Type 0 where
  pub p_buffer : Option BufferName
  pub name_offset : ℕ
  pub name_len : ℕ
  pub value_offset : ℕ
  pub value_len : ℤ

abbrev pub zero_header : HttpHeader
zero_header = record {
  p_buffer = none;
  name_offset = 0;
  name_len = 0;
  value_offset = 0;
  value_len = pos 0;
}

-- HTTP_METHOD_GET_N and its kin; `no_method` is 0.
pub data Method : Type 0 where
  no_method get post head trace options put delete : Method

-- HTTP_VERSION_1_0_N and HTTP_VERSION_1_1_N; `no_version` is 0.
pub data Version : Type 0 where
  no_version version_1_0 version_1_1 : Version

-- The fields METHOD, URI, VERSION, STATUSCODE, REASONPHRASE and TRAILER have `_header` behind them.
pub record HttpHeaders : Type 0 where
  pub method_header : HttpHeader
  pub method : Method
  pub uri_header : HttpHeader
  pub version_header : HttpHeader
  pub version : Version
  pub statuscode_header : HttpHeader
  pub reasonphrase_header : HttpHeader
  pub content_length : ℤ
  pub transfer_encoding_chunked : Bool
  pub trailer_header : HttpHeader
  pub connection_keepalive : ℤ
  pub header_array : List HttpHeader
  pub header_array_size : ℕ
  pub header_array_count : ℕ

-- The FASTERHTTP_PARSESTEP constants.
pub data ParseStep : Type 0 where
  begin : ParseStep
  request_method0 request_method request_uri0 request_uri : ParseStep
  request_version0 request_version : ParseStep
  response_version0 response_version response_statuscode0 response_statuscode : ParseStep
  response_reasonphrase0 response_reasonphrase : ParseStep
  header_name0 header_name header_value0 header_value : ParseStep
  body chunked_size chunked_data done : ParseStep

-- The part of `struct HttpEnv` that the parser reads and writes.
pub record HttpEnv : Type 0 where
  pub reforming_flag : Bool
  pub parse_step : ParseStep
  pub headers : HttpHeaders
  pub p_body_buffer : Option BufferName
  pub body_base_offset : ℕ
  pub chunked_body : ℕ
  pub chunked_body_end : ℕ
  pub chunked_length : ℕ
  pub chunked_length_length : ℕ

-- What the functions return: 0, -1 (`failure`), and the FASTERHTTP_ERROR and FASTERHTTP_INFO constants.
pub data Code : Type 0 where
  success failure need_more_http_buffer : Code
  error_alloc error_paramter error_method_invalid error_version_not_supported : Code
  error_http_headerstartline_invalid error_http_header_invalid : Code
  error_tcp_select_send error_tcp_select_send_timeout error_tcp_send : Code
  error_tcp_select_receive error_tcp_select_receive_timeout error_tcp_receive error_tcp_close : Code
  info_tcp_send_wouldblock info_tcp_close : Code
