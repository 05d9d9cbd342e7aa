-- ===== src/Http/Buffer/Examples.antt =====
-- Runs of the buffer functions of src/fasterhttp.c, and their theorems at an input.
use hetao.Base.{ℕ, ◌+◌, ◌≤◌, ◌≡◌, refl, true, false, List, [], ◌∷◌, arith}
use hetao.Http.Buffer.{
  returned, endless, strcat_in_rounds, strcat_http_buffer, strcatf_http_buffer, strcatv_http_buffer,
  strcpyf_http_buffer,
}
use hetao.Http.Buffer.Append.{Appended, strcat_http_buffer-Appended, strcat_http_buffer-foreign}
use hetao.Http.Buffer.Print.{
  strcatf_http_buffer-Appended, strcpyf_http_buffer-overruns, strcatv_http_buffer-overruns,
}
use hetao.Http.Buffer.Room.{CanGrow, Ends}
use hetao.Http.Types.{HttpBuffer, success}

abbrev small : ℕ → ℕ → HttpBuffer
small size fill = record {
  buf_size = size;
  base = λ i. i + 1;
  base_null = false;
  ref_flag = false;
  fill_ptr = fill;
  process_ptr = 0;
}

abbrev foreign : HttpBuffer
foreign = record (small 4 3) { ref_flag = true }

abbrev hello : List ℕ
hello = b'h' ∷ b'e' ∷ b'l' ∷ b'l' ∷ b'o' ∷ []

small-CanGrow : CanGrow (small 4 3)
small-CanGrow = record { owned = refl; not_empty = omega arith }

strcat_http_buffer-Appended_example :
    Ends (Appended (small 4 3) hello) (strcat_http_buffer (λ _. true) (small 4 3) hello)
strcat_http_buffer-Appended_example =
    strcat_http_buffer-Appended (λ _. true) (small 4 3) hello small-CanGrow (omega arith)

strcat_http_buffer-foreign_example : strcat_in_rounds 1000 (λ _. true) foreign hello ≡ endless
strcat_http_buffer-foreign_example =
    strcat_http_buffer-foreign (λ _. true) foreign hello 1000 refl (omega arith)

strcatf_http_buffer-Appended_example :
    Ends (Appended (small 4 3) hello) (strcatf_http_buffer (λ _. true) (small 4 3) hello)
strcatf_http_buffer-Appended_example =
    strcatf_http_buffer-Appended (λ _. true) hello (small 4 3) small-CanGrow (omega arith)
      (omega arith)

strcpyf_http_buffer-overruns_example :
    (c : HttpBuffer) × (strcpyf_http_buffer (λ _. true) (small 4 0) hello ≡ returned c success)
    × (4 ≤ c.fill_ptr)
    × (c.buf_size ≡ 4)
strcpyf_http_buffer-overruns_example =
    strcpyf_http_buffer-overruns (λ _. true) hello (small 4 0) (omega arith) (omega arith)

strcatv_http_buffer-overruns_example :
    (c : HttpBuffer) × (strcatv_http_buffer (λ _. true) (small 4 1) hello ≡ returned c success)
    × (4 ≤ c.fill_ptr)
    × (c.buf_size ≡ 4)
strcatv_http_buffer-overruns_example =
    strcatv_http_buffer-overruns (λ _. true) hello (small 4 1) (omega arith) (omega arith)
