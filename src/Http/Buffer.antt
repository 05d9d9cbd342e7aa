-- ===== src/Http/Buffer.antt =====
-- The buffer functions of src/fasterhttp.c, from InitHttpBuffer to GetHttpBufferLengthUnprocessed,
-- with StrcpyHttpBuffer and its kin. A buffer whose base is NULL has `base_null`.
pub mod Append
pub mod Examples
pub mod Print
pub mod Room
use hetao.Base.{
  ℕ, zero, suc, ◌+◌, ◌-◌, ◌*◌, ◌^◌, Bool, true, false, not, ◌&&◌, ◌||◌, Option, none, some, List,
  [], ◌∷◌, ◌++◌, ltb, leb, ◌==◌, if◌then◌else◌, length, get_or, take,
}
use hetao.Base.Int.{ℤ, pos, negsuc, sub_ℕ}
use hetao.Http.Body.{memmove}
use hetao.Http.Types.{Memory, HttpBuffer, Code, success, failure, error_alloc}

-- How a function on a buffer ends: with a code, or in undefined behaviour (a size out of the range
-- of `int`, or data that is not in the memory), or with a write behind the buffer's memory, or in a
-- loop that has used up the rounds given to it.
pub data Result : Type 0 where
  returned : HttpBuffer → Code → Result
  undefined_result : Result
  overrun : Result
  endless : Result

abbrev pub bound_int : ℕ
bound_int = 2 ^ 31

-- Zeros from an offset on, as `memset( base + from , 0x00 , ... )` leaves them.
abbrev pub zero_from : Memory → ℕ → Memory
zero_from base from i = if leb from i then 0 else base i

-- `memcpy( base + at , text , strlen(text) )`
abbrev pub write_bytes : Memory → ℕ → List ℕ → Memory
write_bytes base at text i =
    if leb at i && ltb i (at + length text) then get_or text (i - at) 0 else base i

-- `malloc_succeeds n` says whether the allocator finds `n` bytes.
unfoldable pub init_http_buffer : (ℕ → Bool) → ℕ → HttpBuffer → Result
init_http_buffer malloc_succeeds size b =
    if malloc_succeeds size
    then returned
        (record {
          buf_size = size;
          base = λ _. 0;
          base_null = false;
          ref_flag = false;
          fill_ptr = 0;
          process_ptr = 0;
        })
        success
    else returned (record b { buf_size = size; base_null = true }) failure

-- `base` is the caller's memory, which the buffer refers to.
unfoldable pub init_http_buffer2 : ℕ → Memory → Bool → HttpBuffer
init_http_buffer2 size base null = record {
  buf_size = size;
  base = base;
  base_null = null;
  ref_flag = true;
  fill_ptr = 0;
  process_ptr = 0;
}

unfoldable pub reforming_http_buffer : HttpBuffer → HttpBuffer
reforming_http_buffer b =
    let len = b.fill_ptr - b.process_ptr in
    record b { base = memmove b.base 0 b.process_ptr len; process_ptr = 0; fill_ptr = len }

unfoldable pub reset_http_buffer : HttpBuffer → HttpBuffer
reset_http_buffer b = record b { fill_ptr = 0; process_ptr = 0 }

unfoldable pub clean_http_buffer : HttpBuffer → HttpBuffer
clean_http_buffer b =
    if not b.ref_flag && (ltb 0 b.buf_size && not b.base_null)
    then record b { base_null = true; buf_size = 0 }
    else b

-- The size to grow to for `new_buf_size == -1`. Above 100 MB the -1 is added in.
abbrev pub grown_size : ℕ → ℕ
grown_size size = if leb size (100 * 1024 * 1024) then size * 2 else size + 100 * 1024 * 1024 - 1

abbrev pub requested_size : ℕ → Option ℕ → ℕ
requested_size size none = grown_size size
requested_size size (some n) = n

-- `none` stands for the size -1. A buffer of foreign memory is left alone, with success. `realloc`
-- keeps the `buf_size` bytes of the old memory: data that ends behind them is lost.
unfoldable pub realloc_http_buffer : (ℕ → Bool) → HttpBuffer → Option ℕ → Result
realloc_http_buffer malloc_succeeds b request =
    let size = requested_size b.buf_size request in
    if b.ref_flag
    then returned b success
    else if leb bound_int size
    then undefined_result
    else if not (malloc_succeeds size)
    then returned b error_alloc
    else if ltb size b.fill_ptr || ltb b.buf_size b.fill_ptr
    then undefined_result
    else returned
        (record b { buf_size = size; base = zero_from b.base b.fill_ptr; base_null = false })
        success

-- A result that goes on: the rest of a loop, on success.
abbrev pub on_success : Result → (HttpBuffer → Result) → Result
on_success (returned b success) go_on = go_on b
on_success r go_on = r

-- `while( used + len > b->buf_size-1 ) { nret = ReallocHttpBuffer( b , -1 ) ; ... }`
unfoldable pub make_room : (ℕ → Bool) → ℕ → ℕ → HttpBuffer → Result
make_room malloc_succeeds zero n b = endless
make_room malloc_succeeds (suc k) n b =
    if leb (n + 1) b.buf_size
    then returned b success
    else on_success (realloc_http_buffer malloc_succeeds b none) (make_room malloc_succeeds k n)

-- Rounds that suffice to grow any size beyond `int`.
abbrev pub rounds : ℕ
rounds = 64

unfoldable pub strcpy_http_buffer : (ℕ → Bool) → HttpBuffer → List ℕ → Result
strcpy_http_buffer malloc_succeeds b text =
    on_success (make_room malloc_succeeds rounds (length text) b) (λ c.
      returned (record c { base = write_bytes c.base 0 text; fill_ptr = length text }) success)

-- `n` counts the bytes in front of and in the text: `(fill_ptr-base) + len`.
abbrev pub append_bytes : HttpBuffer → List ℕ → HttpBuffer
append_bytes c text = record c {
  base = write_bytes c.base c.fill_ptr text;
  fill_ptr = c.fill_ptr + length text;
}

-- In at most `k` rounds of the loop.
unfoldable pub strcat_in_rounds : ℕ → (ℕ → Bool) → HttpBuffer → List ℕ → Result
strcat_in_rounds k malloc_succeeds b text =
    on_success (make_room malloc_succeeds k (b.fill_ptr + length text) b)
      (λ c. returned (append_bytes c text) success)

unfoldable pub strcat_http_buffer : (ℕ → Bool) → HttpBuffer → List ℕ → Result
unfolding strcat_in_rounds
strcat_http_buffer malloc_succeeds b text = strcat_in_rounds rounds malloc_succeeds b text

-- The same, of `len` bytes at a pointer.
unfoldable pub memcat_http_buffer : (ℕ → Bool) → HttpBuffer → Memory → ℕ → Result
memcat_http_buffer malloc_succeeds b source n =
    on_success (make_room malloc_succeeds rounds (b.fill_ptr + n) b) (λ c.
      returned
        (record c {
          base = λ i.
              if leb c.fill_ptr i && ltb i (c.fill_ptr + n)
              then source (i - c.fill_ptr)
              else c.base i;
          fill_ptr = c.fill_ptr + n;
        })
        success)

-- `vsnprintf( base + at , room , ... )` of a text: at most `room - 1` bytes and a NUL.
abbrev pub vsnprintf : Memory → ℕ → ℕ → List ℕ → Memory
vsnprintf base at zero text = base
vsnprintf base at (suc room) text = write_bytes base at (take room text ++ 0 ∷ [])

-- `len == -1 || len >= b->buf_size-1 - (b->fill_ptr-b->base)` is `leb`; `==` in its place is `==`.
-- A room below zero is a huge `size_t`, and `vsnprintf` writes behind the memory.
unfoldable pub print_loop : (ℕ → ℕ → Bool) → (ℕ → Bool) → ℕ → List ℕ → HttpBuffer → Result
print_loop is_full malloc_succeeds zero text b = endless
print_loop is_full malloc_succeeds (suc k) text b =
    let room = b.buf_size - 1 - b.fill_ptr in
    let c = record b { base = vsnprintf b.base b.fill_ptr room text } in
    if leb b.buf_size b.fill_ptr
    then overrun
    else if is_full room (length text)
    then on_success (realloc_http_buffer malloc_succeeds c none)
        (print_loop is_full malloc_succeeds k text)
    else returned (record c { fill_ptr = c.fill_ptr + length text }) success

-- `text` is what the format and its arguments print.
unfoldable pub strcatf_http_buffer : (ℕ → Bool) → HttpBuffer → List ℕ → Result
strcatf_http_buffer malloc_succeeds b text = print_loop leb malloc_succeeds rounds text b

unfoldable pub strcatv_http_buffer : (ℕ → Bool) → HttpBuffer → List ℕ → Result
strcatv_http_buffer malloc_succeeds b text =
    print_loop (λ room len. room == len) malloc_succeeds rounds text b

-- StrcpyfHttpBuffer and StrcpyvHttpBuffer.
unfoldable pub strcpyf_loop : (ℕ → Bool) → ℕ → List ℕ → HttpBuffer → Result
strcpyf_loop malloc_succeeds zero text b = endless
strcpyf_loop malloc_succeeds (suc k) text b =
    let room = b.buf_size - 1 in
    let c = record b { base = vsnprintf b.base 0 room text } in
    if leb b.buf_size 0
    then overrun
    else if length text == room
    then on_success (realloc_http_buffer malloc_succeeds c none)
        (strcpyf_loop malloc_succeeds k text)
    else returned (record c { fill_ptr = length text }) success

unfoldable pub strcpyf_http_buffer : (ℕ → Bool) → HttpBuffer → List ℕ → Result
strcpyf_http_buffer malloc_succeeds b text = strcpyf_loop malloc_succeeds rounds text b

-- The buffer takes on foreign memory that holds `size - 1` bytes of data.
unfoldable pub set_http_buffer_ptr : ℕ → Memory → HttpBuffer → HttpBuffer
set_http_buffer_ptr size base b = record {
  buf_size = size;
  base = base;
  base_null = false;
  ref_flag = true;
  fill_ptr = size - 1;
  process_ptr = 0;
}

-- The code is C's `int`: 1 for a NULL base, -1 where `malloc` fails, 0 for success.
unfoldable pub duplicate_http_buffer_ptr : (ℕ → Bool) → HttpBuffer → HttpBuffer × ℤ
duplicate_http_buffer_ptr malloc_succeeds b =
    if b.base_null
    then (b, pos 1)
    else if not (malloc_succeeds b.buf_size)
    then (b, negsuc 0)
    else (record b { ref_flag = false }, pos 0)

unfoldable pub set_http_buffer_fill_ptr : ℕ → HttpBuffer → HttpBuffer
set_http_buffer_fill_ptr offset b = record b { fill_ptr = offset }

unfoldable pub offset_http_buffer_fill_ptr : ℕ → HttpBuffer → HttpBuffer
offset_http_buffer_fill_ptr offset b = record b { fill_ptr = b.fill_ptr + offset }

unfoldable pub offset_http_buffer_process_ptr : ℕ → HttpBuffer → HttpBuffer
offset_http_buffer_process_ptr offset b = record b { process_ptr = b.process_ptr + offset }

-- The three lengths; `none` is a NULL pointer.
unfoldable pub length_unfilled : Option HttpBuffer → ℤ
length_unfilled none = pos 0
length_unfilled (some b) = sub_ℕ b.buf_size (b.fill_ptr + 1)

unfoldable pub length_processed : Option HttpBuffer → ℕ
length_processed none = 0
length_processed (some b) = b.process_ptr

unfoldable pub length_unprocessed : Option HttpBuffer → ℤ
length_unprocessed none = pos 0
length_unprocessed (some b) = sub_ℕ b.fill_ptr b.process_ptr
