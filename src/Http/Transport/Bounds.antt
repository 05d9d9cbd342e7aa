-- ===== src/Http/Transport/Bounds.antt =====
-- The receiving loops of src/fasterhttp.c keep to the buffer's memory.
use hetao.Base.{ℕ, ◌≡◌, Bool, Option, some}
use hetao.Http.Environment.{Environment}
use hetao.Http.Parse.{undefined_behaviour, parse_http_buffer}
use hetao.Http.Transport.Fills.{Owns}
use hetao.Http.Transport.Send.{
  buffer_at, Reply, replied, reply_undefined, reply_overflow, reply_endless, Hook,
}
use hetao.Http.Types.{BufferName, error_alloc}

-- What a called function has to leave in order.
abbrev pub KeepsBuffer : BufferName → Hook → Type 0
KeepsBuffer name hook =
    (v : Environment) → Owns (buffer_at name v) → Owns (buffer_at name (hook v).0)

-- Nothing is claimed of a call whose allocator fails, or which leaves the range of `int` with the
-- size of a buffer. Where the parser overflows, the buffer that it was called with is in order.
abbrev pub Sound {ℓ} : {S : Type ℓ} → (ℕ → Bool) → BufferName → Reply S → Type 0
Sound realloc_succeeds name (replied s w error_alloc) = Unit {0}
Sound realloc_succeeds name (replied s w c) = Owns (buffer_at name w)
Sound realloc_succeeds name (reply_overflow s w) =
    Owns (buffer_at name w)
    × (parse_http_buffer realloc_succeeds name (buffer_at name w) w.parser ≡ undefined_behaviour)
Sound realloc_succeeds name reply_undefined = Unit {0}
Sound realloc_succeeds name reply_endless = Unit {0}

-- What is called after receiving keeps the buffer in order.
abbrev pub HooksKeep : BufferName → Option Hook → Hook → Type 0
HooksKeep name after_receive uncompress =
    ((hook : Hook) → after_receive ≡ some hook → KeepsBuffer name hook)
    × KeepsBuffer name uncompress
