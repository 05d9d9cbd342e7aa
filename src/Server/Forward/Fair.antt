-- ===== src/Server/Forward/Fair.antt =====
-- The round-robin rule of `SelectForwardAddress` (src/OnConnectingForward.c).
use hetao.Base.{
  ℕ, zero, suc, ◌≡◌, refl, ap, inl, inr, true, false, Option, none, some, List, [], ◌∷◌, ◌++◌,
  arith, Bool-cases, length,
}
use hetao.Server.Forward.{ForwardServer, is_available, made_valid, skip_server, select_roundrobin}
use mathlib.Core.List.{append-nil, append_assoc}

abbrev pub AllServers : (ForwardServer → Type 0) → List ForwardServer → Type 0
AllServers P [] = Unit {0}
AllServers P (s ∷ rest) = P s × AllServers P rest

abbrev pub IsUnavailable : ℕ → ForwardServer → Type 0
IsUnavailable now s = is_available now s ≡ false

-- `s` is the first available server of `servers`, and stands between `front` and `back`.
pub record FirstAvailable (now : ℕ) (servers front : List ForwardServer) (s : ForwardServer)
    (back : List ForwardServer) : Type 0 where
  pub splits : servers ≡ front ++ s ∷ back
  pub skipped : AllServers (IsUnavailable now) front
  pub available : is_available now s ≡ true

-- What a round-robin choice does.
abbrev pub Rotates : ℕ → List ForwardServer → Option (ForwardServer × List ForwardServer) → Type 0
Rotates now servers none = AllServers (IsUnavailable now) servers
Rotates now servers (some (chosen, servers')) =
    (front : List ForwardServer) × (s : ForwardServer) × (back : List ForwardServer)
    × FirstAvailable now servers front s back
    × (chosen ≡ made_valid s)
    × (servers' ≡ front ++ (back ++ made_valid s ∷ []))

skip-Rotates :
    (now : ℕ) (x : ForwardServer) (rest : List ForwardServer)
    (o : Option (ForwardServer × List ForwardServer))
    → is_available now x ≡ false
    → Rotates now rest o
    → Rotates now (x ∷ rest) (skip_server x o)
skip-Rotates now x rest none u r = (u, r)
skip-Rotates now x rest (some (chosen, servers')) u (front, s, back, f, e, g) = (
  x ∷ front,
  s,
  back,
  record { splits = ap (◌∷◌ x) f.splits; skipped = (u, f.skipped); available = f.available },
  e,
  ap (◌∷◌ x) g,
)

-- The round-robin rule takes the first available server, clears its timestamp and moves it behind
-- all others, whose order is kept; it finds none exactly when every server is disabled.
pub select_roundrobin-Rotates :
    (now : ℕ) (servers : List ForwardServer) → Rotates now servers (select_roundrobin now servers)
unfolding select_roundrobin
select_roundrobin-Rotates now [] = tt
select_roundrobin-Rotates now (s ∷ rest) = elim (Bool-cases (is_available now s)) [
  | inl e ↦ rw e ([], s, rest, record { splits = refl; skipped = tt; available = e }, refl, refl)
  | inr e ↦
      rw e (
        skip-Rotates now s rest (select_roundrobin now rest) e (select_roundrobin-Rotates now rest))
]

-- `n` requests in a row, at the same second: the servers that take them, and the list afterwards.
abbrev then_serve :
    (List ForwardServer → List ForwardServer × List ForwardServer)
    → List ForwardServer
    → Option (ForwardServer × List ForwardServer)
    → List ForwardServer × List ForwardServer
then_serve more servers none = ([], servers)
then_serve more servers (some (chosen, servers')) = let r = more servers' in (chosen ∷ r.0, r.1)

unfoldable pub serve : ℕ → ℕ → List ForwardServer → List ForwardServer × List ForwardServer
serve now zero servers = ([], servers)
serve now (suc n) servers = then_serve (serve now n) servers (select_roundrobin now servers)

abbrev pub IsEnabled : ForwardServer → Type 0
IsEnabled s = s.timestamp_to_valid ≡ 0

select_first :
    (now : ℕ) (s : ForwardServer) (rest : List ForwardServer)
    → IsEnabled s
    → select_roundrobin now (s ∷ rest) ≡ some (s, rest ++ s ∷ [])
unfolding select_roundrobin
select_first now s rest v = ground arith

serve-append :
    (now : ℕ) (front back : List ForwardServer)
    → AllServers IsEnabled front
    → serve now (length front) (front ++ back) ≡ (front, back ++ front)
unfolding serve
serve-append now [] back v = rw append-nil
serve-append now (s ∷ front) back v =
    rw (select_first now s (front ++ back) v.0, append_assoc)
      (rw (serve-append now front (back ++ s ∷ []) v.1, append_assoc))

-- Where no server is disabled, as many requests as there are servers go to every server once, in
-- the order of the list, and bring the list back to that order.
pub serve-length :
    (now : ℕ) (servers : List ForwardServer)
    → AllServers IsEnabled servers
    → serve now (length servers) servers ≡ (servers, servers)
serve-length now servers v = rw append-nil at (serve-append now servers [] v)
