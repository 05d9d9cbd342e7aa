-- ===== src/Server/Forward/Least.antt =====
-- The least-connection rule of `SelectForwardAddress` (src/OnConnectingForward.c).
use hetao.Base.{
  ℕ, ◌≤◌, ◌≡◌, refl, ap, inl, inr, true, false, Option, none, some, List, [], ◌∷◌, ◌++◌, arith,
  Bool-cases,
}
use hetao.Server.Forward.{ForwardServer, is_available, skip_server, select_leastconnection}
use hetao.Server.Forward.Fair.{AllServers, IsUnavailable}

abbrev pub IsAtLeast : ℕ → ForwardServer → Type 0
IsAtLeast n s = n ≤ s.connection_count

-- The tree's order: the counts do not fall.
abbrev pub IsOrdered : List ForwardServer → Type 0
IsOrdered [] = Unit {0}
IsOrdered (s ∷ rest) = AllServers (IsAtLeast s.connection_count) rest × IsOrdered rest

-- Every available server has at least `n` connections.
abbrev pub NoneBelow : ℕ → ℕ → List ForwardServer → Type 0
NoneBelow now n = AllServers (λ s. is_available now s ≡ true → n ≤ s.connection_count)

-- The server chosen is the first of the list that is available, `x` behind `front`: its timestamp
-- is cleared in its place, and no available server has fewer connections. Without one, every server
-- is disabled.
abbrev pub Least : ℕ → List ForwardServer → Option (ForwardServer × List ForwardServer) → Type 0
Least now servers none = AllServers (IsUnavailable now) servers
Least now servers (some (chosen, servers')) =
    (x : ForwardServer) × (front : List ForwardServer) × (back : List ForwardServer) × (servers
      ≡ front ++ x ∷ back)
    × AllServers (IsUnavailable now) front
    × (is_available now x ≡ true)
    × (chosen ≡ record x { timestamp_to_valid = 0 })
    × (servers' ≡ front ++ chosen ∷ back)
    × NoneBelow now x.connection_count servers

NoneBelow-of_AtLeast :
    (now n : ℕ) (servers : List ForwardServer)
    → AllServers (IsAtLeast n) servers
    → NoneBelow now n servers
NoneBelow-of_AtLeast now n [] a = tt
NoneBelow-of_AtLeast now n (s ∷ rest) a = (λ _. a.0, NoneBelow-of_AtLeast now n rest a.1)

skip-Least :
    (now : ℕ) (x : ForwardServer) (rest : List ForwardServer)
    (o : Option (ForwardServer × List ForwardServer))
    → is_available now x ≡ false
    → Least now rest o
    → Least now (x ∷ rest) (skip_server x o)
skip-Least now x rest none u r = (u, r)
skip-Least now x rest (some (chosen, servers')) u (y, front, back, parts, skipped, can, c, m, l) =
    (y, x ∷ front, back, ap (◌∷◌ x) parts, (u, skipped), can, c, ap (◌∷◌ x) m, (λ e. cc, l))

-- Over servers in the order of their counts, the least-connection rule takes the first available
-- server, and no available one has fewer connections; its timestamp is cleared in its place, and
-- the others are left as they are. It finds none exactly when every server is disabled.
pub select_leastconnection-Least :
    (now : ℕ) (servers : List ForwardServer)
    → IsOrdered servers
    → Least now servers (select_leastconnection now servers)
unfolding select_leastconnection
select_leastconnection-Least now [] o = tt
select_leastconnection-Least now (s ∷ rest) o = elim (Bool-cases (is_available now s)) [
  | inl e ↦ rw e (
    s,
    [],
    rest,
    refl,
    tt,
    e,
    refl,
    refl,
    (λ _. omega arith, NoneBelow-of_AtLeast now s.connection_count rest o.0),
  )
  | inr e ↦ rw e (
      skip-Least now s rest (select_leastconnection now rest) e
        (select_leastconnection-Least now rest o.1))
]
