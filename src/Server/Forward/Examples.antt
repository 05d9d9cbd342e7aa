-- ===== src/Server/Forward/Examples.antt =====
-- Runs of `SelectForwardAddress` (src/OnConnectingForward.c), and its theorems at an input.
use hetao.Base.{ℕ, ◌≡◌, refl, List, [], ◌∷◌, arith}
use hetao.Server.Forward.{
  ForwardServer, roundrobin, selected, select_roundrobin, select_leastconnection,
  select_forward_address,
}
use hetao.Server.Forward.Fair.{Rotates, select_roundrobin-Rotates, serve, serve-length}
use hetao.Server.Forward.Least.{Least, select_leastconnection-Least}

abbrev server : ℕ → ℕ → ℕ → ForwardServer
server a t n = record { address = a; timestamp_to_valid = t; connection_count = n }

abbrev three : List ForwardServer
three = server 1 50 0 ∷ server 2 0 3 ∷ server 3 0 5 ∷ []

skips_disabled :
    select_forward_address roundrobin 40 three
    ≡ (selected (server 2 0 3), server 1 50 0 ∷ server 3 0 5 ∷ server 2 0 3 ∷ [])
unfolding select_forward_address
skips_disabled = refl

select_roundrobin-Rotates_example : Rotates 40 three (select_roundrobin 40 three)
select_roundrobin-Rotates_example = select_roundrobin-Rotates 40 three

abbrev enabled : List ForwardServer
enabled = server 1 0 0 ∷ server 2 0 3 ∷ server 3 0 5 ∷ []

serve-length_example : serve 40 3 enabled ≡ (enabled, enabled)
serve-length_example = serve-length 40 enabled (refl, (refl, (refl, tt)))

select_leastconnection-Least_example : Least 40 three (select_leastconnection 40 three)
select_leastconnection-Least_example =
    select_leastconnection-Least 40 three
      ((omega arith, (omega arith, tt)), ((omega arith, tt), (tt, tt)))
