-- ===== src/Server/IpLimits/Examples.antt =====
-- Runs of src/IpLimitsHash.c, and its theorems at an input.
use hetao.Base.{ℕ, ◌+◌, ◌^◌, ◌≡◌, refl, true, [], ◌∷◌, arith}
use hetao.Base.Int.{pos}
use hetao.Server.IpLimits.{
  Table, ip_limits, init_ip_limits_hash, put_chain, increase_in, increased, at_limit,
  increase_ip_limits_hash_node, decrease_ip_limits_hash_node,
}
use hetao.Server.IpLimits.Counts.{
  count_in, connections, IsTable, Increases, put_chain-IsTable, increase-Increases,
}
use hetao.Server.IpLimits.Leaving.{Decreases, decrease-Decreases, decrease-increase}

abbrev one_client : Table
one_client = put_chain init_ip_limits_hash 7 (ip_limits (7 + 2 ^ 16) 2 ∷ ip_limits 7 1 ∷ [])

one_client-IsTable : IsTable one_client
unfolding count_in init_ip_limits_hash
one_client-IsTable =
    put_chain-IsTable init_ip_limits_hash 7 _ (λ i. tt) (omega arith, refl, (omega arith, refl, tt))

increase-Increases_example :
    Increases one_client 7 (pos 2) (increase_ip_limits_hash_node true (pos 2) one_client 7)
    × IsTable (increase_ip_limits_hash_node true (pos 2) one_client 7).0
increase-Increases_example = increase-Increases true (pos 2) one_client 7 one_client-IsTable

decrease-Decreases_example :
    Decreases one_client 7 (decrease_ip_limits_hash_node one_client 7)
    × IsTable (decrease_ip_limits_hash_node one_client 7).0
decrease-Decreases_example = decrease-Decreases one_client 7 one_client-IsTable

abbrev admitted : Table
admitted = (increase_ip_limits_hash_node true (pos 2) one_client 7).0

admitted_lem : increase_ip_limits_hash_node true (pos 2) one_client 7 ≡ (admitted, increased)
unfolding increase_ip_limits_hash_node increase_in init_ip_limits_hash
admitted_lem = refl

decrease-increase_example :
    ((decrease_ip_limits_hash_node admitted 7).1 ≡ true)
    × ((other : ℕ)
        → connections (decrease_ip_limits_hash_node admitted 7).0 other
          ≡ connections one_client other)
decrease-increase_example =
    decrease-increase true (pos 2) one_client admitted 7 one_client-IsTable admitted_lem

-- The third connection of an address is refused at the limit 2.
at_the_limit : (increase_ip_limits_hash_node true (pos 2) one_client (7 + 2 ^ 16)).1 ≡ at_limit
unfolding increase_ip_limits_hash_node increase_in init_ip_limits_hash
at_the_limit = refl
