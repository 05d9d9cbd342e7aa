-- ===== src/Server/HashTable/Examples.antt =====
-- A table of hosts (src/VirtualHostHash.c).
use hetao.Base.{◌+◌, ◌*◌, ◌≡◌, refl, [], ◌∷◌, ◌==◌, if◌then◌else◌}
use hetao.Server.HashTable.{calc_hash, Chains, push_node, VirtualHost}
use hetao.Server.HashTable.Lookup.{Pushes, push_node-Pushes}

abbrev pub two_hosts : Chains VirtualHost
two_hosts i = if i == 1 then record { domain = b'b' ∷ [] } ∷ [] else []

abbrev pub host_a : VirtualHost
host_a = record { domain = b'a' ∷ [] }

hash_of_a : calc_hash (b'a' ∷ b'b' ∷ []) ≡ 97 * 63 + 98
unfolding calc_hash
hash_of_a = refl

push_node-Pushes_example :
    Pushes (λ h. h.domain) 3 two_hosts host_a (push_node (λ h. h.domain) 4 two_hosts host_a)
push_node-Pushes_example = push_node-Pushes (λ h. h.domain) 3 two_hosts host_a
