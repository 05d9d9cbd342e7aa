-- ===== src/Server/Forward.antt =====
-- The choice of a server to forward to: `SelectForwardAddress` of src/OnConnectingForward.c.
pub mod Examples
pub mod Fair
pub mod Least
use hetao.Base.{ℕ, Bool, ◌||◌, Option, none, some, List, [], ◌∷◌, ◌++◌, ltb, ◌==◌, if◌then◌else◌}

-- `address` names the server's `netaddr`.
pub record ForwardServer : Type 0 where
  pub address : ℕ
  pub timestamp_to_valid : ℕ
  pub connection_count : ℕ

pub data ForwardRule : Type 0 where
  roundrobin leastconnection invalid : ForwardRule

pub data Selected : Type 0 where
  selected : ForwardServer → Selected
  service_unavailable internal_server_error : Selected

abbrev pub is_available : ℕ → ForwardServer → Bool
is_available now s = s.timestamp_to_valid == 0 || ltb s.timestamp_to_valid now

abbrev pub made_valid : ForwardServer → ForwardServer
made_valid s = record s { timestamp_to_valid = 0 }

-- A server that is passed over keeps its place.
abbrev pub skip_server :
    ForwardServer
    → Option (ForwardServer × List ForwardServer)
    → Option (ForwardServer × List ForwardServer)
skip_server s none = none
skip_server s (some (chosen, rest)) = some (chosen, s ∷ rest)

-- The walk over `roundrobin_list`: the server chosen is made valid and moved to the tail.
unfoldable pub select_roundrobin :
    ℕ → List ForwardServer → Option (ForwardServer × List ForwardServer)
select_roundrobin now [] = none
select_roundrobin now (s ∷ rest) =
    if is_available now s
    then some (made_valid s, rest ++ made_valid s ∷ [])
    else skip_server s (select_roundrobin now rest)

-- The walk over the servers in the order of `leastconnection_rbtree`.
unfoldable pub select_leastconnection :
    ℕ → List ForwardServer → Option (ForwardServer × List ForwardServer)
select_leastconnection now [] = none
select_leastconnection now (s ∷ rest) =
    if is_available now s
    then some (made_valid s, made_valid s ∷ rest)
    else skip_server s (select_leastconnection now rest)

abbrev pub chosen_of :
    List ForwardServer → Option (ForwardServer × List ForwardServer) → Selected × List ForwardServer
chosen_of servers none = (service_unavailable, servers)
chosen_of servers (some (s, servers')) = (selected s, servers')

-- `servers` is the list or the tree that the rule walks over; `now` is GETSECONDSTAMP.
unfoldable pub select_forward_address :
    ForwardRule → ℕ → List ForwardServer → Selected × List ForwardServer
unfolding select_roundrobin select_leastconnection
select_forward_address roundrobin now servers = chosen_of servers (select_roundrobin now servers)
select_forward_address leastconnection now servers =
    chosen_of servers (select_leastconnection now servers)
select_forward_address invalid now servers = (internal_server_error, servers)
