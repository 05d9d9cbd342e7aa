-- ===== src/Server/Sessions/Examples.antt =====
-- A pool of sessions (src/HttpSession.c) of an empty server and of a full one.
use hetao.Base.{
  ℕ, ◌+◌, ◌≡◌, refl, Bool, true, Option, none, some, [], ◌∷◌, arith, ◌==◌, if◌then◌else◌,
}
use hetao.Base.Int.{ℤ, pos, ◌+ℤ◌, to_int}
use hetao.Server.IpLimits.{
  Table, ip_limits, init_ip_limits_hash, increase_in, increased, increase_ip_limits_hash_node,
}
use hetao.Server.IpLimits.Counts.{connections, IsTable}
use hetao.Server.Sessions.{HetaoEnv, Fetched, fetched, not_fetched, fetch_http_session_unused}
use hetao.Server.Sessions.Fetch.{InRange, Fetches, fetch_http_session_unused-Fetches}
use hetao.Server.Sessions.Full.{fetch_http_session_unused-full}
use hetao.Server.Sessions.Pool.{IsPool}
use hetao.Server.Sessions.Release.{Returns, set_http_session_unused-fetch}
use hetao.Server.Tree.{leaf, inorder}
use hetao.Server.Tree.Examples.{unbalanced, erase, unbalanced-KeepsOrder, erase-Erases}

abbrev pub empty_pool : HetaoEnv
empty_pool = record {
  limits__max_http_session_count = pos 3;
  limits__max_connections_per_ip = pos 2;
  http_options__timeout = pos 30;
  http_options__elapse = pos 60;
  ip_limits_table = init_ip_limits_hash;
  http_session_unused_list = [];
  http_session_unused_count = pos 0;
  http_session_used_count = pos 0;
  http_session_timeout_rbtree_used = leaf;
  http_session_elapse_rbtree_used = leaf;
  connection_count = λ n. pos 0;
  next_address = 100;
}

abbrev pub all_created : ℕ → Bool
all_created a = true

init-IsTable : IsTable init_ip_limits_hash
unfolding init_ip_limits_hash
init-IsTable i = tt

empty_pool-IsPool : IsPool empty_pool
unfolding inorder
empty_pool-IsPool = record {
  unused = refl;
  used = refl;
  both = refl;
  bound = omega arith;
  table = init-IsTable;
}

-- The code, the session and the two counters.
abbrev pub fetched_counts : Fetched → Option (ℕ × ℤ × ℤ)
fetched_counts (fetched v s) =
    some (s.session, v.http_session_used_count, v.http_session_unused_count)
fetched_counts _ = none

first_fetch :
    fetched_counts
      (fetch_http_session_unused unbalanced true true all_created (pos 1000) empty_pool 7)
    ≡ some (100, pos 1, pos 2)
unfolding fetch_http_session_unused init_ip_limits_hash to_int increase_in
first_fetch = refl

in_range : InRange (pos 1000) empty_pool
unfolding to_int ◌+ℤ◌
in_range = (refl, refl)

fetch_http_session_unused-Fetches_example :
    Fetches empty_pool 7
      (fetch_http_session_unused unbalanced true true all_created (pos 1000) empty_pool 7)
fetch_http_session_unused-Fetches_example =
    fetch_http_session_unused-Fetches unbalanced unbalanced-KeepsOrder true true all_created
      (pos 1000) empty_pool 7 (λ a. refl) empty_pool-IsPool in_range

set_http_session_unused-fetch_example :
    Returns erase empty_pool 7
      (fetch_http_session_unused unbalanced true true all_created (pos 1000) empty_pool 7)
set_http_session_unused-fetch_example =
    set_http_session_unused-fetch erase erase-Erases unbalanced unbalanced-KeepsOrder true true
      all_created (pos 1000) empty_pool 7 (λ a. refl) empty_pool-IsPool in_range

-- A server that is allowed no session.
abbrev pub full_pool : HetaoEnv
full_pool = record empty_pool { limits__max_http_session_count = pos 0 }

full_pool-IsPool : IsPool full_pool
unfolding inorder
full_pool-IsPool = record {
  unused = refl;
  used = refl;
  both = refl;
  bound = omega arith;
  table = init-IsTable;
}

abbrev pub one_connection : Table
one_connection i = if i == 7 then ip_limits 7 1 ∷ [] else []

one_connection_lem :
    increase_ip_limits_hash_node true (pos 2) init_ip_limits_hash 7 ≡ (one_connection, increased)
unfolding increase_ip_limits_hash_node init_ip_limits_hash increase_in
one_connection_lem = refl

fetch_http_session_unused-full_example :
    (fetch_http_session_unused unbalanced true true all_created (pos 1000) full_pool 7
      ≡ not_fetched (record full_pool { ip_limits_table = one_connection }))
    × (connections one_connection 7 ≡ connections init_ip_limits_hash 7 + 1)
fetch_http_session_unused-full_example =
    fetch_http_session_unused-full unbalanced true true all_created (pos 1000) full_pool 7
      full_pool-IsPool refl refl refl one_connection one_connection_lem
