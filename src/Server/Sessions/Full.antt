-- ===== src/Server/Sessions/Full.antt =====
-- `FetchHttpSessionUnused` of src/HttpSession.c where the pool is full.
use hetao.Base.{ℕ, ◌+◌, ◌≡◌, refl, Bool, true, false, arith}
use hetao.Base.Int.{ℤ, ltb_ℤ}
use hetao.Server.IpLimits.{Table, increased, increase_ip_limits_hash_node}
use hetao.Server.IpLimits.Counts.{connections, increase-Increases}
use hetao.Server.Sessions.{
  HetaoEnv, is_zero, is_unlimited, increase_http_sessions, not_fetched, fetch_from_pool,
  fetch_http_session_unused,
}
use hetao.Server.Sessions.Pool.{IsPool}
use hetao.Server.Tree.{Tree, HttpSession}

module _ (rb_insert_color : HttpSession → Tree HttpSession → Tree HttpSession) where
  -- Where no session is left and the limit of sessions is reached, a call that the limit of its
  -- address admits returns no session, but the address has one connection more.
  pub fetch_http_session_unused-full :
      (node_malloc malloc_succeeds : Bool) (creates : ℕ → Bool) (now : ℤ) (v : HetaoEnv) (ip : ℕ)
      → IsPool v
      → is_zero v.http_session_unused_count ≡ true
      → ltb_ℤ v.http_session_used_count v.limits__max_http_session_count ≡ false
      → is_unlimited v.limits__max_connections_per_ip ≡ false
      → (t : Table)
      → increase_ip_limits_hash_node node_malloc v.limits__max_connections_per_ip v.ip_limits_table
          ip
        ≡ (t, increased)
      → (fetch_http_session_unused rb_insert_color node_malloc malloc_succeeds creates now v ip
          ≡ not_fetched (record v { ip_limits_table = t }))
        × (connections t ip ≡ connections v.ip_limits_table ip + 1)
  unfolding fetch_http_session_unused fetch_from_pool increase_http_sessions
  fetch_http_session_unused-full node_malloc malloc_succeeds creates now v ip k z full l t e =
      let up = rw e at (
        increase-Increases node_malloc v.limits__max_connections_per_ip v.ip_limits_table ip
          k.table) in
      (rw (l, e, z, full) refl, ground (arith, up.0.0 ip))
