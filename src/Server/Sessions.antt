-- ===== src/Server/Sessions.antt =====
-- The pool of sessions of src/HttpSession.c, with the counters, the list and the trees that
-- `struct HetaoEnv` (src/hetao_in.h) has for it. Sessions are told apart by a number for their
-- address.
pub mod Pool
pub mod Members
pub mod Full
pub mod Fetch
pub mod Release
pub mod Examples
use hetao.Base.{
  ℕ, zero, suc, ◌+◌, Bool, true, false, not, ◌||◌, Option, none, some, List, [], ◌∷◌, ◌++◌, ◌==◌,
  if◌then◌else◌,
}
use hetao.Base.Int.{ℤ, pos, negsuc, pos_part, ◌+ℤ◌, sub_ℤ, ltb_ℤ, out_of_int, to_int}
use hetao.Server.IpLimits.{
  Table, Increase, increased, increase_ip_limits_hash_node, decrease_ip_limits_hash_node,
}
use hetao.Server.Tree.{Tree, HttpSession, add_tree_node}

pub record HetaoEnv : Type 0 where
  pub limits__max_http_session_count : ℤ
  pub limits__max_connections_per_ip : ℤ
  pub http_options__timeout : ℤ
  pub http_options__elapse : ℤ
  pub ip_limits_table : Table
  pub http_session_unused_list : List HttpSession
  pub http_session_unused_count : ℤ
  pub http_session_used_count : ℤ
  pub http_session_timeout_rbtree_used : Tree HttpSession
  pub http_session_elapse_rbtree_used : Tree HttpSession
  pub connection_count : ℕ → ℤ
  pub next_address : ℕ

-- `== 0`, `== -1` and `!= NULL`
abbrev pub is_zero : ℤ → Bool
is_zero (pos zero) = true
is_zero _ = false

abbrev pub is_unlimited : ℤ → Bool
is_unlimited (negsuc zero) = true
is_unlimited _ = false

abbrev pub is_some : Option ℕ → Bool
is_some none = false
is_some (some n) = true

abbrev pub new_session : ℕ → HttpSession
new_session n = record {
  session = n;
  ip = 0;
  p_forward_server = none;
  forward_flags = false;
  timeout_timestamp = pos 0;
  elapse_timestamp = pos 0;
}

abbrev pub in_front : HttpSession → List HttpSession × Bool → List HttpSession × Bool
in_front s (rest, all) = (s ∷ rest, all)

-- The loop of IncreaseHttpSessions over `n` sessions from the address `a` on: those that are put
-- into the list, and whether all are. `creates` tells for which the buffers can be allocated.
unfoldable pub create_sessions : (ℕ → Bool) → ℕ → ℕ → List HttpSession × Bool
create_sessions creates a zero = ([], true)
create_sessions creates a (suc n) =
    let rest = in_front (new_session a) (create_sessions creates (suc a) n) in
    if creates a then rest else ([], false)

-- The sessions stand in the list also where a later one fails, and are not counted then.
abbrev pub created : HetaoEnv → ℕ → List HttpSession × Bool → HetaoEnv × ℤ
created v n (sessions, true) = (
  record v {
    http_session_unused_list = v.http_session_unused_list ++ sessions;
    http_session_unused_count = v.http_session_unused_count +ℤ pos n;
    next_address = v.next_address + n;
  },
  pos 0,
)
created v n (sessions, false) = (
  record v {
    http_session_unused_list = v.http_session_unused_list ++ sessions;
    next_address = v.next_address + n;
  },
  negsuc 0,
)

-- `limits__max_http_session_count - http_session_used_count` where the wanted number exceeds it.
unfoldable pub increment : ℤ → ℤ → ℕ → ℕ
unfolding ◌+ℤ◌
increment limit used n = if ltb_ℤ limit (used +ℤ pos n) then pos_part (sub_ℤ limit used) else n

unfoldable pub increase_http_sessions : Bool → (ℕ → Bool) → HetaoEnv → ℕ → HetaoEnv × ℤ
unfolding create_sessions increment ◌+ℤ◌
increase_http_sessions malloc_succeeds creates v n =
    if not (ltb_ℤ v.http_session_used_count v.limits__max_http_session_count)
    then (v, pos 1)
    else if not malloc_succeeds
    then (v, negsuc 0)
    else let n' = increment v.limits__max_http_session_count v.http_session_used_count n in
      created v n' (create_sessions creates v.next_address n')

-- What FetchHttpSessionUnused leaves and returns. The first of an empty list is no session, and a
-- time past the range of `int` is not defined.
pub data Fetched : Type 0 where
  fetched : HetaoEnv → HttpSession → Fetched
  not_fetched : HetaoEnv → Fetched
  undefined_fetch : Fetched

module _ (rb_insert_color : HttpSession → Tree HttpSession → Tree HttpSession) where
  abbrev pub add_timeout : HttpSession → Tree HttpSession → Tree HttpSession
  add_timeout = add_tree_node (λ s. s.timeout_timestamp) rb_insert_color

  abbrev pub add_elapse : HttpSession → Tree HttpSession → Tree HttpSession
  add_elapse = add_tree_node (λ s. s.elapse_timestamp) rb_insert_color

  -- The session leaves the list and goes into both trees. Adding to a tree does not fail.
  abbrev pub use_session : HetaoEnv → HttpSession → List HttpSession → Fetched
  use_session v s rest =
      fetched
        (record v {
          http_session_unused_list = rest;
          http_session_timeout_rbtree_used = add_timeout s v.http_session_timeout_rbtree_used;
          http_session_elapse_rbtree_used = add_elapse s v.http_session_elapse_rbtree_used;
          http_session_used_count = v.http_session_used_count +ℤ pos 1;
          http_session_unused_count = v.http_session_unused_count +ℤ negsuc 0;
        })
        s

  abbrev pub take_first : ℤ → HetaoEnv → List HttpSession → Fetched
  take_first now v [] = undefined_fetch
  take_first now v (s ∷ rest) =
      let timeout = to_int now +ℤ v.http_options__timeout in
      let elapse = to_int now +ℤ v.http_options__elapse in
      if out_of_int timeout || out_of_int elapse
      then undefined_fetch
      else use_session v (record s { timeout_timestamp = timeout; elapse_timestamp = elapse }) rest

  -- `if( nret ) return NULL;`
  abbrev pub when_increased : ℤ → HetaoEnv × ℤ → Fetched
  when_increased now (v, pos zero) = take_first now v v.http_session_unused_list
  when_increased now (v, _) = not_fetched v

  -- What stands behind the check of the address. INCRE_HTTP_SESSION_COUNT is 100.
  unfoldable pub fetch_from_pool : Bool → (ℕ → Bool) → ℤ → HetaoEnv → Fetched
  unfolding increase_http_sessions add_tree_node
  fetch_from_pool malloc_succeeds creates now v =
      if is_zero v.http_session_unused_count
      then when_increased now (increase_http_sessions malloc_succeeds creates v 100)
      else take_first now v v.http_session_unused_list

  abbrev pub when_admitted : (HetaoEnv → Fetched) → HetaoEnv → Table × Increase → Fetched
  when_admitted go_on v (t, increased) = go_on (record v { ip_limits_table = t })
  when_admitted go_on v (t, _) = not_fetched (record v { ip_limits_table = t })

  unfoldable pub fetch_http_session_unused : Bool → Bool → (ℕ → Bool) → ℤ → HetaoEnv → ℕ → Fetched
  unfolding fetch_from_pool increase_ip_limits_hash_node
  fetch_http_session_unused node_malloc malloc_succeeds creates now v ip =
      let admitted = when_admitted (fetch_from_pool malloc_succeeds creates now) v (
        increase_ip_limits_hash_node node_malloc v.limits__max_connections_per_ip v.ip_limits_table
          ip) in
      if is_unlimited v.limits__max_connections_per_ip
      then fetch_from_pool malloc_succeeds creates now v
      else admitted

-- SetHttpSessionUnused_02 and SetHttpSessionUnused_05: the connection to the forward server. The
-- sockets, TLS and the messages' buffers are left out.
abbrev pub leave_server : (ℕ → ℤ) → Option ℕ → Bool → ℕ → ℤ
leave_server counts (some n) true i = if i == n then counts i +ℤ negsuc 0 else counts i
leave_server counts _ _ i = counts i

abbrev pub reset_session : HttpSession → HttpSession
reset_session s = record s {
  p_forward_server = none;
  forward_flags = if is_some s.p_forward_server then false else s.forward_flags;
}

unfoldable pub set_http_session_unused :
    (HttpSession → Tree HttpSession → Tree HttpSession) → HetaoEnv → HttpSession → HetaoEnv
unfolding ◌+ℤ◌ decrease_ip_limits_hash_node
set_http_session_unused rb_erase v s = record v {
  connection_count = leave_server v.connection_count s.p_forward_server s.forward_flags;
  ip_limits_table =
      if is_unlimited v.limits__max_connections_per_ip
      then v.ip_limits_table
      else (decrease_ip_limits_hash_node v.ip_limits_table s.ip).0;
  http_session_timeout_rbtree_used = rb_erase s v.http_session_timeout_rbtree_used;
  http_session_elapse_rbtree_used = rb_erase s v.http_session_elapse_rbtree_used;
  http_session_unused_list = v.http_session_unused_list ++ reset_session s ∷ [];
  http_session_used_count = v.http_session_used_count +ℤ negsuc 0;
  http_session_unused_count = v.http_session_unused_count +ℤ pos 1;
}
