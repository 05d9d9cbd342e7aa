-- ===== src/Server/Sessions/Release.antt =====
-- `SetHttpSessionUnused` of src/HttpSession.c on a pool.
use hetao.Base.{
  ℕ, suc, ◌+◌, ◌≡◌, refl, sym, ap, ◌∙◌, inl, inr, Bool, [], ◌∷◌, arith, if◌then◌else◌, Bool-cases,
  length, length-append,
}
use hetao.Base.Int.{ℤ, pos, negsuc, ◌+ℤ◌}
use hetao.Server.IpLimits.{decrease_ip_limits_hash_node}
use hetao.Server.IpLimits.Counts.{connections, IsTable}
use hetao.Server.IpLimits.Leaving.{decrease-Decreases, restored}
use hetao.Server.Sessions.{
  HetaoEnv, is_unlimited, Fetched, fetched, not_fetched, undefined_fetch, fetch_http_session_unused,
  reset_session, set_http_session_unused,
}
use hetao.Server.Sessions.Fetch.{InRange, counted, Fetches, fetch_http_session_unused-Fetches}
use hetao.Server.Sessions.Members.{Contains}
use hetao.Server.Sessions.Pool.{IsPool, add_pos, minus_one, Creates}
use hetao.Server.Tree.{Tree, inorder, HttpSession}
use hetao.Server.Tree.Update.{KeepsOrder, Erases}

add_one : (n : ℕ) → n + 1 ≡ suc n
add_one n = omega arith

set_http_session_unused-IsTable :
    (v : HetaoEnv) (s : HttpSession)
    → IsPool v
    → IsTable (
        if is_unlimited v.limits__max_connections_per_ip
        then v.ip_limits_table
        else (decrease_ip_limits_hash_node v.ip_limits_table s.ip).0)
set_http_session_unused-IsTable v s k =
    elim (Bool-cases (is_unlimited v.limits__max_connections_per_ip)) [
      | inl e ↦ rw e k.table
      | inr e ↦ rw e (decrease-Decreases v.ip_limits_table s.ip k.table).1
    ]

-- What a session that is fetched leaves behind when it is released at once, by an address `ip`.
abbrev pub Returns :
    (HttpSession → Tree HttpSession → Tree HttpSession) → HetaoEnv → ℕ → Fetched → Type 0
Returns rb_erase v ip (fetched w s) =
    let u = set_http_session_unused rb_erase w (record s { ip = ip }) in
    IsPool u
    × (u.http_session_used_count ≡ v.http_session_used_count)
    × ((other : ℕ) → connections u.ip_limits_table other ≡ connections v.ip_limits_table other)
Returns rb_erase v ip (not_fetched w) = Unit {0}
Returns rb_erase v ip undefined_fetch = ⊥

module _ (rb_erase : HttpSession → Tree HttpSession → Tree HttpSession)
    (erases : Erases rb_erase) where
  set_http_session_unused-IsPool :
      (v : HetaoEnv) (s : HttpSession)
      → IsPool v
      → Contains s.session (inorder v.http_session_timeout_rbtree_used)
      → Contains s.session (inorder v.http_session_elapse_rbtree_used)
      → IsPool (set_http_session_unused rb_erase v s)
  unfolding set_http_session_unused
  set_http_session_unused-IsPool v s k c c' =
      let timeout = ap length (erases s v.http_session_timeout_rbtree_used) in
      let elapse = ap length (erases s v.http_session_elapse_rbtree_used) in
      let list = length-append v.http_session_unused_list (reset_session s ∷ []) in
      record {
        unused = ap (λ z. z +ℤ pos 1) k.unused ∙ (add_pos _ 1 ∙ ap pos (omega (arith, list)));
        used =
            ap (λ z. z +ℤ negsuc 0) (k.used ∙ ap pos (sym c))
            ∙ (minus_one _ ∙ ap pos (sym timeout));
        both = omega (arith, timeout, elapse, c, c', k.both);
        bound = omega (arith, timeout, list, c, k.bound);
        table = set_http_session_unused-IsTable v s k;
      }

  released_connections :
      (v w : HetaoEnv) (s : HttpSession)
      → IsPool w
      → is_unlimited w.limits__max_connections_per_ip
        ≡ is_unlimited v.limits__max_connections_per_ip
      → ((other : ℕ)
          → connections w.ip_limits_table other
            ≡ connections v.ip_limits_table other + counted v s.ip other)
      → (other : ℕ)
      → connections (set_http_session_unused rb_erase w s).ip_limits_table other
        ≡ connections v.ip_limits_table other
  unfolding set_http_session_unused
  released_connections v w s k l c other =
      elim (Bool-cases (is_unlimited w.limits__max_connections_per_ip)) [
        | inl e ↦ rw e (c other ∙ rw (sym l ∙ e) (omega arith))
        | inr e ↦
            let connected = λ (a : ℕ). c a ∙ rw (sym l ∙ e) refl in
            rw e (
              (restored v.ip_limits_table w.ip_limits_table s.ip
                  (decrease_ip_limits_hash_node w.ip_limits_table s.ip) connected
                  (decrease-Decreases w.ip_limits_table s.ip k.table).0).1
                other)
      ]

  released_used :
      (v w : HetaoEnv) (s : HttpSession) (n : ℕ)
      → v.http_session_used_count ≡ pos n
      → w.http_session_used_count ≡ v.http_session_used_count +ℤ pos 1
      → (set_http_session_unused rb_erase w s).http_session_used_count ≡ v.http_session_used_count
  unfolding set_http_session_unused
  released_used v w s n e h =
      let more = h ∙ (ap (λ z. z +ℤ pos 1) e ∙ (add_pos n 1 ∙ ap pos (add_one n))) in
      ap (λ z. z +ℤ negsuc 0) more ∙ (minus_one n ∙ sym e)

  Fetches-Returns :
      (v : HetaoEnv) (ip : ℕ) (f : Fetched) → IsPool v → Fetches v ip f → Returns rb_erase v ip f
  Fetches-Returns v ip (fetched w s) k (kw, used, c, (m, m'), l) = (
    set_http_session_unused-IsPool w (record s { ip = ip }) kw m m',
    released_used v w (record s { ip = ip }) _ k.used used,
    released_connections v w (record s { ip = ip }) kw (ap is_unlimited l) c,
  )
  Fetches-Returns v ip (not_fetched w) k f = tt
  Fetches-Returns v ip undefined_fetch k f = f

  module _ (rb_insert_color : HttpSession → Tree HttpSession → Tree HttpSession)
      (keeps : KeepsOrder rb_insert_color) where
    -- On a sound pool, where sessions can be created and the times are in the range of `int`, a
    -- session that is fetched for an address and released again leaves a sound pool with the
    -- counts of used sessions and of the connections of every address as they were.
    pub set_http_session_unused-fetch :
        (node_malloc malloc_succeeds : Bool) (creates : ℕ → Bool) (now : ℤ) (v : HetaoEnv) (ip : ℕ)
        → Creates creates
        → IsPool v
        → InRange now v
        → Returns rb_erase v ip
            (fetch_http_session_unused rb_insert_color node_malloc malloc_succeeds creates now v ip)
    set_http_session_unused-fetch node_malloc malloc_succeeds creates now v ip h k r =
        Fetches-Returns v ip _ k (
          fetch_http_session_unused-Fetches rb_insert_color keeps node_malloc malloc_succeeds
            creates now v ip h k r)
