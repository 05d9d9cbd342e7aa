-- ===== src/Server/Sessions/Fetch.antt =====
-- `FetchHttpSessionUnused` of src/HttpSession.c on a pool.
use hetao.Base.{
  ℕ, zero, suc, ◌+◌, ◌<◌, ◌≡◌, refl, sym, ap, ◌∙◌, inl, inr, Bool, true, false, List, [], ◌∷◌,
  arith, ◌==◌, if◌then◌else◌, Bool-cases, length, length-append,
}
use hetao.Base.Int.{ℤ, pos, negsuc, ◌+ℤ◌, ltb_ℤ, out_of_int, to_int}
use hetao.Server.IpLimits.{Table, Increase, increased, at_limit, no_memory}
use hetao.Server.IpLimits.Counts.{connections, IsTable, Increases, increase-Increases}
use hetao.Server.Sessions.{
  HetaoEnv, is_zero, is_unlimited, increase_http_sessions, Fetched, fetched, not_fetched,
  undefined_fetch, use_session, take_first, when_increased, fetch_from_pool, when_admitted,
  fetch_http_session_unused,
}
use hetao.Server.Sessions.Members.{Contains, Contains-link_node, InTrees}
use hetao.Server.Sessions.Pool.{
  IsPool, add_pos, minus_one, Creates, Grows, increase_http_sessions-Grows,
}
use hetao.Server.Tree.{Tree, leaf, node, inorder, link_node, HttpSession, add_tree_node}
use hetao.Server.Tree.Update.{KeepsOrder}

length-link_node :
    (time : HttpSession → ℤ) (s : HttpSession) (t : Tree HttpSession)
    → length (inorder (link_node time s t)) ≡ suc (length (inorder t))
unfolding link_node inorder
length-link_node time s leaf = refl
length-link_node time s (node l y r) =
    let old = length-append (inorder l) (y ∷ inorder r) in
    let left = length-append (inorder (link_node time s l)) (y ∷ inorder r) in
    let right = length-append (inorder l) (y ∷ inorder (link_node time s r)) in
    let left' = length-link_node time s l in
    let right' = length-link_node time s r in
    elim (Bool-cases (ltb_ℤ (time s) (time y))) [
      | inl e ↦ rw e (omega (arith, old, left, left'))
      | inr e ↦ elim (Bool-cases (ltb_ℤ (time y) (time s))) [
        | inl e' ↦ rw (e, e') (omega (arith, old, right, right'))
        | inr e' ↦ rw (e, e') (omega (arith, old, left, left'))
      ]
    ]

-- What a call leaves, where the table of addresses is not touched.
abbrev pub Used : HetaoEnv → Fetched → Type 0
Used v (fetched w s) =
    IsPool w
    × (w.http_session_used_count ≡ v.http_session_used_count +ℤ pos 1)
    × (w.ip_limits_table ≡ v.ip_limits_table)
    × InTrees w s
    × (w.limits__max_connections_per_ip ≡ v.limits__max_connections_per_ip)
Used v (not_fetched w) =
    IsPool w
    × (w.http_session_used_count ≡ v.http_session_used_count)
    × (w.ip_limits_table ≡ v.ip_limits_table)
Used v undefined_fetch = ⊥

-- The times of a session fetched now are in the range of `int`.
abbrev pub InRange : ℤ → HetaoEnv → Type 0
InRange now v =
    (out_of_int (to_int now +ℤ v.http_options__timeout) ≡ false)
    × (out_of_int (to_int now +ℤ v.http_options__elapse) ≡ false)

-- How many connections a call adds to the address `other`.
abbrev pub counted : HetaoEnv → ℕ → ℕ → ℕ
counted v ip other =
    if is_unlimited v.limits__max_connections_per_ip then 0 else if ip == other then 1 else 0

-- A session fetched is counted for the pool and for its address; without one the pool is as before.
abbrev pub Fetches : HetaoEnv → ℕ → Fetched → Type 0
Fetches v ip (fetched w s) =
    IsPool w
    × (w.http_session_used_count ≡ v.http_session_used_count +ℤ pos 1)
    × ((other : ℕ)
        → connections w.ip_limits_table other
          ≡ connections v.ip_limits_table other + counted v ip other)
    × InTrees w s
    × (w.limits__max_connections_per_ip ≡ v.limits__max_connections_per_ip)
Fetches v ip (not_fetched w) = IsPool w × (w.http_session_used_count ≡ v.http_session_used_count)
Fetches v ip undefined_fetch = ⊥

module _ (rb_insert_color : HttpSession → Tree HttpSession → Tree HttpSession)
    (keeps : KeepsOrder rb_insert_color) where
  length-add_tree_node :
      (time : HttpSession → ℤ) (s : HttpSession) (t : Tree HttpSession)
      → length (inorder (add_tree_node time rb_insert_color s t)) ≡ suc (length (inorder t))
  unfolding add_tree_node
  length-add_tree_node time s t = rw (keeps s (link_node time s t)) (length-link_node time s t)

  Contains-add :
      (time : HttpSession → ℤ) (s : HttpSession) (t : Tree HttpSession)
      → Contains s.session (inorder (add_tree_node time rb_insert_color s t))
  unfolding add_tree_node
  Contains-add time s t = rw (keeps s (link_node time s t)) (Contains-link_node time s t)

  use_session-Used :
      (v : HetaoEnv) (s : HttpSession) (x : HttpSession) (rest : List HttpSession)
      → IsPool v
      → v.http_session_unused_list ≡ x ∷ rest
      → Used v (use_session rb_insert_color v s rest)
  use_session-Used v s x rest k e =
      let timeout =
        length-add_tree_node (λ y. y.timeout_timestamp) s v.http_session_timeout_rbtree_used in
      let elapse =
        length-add_tree_node (λ y. y.elapse_timestamp) s v.http_session_elapse_rbtree_used in
      let list = ap length e in
      (
        record {
          unused = ap (λ z. z +ℤ negsuc 0) (k.unused ∙ ap pos list) ∙ minus_one (length rest);
          used = ap (λ z. z +ℤ pos 1) k.used ∙ (add_pos _ 1 ∙ ap pos (omega (arith, timeout)));
          both = omega (arith, timeout, elapse, k.both);
          bound = omega (arith, timeout, list, k.bound);
          table = k.table;
        },
        refl,
        refl,
        (
          Contains-add (λ y. y.timeout_timestamp) s v.http_session_timeout_rbtree_used,
          Contains-add (λ y. y.elapse_timestamp) s v.http_session_elapse_rbtree_used,
        ),
        refl,
      )

  take_first-Used :
      (now : ℤ) (v : HetaoEnv) (xs : List HttpSession)
      → IsPool v
      → v.http_session_unused_list ≡ xs
      → InRange now v
      → 0 < length xs
      → Used v (take_first rb_insert_color now v xs)
  take_first-Used now v [] k e r p = absurd (omega arith)
  take_first-Used now v (s ∷ rest) k e r p = rw (r.0, r.1) (use_session-Used v _ s rest k e)

  Used-same :
      (v w : HetaoEnv) (f : Fetched)
      → w.http_session_used_count ≡ v.http_session_used_count
      → w.ip_limits_table ≡ v.ip_limits_table
      → w.limits__max_connections_per_ip ≡ v.limits__max_connections_per_ip
      → Used w f
      → Used v f
  Used-same v w (fetched x s) u t l h = (h.0, h.1 ∙ ap (λ z. z +ℤ pos 1) u, h.2 ∙ t, h.3, h.4 ∙ l)
  Used-same v w (not_fetched x) u t l h = (h.0, h.1 ∙ u, h.2 ∙ t)
  Used-same v w undefined_fetch u t l h = h

  when_increased-Used :
      (now : ℤ) (v : HetaoEnv) (r : HetaoEnv × ℤ)
      → Grows v r
      → InRange now v
      → Used v (when_increased rb_insert_color now r)
  when_increased-Used now v (w, pos zero) (k, u, t, o, o', l, p) (r, r') =
      Used-same v w (take_first rb_insert_color now w w.http_session_unused_list) u t l
        (take_first-Used now w w.http_session_unused_list k refl (rw o r, rw o' r') (p refl))
  when_increased-Used now v (w, pos (suc n)) (k, u, t, o, o', l, p) r = (k, u, t)
  when_increased-Used now v (w, negsuc n) (k, u, t, o, o', l, p) r = (k, u, t)

  is_zero-pos : (n : ℕ) → (is_zero (pos n) ≡ true → n ≡ 0) × (is_zero (pos n) ≡ false → 0 < n)
  is_zero-pos zero = (λ e. refl, λ e. ground arith)
  is_zero-pos (suc n) = (λ e. ground arith, λ e. omega arith)

  fetch_from_pool-Used :
      (malloc_succeeds : Bool) (creates : ℕ → Bool) (now : ℤ) (v : HetaoEnv)
      → Creates creates
      → IsPool v
      → InRange now v
      → Used v (fetch_from_pool rb_insert_color malloc_succeeds creates now v)
  unfolding fetch_from_pool
  fetch_from_pool-Used malloc_succeeds creates now v h k r =
      let (empty, some_left) = is_zero-pos (length v.http_session_unused_list) in
      elim (Bool-cases (is_zero v.http_session_unused_count)) [
        | inl e ↦ rw e (
            when_increased-Used now v (increase_http_sessions malloc_succeeds creates v 100)
              (increase_http_sessions-Grows malloc_succeeds creates v 100 h k
                (empty (ap is_zero (sym k.unused) ∙ e)) (omega arith))
              r)
        | inr e ↦ rw e (
            take_first-Used now v v.http_session_unused_list k refl r
              (some_left (ap is_zero (sym k.unused) ∙ e)))
      ]

  Fetches-admitted :
      (v : HetaoEnv) (t : Table) (ip : ℕ) (f : Fetched)
      → ((other : ℕ)
          → connections t other ≡ connections v.ip_limits_table other + counted v ip other)
      → Used (record v { ip_limits_table = t }) f
      → Fetches v ip f
  Fetches-admitted v t ip (fetched w s) c u =
      (u.0, u.1, λ other. ap (λ x. connections x other) u.2 ∙ c other, u.3, u.4)
  Fetches-admitted v t ip (not_fetched w) c u = (u.0, u.1)
  Fetches-admitted v t ip undefined_fetch c u = u

  with_table :
      (v : HetaoEnv) (t : Table) → IsPool v → IsTable t → IsPool (record v { ip_limits_table = t })
  with_table v t k c = record {
    unused = k.unused;
    used = k.used;
    both = k.both;
    bound = k.bound;
    table = c;
  }

  when_admitted-Fetches :
      (malloc_succeeds : Bool) (creates : ℕ → Bool) (now : ℤ) (v : HetaoEnv) (ip : ℕ)
      (r : Table × Increase)
      → Creates creates
      → IsPool v
      → InRange now v
      → is_unlimited v.limits__max_connections_per_ip ≡ false
      → Increases v.ip_limits_table ip v.limits__max_connections_per_ip r × IsTable r.0
      → Fetches v ip (
          when_admitted rb_insert_color
            (fetch_from_pool rb_insert_color malloc_succeeds creates now)
            v
            r)
  when_admitted-Fetches malloc_succeeds creates now v ip (t, increased) h k r l (i, c) =
      Fetches-admitted v t ip
        (fetch_from_pool rb_insert_color malloc_succeeds creates now
          (record v { ip_limits_table = t }))
        (λ other. rw l (i.0 other))
        (fetch_from_pool-Used malloc_succeeds creates now (record v { ip_limits_table = t }) h
          (with_table v t k c) r)
  when_admitted-Fetches malloc_succeeds creates now v ip (t, at_limit) h k r l (i, c) =
      (with_table v t k c, refl)
  when_admitted-Fetches malloc_succeeds creates now v ip (t, no_memory) h k r l (i, c) =
      (with_table v t k c, refl)

  -- `FetchHttpSessionUnused` on a sound pool, where sessions can be created and the times are in
  -- the range of `int`: a session fetched is counted once for the pool and, where addresses are
  -- limited, once for its address and no other; otherwise the count of used sessions is as before.
  -- In each case the pool stays sound: its counters tell the lengths of its list and trees, and its
  -- sessions are within the limit.
  pub fetch_http_session_unused-Fetches :
      (node_malloc malloc_succeeds : Bool) (creates : ℕ → Bool) (now : ℤ) (v : HetaoEnv) (ip : ℕ)
      → Creates creates
      → IsPool v
      → InRange now v
      → Fetches v ip
          (fetch_http_session_unused rb_insert_color node_malloc malloc_succeeds creates now v ip)
  unfolding fetch_http_session_unused
  fetch_http_session_unused-Fetches node_malloc malloc_succeeds creates now v ip h k r =
      elim (Bool-cases (is_unlimited v.limits__max_connections_per_ip)) [
        | inl e ↦ rw e (
            Fetches-admitted v v.ip_limits_table ip
              (fetch_from_pool rb_insert_color malloc_succeeds creates now v)
              (λ other. rw e (omega arith))
              (fetch_from_pool-Used malloc_succeeds creates now v h k r))
        | inr e ↦ rw e (
            when_admitted-Fetches malloc_succeeds creates now v ip _ h k r e (
              increase-Increases node_malloc v.limits__max_connections_per_ip v.ip_limits_table ip
                k.table))
      ]
