-- ===== src/Server/Sessions/Pool.antt =====
-- The invariant of the pool of sessions (src/HttpSession.c), and how the pool grows.
use hetao.Base.{
  ℕ, zero, suc, ◌+◌, ◌<◌, ◌≡◌, refl, sym, ap, ◌∙◌, inl, inr, Bool, true, false, List, [], ◌∷◌,
  arith, Bool-cases, length, length-append,
}
use hetao.Base.Int.{ℤ, pos, negsuc, ◌+ℤ◌, ◌≤ℤ◌, ltb_ℤ}
use hetao.Server.IpLimits.Counts.{IsTable}
use hetao.Server.Sessions.{
  HetaoEnv, new_session, create_sessions, created, increment, increase_http_sessions,
}
use hetao.Server.Tree.{inorder, HttpSession}
use mathlib.Core.Path.{subst}

-- The counters tell the lengths of the list and of both trees, which together stay within the limit.
pub record IsPool (v : HetaoEnv) : Type 0 where
  pub unused : v.http_session_unused_count ≡ pos (length v.http_session_unused_list)
  pub used : v.http_session_used_count ≡ pos (length (inorder v.http_session_timeout_rbtree_used))
  pub both :
      length (inorder v.http_session_elapse_rbtree_used)
      ≡ length (inorder v.http_session_timeout_rbtree_used)
  pub bound :
      pos (length (inorder v.http_session_timeout_rbtree_used) + length v.http_session_unused_list)
      ≤ℤ v.limits__max_http_session_count
  pub table : IsTable v.ip_limits_table

pub add_pos : (a b : ℕ) → pos a +ℤ pos b ≡ pos (a + b)
unfolding ◌+ℤ◌
add_pos a b = ground arith

pub minus_one : (a : ℕ) → pos (suc a) +ℤ negsuc 0 ≡ pos a
unfolding ◌+ℤ◌
minus_one a = ground arith

-- All sessions can be created.
abbrev pub Creates : (ℕ → Bool) → Type 0
Creates creates = (a : ℕ) → creates a ≡ true

create_sessions-all :
    (creates : ℕ → Bool) (a n : ℕ)
    → Creates creates
    → (new : List HttpSession) × (create_sessions creates a n ≡ (new, true)) × (length new ≡ n)
unfolding create_sessions
create_sessions-all creates a zero h = ([], refl, refl)
create_sessions-all creates a (suc n) h =
    let (new, e, l) = create_sessions-all creates (suc a) n h in
    rw (h a, e) (new_session a ∷ new, refl, ap suc l)

-- What growing the pool leaves alone, and that a code of 0 means a session in the list.
abbrev pub Grows : HetaoEnv → HetaoEnv × ℤ → Type 0
Grows v (w, c) =
    IsPool w
    × (w.http_session_used_count ≡ v.http_session_used_count)
    × (w.ip_limits_table ≡ v.ip_limits_table)
    × (w.http_options__timeout ≡ v.http_options__timeout)
    × (w.http_options__elapse ≡ v.http_options__elapse)
    × (w.limits__max_connections_per_ip ≡ v.limits__max_connections_per_ip)
    × (c ≡ pos 0 → 0 < length w.http_session_unused_list)

increment_range :
    (limit : ℤ) (u n : ℕ)
    → ltb_ℤ (pos u) limit ≡ true
    → 0 < n
    → (0 < increment limit (pos u) n) × (pos (u + increment limit (pos u) n) ≤ℤ limit)
unfolding increment ◌+ℤ◌
increment_range (pos l) u n h p = ground arith
increment_range (negsuc l) u n h p = ground arith

increment_used :
    (limit used : ℤ) (u n : ℕ)
    → used ≡ pos u
    → ltb_ℤ used limit ≡ true
    → 0 < n
    → (0 < increment limit used n) × (pos (u + increment limit used n) ≤ℤ limit)
increment_used limit used u n e h p =
    subst (λ x. (0 < increment limit x n) × (pos (u + increment limit x n) ≤ℤ limit)) (sym e)
      (increment_range limit u n (subst (λ x. ltb_ℤ x limit ≡ true) e h) p)

created-Grows :
    (v : HetaoEnv) (n : ℕ) (new : List HttpSession)
    → IsPool v
    → length v.http_session_unused_list ≡ 0
    → length new ≡ n
    → 0 < n
    → pos (length (inorder v.http_session_timeout_rbtree_used) + n)
      ≤ℤ v.limits__max_http_session_count
    → Grows v (created v n (new, true))
created-Grows v n new k z l p b =
    let e = length-append v.http_session_unused_list new in
    (
      record {
        unused =
            rw k.unused (add_pos (length v.http_session_unused_list) n ∙ ap pos (omega (arith, e)));
        used = k.used;
        both = k.both;
        bound = omega (arith, e, b);
        table = k.table;
      },
      refl,
      refl,
      refl,
      refl,
      refl,
      λ _. omega (arith, e),
    )

pub increase_http_sessions-Grows :
    (malloc_succeeds : Bool) (creates : ℕ → Bool) (v : HetaoEnv) (n : ℕ)
    → Creates creates
    → IsPool v
    → length v.http_session_unused_list ≡ 0
    → 0 < n
    → Grows v (increase_http_sessions malloc_succeeds creates v n)
unfolding increase_http_sessions
increase_http_sessions-Grows true creates v n h k z p =
    let n' = increment v.limits__max_http_session_count v.http_session_used_count n in
    let (new, e, l) = create_sessions-all creates v.next_address n' h in
    elim (Bool-cases (ltb_ℤ v.http_session_used_count v.limits__max_http_session_count)) [
      | inl t ↦
          let range =
            increment_used v.limits__max_http_session_count v.http_session_used_count
              (length (inorder v.http_session_timeout_rbtree_used)) n k.used t p in
          rw (t, e) (created-Grows v n' new k z l range.0 range.1)
      | inr t ↦ rw t (k, refl, refl, refl, refl, refl, λ c. ground arith)
    ]
increase_http_sessions-Grows false creates v n h k z p =
    elim (Bool-cases (ltb_ℤ v.http_session_used_count v.limits__max_http_session_count)) [
      | inl t ↦ rw t (k, refl, refl, refl, refl, refl, λ c. ground arith)
      | inr t ↦ rw t (k, refl, refl, refl, refl, refl, λ c. ground arith)
    ]
