-- ===== src/Server/Tree/Examples.antt =====
-- Trees of sessions (src/HttpSessionTimeoutTree.c, src/HttpSessionElapseTree.c) on examples.
use hetao.Base.{ℕ, ◌+◌, ◌≡◌, refl, ap, false, none, List, [], ◌∷◌, arith}
use hetao.Base.Int.{pos}
use hetao.Server.Tree.{
  Tree, leaf, node, inorder, HttpSession, get_expire_tree_node, update_timeout_tree_node,
  update_elapse_tree_node,
}
use hetao.Server.Tree.Expiry.{Expired, get_expire_tree_node-Expired}
use hetao.Server.Tree.Order.{insert_sorted, IsSorted}
use hetao.Server.Tree.Update.{
  remove_session, KeepsOrder, Erases, update_timeout_tree_node-insert_sorted,
  update_elapse_tree_node-insert_sorted,
}

abbrev pub of_list : List HttpSession → Tree HttpSession
of_list [] = leaf
of_list (s ∷ rest) = node leaf s (of_list rest)

inorder-of_list : (xs : List HttpSession) → inorder (of_list xs) ≡ xs
unfolding inorder
inorder-of_list [] = refl
inorder-of_list (s ∷ rest) = ap (◌∷◌ s) (inorder-of_list rest)

-- A tree that is not rebalanced, and erasing by way of the list.
abbrev pub unbalanced : HttpSession → Tree HttpSession → Tree HttpSession
unbalanced s t = t

abbrev pub erase : HttpSession → Tree HttpSession → Tree HttpSession
erase s t = of_list (remove_session s.session (inorder t))

pub unbalanced-KeepsOrder : KeepsOrder unbalanced
unbalanced-KeepsOrder s t = refl

pub erase-Erases : Erases erase
erase-Erases s t = inorder-of_list (remove_session s.session (inorder t))

abbrev pub visitor : ℕ → ℕ → HttpSession
visitor n time = record {
  session = n;
  ip = 7;
  p_forward_server = none;
  forward_flags = false;
  timeout_timestamp = pos time;
  elapse_timestamp = pos (time + 5);
}

abbrev pub visitors : Tree HttpSession
visitors = node (node leaf (visitor 1 10) leaf) (visitor 2 20) leaf

-- The two orders, in which a session at the time of another stands in front of it.
update_in_tree :
    inorder (update_timeout_tree_node unbalanced erase (visitor 1 10) (pos 20) visitors)
    ≡ record (visitor 1 10) { timeout_timestamp = pos 20 } ∷ visitor 2 20 ∷ []
unfolding update_timeout_tree_node inorder remove_session
update_in_tree = refl

visitors-IsSorted : IsSorted (λ x. x.timeout_timestamp) (inorder visitors)
unfolding inorder
visitors-IsSorted = ((omega arith, tt), (tt, tt))

visitors-IsSorted_elapse : IsSorted (λ x. x.elapse_timestamp) (inorder visitors)
unfolding inorder
visitors-IsSorted_elapse = ((omega arith, tt), (tt, tt))

get_expire_tree_node-Expired_example :
    Expired
      (λ x. x.timeout_timestamp)
      (pos 15)
      (inorder visitors)
      (get_expire_tree_node (λ x. x.timeout_timestamp) (pos 15) visitors)
get_expire_tree_node-Expired_example =
    get_expire_tree_node-Expired (λ x. x.timeout_timestamp) (pos 15) visitors visitors-IsSorted

update_timeout_tree_node-insert_sorted_example :
    let u = update_timeout_tree_node unbalanced erase (visitor 1 10) (pos 30) visitors in
    (inorder u
      ≡ insert_sorted
          (λ x. x.timeout_timestamp)
          (record (visitor 1 10) { timeout_timestamp = pos 30 })
          (remove_session 1 (inorder visitors)))
    × IsSorted (λ x. x.timeout_timestamp) (inorder u)
update_timeout_tree_node-insert_sorted_example =
    update_timeout_tree_node-insert_sorted unbalanced erase unbalanced-KeepsOrder erase-Erases
      (visitor 1 10) (pos 30) visitors visitors-IsSorted

update_elapse_tree_node-insert_sorted_example :
    let u = update_elapse_tree_node unbalanced erase (visitor 1 10) (pos 30) visitors in
    (inorder u
      ≡ insert_sorted
          (λ x. x.elapse_timestamp)
          (record (visitor 1 10) { elapse_timestamp = pos 30 })
          (remove_session 1 (inorder visitors)))
    × IsSorted (λ x. x.elapse_timestamp) (inorder u)
update_elapse_tree_node-insert_sorted_example =
    update_elapse_tree_node-insert_sorted unbalanced erase unbalanced-KeepsOrder erase-Erases
      (visitor 1 10) (pos 30) visitors visitors-IsSorted_elapse
