-- ===== src/Server/Tree/Expiry.antt =====
-- Which session `GetExpireHttpSessionTimeoutTreeNode` and its twin (src/HttpSessionTimeoutTree.c,
-- src/HttpSessionElapseTree.c) return, and that the trees stay in order.
use hetao.Base.{
  ◌≡◌, refl, sym, ◌∙◌, inl, inr, true, Option, none, some, List, [], ◌∷◌, ◌++◌, arith, Bool-cases,
}
use hetao.Base.Int.{ℤ, ◌≤ℤ◌, ltb_ℤ}
use hetao.Server.Tree.{
  Tree, leaf, node, inorder, rb_first, HttpSession, if_expired, get_expire_tree_node,
}
use hetao.Server.Tree.Order.{NoneBefore, IsSorted}

-- `rb_first` is the first in order.
abbrev pub first {ℓ} : {A : Type ℓ} → List A → Option A
first [] = none
first (x ∷ xs) = some x

first-left {ℓ} :
    {A : Type ℓ} (xs : List A) (y : A) (ys zs : List A)
    → first (xs ++ y ∷ ys) ≡ first ((xs ++ y ∷ ys) ++ zs)
first-left [] y ys zs = refl
first-left (x ∷ xs) y ys zs = refl

rb_first-first {ℓ} : {A : Type ℓ} (t : Tree A) → rb_first t ≡ first (inorder t)
unfolding rb_first inorder
rb_first-first leaf = refl
rb_first-first (node leaf x r) = refl
rb_first-first (node (node l y m) x r) =
    rb_first-first (node l y m) ∙ first-left (inorder l) y (inorder m) (x ∷ inorder r)

module _ (time : HttpSession → ℤ) where
  -- Every session of the list is later than `now`.
  abbrev pub AllLater : ℤ → List HttpSession → Type 0
  AllLater now [] = Unit {0}
  AllLater now (s ∷ rest) = (ltb_ℤ now (time s) ≡ true) × AllLater now rest

  -- None where no session is due; else the first, which is due and none is before it.
  abbrev pub Expired : ℤ → List HttpSession → Option HttpSession → Type 0
  Expired now sessions none = AllLater now sessions
  Expired now sessions (some s) =
      (first sessions ≡ some s) × (time s ≤ℤ now) × NoneBefore time (time s) sessions

  AllLater-of_NoneBefore :
      (now a : ℤ) (sessions : List HttpSession)
      → ltb_ℤ now a ≡ true
      → NoneBefore time a sessions
      → AllLater now sessions
  AllLater-of_NoneBefore now a [] l h = tt
  AllLater-of_NoneBefore now a (s ∷ rest) l h =
      (ground (arith, h.0), AllLater-of_NoneBefore now a rest l h.1)

  first-Expired :
      (now : ℤ) (sessions : List HttpSession)
      → IsSorted time sessions
      → Expired now sessions (if_expired time now (first sessions))
  first-Expired now [] sorted = tt
  first-Expired now (s ∷ rest) sorted = elim (Bool-cases (ltb_ℤ now (time s))) [
    | inl e ↦ rw e (e, AllLater-of_NoneBefore now (time s) rest e sorted.0)
    | inr e ↦ rw e (refl, ground arith, (omega arith, sorted.0))
  ]

  -- On a tree in order, the search for an expired session returns none exactly where all are later
  -- than the present time; else it returns the first in order, whose time has come and is the least.
  pub get_expire_tree_node-Expired :
      (now : ℤ) (t : Tree HttpSession)
      → IsSorted time (inorder t)
      → Expired now (inorder t) (get_expire_tree_node time now t)
  unfolding get_expire_tree_node
  get_expire_tree_node-Expired now t sorted =
      rw (sym (rb_first-first t)) at (first-Expired now (inorder t) sorted)
