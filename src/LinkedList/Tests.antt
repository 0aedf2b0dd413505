-- ===== src/LinkedList/Tests.antt =====
-- linked_list.c: the nodes at 16, 48 and 32, in this order.
use lightux.LinkedList.{append_loop, linked_list_unregister}
use lightux.LinkedList.Chains.{Nodes, NotIn, is_in, without, append_loop-Nodes}
use lightux.LinkedList.Unlinking.{linked_list_unregister-Nodes}
use lightux.Prelude.{ℕ, ◌≡◌, refl, List, [], ◌∷◌, ◌++◌, ◌==◌, if◌then◌else◌, arith, Returns}

abbrev three : ℕ → ℕ
three a = if a == 16 then 48 else if a == 48 then 32 else 0

abbrev nodes : List ℕ
nodes = 16 ∷ 48 ∷ 32 ∷ []

append_loop-Nodes_example : Returns (append_loop 3 64 16 16 three) (λ r words'.
    (r ≡ 16)
    × Nodes words' 16 (nodes ++ (64 ∷ []))
    × ((a : ℕ) → NotIn a nodes → words' a ≡ three a))
append_loop-Nodes_example =
    append_loop-Nodes three 64 (λ e. omega (arith, e)) 16 16 16 (48 ∷ 32 ∷ []) 3 refl
      ((λ e. omega (arith, e)), ((λ e. omega (arith, e)), ((λ e. omega (arith, e)), tt)))
      (
        ((λ e. omega (arith, e)), ((λ e. omega (arith, e)), tt)),
        (((λ e. omega (arith, e)), tt), (tt, tt)),
      )
      (omega arith)
      (
        refl,
        (λ e. omega (arith, e)),
        (refl, (λ e. omega (arith, e)), (refl, (λ e. omega (arith, e)), refl)),
      )

linked_list_unregister-Nodes_example :
    Returns
      (linked_list_unregister 4 48 16 three)
      (λ r words'. (r.0 ≡ is_in 48 nodes) × Nodes words' r.1 (without 48 nodes))
linked_list_unregister-Nodes_example =
    linked_list_unregister-Nodes three 48 (λ e. omega (arith, e)) nodes 4 16
      (
        ((λ e. omega (arith, e)), ((λ e. omega (arith, e)), tt)),
        (((λ e. omega (arith, e)), tt), (tt, tt)),
      )
      (omega arith)
      (
        refl,
        (λ e. omega (arith, e)),
        (refl, (λ e. omega (arith, e)), (refl, (λ e. omega (arith, e)), refl)),
      )
