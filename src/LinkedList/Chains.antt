-- ===== src/LinkedList/Chains.antt =====
-- The lists that linked_list.c builds, by the addresses of their nodes.
use lightux.Heap.{set_word}
use lightux.LinkedList.{append_loop}
use lightux.Prelude.{
  ℕ, zero, suc, ◌≤◌, ◌≡◌, ◌≢◌, refl, ap, sym, subst, ◌∙◌, Bool, false, ◌||◌, ◌==◌, if◌then◌else◌,
  List, [], ◌∷◌, ◌++◌, arith, returns, Returns,
}

-- The nodes from `node` on, none of them NULL.
abbrev pub Nodes : (ℕ → ℕ) → (node : ℕ) → List ℕ → Type 0
Nodes words node [] = node ≡ 0
Nodes words node (n ∷ ns) = (node ≡ n) × (n ≢ 0) × Nodes words (words n) ns

abbrev pub NotIn : ℕ → List ℕ → Type 0
NotIn x [] = Unit {0}
NotIn x (n ∷ ns) = (n ≢ x) × NotIn x ns

abbrev pub Distinct : List ℕ → Type 0
Distinct [] = Unit {0}
Distinct (n ∷ ns) = NotIn n ns × Distinct ns

abbrev pub is_in : ℕ → List ℕ → Bool
is_in x [] = false
is_in x (n ∷ ns) = n == x || is_in x ns

-- The list without the first occurrence.
abbrev pub without : ℕ → List ℕ → List ℕ
without x [] = []
without x (n ∷ ns) = if n == x then ns else n ∷ without x ns

abbrev pub length : List ℕ → ℕ
length [] = 0
length (n ∷ ns) = suc (length ns)

-- A write to a node that is not in the list.
pub Nodes-other :
    (words : ℕ → ℕ) (a v node : ℕ) (ns : List ℕ)
    → NotIn a ns
    → Nodes words node ns
    → Nodes (set_word a v words) node ns
Nodes-other words a v node [] other chain = chain
Nodes-other words a v node (n ∷ ns) (differ, other) (here, there, chain) =
    let same : set_word a v words n ≡ words n = ground (arith, differ) in
    (
      here,
      there,
      subst (λ m. Nodes (set_word a v words) m ns) (sym same)
          (Nodes-other words a v (words n) ns other chain),
    )

module _ (words : ℕ → ℕ) (target : ℕ) (some_target : target ≢ 0) where
  append-end :
      (rounds node first : ℕ)
      → node ≢ 0
      → words node ≡ 0
      → append_loop (suc rounds) target node first words
        ≡ returns first (set_word node target words)
  unfolding append_loop
  append-end rounds node first there end = ground (arith, there, end)

  append-more :
      (rounds node first : ℕ)
      → node ≢ 0
      → words node ≢ 0
      → append_loop (suc rounds) target node first words
        ≡ append_loop rounds target (words node) first words
  unfolding append_loop
  append-more rounds node first there more = ground (arith, there, more)

  -- On a list of distinct nodes, at least one and no more than the rounds, the loop of
  -- LinkedListAllocate puts the target, a cleared node that is not NULL and not in the list, behind
  -- the last node, and changes no word but in the nodes of the list.
  pub append_loop-Nodes :
      (first node n : ℕ) (ns : List ℕ) (rounds : ℕ)
      → words target ≡ 0
      → NotIn target (n ∷ ns)
      → Distinct (n ∷ ns)
      → length (n ∷ ns) ≤ rounds
      → Nodes words node (n ∷ ns)
      → Returns (append_loop rounds target node first words) (λ r words'.
        (r ≡ first)
        × Nodes words' node ((n ∷ ns) ++ (target ∷ []))
        × ((a : ℕ) → NotIn a (n ∷ ns) → words' a ≡ words a))
  append_loop-Nodes first node n ns zero clear fresh distinct fuel chain =
      absurd (omega (arith, fuel))
  append_loop-Nodes first node n [] (suc rounds) clear (differ, fresh) distinct fuel
        (here, there, end) =
      let w : ℕ → ℕ = set_word node target words in
      let at_node : w n ≡ target = ground (arith, here) in
      let at_target : w target ≡ 0 = ground (arith, differ, here, clear) in
      (
        first,
        w,
        append-end rounds node first (λ e. omega (arith, e, here, there)) (ap words here ∙ end),
        (
          refl,
          (here, there, (at_node, some_target, at_target)),
          (λ a other. let apart = other.0 in ground (arith, apart, here)),
        ),
      )
  append_loop-Nodes first node n (m ∷ ms) (suc rounds) clear (differ, fresh) (apart, distinct) fuel
        (here, there, chain) =
      let next : words node ≡ words n = ap words here in
      let more : words node ≢ 0 = λ e. chain.1 (sym chain.0 ∙ sym next ∙ e) in
      let (r, w, run, (same, list, others)) =
        append_loop-Nodes first (words node) m ms rounds clear fresh distinct (omega (arith, fuel))
          (next ∙ chain.0, chain.1, chain.2) in
      (
        r,
        w,
        append-more rounds node first (λ e. omega (arith, e, here, there)) more ∙ run,
        (
          same,
          (
            here,
            there,
            subst (λ x. Nodes w x (m ∷ ms ++ (target ∷ []))) (next ∙ sym (others n apart)) list,
          ),
          (λ a other. others a other.1),
        ),
      )
