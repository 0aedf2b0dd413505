-- ===== src/LinkedList/Unlinking.antt =====
-- LinkedListUnregister takes a node out of the list.
use lightux.Heap.{set_word}
use lightux.LinkedList.{before_target, linked_list_unregister}
use lightux.LinkedList.Chains.{Nodes, NotIn, Distinct, is_in, without, length, Nodes-other}
use lightux.Prelude.{
  ℕ, zero, suc, ◌<◌, ◌≡◌, ◌≢◌, ◌⊎◌, inl, inr, refl, ap, sym, subst, ◌∙◌, Bool, true, false, ◌||◌,
  ◌==◌, if◌then◌else◌, List, [], ◌∷◌, none, some, arith, Outcome, returns, spins, Returns,
  Bool-cases, ==→eq, ==-false→ne, ne→==-false,
}

module _ (words : ℕ → ℕ) (target : ℕ) (some_target : target ≢ 0) where
  before-here :
      (rounds node : ℕ)
      → node ≢ 0
      → words node ≡ target
      → before_target (suc rounds) target node words ≡ some node
  unfolding before_target
  before-here rounds node there e = ground (arith, there, e, some_target)

  before-more :
      (rounds node : ℕ)
      → node ≢ 0
      → words node ≢ target
      → before_target (suc rounds) target node words
        ≡ before_target rounds target (words node) words
  unfolding before_target
  before-more rounds node there e = ground (arith, there, e)

  before-end : (rounds node : ℕ) → node ≡ 0 → before_target (suc rounds) target node words ≡ some 0
  unfolding before_target
  before-end rounds node e = ground (arith, e)

  -- What the search finds behind the first node.
  abbrev unlinked : ℕ → ℕ → ℕ
  unlinked c = set_word c (words (words c)) words

  abbrev Sought : (node n : ℕ) → List ℕ → (c : ℕ) → Type 0
  Sought node n ns c =
      ((is_in target ns ≡ true)
        × (c ≢ 0)
        × Nodes (unlinked c) node (n ∷ without target ns)
        × ((a : ℕ) → NotIn a (n ∷ ns) → unlinked c a ≡ words a))
      ⊎ ((is_in target ns ≡ false) × (c ≡ 0) × (without target ns ≡ ns))

  Sought-behind :
      (node n m : ℕ) (ms : List ℕ) (c : ℕ)
      → node ≡ n
      → n ≢ 0
      → NotIn n (m ∷ ms)
      → (m == target) ≡ false
      → words node ≡ m
      → Sought (words node) m ms c
      → Sought node n (m ∷ ms) c
  Sought-behind node n m ms c here there apart e found (inl (within, some_c, list, others)) = inl (
    ap (λ t. t || is_in target ms) e ∙ within,
    some_c,
    subst (λ l. Nodes (unlinked c) node (n ∷ l))
        (sym (ap (λ t. if t then ms else m ∷ without target ms) e))
        (
          here,
          there,
          subst (λ x. Nodes (unlinked c) x (m ∷ without target ms))
              (ap words here ∙ sym (others n apart)) list,
        ),
    λ a other. others a other.1,
  )
  Sought-behind node n m ms c here there apart e found (inr (outside, none_there, same)) = inr (
    ap (λ t. t || is_in target ms) e ∙ outside,
    none_there,
    ap (λ t. if t then ms else m ∷ without target ms) e ∙ ap (λ l. m ∷ l) same,
  )

  before_target-Sought :
      (node n : ℕ) (ns : List ℕ) (rounds : ℕ)
      → Distinct (n ∷ ns)
      → length (n ∷ ns) < rounds
      → Nodes words node (n ∷ ns)
      → (c : ℕ) × (before_target rounds target node words ≡ some c) × Sought node n ns c
  before_target-Sought node n ns zero distinct fuel chain = absurd (omega (arith, fuel))
  before_target-Sought node n [] (suc zero) distinct fuel chain = absurd (omega (arith, fuel))
  before_target-Sought node n [] (suc (suc rounds)) distinct fuel (here, there, end) =
      let next : words node ≡ 0 = ap words here ∙ end in
      (
        0,
        before-more (suc rounds) node (λ e. omega (arith, e, here, there))
              (λ e. some_target (sym e ∙ next))
            ∙ before-end rounds (words node) next,
        inr (refl, refl, refl),
      )
  before_target-Sought node n (m ∷ ms) (suc rounds) (apart, distinct) fuel (here, there, chain) =
      let next : words node ≡ words n = ap words here in
      let there' : node ≢ 0 = λ e. omega (arith, e, here, there) in
      let found = next ∙ chain.0 in
      elim (Bool-cases (m == target)) [
        | inl e ↦
            let same = ==→eq m target e in
            let w : ℕ → ℕ = unlinked node in
            let at_n : w n ≡ words m = ground (arith, here, found) in
            (
              node,
              before-here rounds node there' (found ∙ same),
              inl (
                ap (λ t. t || is_in target ms) e,
                there',
                subst (λ l. Nodes w node (n ∷ l))
                    (sym (ap (λ t. if t then ms else m ∷ without target ms) e))
                    (
                      here,
                      there,
                      subst (λ x. Nodes w x ms) (sym at_n)
                          (Nodes-other words node (words (words node)) (words m) ms
                            (subst (λ x. NotIn x ms) (sym here) apart.1) chain.2),
                    ),
                λ a other. let far = other.0 in ground (arith, far, here),
              ),
            )
        | inr e ↦
            let differ = ==-false→ne m target e in
            let (c, run, sought) =
              before_target-Sought (words node) m ms rounds distinct (omega (arith, fuel))
                (found, chain.1, chain.2) in
            (
              c,
              before-more rounds node there' (λ same. differ (sym found ∙ same)) ∙ run,
              Sought-behind node n m ms c here there apart e found sought,
            )
      ]

  abbrev others : (first c : ℕ) → Outcome (ℕ → ℕ) (Bool × ℕ)
  others first c =
      if c == 0 then returns (false, first) words else returns (true, first) (unlinked c)

  abbrev after : (first c : ℕ) → Outcome (ℕ → ℕ) (Bool × ℕ)
  after first c = if first == target then returns (true, words first) words else others first c

  unregister-after :
      (rounds first c : ℕ)
      → before_target rounds target first words ≡ some c
      → linked_list_unregister rounds target first words ≡ after first c
  unfolding linked_list_unregister
  unregister-after rounds first c run =
      ap (λ o. elim o [ none ↦ spins | some c ↦ after first c ]) run

  abbrev Removed : List ℕ → Bool × ℕ → (ℕ → ℕ) → Type 0
  Removed ns r words' = (r.0 ≡ is_in target ns) × Nodes words' r.1 (without target ns)

  other-Removed :
      (first n : ℕ) (ns : List ℕ) (c : ℕ)
      → first ≡ n
      → (n == target) ≡ false
      → Nodes words first (n ∷ ns)
      → Sought first n ns c
      → Returns (after first c) (Removed (n ∷ ns))
  other-Removed first n ns c here e chain (inl (within, some_c, list, same)) = (
    (true, first),
    unlinked c,
    ap (λ t. if t then returns (true, words first) words else others first c)
          (ap (λ x. x == target) here ∙ e)
        ∙ ap (λ t. if t then returns (false, first) words else returns (true, first) (unlinked c))
            (ne→==-false c 0 some_c),
    (
      sym (ap (λ t. t || is_in target ns) e ∙ within),
      subst (Nodes (unlinked c) first) (sym (ap (λ t. if t then ns else n ∷ without target ns) e))
          list,
    ),
  )
  other-Removed first n ns c here e chain (inr (outside, none_there, same)) = (
    (false, first),
    words,
    ap (λ t. if t then returns (true, words first) words else others first c)
          (ap (λ x. x == target) here ∙ e)
        ∙ ap
            (λ x.
              if x == 0 then returns (false, first) words else returns (true, first) (unlinked x))
            none_there,
    (
      sym (ap (λ t. t || is_in target ns) e ∙ outside),
      subst (Nodes words first)
          (sym (ap (λ t. if t then ns else n ∷ without target ns) e ∙ ap (λ l. n ∷ l) same)) chain,
    ),
  )

  -- On a list of distinct nodes, fewer than the rounds, LinkedListUnregister of an address that is not
  -- NULL says whether the list has it, and leaves the list without it.
  pub linked_list_unregister-Nodes :
      (ns : List ℕ) (rounds first : ℕ)
      → Distinct ns
      → length ns < rounds
      → Nodes words first ns
      → Returns
          (linked_list_unregister rounds target first words)
          (λ r words'. (r.0 ≡ is_in target ns) × Nodes words' r.1 (without target ns))
  linked_list_unregister-Nodes ns zero first distinct fuel chain = absurd (omega (arith, fuel))
  linked_list_unregister-Nodes [] (suc rounds) first distinct fuel end =
      let away : (first == target) ≡ false =
        ne→==-false first target (λ e. some_target (sym e ∙ end)) in
      (
        (false, first),
        words,
        unregister-after (suc rounds) first 0 (before-end rounds first end)
            ∙ ap
                (λ t. if t then returns (true, words first) words else returns (false, first) words)
                away,
        (refl, end),
      )
  linked_list_unregister-Nodes (n ∷ ns) (suc rounds) first distinct fuel (here, there, chain) =
      let (c, run, sought) =
        before_target-Sought first n ns (suc rounds) distinct fuel (here, there, chain) in
      elim (Bool-cases (n == target)) [
        | inl e ↦ (
          (true, words first),
          words,
          unregister-after (suc rounds) first c run
              ∙ ap (λ t. if t then returns (true, words first) words else others first c)
                  (ap (λ x. x == target) here ∙ e),
          (
            sym (ap (λ t. t || is_in target ns) e),
            subst (Nodes words (words first))
                (sym (ap (λ t. if t then ns else n ∷ without target ns) e))
                (subst (λ x. Nodes words x ns) (sym (ap words here)) chain),
          ),
        )
        | inr e ↦
            let (r, w, run', removed) =
              other-Removed first n ns c here e (here, there, chain) sought in
            (r, w, unregister-after (suc rounds) first c run ∙ run', removed)
      ]
