-- ===== src/Heap/Joining.antt =====
-- CombineForward: a free block takes in the free one behind it.
use lightux.Heap.{Heap, set_word, is_free, set_free, next_of, combine_forward}
use lightux.Heap.Blocks.{
  Block, IsChain, Laid, Laid-lower, IsLast, IsChain-above, IsLast-above, IsLast-same,
}
use lightux.Prelude.{
  ℕ, ◌+◌, ◌≤◌, ◌<◌, ◌≡◌, ◌≢◌, ◌⊎◌, inl, inr, ap, ap₂, sym, subst, ◌∙◌, refl, Bool, true, false,
  ◌==◌, if◌then◌else◌, List, [], ◌∷◌, add64, arith, Bool-cases, ne→==-false,
}

-- A free block takes in a free one behind it.
abbrev pub merge : Block → List Block → List Block
merge b [] = b ∷ []
merge b (c ∷ cs) =
    if c.free
    then record { address = b.address; size = b.size + c.size + 32; free = true } ∷ cs
    else b ∷ c ∷ cs

abbrev pub release : (ptr : ℕ) → List Block → List Block
release ptr [] = []
release ptr (b ∷ bs) =
    if b.address + 32 == ptr
    then merge (record { address = b.address; size = b.size; free = true }) bs
    else b ∷ release ptr bs

-- `ptr` is the address of one of the blocks.
abbrev pub Holds : (ptr : ℕ) → List Block → Type 0
Holds ptr [] = ⊥
Holds ptr (b ∷ bs) = (b.address + 32 ≡ ptr) ⊎ Holds ptr bs

-- The blocks at `node`, in words that are those of `w` below `lo` and at `kept`.
pub record Freed (kept lo node : ℕ) (bs : List Block) (w : ℕ → ℕ) (h : Heap) : Type 0 where
  pub chain : IsChain h.words node bs
  pub laid : Laid lo bs
  pub last : IsLast h.last_node bs
  pub below : (a : ℕ) → a < lo → h.words a ≡ w a
  pub back : h.words kept ≡ w kept

module _ (node : ℕ) (h : Heap) where
  combine_forward-end : next_of node h.words ≡ 0 → combine_forward node h ≡ h
  unfolding combine_forward
  combine_forward-end e = ground (arith, e)

  combine_forward-used : is_free (next_of node h.words) h.words ≡ false → combine_forward node h ≡ h
  unfolding combine_forward
  combine_forward-used used = ground (arith, used)

  abbrev pub joined : (words : ℕ → ℕ) → Heap
  joined w1 =
      let w2 = set_word node (add64 (add64 (w1 node) (w1 (next_of node w1))) 32) w1 in
      record h {
        last_node = if next_of node h.words == h.last_node then node else h.last_node;
        words = set_word (node + 16) (next_of (next_of node w2) w2) w2;
      }

  combine_forward-last :
      next_of node h.words ≢ 0
      → is_free (next_of node h.words) h.words ≡ true
      → next_of (next_of node h.words) h.words ≡ 0
      → combine_forward node h ≡ joined h.words
  unfolding combine_forward
  combine_forward-last there unused end = ground (arith, there, unused, end)

  combine_forward-more :
      next_of node h.words ≢ 0
      → is_free (next_of node h.words) h.words ≡ true
      → next_of (next_of node h.words) h.words ≢ 0
      → combine_forward node h
        ≡ joined (set_word (next_of (next_of node h.words) h.words + 24) node h.words)
  unfolding combine_forward
  combine_forward-more there unused more = ground (arith, there, unused, more)

  -- The same, with the node behind by its address.
  abbrev joined_at : (next : ℕ) (words : ℕ → ℕ) → Heap
  joined_at next w1 = record h {
    last_node = if next == h.last_node then node else h.last_node;
    words =
        set_word (node + 16) (w1 (next + 16))
          (set_word node (add64 (add64 (w1 node) (w1 next)) 32) w1);
  }

  joined-at :
      (next : ℕ) (w1 : ℕ → ℕ)
      → next_of node h.words ≡ next
      → w1 (node + 16) ≡ next
      → node + 32 ≤ next
      → joined w1 ≡ joined_at next w1
  joined-at next w1 e e1 apart =
      let w2 : ℕ → ℕ = set_word node (add64 (add64 (w1 node) (w1 (next_of node w1))) 32) w1 in
      let same : next_of node w2 ≡ next = ground (arith, e1) in
      let far : w2 (next + 16) ≡ w1 (next + 16) = ground (arith, apart) in
      ap₂ (λ last words. record h { last_node = last; words = words })
        (ap (λ t. if t == h.last_node then node else h.last_node) e)
        (ap₂ (λ after size. set_word (node + 16) after (set_word node size w1))
          (ap (λ t. w2 (t + 16)) same ∙ far) (ap (λ t. add64 (add64 (w1 node) (w1 t)) 32) e1))

-- The words of a heap without those of `last` pointers.
IsChain-back :
    (w : ℕ → ℕ) (back node lo : ℕ) (bs : List Block)
    → node ≢ 0
    → IsChain w node bs
    → Laid lo bs
    → IsChain (set_word (node + 24) back w) node bs
IsChain-back w back node lo [] there chain laid = absurd (there chain)
IsChain-back w back node lo (b ∷ bs) there (here, size, flag, chain) (above, room, laid) =
    let next : next_of b.address (set_word (node + 24) back w) ≡ next_of b.address w =
      ground (arith, here) in
    (
      here,
      ground (arith, here, size),
      ground (arith, here, flag),
      subst (λ n. IsChain (set_word (node + 24) back w) n bs) (sym next)
          (IsChain-above w (set_word (node + 24) back w) (b.address + 32 + b.size)
            (next_of b.address w) bs laid (λ a h. ground (arith, here, h)) chain),
    )

abbrev pub marked : ℕ → Heap → Heap
marked node h = record h { words = set_free node true h.words }

abbrev pub freed : Block → Block
freed b = record { address = b.address; size = b.size; free = true }

-- The marked block, where nothing is joined to it.
marked-Freed :
    (h : Heap) (lo : ℕ) (b : Block) (bs : List Block)
    → IsChain h.words b.address (b ∷ bs)
    → Laid lo (b ∷ bs)
    → IsLast h.last_node (b ∷ bs)
    → Freed (b.address + 24) lo b.address (freed b ∷ bs) h.words (marked b.address h)
marked-Freed h lo b bs (here, size, flag, chain) (above, room, laid) last =
    let n = b.address in
    let next : next_of n (set_free n true h.words) ≡ next_of n h.words = ground arith in
    record {
      chain = (
        refl,
        ground (arith, size),
        ground arith,
        subst (λ m. IsChain (set_free n true h.words) m bs) (sym next)
            (IsChain-above h.words (set_free n true h.words) (n + 32 + b.size) (next_of n h.words)
              bs laid (λ a ha. ground (arith, ha)) chain),
      );
      laid = (above, room, laid);
      last = IsLast-same h.last_node b (freed b) bs refl last;
      below = λ a ha. ground (arith, ha, above);
      back = ground arith;
    }

abbrev both : Block → Block → Block
both b c = record { address = b.address; size = b.size + c.size + 32; free = true }

IsLast-joined :
    (h : Heap) (b c : Block) (cs : List Block)
    → b.address + 32 + b.size ≤ c.address
    → Laid (c.address + 32 + c.size) cs
    → IsLast h.last_node (c ∷ cs)
    → IsLast (if c.address == h.last_node then b.address else h.last_node) (both b c ∷ cs)
IsLast-joined h b c [] apart laid last = ground (arith, last)
IsLast-joined h b c (d ∷ ds) apart laid last =
    let above = IsLast-above (c.address + 32 + c.size) h.last_node (d ∷ ds) laid last in
    subst (λ t. IsLast (if t then b.address else h.last_node) (d ∷ ds))
      (sym (ne→==-false c.address h.last_node (λ e. omega (arith, e, above)))) last

-- The two blocks as one, in words that have the chain of both and of those behind.
joined_at-Freed :
    (h : Heap) (w1 : ℕ → ℕ) (lo : ℕ) (b c : Block) (cs : List Block)
    → b.free ≡ true
    → IsChain w1 b.address (b ∷ c ∷ cs)
    → Laid lo (b ∷ c ∷ cs)
    → IsLast h.last_node (b ∷ c ∷ cs)
    → ((a : ℕ) → a < lo → w1 a ≡ h.words a)
    → w1 (b.address + 24) ≡ h.words (b.address + 24)
    → Freed
        (b.address + 24)
        lo
        b.address
        (both b c ∷ cs)
        h.words
        (joined_at b.address h c.address w1)
joined_at-Freed h w1 lo b c cs unused (here, size, flag, (next, size_c, flag_c, chain))
      (above, room, (apart, room_c, laid)) last below back =
    let n = b.address in
    let w : ℕ → ℕ = (joined_at b.address h c.address w1).words in
    let after : next_of n w ≡ next_of c.address w1 = ground (arith, apart) in
    record {
      chain = (
        refl,
        ground (arith, size, size_c, apart, room_c),
        ground (arith, flag, unused),
        subst (λ m. IsChain w m cs) (sym after)
            (IsChain-above w1 w (c.address + 32 + c.size) (next_of c.address w1) cs laid
              (λ a ha. ground (arith, ha, apart)) chain),
      );
      laid = (
        above,
        omega (arith, room_c, apart),
        Laid-lower (c.address + 32 + c.size) (n + 32 + (b.size + c.size + 32)) cs
            (omega (arith, apart)) laid,
      );
      last = IsLast-joined h b c cs apart laid last;
      below = λ a ha. ground (arith, ha, above) ∙ below a ha;
      back = ground arith ∙ back;
    }

join-Freed :
    (h : Heap) (lo : ℕ) (b c : Block) (cs : List Block)
    → 0 < lo
    → b.free ≡ true
    → c.free ≡ true
    → IsChain h.words b.address (b ∷ c ∷ cs)
    → Laid lo (b ∷ c ∷ cs)
    → IsLast h.last_node (b ∷ c ∷ cs)
    → Freed (b.address + 24) lo b.address (both b c ∷ cs) h.words (combine_forward b.address h)
join-Freed h lo b c [] pos unused unused_c (here, size, flag, (next, size_c, flag_c, end))
      (above, room, (apart, room_c, laid)) last =
    let n = b.address in
    let w = h.words in
    let there : next_of n w ≢ 0 = λ e. omega (arith, e, next, apart, above, pos) in
    let free_c = ap (λ t. is_free t w) next ∙ flag_c ∙ unused_c in
    subst (Freed (n + 24) lo n (both b c ∷ []) w)
      (sym (
        combine_forward-last n h there free_c (ap (λ t. next_of t w) next ∙ end)
        ∙ joined-at n h c.address w next next (omega (arith, apart))))
      (joined_at-Freed h w lo b c [] unused (here, size, flag, (next, size_c, flag_c, end))
        (above, room, (apart, room_c, laid)) last (λ a ha. refl) refl)
join-Freed h lo b c (d ∷ ds) pos unused unused_c
      (here, size, flag, (next, size_c, flag_c, (after, size_d, flag_d, chain)))
      (above, room, (apart, room_c, (apart_d, room_d, laid))) last =
    let n = b.address in
    let w = h.words in
    let w1 : ℕ → ℕ = set_word (d.address + 24) n w in
    let there : next_of n w ≢ 0 = λ e. omega (arith, e, next, apart, above, pos) in
    let free_c = ap (λ t. is_free t w) next ∙ flag_c ∙ unused_c in
    let second = ap (λ t. next_of t w) next ∙ after in
    let there_d : next_of (next_of n w) w ≢ 0 =
      λ e. omega (arith, e, second, apart_d, apart, above, pos) in
    let kept : w1 (n + 16) ≡ c.address = ground (arith, apart, apart_d, next) in
    let next_c : next_of c.address w1 ≡ d.address = ground (arith, after, apart_d) in
    let behind_c =
      IsChain-back w n d.address (c.address + 32 + c.size) (d ∷ ds)
        (λ e. omega (arith, e, apart_d, apart, above, pos)) (refl, size_d, flag_d, chain)
        (apart_d, room_d, laid) in
    subst (Freed (n + 24) lo n (both b c ∷ d ∷ ds) w)
      (sym (
        combine_forward-more n h there free_c there_d
        ∙ ap (λ t. joined n h (set_word (t + 24) n w)) second
        ∙ joined-at n h c.address w1 next kept (omega (arith, apart))))
      (joined_at-Freed h w1 lo b c (d ∷ ds) unused
        (
          refl,
          ground (arith, size, apart, apart_d),
          ground (arith, flag, apart, apart_d),
          (
            kept,
            ground (arith, size_c, apart, apart_d),
            ground (arith, flag_c, apart, apart_d),
            subst (λ m. IsChain w1 m (d ∷ ds)) (sym next_c) behind_c,
          ),
        )
        (above, room, (apart, room_c, (apart_d, room_d, laid))) last
        (λ a ha. ground (arith, ha, above, apart, apart_d)) (ground (arith, apart, apart_d)))

-- Marked and joined.
pub merge-Freed :
    (h : Heap) (lo : ℕ) (b : Block) (bs : List Block)
    → 0 < lo
    → IsChain h.words b.address (b ∷ bs)
    → Laid lo (b ∷ bs)
    → IsLast h.last_node (b ∷ bs)
    → Freed
        (b.address + 24)
        lo
        b.address
        (merge (freed b) bs)
        h.words
        (combine_forward b.address (marked b.address h))
merge-Freed h lo b [] pos chain laid last =
    let m = marked-Freed h lo b [] chain laid last in
    subst (Freed (b.address + 24) lo b.address (freed b ∷ []) h.words)
      (sym (combine_forward-end b.address (marked b.address h) m.chain.3)) m
merge-Freed h lo b (c ∷ cs) pos chain laid last =
    let m = marked-Freed h lo b (c ∷ cs) chain laid last in
    let mh = marked b.address h in
    let done : Bool → List Block = λ t. if t then both b c ∷ cs else freed b ∷ c ∷ cs in
    elim (Bool-cases c.free) [
      | inl e ↦
          let j = join-Freed mh lo (freed b) c cs pos refl e m.chain m.laid m.last in
          subst
            (λ t.
              Freed (b.address + 24) lo b.address (done t) h.words (combine_forward b.address mh))
            (sym e)
            (record {
              chain = j.chain;
              laid = j.laid;
              last = j.last;
              below = λ a ha. j.below a ha ∙ m.below a ha;
              back = j.back ∙ m.back;
            })
      | inr e ↦
          let used = ap (λ t. is_free t mh.words) m.chain.3.0 ∙ m.chain.3.2 ∙ e in
          subst
            (λ t.
              Freed (b.address + 24) lo b.address (done t) h.words (combine_forward b.address mh))
            (sym e)
            (subst (Freed (b.address + 24) lo b.address (freed b ∷ c ∷ cs) h.words)
              (sym (combine_forward-used b.address mh used)) m)
    ]
