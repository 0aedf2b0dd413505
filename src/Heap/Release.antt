-- ===== src/Heap/Release.antt =====
-- free gives a block back, and joins it with the free block behind it.
use lightux.Heap.{
  Heap, set_word, is_free, next_of, last_of, combine_forward, combine_backward, free,
}
use lightux.Heap.Blocks.{Block, IsChain, Laid, IsLast, IsLast-behind}
use lightux.Heap.Joining.{merge, release, Holds, Freed, marked, freed, joined, merge-Freed}
use lightux.Heap.Malloc.{IsHeap, acquire-free, release-locked}
use lightux.Spinlock.{Spinlock, spinlock_release}
use lightux.Prelude.{
  ℕ, zero, suc, ◌+◌, ◌^◌, ◌<◌, ◌≡◌, ◌≢◌, inl, inr, ap, sym, subst, ◌∙◌, refl, Bool, true, false,
  not, ◌||◌, ◌==◌, if◌then◌else◌, List, [], ◌∷◌, sub64, arith, Outcome, returns, panics, spins,
  Returns, Bool-cases, ne→==-false, ==→eq, ==-false→ne,
}

-- A block in front of them.
skip-Freed :
    (kept lo : ℕ) (b : Block) (bs bs' : List Block) (w : ℕ → ℕ) (h' : Heap)
    → IsChain w b.address (b ∷ bs)
    → Laid lo (b ∷ bs)
    → Freed kept (b.address + 32 + b.size) (next_of b.address w) bs' w h'
    → Freed kept lo b.address (b ∷ bs') w h'
skip-Freed kept lo b bs bs' w h' (here, size, flag, chain) (above, room, laid) got =
    let n = b.address in
    let flag' = got.below (n + 8) (omega arith) in
    let next = got.below (n + 16) (omega arith) in
    record {
      chain = (
        refl,
        got.below n (omega arith) ∙ size,
        ground (arith, flag', flag),
        subst (λ m. IsChain h'.words m bs') (sym next) got.chain,
      );
      laid = (above, room, got.laid);
      last = IsLast-behind h'.last_node b bs' got.last;
      below = λ a ha. got.below a (omega (arith, ha, above));
      back = got.back;
    }

-- The first block, if it is the one, or else what holds of the blocks behind it.
release-first :
    (b : Block) (bs : List Block) (lo node : ℕ) (h : Heap)
    → 0 < lo
    → IsChain h.words b.address (b ∷ bs)
    → Laid lo (b ∷ bs)
    → IsLast h.last_node (b ∷ bs)
    → (node ≢ b.address
        → Freed
            (node + 24)
            (b.address + 32 + b.size)
            (next_of b.address h.words)
            (release (node + 32) bs)
            h.words
            (combine_forward node (marked node h)))
    → Freed
        (node + 24)
        lo
        b.address
        (release (node + 32) (b ∷ bs))
        h.words
        (combine_forward node (marked node h))
release-first b bs lo node h pos chain laid last others =
    let result : ℕ → Heap = λ n. combine_forward n (marked n h) in
    let done : Bool → List Block =
      λ t. if t then merge (freed b) bs else b ∷ release (node + 32) bs in
    elim (Bool-cases (b.address + 32 == node + 32)) [
      | inl e ↦
          let same : b.address ≡ node = omega (arith, ==→eq (b.address + 32) (node + 32) e) in
          subst (λ t. Freed (node + 24) lo b.address (done t) h.words (result node)) (sym e)
            (subst (λ n. Freed (n + 24) lo b.address (merge (freed b) bs) h.words (result n)) same
              (merge-Freed h lo b bs pos chain laid last))
      | inr e ↦
          let differ = ==-false→ne (b.address + 32) (node + 32) e in
          subst (λ t. Freed (node + 24) lo b.address (done t) h.words (result node)) (sym e)
            (skip-Freed (node + 24) lo b bs (release (node + 32) bs) h.words (result node) chain
              laid (others (λ same. omega (arith, same, differ))))
    ]

behind-Holds :
    (node : ℕ) (b : Block) (bs : List Block)
    → node ≢ b.address
    → Holds (node + 32) (b ∷ bs)
    → Holds (node + 32) bs
behind-Holds node b bs differ (inl e) = absurd (omega (arith, e, differ))
behind-Holds node b bs differ (inr holds) = holds

release-Freed :
    (bs : List Block) (lo first node : ℕ) (h : Heap)
    → 0 < lo
    → Holds (node + 32) bs
    → IsChain h.words first bs
    → Laid lo bs
    → IsLast h.last_node bs
    → Freed
        (node + 24)
        lo
        first
        (release (node + 32) bs)
        h.words
        (combine_forward node (marked node h))
release-Freed [] lo first node h pos holds chain laid last = absurd holds
release-Freed (b ∷ []) lo first node h pos holds (here, size, flag, chain) laid last =
    subst
      (λ n.
        Freed (node + 24) lo n (release (node + 32) (b ∷ [])) h.words
          (combine_forward node (marked node h)))
      (sym here)
      (release-first b [] lo node h pos (refl, size, flag, chain) laid last
        (λ differ. absurd (behind-Holds node b [] differ holds)))
release-Freed (b ∷ c ∷ bs) lo first node h pos holds (here, size, flag, chain) laid last =
    subst
      (λ n.
        Freed (node + 24) lo n (release (node + 32) (b ∷ c ∷ bs)) h.words
          (combine_forward node (marked node h)))
      (sym here)
      (release-first b (c ∷ bs) lo node h pos (refl, size, flag, chain) laid last
        (λ differ.
          release-Freed (c ∷ bs) (b.address + 32 + b.size) (next_of b.address h.words) node h
            (omega (arith, pos)) (behind-Holds node b (c ∷ bs) differ holds) chain laid.2 last))

if-start :
    (t : Bool) (a b : Heap) (start : ℕ)
    → a.heap_start ≡ start
    → b.heap_start ≡ start
    → (if t then a else b).heap_start ≡ start
if-start true a b start ha hb = ha
if-start false a b start ha hb = hb

combine_forward-start : (node : ℕ) (h : Heap) → (combine_forward node h).heap_start ≡ h.heap_start
unfolding combine_forward
combine_forward-start node h =
    if-start (next_of node h.words == 0 || not (is_free (next_of node h.words) h.words)) h
      (joined node h (
        if next_of (next_of node h.words) h.words == 0
        then h.words
        else set_word (next_of (next_of node h.words) h.words + 24) node h.words))
      h.heap_start refl refl

combine_backward-stops :
    (rounds node : ℕ) (h : Heap)
    → 0 < rounds
    → last_of node h.words ≡ 0
    → combine_backward rounds node h ≡ returns tt h
unfolding combine_backward
combine_backward-stops zero node h fuel none_there = absurd (omega (arith, fuel))
combine_backward-stops (suc rounds) node h fuel none_there = ground (arith, none_there)

module _ (rounds node lo : ℕ) (h : Heap) (bs : List Block) (heap : IsHeap lo bs h) where
  abbrev finish : Outcome Heap (Unit {0}) → Outcome Heap (Unit {0})
  finish (returns _ h') = returns tt (record h' { heap_lock = spinlock_release h'.heap_lock })
  finish (panics h') = panics h'
  finish spins = spins

  abbrev held : Spinlock → Heap
  held lock = record h { heap_lock = lock }

  free-run :
      node + 32 < 2 ^ 64
      → free rounds (node + 32) h
        ≡ finish (
            combine_backward rounds node
              (combine_forward node (marked node (held (record { locked = true })))))
  unfolding free
  free-run room =
      let same : sub64 (node + 32) 32 ≡ node = omega (arith, room) in
      let run_at : ℕ → Spinlock → Outcome Heap (Unit {0}) =
        λ n lock. finish (combine_backward rounds n (combine_forward n (marked n (held lock)))) in
      rw (ne→==-false (node + 32) 0 (λ e. omega (arith, e))) (
        ap
          (λ o. elim o [
            | returns _ lock ↦ run_at (sub64 (node + 32) 32) lock
            | panics _ ↦ spins
            | spins ↦ spins
          ])
          (acquire-free h.heap_lock heap.unlocked)
        ∙ ap (λ n. run_at n (record { locked = true })) same)

  -- In a heap whose lock is free, free of the address, below 2^64, of one of its blocks, whose back
  -- pointer is NULL, returns after one round, and leaves the heap with that block free, and as one
  -- with the block behind it where that is free too.
  pub free-IsHeap :
      node + 32 < 2 ^ 64
      → 0 < rounds
      → last_of node h.words ≡ 0
      → Holds (node + 32) bs
      → Returns (free rounds (node + 32) h) (λ _ h'. IsHeap lo (release (node + 32) bs) h')
  free-IsHeap room fuel back holds =
      let locked = held (record { locked = true }) in
      let h' = combine_forward node (marked node locked) in
      let got =
        release-Freed bs lo h.heap_start node locked heap.above holds heap.chain heap.laid
          heap.last in
      (
        tt,
        record h' { heap_lock = spinlock_release h'.heap_lock },
        free-run room ∙ ap finish (combine_backward-stops rounds node h' fuel (got.back ∙ back)),
        record {
          above = heap.above;
          chain =
              subst (λ n. IsChain h'.words n (release (node + 32) bs))
                (sym (combine_forward-start node (marked node locked))) got.chain;
          laid = got.laid;
          last = got.last;
          unlocked = release-locked h'.heap_lock;
        },
      )
