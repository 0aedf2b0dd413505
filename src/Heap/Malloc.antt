-- ===== src/Heap/Malloc.antt =====
-- malloc takes the first block that is free and large enough.
use lightux.Boot.{BootInfo}
use lightux.Spinlock.{Spinlock, spinlock_acquire, spinlock_release}
use lightux.Text.{align}
use lightux.Heap.{Heap, is_free, next_of, take, malloc_loop, malloc}
use lightux.Heap.Blocks.{Block, IsChain, Laid, IsLast, last-ne, behind, allocate}
use lightux.Heap.Taking.{
  length, Allocated, malloc_loop-taken, malloc_loop-next, split-Allocated, whole-Allocated,
  skip-Allocated, used, rest,
}
use lightux.Prelude.{
  ℕ, zero, suc, ◌+◌, ◌^◌, ◌≤◌, ◌<◌, ◌≡◌, ◌≢◌, ap, ap₂, ◌⊎◌, sym, subst, ◌∙◌, refl, true, false,
  ◌&&◌, leb, ◌==◌, if◌then◌else◌, List, [], ◌∷◌, Option, none, some, add64, arith, Outcome, returns,
  panics, spins, Returns, Bool-cases, inl, inr, ==→eq, leb→le, ne→==-false,
}

-- A heap of these blocks, from `lo` on, whose lock is free.
pub record IsHeap (lo : ℕ) (bs : List Block) (h : Heap) : Type 0 where
  pub above : 0 < lo
  pub chain : IsChain h.words h.heap_start bs
  pub laid : Laid lo bs
  pub last : IsLast h.last_node bs
  pub unlocked : h.heap_lock.locked ≡ false

module _ (boot_info : BootInfo) (size : ℕ) (min_size : 16 ≤ size) where
  -- The loop from `node` on does what the specification says, where it says something.
  abbrev Serves : (rounds lo node : ℕ) → Heap → Option (ℕ × List Block) → Type 0
  Serves rounds lo node h none = Unit {0}
  Serves rounds lo node h (some (p, bs')) =
      Returns (malloc_loop boot_info rounds size node h) (λ r h'. Allocated lo node p bs' h r h')

  Serves-behind :
      (rounds lo : ℕ) (h : Heap) (b : Block) (bs : List Block) (o : Option (ℕ × List Block))
      → b.address ≢ 0
      → (is_free b.address h.words && leb size (h.words b.address)) ≡ false
      → b.address ≢ h.last_node
      → IsChain h.words b.address (b ∷ bs)
      → Laid lo (b ∷ bs)
      → Serves rounds (b.address + 32 + b.size) (next_of b.address h.words) h o
      → Serves (suc rounds) lo b.address h (behind b o)
  Serves-behind rounds lo h b bs none there refused more chain laid got = tt
  Serves-behind rounds lo h b bs (some (p, bs')) there refused more chain laid (r, h', run, got) = (
    r,
    h',
    malloc_loop-next boot_info size min_size rounds b.address h there refused more ∙ run,
    skip-Allocated boot_info size min_size h h' lo r p b bs bs' chain laid got,
  )

  -- The parts of `allocate`.
  abbrev halves : Block → List Block → Option (ℕ × List Block)
  halves b bs =
      some (b.address + 32, used boot_info size min_size b ∷ rest boot_info size min_size b ∷ bs)

  abbrev parted : Block → List Block → Option (ℕ × List Block)
  parted b bs = if leb (size + 32) b.size then halves b bs else none

  abbrev whole : Block → List Block → Option (ℕ × List Block)
  whole b bs = some (b.address + 32, record b { free = false } ∷ bs)

  abbrev accept : Block → List Block → Option (ℕ × List Block)
  accept b bs = if b.size == size then whole b bs else parted b bs

  -- A block that is large enough.
  Serves-here :
      (rounds lo : ℕ) (h : Heap) (b : Block) (bs : List Block)
      → b.address ≢ 0
      → (b.free && leb size b.size) ≡ true
      → (is_free b.address h.words && leb size (h.words b.address)) ≡ true
      → IsChain h.words b.address (b ∷ bs)
      → Laid lo (b ∷ bs)
      → IsLast h.last_node (b ∷ bs)
      → Serves (suc rounds) lo b.address h (allocate size (b ∷ bs))
  Serves-here rounds lo h b bs there fits accepted chain laid last =
      subst
        (λ t.
          Serves (suc rounds) lo b.address h
            (if t then accept b bs else behind b (allocate size bs)))
        (sym fits)
        (elim (Bool-cases (b.size == size)) [
          | inl e ↦
              subst
                (λ t. Serves (suc rounds) lo b.address h (if t then whole b bs else parted b bs))
                (sym e)
                (
                  add64 b.address 32,
                  take size b.address h,
                  malloc_loop-taken boot_info size min_size rounds b.address h there accepted,
                  whole-Allocated boot_info size min_size h lo b bs (==→eq b.size size e) chain laid
                      last,
                )
          | inr e ↦
              subst
                (λ t. Serves (suc rounds) lo b.address h (if t then whole b bs else parted b bs))
                (sym e)
                (elim (Bool-cases (leb (size + 32) b.size)) [
                  | inl room ↦
                      subst
                        (λ t. Serves (suc rounds) lo b.address h (if t then halves b bs else none))
                        (sym room)
                        (
                          add64 b.address 32,
                          take size b.address h,
                          malloc_loop-taken boot_info size min_size rounds b.address h there
                              accepted,
                          split-Allocated boot_info size min_size h lo b bs
                              (leb→le (size + 32) b.size room) chain laid last,
                        )
                  | inr none_left ↦
                      subst
                        (λ t. Serves (suc rounds) lo b.address h (if t then halves b bs else none))
                        (sym none_left) tt
                ])
        ])

  -- A first block, with what holds of the blocks behind it.
  Serves-first :
      (rounds lo : ℕ) (h : Heap) (b : Block) (bs : List Block)
      → 0 < lo
      → IsChain h.words b.address (b ∷ bs)
      → Laid lo (b ∷ bs)
      → IsLast h.last_node (b ∷ bs)
      → Serves (suc rounds) lo b.address h (behind b (allocate size bs))
        ⊎ (b.address ≢ h.last_node)
          × Serves rounds (b.address + 32 + b.size) (next_of b.address h.words) h (allocate size bs)
      → Serves (suc rounds) lo b.address h (allocate size (b ∷ bs))
  Serves-first rounds lo h b bs pos (here, is_size, is_free_b, chain) (above, room, laid) last
        behind_b =
      let there : b.address ≢ 0 = λ e. omega (arith, e, above, pos) in
      let same = ap₂ (λ f n. f && leb size n) is_free_b is_size in
      elim (Bool-cases (b.free && leb size b.size)) [
        | inl fits ↦
            Serves-here rounds lo h b bs there fits (same ∙ fits) (here, is_size, is_free_b, chain)
              (above, room, laid) last
        | inr refused ↦
            subst
              (λ t.
                Serves (suc rounds) lo b.address h
                  (if t then accept b bs else behind b (allocate size bs)))
              (sym refused)
              (elim behind_b [
                | inl done ↦ done
                | inr (more, got) ↦
                    Serves-behind rounds lo h b bs (allocate size bs) there (same ∙ refused) more
                      (here, is_size, is_free_b, chain) (above, room, laid) got
              ])
      ]

  malloc_loop-Serves :
      (bs : List Block) (rounds lo node : ℕ) (h : Heap)
      → length bs ≤ rounds
      → 0 < lo
      → IsChain h.words node bs
      → Laid lo bs
      → IsLast h.last_node bs
      → Serves rounds lo node h (allocate size bs)
  malloc_loop-Serves [] rounds lo node h fuel pos chain laid last = tt
  malloc_loop-Serves (b ∷ bs) zero lo node h fuel pos chain laid last = absurd (omega (arith, fuel))
  malloc_loop-Serves (b ∷ []) (suc rounds) lo node h fuel pos (here, is_size, is_free_b, chain) laid
        last =
      subst (λ n. Serves (suc rounds) lo n h (allocate size (b ∷ []))) (sym here)
        (Serves-first rounds lo h b [] pos (refl, is_size, is_free_b, chain) laid last (inl tt))
  malloc_loop-Serves (b ∷ c ∷ bs) (suc rounds) lo node h fuel pos (here, is_size, is_free_b, chain)
        laid last =
      let below = last-ne lo h.last_node b c bs laid last in
      subst (λ n. Serves (suc rounds) lo n h (allocate size (b ∷ c ∷ bs))) (sym here)
        (Serves-first rounds lo h b (c ∷ bs) pos (refl, is_size, is_free_b, chain) laid last
          (inr (
            (λ e. omega (arith, e, below)),
            malloc_loop-Serves (c ∷ bs) rounds (b.address + 32 + b.size) (next_of b.address h.words)
                h (omega (arith, fuel)) (omega (arith, pos)) chain laid.2 last,
          )))

align-least : (size : ℕ) → size ≢ 0 → size + 16 < 2 ^ 64 → 16 ≤ align size 16
unfolding align
align-least size some_size small = ground (arith, some_size, small)

pub acquire-free :
    (lock : Spinlock)
    → lock.locked ≡ false
    → spinlock_acquire lock ≡ returns tt (record { locked = true })
unfolding spinlock_acquire
acquire-free lock e = rw e refl

pub release-locked : (lock : Spinlock) → (spinlock_release lock).locked ≡ false
unfolding spinlock_release
release-locked lock = refl

module _ (boot_info : BootInfo) (rounds size lo : ℕ) (h : Heap) (bs : List Block)
    (heap : IsHeap lo bs h) where
  abbrev finish : Outcome Heap ℕ → Outcome Heap ℕ
  finish (returns r h') = returns r (record h' { heap_lock = spinlock_release h'.heap_lock })
  finish (panics h') = panics h'
  finish spins = spins

  abbrev held : Spinlock → Heap
  held lock = record h { heap_lock = lock }

  malloc-run :
      size ≢ 0
      → malloc boot_info rounds size h
        ≡ finish (
            malloc_loop boot_info rounds
              (align size 16)
              h.heap_start
              (held (record { locked = true })))
  unfolding malloc
  malloc-run some_size = rw (ne→==-false size 0 some_size) (
      ap
        (λ o. elim o [
          | returns _ lock ↦
              finish (malloc_loop boot_info rounds (align size 16) h.heap_start (held lock))
          | panics _ ↦ spins
          | spins ↦ spins
        ])
        (acquire-free h.heap_lock heap.unlocked))

  -- In a heap whose lock is free, whose blocks are no more than the rounds and have a first one that
  -- is free and large enough for the size rounded up to 16, the size not 0 and 16 more below 2^64, and
  -- where what is left of that block is nothing or has room for a node, malloc returns the address of
  -- the block and leaves the heap with it taken, and with what is left as a free block.
  pub malloc-IsHeap :
      (p : ℕ) (bs' : List Block)
      → size ≢ 0
      → size + 16 < 2 ^ 64
      → length bs ≤ rounds
      → allocate (align size 16) bs ≡ some (p, bs')
      → Returns (malloc boot_info rounds size h) (λ r h'. (r ≡ p) × IsHeap lo bs' h')
  malloc-IsHeap p bs' some_size small fuel spec =
      let least = align-least size some_size small in
      let locked = held (record { locked = true }) in
      let (r, h', run, got) =
        subst (Serves boot_info (align size 16) least rounds lo h.heap_start locked) spec (
          malloc_loop-Serves boot_info (align size 16) least bs rounds lo h.heap_start locked fuel
            heap.above heap.chain heap.laid heap.last) in
      (
        r,
        record h' { heap_lock = spinlock_release h'.heap_lock },
        malloc-run some_size ∙ ap finish run,
        (
          got.returned,
          record {
            above = heap.above;
            chain = subst (λ n. IsChain h'.words n bs') (sym got.start) got.chain;
            laid = got.laid;
            last = got.last;
            unlocked = release-locked h'.heap_lock;
          },
        ),
      )
