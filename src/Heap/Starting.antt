-- ===== src/Heap/Starting.antt =====
-- The heap that InitializeHeap makes, and a split that leaves no room for a node.
use lightux.Boot.{BootInfo}
use lightux.Paging.{Paging}
use lightux.Vmm.{vmm_allocate_pages}
use lightux.Heap.{Heap, is_free, next_of, set_word, set_free, initialize_heap, take, malloc_loop}
use lightux.Heap.Taking.{malloc_loop-taken, take-split}
use lightux.Heap.Malloc.{IsHeap}
use lightux.Prelude.{
  ℕ, suc, ◌+◌, ◌-◌, ◌*◌, ◌^◌, ◌≤◌, ◌<◌, ◌≡◌, ◌≢◌, ap, sym, subst, refl, true, false, ◌&&◌, leb, [],
  ◌∷◌, add64, sub64, u64, arith, returns, panics, spins, Returns,
}

-- Where the lock is free and vmm_AllocatePages gives pages that lie behind address 0 and end below
-- 2^64, at least one, InitializeHeap makes a heap of one free block, which has all the pages but its
-- node.
pub initialize_heap-IsHeap :
    (boot_info : BootInfo) (num_pages : ℕ) (h : Heap) (start : ℕ) (paging : Paging)
    → vmm_allocate_pages boot_info num_pages h.paging ≡ returns start paging
    → 0 < num_pages
    → 0 < start
    → start + num_pages * 4096 < 2 ^ 64
    → h.heap_lock.locked ≡ false
    → Returns (initialize_heap boot_info num_pages h) (λ _ h'.
      IsHeap start (record { address = start; size = num_pages * 4096 - 32; free = true } ∷ []) h')
unfolding initialize_heap
initialize_heap-IsHeap boot_info num_pages h start paging pages some_pages above room unlocked = (
  tt,
  started,
  ap
      (λ o. elim o [
        | returns start paging ↦ returns tt (begun start paging)
        | panics paging ↦ panics (record h { paging = paging })
        | spins ↦ spins
      ])
      pages,
  record {
    above = above;
    chain = (refl, ground (arith, some_pages, room), ground arith, ground arith);
    laid = (omega arith, omega (arith, room, some_pages), tt);
    last = refl;
    unlocked = unlocked;
  },
)
  where
    begun : ℕ → Paging → Heap
    begun start paging = record h {
      paging = paging;
      heap_start = start;
      heap_end = add64 start (u64 (num_pages * 4096));
      last_node = start;
      words = set_free start true (
          set_word (start + 24) 0
            (set_word (start + 16) 0 (set_word start (sub64 (u64 (num_pages * 4096)) 32) h.words)));
    }

    started : Heap
    started = begun start paging

-- For at least 16 bytes, at a free node whose block is 16 bytes larger than that, and where the
-- addresses up to 48 bytes behind the block do not wrap, the loop of malloc takes the block, and puts
-- a node behind it that seems free and 16 bytes short of 2^64 large.
pub malloc_loop-wraps :
    (boot_info : BootInfo) (rounds size node : ℕ) (h : Heap)
    → 16 ≤ size
    → node ≢ 0
    → node + size + 64 < 2 ^ 64
    → is_free node h.words ≡ true
    → h.words node ≡ size + 16
    → Returns (malloc_loop boot_info (suc rounds) size node h) (λ r h'.
      (r ≡ node + 32)
      × (next_of node h'.words ≡ node + size + 32)
      × (is_free (node + size + 32) h'.words ≡ true)
      × (h'.words (node + size + 32) ≡ 2 ^ 64 - 16))
malloc_loop-wraps boot_info rounds size node h min_size there room free_node large =
    let fits : (is_free node h.words && leb size (h.words node)) ≡ true =
      ground (arith, free_node, large) in
    (
      add64 node 32,
      take size node h,
      malloc_loop-taken boot_info size min_size rounds node h there fits,
      subst
          (λ h'.
            (add64 node 32 ≡ node + 32)
            × (next_of node h'.words ≡ node + size + 32)
            × (is_free (node + size + 32) h'.words ≡ true)
            × (h'.words (node + size + 32) ≡ 2 ^ 64 - 16))
          (sym (take-split boot_info size min_size node h (omega (arith, large))))
          (
            omega (arith, room),
            ground (arith, room, min_size),
            ground (arith, room, min_size, large),
            ground (arith, room, min_size, large),
          ),
    )
