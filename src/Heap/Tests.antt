-- ===== src/Heap/Tests.antt =====
-- heap.c: a heap of one page at 4096, and one in which a block of 112 bytes is taken.
use lightux.Bitmap.{bitmap_get, test_bit}
use lightux.Pmm
use lightux.Pmm.{allocate_pages, find_free_region}
use lightux.Text.{align}
use lightux.Paging.{Paging}
use lightux.Paging.Tests.{boot, machine}
use lightux.Vmm.{vmm_allocate_pages}
use lightux.Heap.{Heap, is_free, next_of, initialize_heap, malloc_loop, malloc, free}
use lightux.Heap.Blocks.{Block, allocate}
use lightux.Heap.Malloc.{IsHeap, malloc-IsHeap}
use lightux.Heap.Starting.{initialize_heap-IsHeap, malloc_loop-wraps}
use lightux.Heap.Joining.{release}
use lightux.Heap.Release.{free-IsHeap}
use lightux.Prelude.{
  ℕ, ◌+◌, ◌-◌, ◌*◌, ◌^◌, ◌≡◌, refl, inl, Bool, true, false, List, [], ◌∷◌, some, ◌==◌,
  if◌then◌else◌, arith, returns, Returns,
}

abbrev one_page : ℕ → ℕ
one_page a = if a == 4096 then 4064 else if a == 4104 then 1 else 0

abbrev two_blocks : ℕ → ℕ
two_blocks a =
    if a == 4096
    then 112
    else if a == 4112
    then 4240
    else if a == 4240
    then 3920
    else if a == 4248
    then 1
    else 0

abbrev heap_of : (last_node : ℕ) → (ℕ → ℕ) → Heap
heap_of last_node words = record {
  words = words;
  heap_start = 4096;
  last_node = last_node;
  heap_end = 8192;
  heap_lock = record { locked = false };
  paging = machine;
}

abbrev block : (address size : ℕ) → Bool → Block
block address size unused = record { address = address; size = size; free = unused }

abbrev whole_page : List Block
whole_page = block 4096 4064 true ∷ []

abbrev parts : List Block
parts = block 4096 112 false ∷ block 4240 3920 true ∷ []

whole_page-IsHeap : IsHeap 4096 whole_page (heap_of 4096 one_page)
whole_page-IsHeap = record {
  above = omega arith;
  chain = (refl, refl, refl, refl);
  laid = (omega arith, omega arith, tt);
  last = refl;
  unlocked = refl;
}

parts-IsHeap : IsHeap 4096 parts (heap_of 4240 two_blocks)
parts-IsHeap = record {
  above = omega arith;
  chain = (refl, refl, refl, (refl, refl, refl, refl));
  laid = (omega arith, omega arith, (omega arith, omega arith, tt));
  last = refl;
  unlocked = refl;
}

allocated : allocate (align 100 16) whole_page ≡ some (4128, parts)
unfolding align
allocated = refl

malloc-IsHeap_example :
    Returns (malloc boot 1 100 (heap_of 4096 one_page)) (λ r h'. (r ≡ 4128) × IsHeap 4096 parts h')
malloc-IsHeap_example =
    malloc-IsHeap boot 1 100 4096 (heap_of 4096 one_page) whole_page whole_page-IsHeap 4128 parts
      (λ e. omega (arith, e)) (omega arith) (omega arith) allocated

free-IsHeap_example :
    Returns (free 1 4128 (heap_of 4240 two_blocks)) (λ _ h'. IsHeap 4096 (release 4128 parts) h')
free-IsHeap_example =
    free-IsHeap 1 4096 4096 (heap_of 4240 two_blocks) parts parts-IsHeap (omega arith) (omega arith)
      refl (inl refl)

malloc_loop-wraps_example : Returns (malloc_loop boot 1 4048 4096 (heap_of 4096 one_page)) (λ r h'.
    (r ≡ 4096 + 32)
    × (next_of 4096 h'.words ≡ 4096 + 4048 + 32)
    × (is_free (4096 + 4048 + 32) h'.words ≡ true)
    × (h'.words (4096 + 4048 + 32) ≡ 2 ^ 64 - 16))
malloc_loop-wraps_example =
    malloc_loop-wraps boot 0 4048 4096 (heap_of 4096 one_page) (omega arith) (λ e. omega (arith, e))
      (omega arith) refl refl

abbrev page_at : ℕ
page_at = 0xffff_8000_0000_3000

abbrev after : Paging
after = elim (vmm_allocate_pages boot 2 machine) [ returns a s ↦ s | _ ↦ machine ]

pages_at : vmm_allocate_pages boot 2 machine ≡ returns page_at after
unfolding vmm_allocate_pages allocate_pages Pmm.acquire find_free_region bitmap_get test_bit
pages_at = refl

initialize_heap-IsHeap_example :
    Returns
      (initialize_heap boot 2 (heap_of 0 one_page))
      (λ _ h'. IsHeap page_at (block page_at (2 * 4096 - 32) true ∷ []) h')
initialize_heap-IsHeap_example =
    initialize_heap-IsHeap boot 2 (heap_of 0 one_page) page_at after pages_at (omega arith)
      (omega arith) (omega arith) refl
