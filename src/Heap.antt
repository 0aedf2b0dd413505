-- ===== src/Heap.antt =====
-- kernel/src/arch/x86_64/memory/heap.c: blocks of memory, each behind a node of 32 bytes, in a list.
-- Memory is its 64-bit words by their addresses, so that nodes that overlap share words.
pub mod Blocks
pub mod Splitting
pub mod Taking
pub mod Malloc
pub mod Starting
pub mod Joining
pub mod Release
mod Tests
use lightux.Boot.{BootInfo}
use lightux.Paging.{Paging}
use lightux.Spinlock.{Spinlock, spinlock_acquire, spinlock_release}
use lightux.Text.{align}
use lightux.Vmm.{vmm_allocate_pages}
use lightux.Prelude.{
  ℕ, zero, suc, ◌+◌, ◌*◌, ◌/◌, ◌%◌, ◌^◌, Bool, true, false, not, ◌&&◌, ◌||◌, ltb, leb, ◌==◌,
  if◌then◌else◌, u64, add64, sub64, Outcome, returns, panics, spins,
}

-- The globals of heap.c, the words of memory, and the pages that vmm.c gives out.
pub record Heap : Type 0 where
  pub words : ℕ → ℕ
  pub heap_start : ℕ
  pub last_node : ℕ
  pub heap_end : ℕ
  pub heap_lock : Spinlock
  pub paging : Paging

abbrev pub set_word : (address word : ℕ) → (ℕ → ℕ) → (ℕ → ℕ)
set_word address word words a = if a == address then word else words a

-- The fields of `HeapNode_t` at 0, 8, 16 and 24; `free` is a byte.
abbrev pub is_free : (node : ℕ) → (ℕ → ℕ) → Bool
is_free node words = not (words (node + 8) % 256 == 0)

abbrev pub set_free : (node : ℕ) → Bool → (ℕ → ℕ) → (ℕ → ℕ)
set_free node free words =
    set_word (node + 8) (words (node + 8) / 256 * 256 + (if free then 1 else 0)) words

abbrev pub next_of : (node : ℕ) → (ℕ → ℕ) → ℕ
next_of node words = words (node + 16)

abbrev pub last_of : (node : ℕ) → (ℕ → ℕ) → ℕ
last_of node words = words (node + 24)

unfoldable pub initialize_heap : BootInfo → (num_pages : ℕ) → Heap → Outcome Heap (Unit {0})
initialize_heap boot_info num_pages h = elim (vmm_allocate_pages boot_info num_pages h.paging) [
  | returns start paging ↦ returns tt (record h {
    paging = paging;
    heap_start = start;
    heap_end = add64 start (u64 (num_pages * 4096));
    last_node = start;
    words = set_free start true (
        set_word (start + 24) 0
          (set_word (start + 16) 0 (set_word start (sub64 (u64 (num_pages * 4096)) 32) h.words)));
  })
  | panics paging ↦ panics (record h { paging = paging })
  | spins ↦ spins
]

-- The node that SplitNode makes.
abbrev pub new_node : (node split_size : ℕ) → ℕ
new_node node split_size = add64 (add64 node split_size) 32

abbrev pub split_words : (node split_size : ℕ) → (ℕ → ℕ) → (ℕ → ℕ)
split_words node split_size words =
    let new = new_node node split_size in
    let w1 = set_word new (sub64 (sub64 (words node) split_size) 32) words in
    let w2 = set_free new true w1 in
    let w3 = set_word (new + 16) (next_of node w2) w2 in
    let w4 = set_word node split_size w3 in
    let w5 = set_free node false w4 in set_word (node + 16) new w5

unfoldable pub split_node : (node split_size : ℕ) → Heap → Heap
split_node node split_size h = if ltb split_size 16 then h else record h {
  words = split_words node split_size h.words;
  last_node = if h.last_node == node then new_node node split_size else h.last_node;
}

unfoldable pub expand_heap : BootInfo → (size : ℕ) → Heap → Outcome Heap (Unit {0})
unfolding align
expand_heap boot_info size h =
    let num_pages = add64 (align size 4096) 4095 / 4096 in
    elim (vmm_allocate_pages boot_info num_pages h.paging) [
      | returns new paging ↦ returns tt (record h {
        paging = paging;
        words = set_word (h.last_node + 16) new (
            set_free new true (
              set_word new (u64 (num_pages * 4096))
                (set_word (new + 24) h.last_node (set_word (new + 16) 0 h.words))));
        last_node = new;
      })
      | panics paging ↦ panics (record h { paging = paging })
      | spins ↦ spins
    ]

unfoldable pub combine_forward : (node : ℕ) → Heap → Heap
combine_forward node h =
    let next = next_of node h.words in
    if next == 0 || not (is_free next h.words)
    then h
    else let w1 =
        (if next_of next h.words == 0
          then h.words
          else set_word (next_of next h.words + 24) node h.words) in
      let w2 = set_word node (add64 (add64 (w1 node) (w1 (next_of node w1))) 32) w1 in
      record h {
        last_node = if next == h.last_node then node else h.last_node;
        words = set_word (node + 16) (next_of (next_of node w2) w2) w2;
      }

-- CombineBackward only follows the list.
unfoldable pub combine_backward : (rounds node : ℕ) → Heap → Outcome Heap (Unit {0})
combine_backward zero node h = spins
combine_backward (suc rounds) node h =
    elim (not (last_of node h.words == 0) && is_free (last_of node h.words) h.words) [
      | true ↦ combine_backward rounds (last_of node h.words) h
      | false ↦ returns tt h
    ]

-- The block of `node` is taken.
abbrev pub take : (size node : ℕ) → Heap → Heap
take size node h =
    if ltb size (h.words node)
    then (let h1 = split_node node size h in
        record h1 { words = set_word node size (set_free node false h1.words) })
    else record h { words = set_free node false h.words }

unfoldable pub malloc_loop : BootInfo → (rounds size current_node : ℕ) → Heap → Outcome Heap ℕ
unfolding expand_heap split_node
malloc_loop boot_info zero size current_node h = spins
malloc_loop boot_info (suc rounds) size current_node h = elim (current_node == 0) [
  | true ↦ returns 0 h
  | false ↦ elim (is_free current_node h.words && leb size (h.words current_node)) [
    | true ↦ returns (add64 current_node 32) (take size current_node h)
    | false ↦ elim (current_node == h.last_node) [
      | false ↦ malloc_loop boot_info rounds size (next_of current_node h.words) h
      | true ↦ elim (expand_heap boot_info size h) [
        | returns _ h' ↦
            let node =
              (if last_of current_node h'.words == 0
                then current_node
                else last_of current_node h'.words) in
            malloc_loop boot_info rounds size (next_of node h'.words) h'
        | panics h' ↦ panics h'
        | spins ↦ spins
      ]
    ]
  ]
]

unfoldable pub malloc : BootInfo → (rounds size : ℕ) → Heap → Outcome Heap ℕ
malloc boot_info rounds size h =
    if size == 0 then returns 0 h else elim (spinlock_acquire h.heap_lock) [
      | returns _ lock ↦
          elim (malloc_loop boot_info rounds (align size 16) h.heap_start
            (record h { heap_lock = lock })) [
              | returns r h' ↦ returns r (record h' { heap_lock = spinlock_release h'.heap_lock })
              | panics h' ↦ panics h'
              | spins ↦ spins
            ]
      | panics _ ↦ spins
      | spins ↦ spins
    ]

unfoldable pub free : (rounds ptr : ℕ) → Heap → Outcome Heap (Unit {0})
free rounds ptr h = if ptr == 0 then returns tt h else elim (spinlock_acquire h.heap_lock) [
  | returns _ lock ↦
      let node = sub64 ptr 32 in
      elim (combine_backward rounds node (
        combine_forward node (record h { heap_lock = lock; words = set_free node true h.words }))) [
          | returns _ h' ↦ returns tt (record h' { heap_lock = spinlock_release h'.heap_lock })
          | panics h' ↦ panics h'
          | spins ↦ spins
        ]
  | panics _ ↦ spins
  | spins ↦ spins
]
