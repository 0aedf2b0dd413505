-- ===== src/LinkedList.antt =====
-- kernel/src/arch/x86_64/memory/linked_list.c: a list of nodes by their `next` pointers, the first field
-- of each, over the words of the heap's memory. `rounds` bounds the nodes that are passed.
pub mod Chains
pub mod Unlinking
mod Tests
use lightux.Boot.{BootInfo}
use lightux.Heap.{Heap, set_word, malloc, free}
use lightux.Prelude.{
  ℕ, zero, suc, ◌+◌, ◌*◌, ◌/◌, Bool, true, false, not, ◌&&◌, ◌||◌, ltb, leb, ◌==◌, if◌then◌else◌,
  Option, none, some, Outcome, returns, panics, spins,
}

-- `memset(target, 0, size)`, for a size of whole words.
abbrev pub clear_words : (target size : ℕ) → (ℕ → ℕ) → (ℕ → ℕ)
clear_words target size words a = if leb target a && ltb a (target + size) then 0 else words a

-- The loop of LinkedListAllocate, from `current` on: the words and the first node.
unfoldable pub append_loop : (rounds target current first : ℕ) → (ℕ → ℕ) → Outcome (ℕ → ℕ) ℕ
append_loop zero target current first words = spins
append_loop (suc rounds) target current first words = elim (current == 0) [
  | true ↦ returns target words
  | false ↦ elim (words current == 0) [
    | true ↦ returns first (set_word current target words)
    | false ↦ append_loop rounds target (words current) first words
  ]
]

-- The result is the new node and the first node. `sizeof(size)` is 8.
unfoldable pub linked_list_allocate :
    BootInfo → (rounds size first : ℕ) → Heap → Outcome Heap (ℕ × ℕ)
unfolding append_loop
linked_list_allocate boot_info rounds size first h = elim (malloc boot_info rounds 8 h) [
  | returns target h' ↦
      elim (append_loop rounds target first first (clear_words target size h'.words)) [
        | returns first' words ↦
            returns (target, first') (record h' { words = set_word target 0 words })
        | panics _ ↦ spins
        | spins ↦ spins
      ]
  | panics h' ↦ panics h'
  | spins ↦ spins
]

-- The first loop of LinkedListUnregister: the node in front of the target, or 0.
unfoldable pub before_target : (rounds target current : ℕ) → (ℕ → ℕ) → Option ℕ
before_target zero target current words = none
before_target (suc rounds) target current words = elim (current == 0) [
  | true ↦ some 0
  | false ↦ elim (not (words current == 0) && words current == target) [
    | true ↦ some current
    | false ↦ before_target rounds target (words current) words
  ]
]

-- The result is what it returns and the first node.
unfoldable pub linked_list_unregister :
    (rounds target first : ℕ) → (ℕ → ℕ) → Outcome (ℕ → ℕ) (Bool × ℕ)
linked_list_unregister rounds target first words = elim (before_target rounds target first words) [
  | none ↦ spins
  | some current ↦
      if first == target
      then returns (true, words first) words
      else if current == 0
      then returns (false, first) words
      else returns (true, first) (set_word current (words (words current)) words)
]

unfoldable pub linked_list_remove : (rounds target first : ℕ) → Heap → Outcome Heap (Bool × ℕ)
linked_list_remove rounds target first h =
    elim (linked_list_unregister rounds target first h.words) [
      | returns r words ↦ elim (free rounds target (record h { words = words })) [
        | returns _ h' ↦ returns r h'
        | panics h' ↦ panics h'
        | spins ↦ spins
      ]
      | panics _ ↦ spins
      | spins ↦ spins
    ]
