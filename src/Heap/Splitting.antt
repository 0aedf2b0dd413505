-- ===== src/Heap/Splitting.antt =====
-- What SplitNode and the return of a block write, word by word.
use lightux.Heap.{set_word, is_free, set_free, next_of, new_node, split_words}
use lightux.Prelude.{ℕ, ◌+◌, ◌-◌, ◌^◌, ◌≤◌, ◌<◌, ◌≡◌, true, false, arith}

module _ (words : ℕ → ℕ) (node size : ℕ) (min_size : 16 ≤ size)
    (room : node + 32 + words node < 2 ^ 64) (fits : size + 32 ≤ words node) where
  abbrev pub new : ℕ
  new = node + size + 32

  pub new_node-new : new_node node size ≡ new
  new_node-new = omega (arith, room, fits)

  -- The words after the split, and after the two writes that malloc adds.
  abbrev pub taken : ℕ → ℕ
  taken = set_word node size (set_free node false (split_words node size words))

  pub taken-size : taken node ≡ size
  taken-size = ground arith

  pub taken-free : is_free node taken ≡ false
  taken-free = ground arith

  pub taken-next : next_of node taken ≡ new
  taken-next = ground (arith, room, fits)

  pub taken-new_size : taken new ≡ words node - size - 32
  taken-new_size = ground (arith, room, fits, min_size)

  pub taken-new_free : is_free new taken ≡ true
  taken-new_free = ground (arith, room, fits, min_size)

  pub taken-new_next : next_of new taken ≡ next_of node words
  taken-new_next = ground (arith, room, fits, min_size)

  pub taken-below : (a : ℕ) → a < node → taken a ≡ words a
  taken-below a h = ground (arith, room, fits, min_size, h)

  pub taken-above : (a : ℕ) → node + 32 + words node ≤ a → taken a ≡ words a
  taken-above a h = ground (arith, room, fits, min_size, h)
