-- ===== src/Heap/Taking.antt =====
-- What a taken block leaves, and a block that is passed over.
use lightux.Boot.{BootInfo}
use lightux.Heap.{
  Heap, set_word, is_free, set_free, next_of, new_node, split_words, split_node, take, malloc_loop,
}
use lightux.Heap.Blocks.{
  Block, IsChain, Laid, IsLast, IsChain-above, IsLast-same, IsLast-behind, last-ne,
}
use lightux.Heap.Splitting.{
  taken, taken-size, taken-free, taken-next, taken-new_size, taken-new_free, taken-new_next,
  taken-below, taken-above,
}
use lightux.Prelude.{
  ℕ, suc, ◌+◌, ◌-◌, ◌^◌, ◌≤◌, ◌<◌, ◌≡◌, ◌≢◌, sym, subst, ◌∙◌, refl, true, false, ◌&&◌, leb, ◌==◌,
  if◌then◌else◌, List, [], ◌∷◌, add64, arith, returns, ne→==-false,
}

abbrev pub length : List Block → ℕ
length [] = 0
length (b ∷ bs) = suc (length bs)

-- What a run of the loop from `node` on leaves.
pub record Allocated (lo node p : ℕ) (bs : List Block) (h : Heap) (r : ℕ) (h' : Heap) : Type 0 where
  pub returned : r ≡ p
  pub chain : IsChain h'.words node bs
  pub laid : Laid lo bs
  pub last : IsLast h'.last_node bs
  pub below : (a : ℕ) → a < lo → h'.words a ≡ h.words a
  pub start : h'.heap_start ≡ h.heap_start

module _ (boot_info : BootInfo) (size : ℕ) (min_size : 16 ≤ size) where
  pub malloc_loop-taken :
      (rounds node : ℕ) (h : Heap)
      → node ≢ 0
      → (is_free node h.words && leb size (h.words node)) ≡ true
      → malloc_loop boot_info (suc rounds) size node h ≡ returns (add64 node 32) (take size node h)
  unfolding malloc_loop
  malloc_loop-taken rounds node h ne fits = ground (arith, ne, fits)

  pub malloc_loop-next :
      (rounds node : ℕ) (h : Heap)
      → node ≢ 0
      → (is_free node h.words && leb size (h.words node)) ≡ false
      → node ≢ h.last_node
      → malloc_loop boot_info (suc rounds) size node h
        ≡ malloc_loop boot_info rounds size (next_of node h.words) h
  unfolding malloc_loop
  malloc_loop-next rounds node h ne fits more = ground (arith, ne, fits, more)

  pub take-split :
      (node : ℕ) (h : Heap)
      → size < h.words node
      → take size node h ≡ record h {
        words = set_word node size (set_free node false (split_words node size h.words));
        last_node = if h.last_node == node then new_node node size else h.last_node;
      }
  unfolding split_node
  take-split node h more = ground (arith, more, min_size)

  take-whole :
      (node : ℕ) (h : Heap)
      → size ≡ h.words node
      → take size node h ≡ record h { words = set_free node false h.words }
  take-whole node h same = ground (arith, same)

  abbrev pub used : Block → Block
  used b = record { address = b.address; size = size; free = false }

  abbrev pub rest : Block → Block
  rest b = record { address = b.address + size + 32; size = b.size - size - 32; free = true }

  IsLast-split :
      (h : Heap) (lo : ℕ) (b : Block) (bs : List Block)
      → size + 32 ≤ b.size
      → Laid lo (b ∷ bs)
      → IsLast h.last_node (b ∷ bs)
      → IsLast
          (if h.last_node == b.address then new_node b.address size else h.last_node)
          (used b ∷ rest b ∷ bs)
  IsLast-split h lo b [] fits (above, room, laid) last = ground (arith, fits, room, last)
  IsLast-split h lo b (c ∷ bs) fits laid last =
      let below = last-ne lo h.last_node b c bs laid last in
      subst (λ t. IsLast (if t then new_node b.address size else h.last_node) (c ∷ bs))
        (sym (ne→==-false h.last_node b.address (λ e. omega (arith, e, below)))) last

  pub split-Allocated :
      (h : Heap) (lo : ℕ) (b : Block) (bs : List Block)
      → size + 32 ≤ b.size
      → IsChain h.words b.address (b ∷ bs)
      → Laid lo (b ∷ bs)
      → IsLast h.last_node (b ∷ bs)
      → Allocated lo b.address
          (b.address + 32)
          (used b ∷ rest b ∷ bs)
          h
          (add64 b.address 32)
          (take size b.address h)
  split-Allocated h lo b bs fits (here, is_size, is_free_b, chain) (above, room, laid) last =
      let w = h.words in
      let n = b.address in
      let room' : n + 32 + w n < 2 ^ 64 = omega (arith, room, is_size) in
      let fits' : size + 32 ≤ w n = omega (arith, fits, is_size) in
      let next = taken-next w n size min_size room' fits' in
      let after = taken-new_next w n size min_size room' fits' in
      let new_size = taken-new_size w n size min_size room' fits' in
      subst (λ h'. Allocated lo n (n + 32) (used b ∷ rest b ∷ bs) h (add64 n 32) h')
        (sym (take-split n h (omega (arith, fits'))))
        (record {
          returned = omega (arith, room);
          chain = (
            refl,
            taken-size w n size min_size room' fits',
            taken-free w n size min_size room' fits',
            (
              next,
              omega (arith, new_size, is_size),
              taken-new_free w n size min_size room' fits',
              subst (λ m. IsChain (taken w n size min_size room' fits') m bs) (sym after)
                  (IsChain-above w (taken w n size min_size room' fits') (n + 32 + b.size)
                    (next_of n w) bs laid
                    (λ a ha.
                      taken-above w n size min_size room' fits' a (omega (arith, ha, is_size)))
                    chain),
            ),
          );
          laid = (
            above,
            omega (arith, room, fits),
            (
              omega arith,
              omega (arith, room, fits),
              subst (λ m. Laid m bs) (omega (arith, fits)) laid,
            ),
          );
          last = IsLast-split h lo b bs fits (above, room, laid) last;
          below = λ a ha. taken-below w n size min_size room' fits' a (omega (arith, ha, above));
          start = refl;
        })

  pub whole-Allocated :
      (h : Heap) (lo : ℕ) (b : Block) (bs : List Block)
      → b.size ≡ size
      → IsChain h.words b.address (b ∷ bs)
      → Laid lo (b ∷ bs)
      → IsLast h.last_node (b ∷ bs)
      → Allocated lo b.address
          (b.address + 32)
          (record b { free = false } ∷ bs)
          h
          (add64 b.address 32)
          (take size b.address h)
  whole-Allocated h lo b bs exact (here, is_size, is_free_b, chain) (above, room, laid) last =
      let n = b.address in
      let same_next : next_of n (set_free n false h.words) ≡ next_of n h.words = ground arith in
      subst (λ h'. Allocated lo n (n + 32) (record b { free = false } ∷ bs) h (add64 n 32) h')
        (sym (take-whole n h (omega (arith, is_size, exact))))
        (record {
          returned = omega (arith, room);
          chain = (
            refl,
            ground (arith, is_size),
            ground arith,
            subst (λ m. IsChain (set_free n false h.words) m bs) (sym same_next)
                (IsChain-above h.words (set_free n false h.words) (n + 32 + b.size)
                  (next_of n h.words) bs laid (λ a ha. ground (arith, ha)) chain),
          );
          laid = (above, room, laid);
          last = IsLast-same h.last_node b (record b { free = false }) bs refl last;
          below = λ a ha. ground (arith, ha, above);
          start = refl;
        })

  -- A block that is passed over.
  pub skip-Allocated :
      (h h' : Heap) (lo r p : ℕ) (b : Block) (bs bs' : List Block)
      → IsChain h.words b.address (b ∷ bs)
      → Laid lo (b ∷ bs)
      → Allocated (b.address + 32 + b.size) (next_of b.address h.words) p bs' h r h'
      → Allocated lo b.address p (b ∷ bs') h r h'
  skip-Allocated h h' lo r p b bs bs' (here, is_size, is_free_b, chain) (above, room, laid) got =
      let n = b.address in
      let flag = got.below (n + 8) (omega arith) in
      let next = got.below (n + 16) (omega arith) in
      record {
        returned = got.returned;
        chain = (
          refl,
          got.below n (omega arith) ∙ is_size,
          ground (arith, flag, is_free_b),
          subst (λ m. IsChain h'.words m bs') (sym next) got.chain,
        );
        laid = (above, room, got.laid);
        last = IsLast-behind h'.last_node b bs' got.last;
        below = λ a ha. got.below a (omega (arith, ha, above));
        start = got.start;
      }
