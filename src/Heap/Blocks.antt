-- ===== src/Heap/Blocks.antt =====
-- The heap as a list of blocks, by their addresses and sizes.
use lightux.Heap.{is_free, next_of}
use lightux.Prelude.{
  ℕ, ◌+◌, ◌-◌, ◌^◌, ◌≤◌, ◌<◌, ◌≡◌, sym, subst, ◌∙◌, Bool, true, false, ◌&&◌, leb, ◌==◌,
  if◌then◌else◌, List, [], ◌∷◌, Option, none, some, arith,
}

pub record Block : Type 0 where
  pub address : ℕ
  pub size : ℕ
  pub free : Bool

-- The blocks that the nodes from `node` on make up.
abbrev pub IsChain : (ℕ → ℕ) → (node : ℕ) → List Block → Type 0
IsChain words node [] = node ≡ 0
IsChain words node (b ∷ bs) =
    (node ≡ b.address)
    × (words b.address ≡ b.size)
    × (is_free b.address words ≡ b.free)
    × IsChain words (next_of b.address words) bs

-- Blocks with their nodes, from `lo` on in ascending order.
abbrev pub Laid : (lo : ℕ) → List Block → Type 0
Laid lo [] = Unit {0}
Laid lo (b ∷ bs) =
    (lo ≤ b.address) × (b.address + 32 + b.size < 2 ^ 64) × Laid (b.address + 32 + b.size) bs

pub Laid-lower : (lo lo' : ℕ) (bs : List Block) → lo' ≤ lo → Laid lo bs → Laid lo' bs
Laid-lower lo lo' [] le laid = tt
Laid-lower lo lo' (b ∷ bs) le (above, room, laid) = (omega (arith, le, above), room, laid)

-- `node` is the one of the last block.
abbrev pub IsLast : (node : ℕ) → List Block → Type 0
IsLast node [] = ⊥
IsLast node (b ∷ []) = node ≡ b.address
IsLast node (b ∷ c ∷ bs) = IsLast node (c ∷ bs)

pub IsChain-above :
    (words words' : ℕ → ℕ) (lo node : ℕ) (bs : List Block)
    → Laid lo bs
    → ((a : ℕ) → lo ≤ a → words' a ≡ words a)
    → IsChain words node bs
    → IsChain words' node bs
IsChain-above words words' lo node [] laid same chain = chain
IsChain-above words words' lo node (b ∷ bs) (above, room, laid) same (here, size, free, chain) =
    let next = same (b.address + 16) (omega (arith, above)) in
    let flag = same (b.address + 8) (omega (arith, above)) in
    (
      here,
      same b.address above ∙ size,
      ground (arith, flag, free),
      IsChain-above words words' (b.address + 32 + b.size) (words' (b.address + 16)) bs laid
          (λ a h. same a (omega (arith, h, above)))
          (subst (λ n. IsChain words n bs) (sym next) chain),
    )

-- The last node lies above.
pub IsLast-above : (lo node : ℕ) (bs : List Block) → Laid lo bs → IsLast node bs → lo ≤ node
IsLast-above lo node [] laid last = absurd last
IsLast-above lo node (b ∷ []) (above, room, laid) last = omega (arith, above, last)
IsLast-above lo node (b ∷ c ∷ bs) (above, room, laid) last =
    let rest = IsLast-above (b.address + 32 + b.size) node (c ∷ bs) laid last in
    omega (arith, rest, above)

-- The node of a block that is not the last one is below the last node.
pub last-ne :
    (lo last : ℕ) (b c : Block) (bs : List Block)
    → Laid lo (b ∷ c ∷ bs)
    → IsLast last (b ∷ c ∷ bs)
    → b.address < last
last-ne lo last b c bs (above, room, laid) is_last =
    let h = IsLast-above (b.address + 32 + b.size) last (c ∷ bs) laid is_last in omega (arith, h)

pub IsLast-same :
    (last : ℕ) (b b' : Block) (bs : List Block)
    → b'.address ≡ b.address
    → IsLast last (b ∷ bs)
    → IsLast last (b' ∷ bs)
IsLast-same last b b' [] same h = h ∙ sym same
IsLast-same last b b' (c ∷ bs) same h = h

pub IsLast-behind : (last : ℕ) (b : Block) (bs : List Block) → IsLast last bs → IsLast last (b ∷ bs)
IsLast-behind last b [] h = absurd h
IsLast-behind last b (c ∷ bs) h = h

abbrev pub behind : Block → Option (ℕ × List Block) → Option (ℕ × List Block)
behind b none = none
behind b (some (p, bs)) = some (p, b ∷ bs)

-- The first block that is free and large enough is taken for `size` bytes, and what is left behind it
-- becomes a block of its own, where it has room for a node.
abbrev pub allocate : (size : ℕ) → List Block → Option (ℕ × List Block)
allocate size [] = none
allocate size (b ∷ bs) =
    if b.free && leb size b.size
    then (if b.size == size
        then some (b.address + 32, record b { free = false } ∷ bs)
        else if leb (size + 32) b.size
        then some (
          b.address + 32,
          record { address = b.address; size = size; free = false }
              ∷ record { address = b.address + size + 32; size = b.size - size - 32; free = true }
              ∷ bs,
        )
        else none)
    else behind b (allocate size bs)
