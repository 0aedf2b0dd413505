-- ===== src/Memory/Compare.antt =====
-- What the result of memcmp of memory.c says of the two regions.
use lightux.Prelude.{
  ℕ, zero, suc, ◌+◌, ◌≤◌, ◌<◌, ◌≡◌, refl, ◌⊎◌, inl, inr, arith, ◌==◌, ℤ, pos, negsuc, Bool-cases,
  ==→eq,
}
use lightux.Memory.{Mem, compare_loop, memcmp}

-- The regions agree on the bytes `i` to `j`.
abbrev pub Agree : Mem → (s1 s2 i j : ℕ) → Type 0
Agree m s1 s2 i j = (k : ℕ) → i ≤ k → k < j → m (s1 + k) ≡ m (s2 + k)

-- The order of the first two bytes that differ, at offset `k`.
pub record FirstDifference (m : Mem) (s1 s2 i n : ℕ) (r : ℤ) : Type 0 where
  pub at : ℕ
  pub from : i ≤ at
  pub within : at < n
  pub before : Agree m s1 s2 i at
  pub order :
      ((m (s1 + at) < m (s2 + at)) × (r ≡ negsuc 0)) ⊎ ((m (s2 + at) < m (s1 + at)) × (r ≡ pos 1))

abbrev pub Compared : Mem → (s1 s2 i n : ℕ) → ℤ → Type 0
Compared m s1 s2 i n r = (Agree m s1 s2 i n × (r ≡ pos 0)) ⊎ FirstDifference m s1 s2 i n r

module _ (m : Mem) (s1 s2 : ℕ) where
  Agree-extend : (i n : ℕ) → m (s1 + i) ≡ m (s2 + i) → Agree m s1 s2 (i + 1) n → Agree m s1 s2 i n
  Agree-extend i n e rest k lo hi = elim (Bool-cases (k == i)) [
    | inl same ↦ ground (arith, ==→eq k i same)
    | inr other ↦ rest k (grind arith) hi
  ]

  Compared-extend :
      (i n : ℕ) (r : ℤ)
      → m (s1 + i) ≡ m (s2 + i)
      → Compared m s1 s2 (i + 1) n r
      → Compared m s1 s2 i n r
  Compared-extend i n r e (inl (rest, zero_result)) = inl (Agree-extend i n e rest, zero_result)
  Compared-extend i n r e (inr d) = inr (record {
    at = d.at;
    from = omega (arith, d.from);
    within = d.within;
    before = Agree-extend i d.at e d.before;
    order = d.order;
  })

  compare_loop-Compared :
      (rounds i n : ℕ) → i + rounds ≡ n → Compared m s1 s2 i n (compare_loop rounds s1 s2 i m)
  unfolding compare_loop
  compare_loop-Compared zero i n e = inl (λ k lo hi. absurd (omega arith), refl)
  compare_loop-Compared (suc rounds) i n e =
      let rest = compare_loop-Compared rounds (i + 1) n (omega arith) in
      elim (Bool-cases (m (s1 + i) == m (s2 + i))) [
        | inl same ↦ rw same (Compared-extend i n _ (==→eq _ _ same) rest)
        | inr other ↦ inr (record {
          at = i;
          from = omega arith;
          within = omega arith;
          before = λ k lo hi. absurd (omega arith);
          order = ground arith;
        })
      ]

-- memcmp compares the two regions as texts over bytes: it returns 0 exactly where all n bytes
-- agree, and otherwise -1 or 1 as the first byte that differs is smaller in the first region or
-- in the second.
pub memcmp-Compared : (m : Mem) (s1 s2 n : ℕ) → Compared m s1 s2 0 n (memcmp s1 s2 n m)
unfolding memcmp
memcmp-Compared m s1 s2 n = compare_loop-Compared m s1 s2 n 0 n (omega arith)
