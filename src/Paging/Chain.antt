-- ===== src/Paging/Chain.antt =====
-- The three tables that paging_MapPage goes down to, and the walk that they make.
use lightux.Paging.{Paging, slot, is_present, pte, table_index}
use lightux.Paging.Words.{table_index_lem}
use lightux.Paging.Tables.{place, Roles, frame, index_at, base, leaf}
use lightux.Paging.Walk.{index_at-lt, leaf-present, leaf-zero}
use lightux.Paging.Descend.{Below}
use lightux.Prelude.{ℕ, suc, ◌+◌, ◌*◌, ◌/◌, ◌%◌, ◌^◌, ◌<◌, ◌≡◌, ap, sym, ◌∙◌, true, some, arith}

-- One step of a walk, by what the entry holds.
step :
    (hhdm l q x j r : ℕ) (words : ℕ → ℕ)
    → index_at (suc l) x ≡ j
    → is_present (words (slot (base hhdm q) j)) ≡ true
    → frame (words (slot (base hhdm q) j)) ≡ r
    → leaf hhdm (suc l) words (base hhdm q) x ≡ leaf hhdm l words (base hhdm r) x
step hhdm l q x j r words e present leads =
    leaf-present hhdm l words q x (ap (λ k. is_present (words (slot (base hhdm q) k))) e ∙ present)
    ∙ ap (λ k. leaf hhdm l words (base hhdm k) x)
        (ap (λ k. frame (words (slot (base hhdm q) k))) e ∙ leads)

-- The number of the page, from the four indices.
pub indices-page :
    (virt : ℕ)
    → virt < 2 ^ 48
    → (((0 * 512 + index_at 3 virt) * 512 + index_at 2 virt) * 512 + index_at 1 virt) * 512
        + pte virt
      ≡ virt / 4096
indices-page virt h = omega (
  arith,
  table_index_lem 39 virt,
  table_index_lem 30 virt,
  table_index_lem 21 virt,
  table_index_lem 12 virt,
)

pub same_index :
    (shift x virt : ℕ)
    → x / 2 ^ shift ≡ virt / 2 ^ shift
    → table_index shift x ≡ table_index shift virt
same_index shift x virt e =
    table_index_lem shift x ∙ ap (λ n. n % 512) e ∙ sym (table_index_lem shift virt)

module _ (hhdm total root virt : ℕ) (role : Roles) (s : Paging) (at : role root ≡ some (place 3 0))
    (t1 : ℕ) (s1 : Paging) (b1 : Below hhdm total 2 role root 2 0 (index_at 3 virt) s t1 s1)
    (t2 : ℕ) (s2 : Paging)
    (b2 : Below hhdm total 1 b1.role' b1.r 1 (0 * 512 + index_at 3 virt) (index_at 2 virt) s1 t2 s2)
    (t3 : ℕ) (s3 : Paging)
    (b3 : Below hhdm total 0 b2.role' b2.r 0
      ((0 * 512 + index_at 3 virt) * 512 + index_at 2 virt)
      (index_at 1 virt)
      s2
      t3
      s3) where
  root_3 : b2.role' root ≡ some (place 3 0)
  root_3 = b2.extends root _ (b1.extends root _ at)

  pub root-kept : b3.role' root ≡ some (place 3 0)
  root-kept = b3.extends root _ root_3

  first_2 :
      s2.words (slot (base hhdm root) (index_at 3 virt))
      ≡ s1.words (slot (base hhdm root) (index_at 3 virt))
  first_2 = b2.kept root (index_at 3 virt) _ (b1.extends root _ at) (index_at-lt 3 virt) b1.present

  first_3 :
      s3.words (slot (base hhdm root) (index_at 3 virt))
      ≡ s1.words (slot (base hhdm root) (index_at 3 virt))
  first_3 =
      b3.kept root (index_at 3 virt) _ root_3 (index_at-lt 3 virt)
        (ap is_present first_2 ∙ b1.present)
      ∙ first_2

  second_3 :
      s3.words (slot (base hhdm b1.r) (index_at 2 virt))
      ≡ s2.words (slot (base hhdm b1.r) (index_at 2 virt))
  second_3 =
      b3.kept b1.r (index_at 2 virt) _ (b2.extends b1.r _ b1.at) (index_at-lt 2 virt) b2.present

  -- A walk by the same three indices ends in the last of the tables.
  pub leaf-chain :
      (x : ℕ)
      → index_at 3 x ≡ index_at 3 virt
      → index_at 2 x ≡ index_at 2 virt
      → index_at 1 x ≡ index_at 1 virt
      → leaf hhdm 3 s3.words (base hhdm root) x ≡ some (base hhdm b3.r)
  leaf-chain x e3 e2 e1 =
      step hhdm 2 root x _ _ s3.words e3 (ap is_present first_3 ∙ b1.present)
        (ap frame first_3 ∙ b1.leads)
      ∙ step hhdm 1 b1.r x _ _ s3.words e2 (ap is_present second_3 ∙ b2.present)
          (ap frame second_3 ∙ b2.leads)
      ∙ step hhdm 0 b2.r x _ _ s3.words e1 b3.present b3.leads
      ∙ leaf-zero hhdm s3.words b3.r x
