-- ===== src/Paging/MapPage.antt =====
-- paging_MapPage as a whole: it returns, and what it maps.
use lightux.Boot.{BootInfo}
use lightux.Pmm.Room.{Room}
use lightux.Spinlock.{spinlock_acquire, spinlock_release}
use lightux.Paging.{
  Paging, slot, pf_present, pml4e, pdpte, pde, pte, strip_sx, p_phys_addr, next_table, acquire,
  set_page, map_page, in_hhdm, virt_to_physical,
}
use lightux.Paging.Words.{strip_sx_lem, table_index_lem}
use lightux.Paging.Tables.{place, Roles, index_at, prefix_at, base, IsTree, IsOwned-Low, walk_from}
use lightux.Paging.Walk.{index_at-lt}
use lightux.Paging.Entry.{with_entry, walk_from-other, walk_from-here, with_entry-IsTree}
use lightux.Paging.Chain.{indices-page, same_index, root-kept, leaf-chain}
use lightux.Paging.Descend.{Below, next_table-Below}
use lightux.Paging.Mapping.{
  page_of, IsMapped, Translates, walked, walked-page, virt_to_physical-hhdm, virt_to_physical-walk,
  last_entry-page,
}
use lightux.Prelude.{
  ℕ, ◌+◌, ◌*◌, ◌/◌, ◌%◌, ◌^◌, ◌<◌, ◌≡◌, ◌≢◌, refl, ap, ap₂, subst, sym, ◌∙◌, true, false, some,
  arith, bit_or, Bool-cases, ◌==◌, if◌then◌else◌, Returns, returns, and_then, Outcome, inl, inr,
}

acquire-returns :
    (s : Paging)
    → s.lock.locked ≡ false
    → acquire s ≡ returns tt (record s { lock = record { locked = true } })
unfolding acquire spinlock_acquire
acquire-returns s free = ground arith

module _ (boot_info : BootInfo) (total virt_addr physical flags : ℕ) (role : Roles) (s : Paging)
    (mapped : IsMapped boot_info.hhdm_offset total role s) (room : Room 3 s.pmm)
    (hp : physical < 2 ^ 64) (hf : flags < 4096) where
  abbrev hhdm : ℕ
  hhdm = boot_info.hhdm_offset

  abbrev virt : ℕ
  virt = strip_sx virt_addr

  abbrev s0 : Paging
  s0 = record s { lock = record { locked = true } }

  abbrev i1 : ℕ
  i1 = index_at 3 virt

  abbrev i2 : ℕ
  i2 = index_at 2 virt

  abbrev i3 : ℕ
  i3 = index_at 1 virt

  virt-small : virt < 2 ^ 48
  virt-small = omega (arith, strip_sx_lem virt_addr)

  module _ (t1 : ℕ) (s1 : Paging) (b1 : Below hhdm total 2 role mapped.root 2 0 i1 s0 t1 s1)
      (t2 : ℕ) (s2 : Paging) (b2 : Below hhdm total 1 b1.role' b1.r 1 (0 * 512 + i1) i2 s1 t2 s2)
      (t3 : ℕ) (s3 : Paging)
      (b3 : Below hhdm total 0 b2.role' b2.r 0 ((0 * 512 + i1) * 512 + i2) i3 s2 t3 s3) where
    abbrev number : ℕ
    number = ((0 * 512 + i1) * 512 + i2) * 512 + i3

    abbrev page_entry : ℕ
    page_entry = bit_or (bit_or (p_phys_addr physical) pf_present) flags

    abbrev words_last : ℕ → ℕ
    words_last =
        with_entry hhdm b3.owned.aligned b3.role' (IsOwned-Low hhdm b3.owned) s3.words b3.tree b3.r
          number (pte virt) page_entry b3.at (index_at-lt 0 virt)

    root_at : b3.role' mapped.root ≡ some (place 3 0)
    root_at = root-kept hhdm total mapped.root virt role s0 mapped.at t1 s1 b1 t2 s2 b2 t3 s3 b3

    last_at : (v : ℕ) → v < 2 ^ 64 → b3.role' mapped.root ≡ some (place 3 (prefix_at 3 (walked v)))
    last_at v hv = root_at ∙ ap (λ n. some (place 3 n)) (sym (walked-page v hv).1)

    -- The walks before the last entry is set are those of the state at the call.
    walks_before :
        (v : ℕ)
        → v < 2 ^ 64
        → walk_from hhdm 3 s3.words (base hhdm mapped.root) (walked v) v
          ≡ walk_from hhdm 3 s.words (base hhdm mapped.root) (walked v) v
    walks_before v hv =
        let at1 = mapped.at ∙ ap (λ n. some (place 3 n)) (sym (walked-page v hv).1) in
        let at2 = b1.extends mapped.root _ at1 in
        let at3 = b2.extends mapped.root _ at2 in
        b3.walks 3 mapped.root (walked v) v (omega arith) at3
        ∙ b2.walks 3 mapped.root (walked v) v (omega arith) at2
        ∙ b1.walks 3 mapped.root (walked v) v (omega arith) at1

    walk-elsewhere :
        (v : ℕ)
        → v < 2 ^ 64
        → page_of v ≢ page_of virt_addr
        → walk_from hhdm 3 words_last (base hhdm mapped.root) (walked v) v
          ≡ walk_from hhdm 3 s.words (base hhdm mapped.root) (walked v) v
    walk-elsewhere v hv differ =
        let page : prefix_at 0 (walked v) * 512 + pte (walked v) ≡ page_of v =
          omega (arith, table_index_lem 12 (walked v), (walked-page v hv).0) in
        let target : number * 512 + pte virt ≡ page_of virt_addr =
          indices-page virt virt-small ∙ ap (λ n. n / 4096) (strip_sx_lem virt_addr) in
        walk_from-other hhdm b3.owned.aligned b3.role' (IsOwned-Low hhdm b3.owned) s3.words b3.tree
          b3.r number (pte virt) page_entry b3.at (index_at-lt 0 virt) 3 mapped.root (walked v) v
          (omega arith) (last_at v hv) (λ e. differ (sym page ∙ e ∙ target))
        ∙ walks_before v hv

    walk-here :
        (v : ℕ)
        → v < 2 ^ 64
        → page_of v ≡ page_of virt_addr
        → walk_from hhdm 3 words_last (base hhdm mapped.root) (walked v) v
          ≡ physical / 4096 % 2 ^ 40 * 4096 + v % 4096
    walk-here v hv same =
        let page : walked v / 4096 ≡ virt / 4096 =
          (walked-page v hv).0 ∙ same ∙ sym (ap (λ n. n / 4096) (strip_sx_lem virt_addr)) in
        let e3 = same_index 39 (walked v) virt (omega (arith, page)) in
        let e2 = same_index 30 (walked v) virt (omega (arith, page)) in
        let e1 = same_index 21 (walked v) virt (omega (arith, page)) in
        walk_from-here hhdm b3.owned.aligned b3.role' (IsOwned-Low hhdm b3.owned) s3.words b3.tree
          b3.r number (pte virt) page_entry b3.at (index_at-lt 0 virt) 3 mapped.root (walked v) v
          (omega arith) (last_at v hv)
          (leaf-chain hhdm total mapped.root virt role s0 mapped.at t1 s1 b1 t2 s2 b2 t3 s3 b3
            (walked v) e3 e2 e1)
          (same_index 12 (walked v) virt page)
        ∙ last_entry-page physical flags v hp hf

    abbrev done : Paging
    done = set_page virt physical flags t3 (pte virt) s3

    done-words : done.words ≡ words_last
    unfolding set_page
    done-words = ap (λ t a. if a == slot t (pte virt) then page_entry else s3.words a) b3.table

    done-page_dir : done.page_dir ≡ base hhdm mapped.root
    unfolding set_page
    done-page_dir = b3.page_dir ∙ b2.page_dir ∙ b1.page_dir ∙ mapped.page_dir

    done-walk :
        (v : ℕ)
        → in_hhdm boot_info v ≡ false
        → virt_to_physical boot_info v done
          ≡ walk_from hhdm 3 words_last (base hhdm mapped.root) (walked v) v
    done-walk v outside =
        virt_to_physical-walk boot_info v done outside
        ∙ ap₂ (λ w d. walk_from hhdm 3 w d (walked v) v) done-words done-page_dir

    done-IsMapped : IsMapped hhdm total b3.role' done
    unfolding set_page spinlock_release
    done-IsMapped = record {
      root = mapped.root;
      page_dir = done-page_dir;
      at = root_at;
      tree = subst (IsTree hhdm b3.role') (sym done-words) (
          with_entry-IsTree hhdm b3.owned.aligned b3.role' (IsOwned-Low hhdm b3.owned) s3.words
            b3.tree b3.r number (pte virt) page_entry b3.at (index_at-lt 0 virt));
      owned = b3.owned;
      unlocked = refl;
    }

    done-Translates : Translates boot_info total virt_addr physical s done
    done-Translates = record {
      role' = b3.role';
      still = done-IsMapped;
      here = λ v hv outside same. done-walk v outside ∙ walk-here v hv same;
      elsewhere = λ v hv differ. elim (Bool-cases (in_hhdm boot_info v)) [
        | inl inside ↦
            virt_to_physical-hhdm boot_info v done inside
            ∙ sym (virt_to_physical-hhdm boot_info v s inside)
        | inr outside ↦
            done-walk v outside
            ∙ walk-elsewhere v hv differ
            ∙ ap (λ d. walk_from hhdm 3 s.words d (walked v) v) (sym mapped.page_dir)
            ∙ sym (virt_to_physical-walk boot_info v s outside)
      ];
      higher_half = λ v inside.
          virt_to_physical-hhdm boot_info v done inside
          ∙ sym (virt_to_physical-hhdm boot_info v s inside);
    }

  abbrev from_pt : ℕ → Paging → Outcome Paging (Unit {0})
  from_pt t s' = returns tt (set_page virt physical flags t (pte virt) s')

  abbrev from_pd : ℕ → Paging → Outcome Paging (Unit {0})
  from_pd t s' = and_then (next_table hhdm t (pde virt) s') from_pt

  abbrev from_pdp : ℕ → Paging → Outcome Paging (Unit {0})
  from_pdp t s' = and_then (next_table hhdm t (pdpte virt) s') from_pd

  map_page-runs :
      (t1 : ℕ) (s1 : Paging) (b1 : Below hhdm total 2 role mapped.root 2 0 i1 s0 t1 s1) (t2 : ℕ)
      (s2 : Paging) (b2 : Below hhdm total 1 b1.role' b1.r 1 (0 * 512 + i1) i2 s1 t2 s2) (t3 : ℕ)
      (s3 : Paging)
      → next_table hhdm (base hhdm mapped.root) i1 s0 ≡ returns t1 s1
      → next_table hhdm (base hhdm b1.r) i2 s1 ≡ returns t2 s2
      → next_table hhdm (base hhdm b2.r) i3 s2 ≡ returns t3 s3
      → map_page boot_info virt_addr physical flags s
        ≡ returns tt (set_page virt physical flags t3 (pte virt) s3)
  unfolding map_page
  map_page-runs t1 s1 b1 t2 s2 b2 t3 s3 e1 e2 e3 =
      ap (λ o. and_then o λ _ s'. and_then (next_table hhdm s'.page_dir (pml4e virt) s') from_pdp)
        (acquire-returns s mapped.unlocked)
      ∙ ap (λ o. and_then o from_pdp) (ap (λ d. next_table hhdm d i1 s0) mapped.page_dir ∙ e1)
      ∙ ap (λ o. and_then o from_pd) (ap (λ d. next_table hhdm d i2 s1) b1.table ∙ e2)
      ∙ ap (λ o. and_then o from_pt) (ap (λ d. next_table hhdm d i3 s2) b2.table ∙ e3)

  -- In a kernel whose tables form a tree in pages of the allocator, the lock free and at least three
  -- pages free, for a physical address of 64 bits and flags of 12, paging_MapPage returns in such a
  -- state again. From then on an address of the page mapped, outside the higher half map, translates
  -- to its offset in the physical page (of the 52 bits an entry holds); every address of another
  -- page and every address of the higher half map translates as before the call.
  pub map_page-Translates :
      Returns
        (map_page boot_info virt_addr physical flags s)
        (λ _ s'. Translates boot_info total virt_addr physical s s')
  map_page-Translates =
      let (t1, s1, e1, b1) =
        next_table-Below hhdm total 2 role mapped.root 2 0 i1 s0 mapped.tree mapped.owned room
          mapped.at (index_at-lt 3 virt) in
      let (t2, s2, e2, b2) =
        next_table-Below hhdm total 1 b1.role' b1.r 1 (0 * 512 + i1) i2 s1 b1.tree b1.owned b1.room
          b1.at (index_at-lt 2 virt) in
      let (t3, s3, e3, b3) =
        next_table-Below hhdm total 0 b2.role' b2.r 0 ((0 * 512 + i1) * 512 + i2) i3 s2 b2.tree
          b2.owned b2.room b2.at (index_at-lt 1 virt) in
      (
        tt,
        done t1 s1 b1 t2 s2 b2 t3 s3 b3,
        map_page-runs t1 s1 b1 t2 s2 b2 t3 s3 e1 e2 e3,
        done-Translates t1 s1 b1 t2 s2 b2 t3 s3 b3,
      )
