-- ===== src/Pci/Lookup.antt =====
-- What PCI_LookUpDevice finds in the list that InitializePCI makes.
use lightux.Pci.{pci_filter_device}
use lightux.Pci.Devices.{
  pci_get_device, Pci, Buses, is_general, entry_of, visit, func_loop, slot_loop, bus_loop,
  initialize_pci, pci_look_up_device,
}
use lightux.Prelude.{
  ℕ, zero, suc, ◌+◌, ◌<◌, ◌≡◌, refl, ap, ap₂, sym, ◌∙◌, inl, inr, Bool, true, false, not, ◌&&◌,
  ◌||◌, ltb, leb, ◌==◌, if◌then◌else◌, List, [], ◌∷◌, ◌++◌, Option, none, some, arith, Bool-cases,
}

abbrev or_else : Option Pci → Option Pci → Option Pci
or_else none y = y
or_else (some x) y = some x

module _ (port : ℕ → ℕ) (bus slot func : ℕ) where
  -- The entry of a function that is there and general.
  abbrev pub answer_at : (b sl f : ℕ) → Option Pci
  answer_at b sl f =
      let device = pci_get_device port b sl f in
      if pci_filter_device port b sl f && is_general device then some (entry_of device) else none

  abbrev pub answer : Option Pci
  answer = answer_at bus slot func

  abbrev is_it : (b sl f : ℕ) → Bool
  is_it b sl f = b == bus && sl == slot && f == func

  abbrev found : Buses → Option Pci
  found s = pci_look_up_device bus slot func s.first_pci

  look_up-nil : pci_look_up_device bus slot func [] ≡ none
  unfolding pci_look_up_device
  look_up-nil = refl

  look_up-append :
      (xs : List Pci) (x : Pci)
      → pci_look_up_device bus slot func (xs ++ (x ∷ []))
        ≡ or_else
            (pci_look_up_device bus slot func xs)
            (if x.bus == bus && x.slot == slot && x.func == func then some x else none)
  unfolding pci_look_up_device
  look_up-append [] x = refl
  look_up-append (y ∷ xs) x = elim (Bool-cases (y.bus == bus && y.slot == slot && y.func == func)) [
    | inl e ↦ rw e refl
    | inr e ↦ rw e (look_up-append xs x)
  ]

  or_else-none : (o : Option Pci) → or_else o none ≡ o
  or_else-none none = refl
  or_else-none (some x) = refl

  -- Two searches for the same entry.
  or_else-if :
      (o a : Option Pci) (c d : Bool)
      → or_else (or_else o (if c then a else none)) (if d then a else none)
        ≡ or_else o (if c || d then a else none)
  or_else-if (some x) a c d = refl
  or_else-if none none true false = refl
  or_else-if none none true true = refl
  or_else-if none (some x) true d = refl
  or_else-if none a false d = refl

  look_up-entry :
      (b sl f : ℕ) (xs : List Pci)
      → pci_look_up_device bus slot func (xs ++ (entry_of (pci_get_device port b sl f) ∷ []))
        ≡ or_else
            (pci_look_up_device bus slot func xs)
            (if is_it b sl f then some (entry_of (pci_get_device port b sl f)) else none)
  unfolding pci_get_device
  look_up-entry b sl f xs = look_up-append xs (entry_of (pci_get_device port b sl f))

  -- The tests on a function, and what is found if `with_entry` is the list with its entry.
  tested :
      (there general : Bool) (s with_entry : Buses) (entry : Pci) (m : Bool)
      → found with_entry ≡ or_else (found s) (if m then some entry else none)
      → found (if not there then s else if not general then s else with_entry)
        ≡ or_else (found s) (if m then (if there && general then some entry else none) else none)
  tested false general s with_entry entry true e = sym (or_else-none (found s))
  tested false general s with_entry entry false e = sym (or_else-none (found s))
  tested true false s with_entry entry true e = sym (or_else-none (found s))
  tested true false s with_entry entry false e = sym (or_else-none (found s))
  tested true true s with_entry entry m e = e

  if-answer :
      (b sl f : ℕ)
      → (if is_it b sl f then answer_at b sl f else none) ≡ (if is_it b sl f then answer else none)
  if-answer b sl f = elim (Bool-cases (is_it b sl f)) [
    | inl e ↦
        let hb : b ≡ bus = ground (arith, e) in
        let hs : sl ≡ slot = ground (arith, e) in
        let hf : f ≡ func = ground (arith, e) in
        ap (λ a. if is_it b sl f then a else none)
          (ap (λ x. answer_at x sl f) hb
            ∙ ap (λ x. answer_at bus x f) hs
            ∙ ap (answer_at bus slot) hf)
    | inr e ↦
        ap (λ t. if t then answer_at b sl f else none) e
        ∙ sym (ap (λ t. if t then answer else none) e)
  ]

  found-visit :
      (b sl f : ℕ) (s : Buses)
      → found (visit port b sl f s) ≡ or_else (found s) (if is_it b sl f then answer else none)
  unfolding visit
  found-visit b sl f s =
      let device = pci_get_device port b sl f in
      let with_entry : Buses = record {
        first_pci = s.first_pci ++ (entry_of device ∷ []);
        ahci =
            if device.class_id == 0x01 && device.sub_class_id == 0x06 && device.prog_if == 0x01
            then s.ahci ++ (device ∷ [])
            else s.ahci;
      } in
      tested (pci_filter_device port b sl f) (is_general device) s with_entry (entry_of device)
        (is_it b sl f) (look_up-entry b sl f s.first_pci)
      ∙ ap (or_else (found s)) (if-answer b sl f)

  abbrev between : (x from n : ℕ) → Bool
  between x from n = leb from x && ltb x (from + n)

  found-func_loop :
      (rounds b sl f : ℕ) (s : Buses)
      → found (func_loop port rounds b sl f s)
        ≡ or_else
            (found s)
            (if b == bus && sl == slot && between func f rounds then answer else none)
  unfolding func_loop
  found-func_loop zero b sl f s =
      let e : (b == bus && sl == slot && between func f 0) ≡ false = ground arith in
      sym (ap (λ t. or_else (found s) (if t then answer else none)) e ∙ or_else-none (found s))
  found-func_loop (suc rounds) b sl f s =
      let e : (is_it b sl f || (b == bus && sl == slot && between func (f + 1) rounds))
          ≡ (b == bus && sl == slot && between func f (suc rounds)) =
        ground arith in
      found-func_loop rounds b sl (f + 1) (visit port b sl f s)
      ∙ ap
          (λ o.
            or_else o
              (if b == bus && sl == slot && between func (f + 1) rounds then answer else none))
          (found-visit b sl f s)
      ∙ or_else-if (found s) answer (is_it b sl f)
          (b == bus && sl == slot && between func (f + 1) rounds)
      ∙ ap (λ t. or_else (found s) (if t then answer else none)) e

  module _ (hf : func < 8) where
    found-slot_loop :
        (rounds b sl : ℕ) (s : Buses)
        → found (slot_loop port rounds b sl s)
          ≡ or_else (found s) (if b == bus && between slot sl rounds then answer else none)
    unfolding slot_loop
    found-slot_loop zero b sl s =
        let e : (b == bus && between slot sl 0) ≡ false = ground arith in
        sym (ap (λ t. or_else (found s) (if t then answer else none)) e ∙ or_else-none (found s))
    found-slot_loop (suc rounds) b sl s =
        let here = b == bus && sl == slot && between func 0 8 in
        let more = b == bus && between slot (sl + 1) rounds in
        let e : (here || more) ≡ (b == bus && between slot sl (suc rounds)) = ground (arith, hf) in
        found-slot_loop rounds b (sl + 1) (func_loop port 8 b sl 0 s)
        ∙ ap (λ o. or_else o (if more then answer else none)) (found-func_loop 8 b sl 0 s)
        ∙ or_else-if (found s) answer here more
        ∙ ap (λ t. or_else (found s) (if t then answer else none)) e

    module _ (hs : slot < 32) where
      found-bus_loop :
          (rounds b : ℕ) (s : Buses)
          → found (bus_loop port rounds b s)
            ≡ or_else (found s) (if between bus b rounds then answer else none)
      unfolding bus_loop
      found-bus_loop zero b s =
          let e : between bus b 0 ≡ false = ground arith in
          sym (ap (λ t. or_else (found s) (if t then answer else none)) e ∙ or_else-none (found s))
      found-bus_loop (suc rounds) b s =
          let here = b == bus && between slot 0 32 in
          let more = between bus (b + 1) rounds in
          let e : (here || more) ≡ between bus b (suc rounds) = ground (arith, hs) in
          found-bus_loop rounds (b + 1) (slot_loop port 32 b 0 s)
          ∙ ap (λ o. or_else o (if more then answer else none)) (found-slot_loop 32 b 0 s)
          ∙ or_else-if (found s) answer here more
          ∙ ap (λ t. or_else (found s) (if t then answer else none)) e

  -- After InitializePCI from an empty list, PCI_LookUpDevice of a function within the limits of PCI finds
  -- it where it answers with a vendor and has the header of a general device, and nothing where not.
  pub pci_look_up_device-initialize_pci :
      bus < 256
      → slot < 32
      → func < 8
      → (s : Buses) → s.first_pci ≡ []
      → pci_look_up_device bus slot func (initialize_pci port s).first_pci ≡ answer
  unfolding initialize_pci
  pci_look_up_device-initialize_pci hb hs hf s empty =
      let e : between bus 0 256 ≡ true = ground (arith, hb) in
      found-bus_loop hf hs 256 0 s
      ∙ ap₂ or_else (ap (pci_look_up_device bus slot func) empty ∙ look_up-nil)
          (ap (λ t. if t then answer else none) e)
