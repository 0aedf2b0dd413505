-- ===== src/Fat32/Walking.antt =====
-- FAT32_TraversePath resolves the names of a path one after another.
use lightux.Bits.{bit_or-fields}
use lightux.Memory.{Mem}
use lightux.Text.{strchr_loop, strchr}
use lightux.Text.Length.{IsText, strlen_lem}
use lightux.Disk.{Disk}
use lightux.Fat32.{FatData, root_directory_cluster}
use lightux.Fat32.Names.{DirectoryEntry, first_cluster_high, first_cluster_low}
use lightux.Fat32.Directory.{Scan, Leftovers, fat32_find_entry}
use lightux.Fat32.Paths.{
  first_cluster_of, component, next_component, traverse_loop, fat32_traverse_path,
}
use lightux.Prelude.{
  ℕ, zero, suc, ◌+◌, ◌-◌, ◌*◌, ◌<◌, ◌≡◌, ◌≢◌, inl, inr, refl, ap, subst, ◌∙◌, ◌==◌, if◌then◌else◌,
  some, u32, arith, returns, Bool-cases, ne→==-false,
}

-- The first cluster that an entry names, from its bytes: the upper half at 20, the lower at 26.
abbrev pub cluster_of : DirectoryEntry → ℕ
cluster_of e = (e 20 + 256 * e 21) * 65536 + (e 26 + 256 * e 27)

pub first_cluster_of-bytes :
    (e : DirectoryEntry) → ((i : ℕ) → e i < 256) → first_cluster_of e ≡ cluster_of e
unfolding first_cluster_of
first_cluster_of-bytes e bytes =
    ap u32 (
      bit_or-fields 16 (first_cluster_high e) (first_cluster_low e)
        (omega (arith, bytes 26, bytes 27)))
    ∙ omega (arith, bytes 20, bytes 21, bytes 26, bytes 27)

-- A name of `n` characters, which are neither the terminator nor a slash, and for which the array of
-- FAT32_TraversePath has room.
pub record IsName (m : Mem) (path n : ℕ) : Type 0 where
  pub some_char : 0 < n
  pub room : n < 256
  pub char : (i : ℕ) → i < n → m (path + i) ≢ 0
  pub plain : (i : ℕ) → i < n → m (path + i) ≢ 0x2f

IsName-starts : (m : Mem) (path n : ℕ) → IsName m path n → (m path ≢ 0) × (m path ≢ 0x2f)
IsName-starts m path n word =
    let here : m (path + 0) ≡ m path = ap m (omega arith) in
    ((λ e. word.char 0 word.some_char (here ∙ e)), (λ e. word.plain 0 word.some_char (here ∙ e)))

strchr_loop-slash :
    (n rounds path : ℕ) (m : Mem)
    → ((i : ℕ) → i < n → (m (path + i) ≢ 0) × (m (path + i) ≢ 0x2f))
    → m (path + n) ≡ 0x2f
    → n < rounds
    → strchr_loop rounds path 0x2f m ≡ returns (path + n) m
unfolding strchr_loop
strchr_loop-slash n zero path m chars slash fuel = absurd (omega (arith, fuel))
strchr_loop-slash zero (suc rounds) path m chars slash fuel =
    let here : m path ≡ 0x2f = ap m (omega arith) ∙ slash in
    rw here (ap (λ p. returns p m) (omega arith))
strchr_loop-slash (suc n) (suc rounds) path m chars slash fuel =
    let here : m (path + 0) ≡ m path = ap m (omega arith) in
    let some_char = ne→==-false (m path) 0 (λ e. (chars 0 (omega arith)).0 (here ∙ e)) in
    let plain = ne→==-false (m path) 0x2f (λ e. (chars 0 (omega arith)).1 (here ∙ e)) in
    rw (some_char, plain)
      (strchr_loop-slash n rounds (path + 1) m
          (λ i hi.
            subst (λ a. (m a ≢ 0) × (m a ≢ 0x2f)) (omega arith) (chars (suc i) (omega (arith, hi))))
          (ap m (omega arith) ∙ slash) (omega (arith, fuel))
        ∙ ap (λ p. returns p m) (omega arith))

strchr_loop-none :
    (n rounds path : ℕ) (m : Mem)
    → ((i : ℕ) → i < n → (m (path + i) ≢ 0) × (m (path + i) ≢ 0x2f))
    → m (path + n) ≡ 0
    → n < rounds
    → strchr_loop rounds path 0x2f m ≡ returns 0 m
unfolding strchr_loop
strchr_loop-none n zero path m chars end fuel = absurd (omega (arith, fuel))
strchr_loop-none zero (suc rounds) path m chars end fuel =
    let here : m path ≡ 0 = ap m (omega arith) ∙ end in rw here refl
strchr_loop-none (suc n) (suc rounds) path m chars end fuel =
    let here : m (path + 0) ≡ m path = ap m (omega arith) in
    let some_char = ne→==-false (m path) 0 (λ e. (chars 0 (omega arith)).0 (here ∙ e)) in
    let plain = ne→==-false (m path) 0x2f (λ e. (chars 0 (omega arith)).1 (here ∙ e)) in
    rw (some_char, plain)
      (strchr_loop-none n rounds (path + 1) m
        (λ i hi.
          subst (λ a. (m a ≢ 0) × (m a ≢ 0x2f)) (omega arith) (chars (suc i) (omega (arith, hi))))
        (ap m (omega arith) ∙ end) (omega (arith, fuel)))

module _ (rounds : ℕ) (m : Mem) (path n : ℕ) (name : ℕ → ℕ) (word : IsName m path n)
    (pointer : path ≢ 0) (fuel : n < rounds) where
  next_component-slash :
      m (path + n) ≡ 0x2f
      → next_component rounds m path name ≡ some (path + n + 1, component path n m name)
  unfolding next_component strchr
  next_component-slash slash =
      let found =
        strchr_loop-slash n rounds path m (λ i hi. (word.char i hi, word.plain i hi)) slash fuel in
      let there = ne→==-false (path + n) 0 (λ e. pointer (omega (arith, e))) in
      let len : path + n - path ≡ n = omega arith in
      let strchr_lem : strchr rounds path 0x2f m ≡ returns (path + n) m =
        rw (ne→==-false path 0 pointer) found in
      rw (next_component, strchr_lem, there, len) refl

  next_component-last :
      m (path + n) ≡ 0
      → next_component rounds m path name ≡ some (path + n, component path n m name)
  unfolding next_component strchr
  next_component-last end =
      let text : IsText m path n = record { char = word.char; end = end } in
      let none_found =
        strchr_loop-none n rounds path m (λ i hi. (word.char i hi, word.plain i hi)) end fuel in
      let len = strlen_lem n rounds path m text fuel (omega (arith, word.room)) in
      let strchr_lem : strchr rounds path 0x2f m ≡ returns 0 m =
        rw (ne→==-false path 0 pointer) none_found in
      rw (next_component, strchr_lem, len) refl

module _ (disk : Disk) (fat : FatData) (left : Leftovers) (rounds : ℕ) (m : Mem) where
  -- The path names the entry `e`, from a cluster and with `name` in the array: each of its `k` names is
  -- that of an entry that FAT32_FindEntry finds in the cluster, and the next one is looked for in the
  -- cluster that the bytes of that entry name.
  pub data Resolves : (path cluster : ℕ) (name : ℕ → ℕ) (e : DirectoryEntry) (k : ℕ) → Type 0 where
    last :
        {path cluster : ℕ} {name : ℕ → ℕ} {e : DirectoryEntry} (n : ℕ) (s : Scan)
        → IsName m path n
        → n < rounds
        → m (path + n) ≡ 0
        → fat32_find_entry disk fat left rounds cluster (component path n m name)
          ≡ returns (some e) s
        → ((i : ℕ) → e i < 256)
        → Resolves path cluster name e 1
    inner :
        {path cluster k : ℕ} {name : ℕ → ℕ} {e : DirectoryEntry} (n : ℕ) (s : Scan)
        (d : DirectoryEntry)
        → IsName m path n
        → n < rounds
        → m (path + n) ≡ 0x2f
        → fat32_find_entry disk fat left rounds cluster (component path n m name)
          ≡ returns (some d) s
        → ((i : ℕ) → d i < 256)
        → Resolves (path + n + 1) (cluster_of d) (component path n m name) e k
        → Resolves path cluster name e (suc k)

  pub Resolves-bytes :
      {path cluster k : ℕ} {name : ℕ → ℕ} {e : DirectoryEntry}
      → Resolves path cluster name e k
      → (i : ℕ) → e i < 256
  Resolves-bytes (last n s word fuel end found bytes) = bytes
  Resolves-bytes (inner n s d word fuel slash found bytes next) = Resolves-bytes next

  Resolves-starts :
      {path cluster k : ℕ} {name : ℕ → ℕ} {e : DirectoryEntry}
      → Resolves path cluster name e k
      → (m path ≢ 0) × (m path ≢ 0x2f)
  Resolves-starts (last n s word fuel end found bytes) = IsName-starts m _ n word
  Resolves-starts (inner n s d word fuel slash found bytes next) = IsName-starts m _ n word

  traverse_loop-ended :
      (fuel path cluster : ℕ) (name : ℕ → ℕ) (e : DirectoryEntry)
      → 0 < fuel
      → m path ≡ 0
      → traverse_loop disk fat left rounds fuel m path cluster name e ≡ returns (some e) tt
  unfolding traverse_loop
  traverse_loop-ended zero path cluster name e h end = absurd (omega (arith, h))
  traverse_loop-ended (suc fuel) path cluster name e h end = rw (traverse_loop, end) refl

  traverse_loop-Resolves :
      (fuel path cluster k : ℕ) (name : ℕ → ℕ) (e held : DirectoryEntry)
      → Resolves path cluster name e k
      → path ≢ 0
      → k < fuel
      → traverse_loop disk fat left rounds fuel m path cluster name held ≡ returns (some e) tt
  unfolding traverse_loop
  traverse_loop-Resolves zero path cluster k name e held r pointer h = absurd (omega (arith, h))
  traverse_loop-Resolves (suc fuel) path cluster k name e held
        (last n s word enough end found bytes) pointer h =
      let more = ne→==-false (m path) 0 (IsName-starts m path n word).0 in
      let step = next_component-last rounds m path n name word pointer enough end in
      rw (traverse_loop, more, step, found)
        (traverse_loop-ended fuel (path + n) _ _ e (omega (arith, h)) end)
  traverse_loop-Resolves (suc fuel) path cluster k name e held
        (inner {k = k'} n s d word enough slash found bytes next) pointer h =
      let more = ne→==-false (m path) 0 (IsName-starts m path n word).0 in
      let step = next_component-slash rounds m path n name word pointer enough slash in
      rw (traverse_loop, more, step, found, first_cluster_of-bytes d bytes)
        (traverse_loop-Resolves fuel (path + n + 1) (cluster_of d) k' (component path n m name) e d
          next (λ z. omega (arith, z)) (omega (arith, h)))

  -- FAT32_TraversePath passes over one slash at the start.
  abbrev pub behind_slash : ℕ → ℕ
  behind_slash path = if m path == 0x2f then path + 1 else path

  abbrev root : ℕ
  root = root_directory_cluster fat

  pub fat32_traverse_path-Resolves :
      (path k : ℕ) (e held : DirectoryEntry)
      → Resolves (behind_slash path) root left.held e k
      → path ≢ 0
      → k < rounds
      → fat32_traverse_path disk fat left rounds m path held ≡ returns (some e) tt
  unfolding fat32_traverse_path
  fat32_traverse_path-Resolves path k e held r pointer h = elim (Bool-cases (m path == 0x2f)) [
    | inl slash ↦
        let at_name =
          subst (λ b. Resolves (if b then path + 1 else path) root left.held e k) slash r in
        let more = ne→==-false (m (path + 1)) 0 (Resolves-starts at_name).0 in
        rw (slash, more)
          (traverse_loop-Resolves rounds (path + 1) root k left.held e held at_name
            (λ z. omega (arith, z)) h)
    | inr plain ↦
        let at_name =
          subst (λ b. Resolves (if b then path + 1 else path) root left.held e k) plain r in
        rw plain (traverse_loop-Resolves rounds path root k left.held e held at_name pointer h)
  ]
