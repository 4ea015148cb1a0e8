-- ===== src/Vfs/Entries/Cache.antt =====
-- Lookup: the cached entries are those of the file system.
use mathlib.Core.Path.{subst}
use cryptix_os.Boot.CommandLine.{String, same_string}
use cryptix_os.Vfs.Entries.{
  Kind, directory, regular, symlink, char_device, block_device, socket, fifo, InodeOps, Entry,
  Store, or_flags, kind_flags, bind, new_entry, cache, lookup,
}
use cryptix_os.Common.{
  ℕ, ◌+◌, ◌≤◌, ◌<◌, ◌≡◌, refl, sym, ap, ◌∙◌, ◌≢◌, ◌⊎◌, inl, inr, Bool, true, false, Option, none,
  some, [], ◌∷◌, arith, dec_lt, ℕ_discrete, if◌then◌else◌, Bool-cases, Option-cases,
}

-- The kinds whose entries have the bit of directories.
abbrev pub dir_bit : Kind → Bool
dir_bit directory = true
dir_bit symlink = true
dir_bit _ = false

-- A text that is found equal is equal.
pub same_string-eq : (s t : String) → same_string s t ≡ true → s ≡ t
unfolding same_string
same_string-eq [] [] h = refl
same_string-eq [] (d ∷ ds) h = absurd (cc)
same_string-eq (c ∷ cs) [] h = absurd (cc)
same_string-eq (c ∷ cs) (d ∷ ds) h = ground (arith, same_string-eq cs ds)

-- `U` is the nodes on whose entries nothing is mounted.
module _ {I : Type 0} (F : InodeOps I) (U : I → Type 0) where
  -- An entry of a node in `U`.
  abbrev pub Within : Store I → ℕ → Type 0
  Within s e = (e < s.count) × (i : I) × (((s.entry e).inode ≡ some i) × U i)

  -- The child `c` of `e` named `name` is what the file system has there.
  abbrev pub Coherent : Store I → ℕ → String → ℕ → Type 0
  Coherent s e name c =
      (c < s.count)
      × (i : I) × (j : I) × (((s.entry e).inode ≡ some i)
          × (F.find i name ≡ some j)
          × ((s.entry c).inode ≡ some j))

  -- Nothing is mounted on the entry, and its flag of directories is that of its node.
  abbrev pub Clean : Entry I → Type 0
  Clean x =
      (x.gate ≡ none)
      × (x.flags.mount ≡ false)
      × ((i : I) → x.inode ≡ some i → x.flags.bit1 ≡ dir_bit (F.kind i))

  -- The root of all is an entry, children are what the file system has, nothing is mounted on the
  -- entries of nodes in `U`, and their flag of directories is that of the node.
  pub record Faithful (s : Store I) : Type 0 where
    pub rooted : s.root < s.count
    pub coherent :
        (e : ℕ) (name : String) (c : ℕ)
        → e < s.count
        → (s.entry e).children name ≡ some c
        → Coherent s e name c
    pub clean : (e : ℕ) → Within s e → Clean (s.entry e)

  flags-dir_bit : (k : Kind) → (kind_flags k).bit1 ≡ dir_bit k
  unfolding kind_flags
  flags-dir_bit directory = refl
  flags-dir_bit regular = refl
  flags-dir_bit symlink = refl
  flags-dir_bit char_device = refl
  flags-dir_bit block_device = refl
  flags-dir_bit socket = refl
  flags-dir_bit fifo = refl

  flags-mount : (k : Kind) → (kind_flags k).mount ≡ false
  unfolding kind_flags
  flags-mount directory = refl
  flags-mount regular = refl
  flags-mount symlink = refl
  flags-mount char_device = refl
  flags-mount block_device = refl
  flags-mount socket = refl
  flags-mount fifo = refl

  new_entry-Clean : (e : ℕ) (name : String) (j : I) → Clean (new_entry F e name j)
  unfolding new_entry bind or_flags
  new_entry-Clean e name j = (
    refl,
    flags-mount (F.kind j),
    λ i p.
        let q : some j ≡ some i = p in
        let r : j ≡ i = cc in flags-dir_bit (F.kind j) ∙ ap (λ x. dir_bit (F.kind x)) r,
  )

  module _ (s : Store I) (e : ℕ) (name : String) (j : I) (below : e < s.count) where
    entry-cache_other : (k : ℕ) → k < s.count → k ≢ e → (cache F s e name j).entry k ≡ s.entry k
    unfolding cache
    entry-cache_other k h d = ground arith

    entry-cache_self : (cache F s e name j).entry e ≡ record (s.entry e) {
      children = λ k. if same_string k name then some s.count else (s.entry e).children k;
    }
    unfolding cache
    entry-cache_self = ground arith

    entry-cache_new : (cache F s e name j).entry s.count ≡ new_entry F e name j
    unfolding cache
    entry-cache_new = ground arith

    -- Adding an entry leaves the nodes of the others.
    inode-cache : (k : ℕ) → k < s.count → ((cache F s e name j).entry k).inode ≡ (s.entry k).inode
    inode-cache k h = elim (ℕ_discrete k e) [
      | yes same ↦ rw (same, entry-cache_self) refl
      | no other ↦ rw (entry-cache_other k h other) refl
    ]

    inode-cache_new : ((cache F s e name j).entry s.count).inode ≡ some j
    unfolding new_entry
    inode-cache_new = ap (λ x. Entry.inode x) entry-cache_new

    -- An entry after the addition is `e`, another one from before, or the new one.
    below-cases : (k : ℕ) → k < s.count + 1 → (k ≡ e) ⊎ ((k ≢ e) × (k < s.count)) ⊎ (k ≡ s.count)
    below-cases k h = elim (ℕ_discrete k e) [
      | yes same ↦ inl same
      | no other ↦ elim (dec_lt k s.count) [
        | yes l ↦ inr (inl (other, l))
        | no g ↦ inr (inr (omega arith))
      ]
    ]

    lift-Coherent :
        (k : ℕ) (n : String) (c : ℕ)
        → k < s.count
        → Coherent s k n c
        → Coherent (cache F s e name j) k n c
    unfolding cache
    lift-Coherent k n c h (l, i, a, (p, q, r)) =
        (omega arith, i, a, (inode-cache k h ∙ p, q, inode-cache c l ∙ r))

    module _ (f : Faithful s) (i : I) (node : (s.entry e).inode ≡ some i)
        (found : F.find i name ≡ some j) where
      new-Coherent : Coherent (cache F s e name j) e name s.count
      unfolding cache
      new-Coherent = (omega arith, i, j, (inode-cache e below ∙ node, found, inode-cache_new))

      self-Coherent :
          (n : String) (c : ℕ)
          → ((cache F s e name j).entry e).children n ≡ some c
          → Coherent (cache F s e name j) e n c
      self-Coherent n c p =
          let q : (if same_string n name then some s.count else (s.entry e).children n) ≡ some c =
            sym (ap (λ x. Entry.children x n) entry-cache_self) ∙ p in
          elim (Bool-cases (same_string n name)) [
            | inl same ↦
                let here_ : s.count ≡ c = ground (arith, same, q) in
                subst (λ x. Coherent (cache F s e name j) e n x) here_
                  (subst (λ x. Coherent (cache F s e name j) e x s.count)
                    (sym (same_string-eq n name same)) new-Coherent)
            | inr other ↦
                lift-Coherent e n c below (f.coherent e n c below (ground (arith, other, q)))
          ]

      cache-Coherent :
          (k : ℕ) (n : String) (c : ℕ)
          → k < s.count + 1
          → ((cache F s e name j).entry k).children n ≡ some c
          → Coherent (cache F s e name j) k n c
      unfolding new_entry
      cache-Coherent k n c h p = elim (below-cases k h) [
        | inl same ↦
            subst (λ x. Coherent (cache F s e name j) x n c) (sym same)
              (self-Coherent n c
                (ap (λ x. ((cache F s e name j).entry x).children n) (sym same) ∙ p))
        | inr (inl (other, l)) ↦ lift-Coherent k n c l (
            f.coherent k n c l
              (sym (ap (λ x. Entry.children x n) (entry-cache_other k l other)) ∙ p))
        | inr (inr new) ↦
            let q : none ≡ some c =
              sym (
                ap (λ x. Entry.children x n)
                  (ap (λ m. (cache F s e name j).entry m) new ∙ entry-cache_new))
              ∙ p in
            absurd (cc)
      ]

      cache-Faithful : Faithful (cache F s e name j)
      unfolding cache
      cache-Faithful = record {
        rooted = let r = f.rooted in omega arith;
        coherent = cache-Coherent;
        clean = λ k (h, x, (p, u)). elim (below-cases k h) [
          | inl same ↦
              subst Clean (sym (ap (λ m. (cache F s e name j).entry m) same ∙ entry-cache_self)) (
                f.clean e (
                  below,
                  x,
                  (
                    sym (inode-cache e below)
                        ∙ ap (λ m. ((cache F s e name j).entry m).inode) (sym same)
                        ∙ p,
                    u,
                  ),
                ))
          | inr (inl (other, l)) ↦
              subst Clean (sym (entry-cache_other k l other))
                (f.clean k (l, x, (sym (inode-cache k l) ∙ p, u)))
          | inr (inr new) ↦
              subst Clean (sym (ap (λ m. (cache F s e name j).entry m) new ∙ entry-cache_new))
                (new_entry-Clean e name j)
        ];
      }

  -- A lookup below an entry with the node `i` finds what the file system has there: an entry of the
  -- node, or none. It keeps the cache faithful, the entries and their nodes.
  pub record LookedUp (s : Store I) (i : I) (name : String) (found : Option ℕ) (s' : Store I)
      : Type 0 where
    pub faithful : Faithful s'
    pub grows : s.count ≤ s'.count
    pub same_root : s'.root ≡ s.root
    pub same_nodes : (k : ℕ) → k < s.count → (s'.entry k).inode ≡ (s.entry k).inode
    pub missing : F.find i name ≡ none → found ≡ none
    pub present :
        (j : I)
        → F.find i name ≡ some j
        → (c : ℕ) × ((found ≡ some c) × (c < s'.count) × ((s'.entry c).inode ≡ some j))

  pub lookup-LookedUp :
      (s : Store I) (e : ℕ) (i : I) (name : String)
      → Faithful s
      → e < s.count
      → (s.entry e).inode ≡ some i
      → LookedUp s i name (lookup F s e name).0 (lookup F s e name).1
  unfolding lookup
  lookup-LookedUp s e i name f below node = elim (Option-cases ((s.entry e).children name)) [
    | inr (c, cached) ↦
        let (l, a, j, (p, q, r)) = f.coherent e name c below cached in
        let same : a ≡ i = cc in
        rw (cached, lookup)
          (record {
            faithful = f;
            grows = omega arith;
            same_root = refl;
            same_nodes = λ k h. refl;
            missing = λ m. absurd (cc);
            present = λ j' m. (c, (refl, l, cc));
          })
    | inl fresh ↦ elim (Option-cases (F.find i name)) [
      | inl gone ↦
          rw (fresh, node, gone, lookup)
            (record {
              faithful = f;
              grows = omega arith;
              same_root = refl;
              same_nodes = λ k h. refl;
              missing = λ m. refl;
              present = λ j' m. absurd (cc);
            })
      | inr (j, found) ↦
          rw (fresh, node, found, lookup)
            (record {
              faithful = cache-Faithful s e name j below f i node found;
              grows = unfold cache in omega arith;
              same_root = unfold cache in refl;
              same_nodes = inode-cache s e name j below;
              missing = λ m. absurd (cc);
              present = λ j' m.
                  let same : j ≡ j' = cc in
                  (
                    s.count,
                    (
                      refl,
                      unfold cache in omega arith,
                      inode-cache_new s e name j below ∙ ap some same,
                    ),
                  );
            })
    ]
  ]
