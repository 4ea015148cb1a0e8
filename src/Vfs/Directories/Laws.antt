-- ===== src/Vfs/Directories/Laws.antt =====
-- CreateNode, CreateDirectory and RmDir.
use cryptix_os.Boot.CommandLine.{String, same_string}
use cryptix_os.Vfs.Entries.Cache.{same_string-eq}
use cryptix_os.Vfs.Directories.{
  Node, TmpFs, find_child, assign_child, erase_child, set_node, new_node, allocate_node, lookup,
  created, grown, create_node,
}
use cryptix_os.Common.{
  ℕ, ◌+◌, ◌-◌, ◌≡◌, refl, sym, ap, ◌∙◌, ◌≢◌, inl, inr, Bool, true, false, ◌||◌, none, some, List,
  [], ◌∷◌, arith, leb, ◌==◌, if◌then◌else◌, Bool-cases, Option-cases, eexist, enospc, Outcome, ok,
  err,
}

same_string_refl : (s : String) → same_string s s ≡ true
unfolding same_string
same_string_refl [] = refl
same_string_refl (c ∷ cs) = ground (arith, same_string_refl cs)

pub find-assign_self :
    (es : List (String × ℕ)) (name : String) (i : ℕ)
    → find_child (assign_child es name i) name ≡ some i
unfolding find_child assign_child
find-assign_self [] name i = rw (same_string_refl name) refl
find-assign_self ((k, j) ∷ es) name i = elim (Bool-cases (same_string k name)) [
  | inl same ↦ rw (same, assign_child) (rw same refl)
  | inr other ↦ rw (other, assign_child) (rw other (find-assign_self es name i))
]

find-assign_other :
    (es : List (String × ℕ)) (name other : String) (i : ℕ)
    → same_string name other ≡ false
    → find_child (assign_child es name i) other ≡ find_child es other
unfolding find_child assign_child
find-assign_other [] name other i h = rw h refl
find-assign_other ((k, j) ∷ es) name other i h = elim (Bool-cases (same_string k name)) [
  | inl same ↦
      let q : same_string k other ≡ false =
        ap (λ x. same_string x other) (same_string-eq k name same) ∙ h in
      rw (same, assign_child) (rw q refl)
  | inr apart ↦
      rw (apart, assign_child)
        (ap (λ x. if same_string k other then some j else x) (find-assign_other es name other i h))
]

pub erase-assign :
    (es : List (String × ℕ)) (name : String) (i : ℕ)
    → find_child es name ≡ none
    → erase_child (assign_child es name i) name ≡ es
unfolding find_child assign_child erase_child
erase-assign [] name i h = rw (same_string_refl name) refl
erase-assign ((k, j) ∷ es) name i h = elim (Bool-cases (same_string k name)) [
  | inl same ↦
      let q : some j ≡ none = sym (ap (λ b. if b then some j else find_child es name) same) ∙ h in
      absurd (cc)
  | inr other ↦
      let q : find_child es name ≡ none =
        sym (ap (λ b. if b then some j else find_child es name) other) ∙ h in
      rw (other, assign_child) (rw other (ap (λ t. (k, j) ∷ t) (erase-assign es name i q)))
]

-- No room for a node.
abbrev pub is_full : TmpFs → Bool
is_full fs = leb fs.max_count fs.next_index || fs.free_count == 0

-- The file system after CreateNode.
abbrev pub after_create : TmpFs → ℕ → Node → String → ℕ → ℕ → TmpFs
after_create fs d x name mode device =
    set_node
      (set_node
        (record (set_node fs fs.next_index (some (new_node mode))) {
          next_index = fs.next_index + 1;
          free_count = fs.free_count - 1;
        })
        fs.next_index (some (created x.mode mode device)))
      d (some (grown x name fs.next_index))

module _ (fs : TmpFs) (d : ℕ) (x : Node) (name : String) (mode device : ℕ)
    (here_ : fs.node d ≡ some x) where
  create_node-exists :
      (i : ℕ)
      → find_child x.children name ≡ some i
      → create_node fs d name mode device ≡ (err eexist, fs)
  unfolding create_node
  create_node-exists i found = rw (here_, create_node) (rw found refl)

  create_node-full :
      find_child x.children name ≡ none
      → is_full fs ≡ true
      → create_node fs d name mode device ≡ (err enospc, fs)
  unfolding create_node allocate_node
  create_node-full fresh full =
      rw (here_, create_node) (rw fresh (rw full (rw (full, allocate_node) refl)))

  pub create_node-room :
      find_child x.children name ≡ none
      → is_full fs ≡ false
      → create_node fs d name mode device ≡ (ok fs.next_index, after_create fs d x name mode device)
  unfolding create_node allocate_node
  create_node-room fresh room =
      rw (here_, create_node) (rw fresh (rw room (rw (room, allocate_node) refl)))

  -- What a CreateNode that succeeds leaves, when the next number is no node's.
  module _ (unused : fs.node fs.next_index ≡ none) where
    pub apart-next : fs.next_index ≢ d
    apart-next e = let q : none ≡ some x = sym unused ∙ ap fs.node e ∙ here_ in absurd (cc)

    pub node-parent :
        (after_create fs d x name mode device).node d ≡ some (grown x name fs.next_index)
    node-parent = ground arith

    pub node-new :
        (after_create fs d x name mode device).node fs.next_index
        ≡ some (created x.mode mode device)
    node-new = ground (arith, apart-next)

    pub node-others :
        (e : ℕ)
        → e ≢ d
        → e ≢ fs.next_index
        → (after_create fs d x name mode device).node e ≡ fs.node e
    node-others e h k = ground arith

    lookup-new : lookup (after_create fs d x name mode device) d name ≡ ok fs.next_index
    unfolding lookup grown
    lookup-new = rw (node-parent, lookup) (rw (find-assign_self x.children name fs.next_index) refl)

    lookup-old :
        (other : String)
        → same_string name other ≡ false
        → lookup (after_create fs d x name mode device) d other ≡ lookup fs d other
    unfolding lookup grown
    lookup-old other h =
        rw (node-parent, here_, lookup)
          (rw (find-assign_other x.children name other fs.next_index h) refl)

  -- What CreateNode with the result `answer` and the file system `t` behind it has done.
  pub data Created (answer : Outcome ℕ) (t : TmpFs) : Type 0 where
    exists :
        (i : ℕ)
        → find_child x.children name ≡ some i
        → answer ≡ err eexist
        → t ≡ fs
        → Created answer t
    full :
        find_child x.children name ≡ none
        → is_full fs ≡ true
        → answer ≡ err enospc
        → t ≡ fs
        → Created answer t
    made :
        find_child x.children name ≡ none
        → is_full fs ≡ false
        → answer ≡ ok fs.next_index
        → t.node fs.next_index ≡ some (created x.mode mode device)
        → lookup t d name ≡ ok fs.next_index
        → ((other : String) → same_string name other ≡ false → lookup t d other ≡ lookup fs d other)
        → ((e : ℕ) → e ≢ d → e ≢ fs.next_index → t.node e ≡ fs.node e)
        → Created answer t

  -- CreateNode in a directory, where the next number is no node's: it answers EEXIST for a name
  -- that is there, else ENOSPC when the numbers or the nodes have run out, and then changes
  -- nothing. Otherwise it answers the next number, Lookup finds the new node under the name, and
  -- all other names and nodes are what they were.
  pub create_node-Created :
      fs.node fs.next_index ≡ none
      → Created (create_node fs d name mode device).0 (create_node fs d name mode device).1
  create_node-Created unused = elim (Option-cases (find_child x.children name)) [
    | inr (i, found) ↦
        let e = create_node-exists i found in exists i found (ap (λ r. r.0) e) (ap (λ r. r.1) e)
    | inl fresh ↦ elim (Bool-cases (is_full fs)) [
      | inl crowded ↦
          let e = create_node-full fresh crowded in
          full fresh crowded (ap (λ r. r.0) e) (ap (λ r. r.1) e)
      | inr room ↦ rw (create_node-room fresh room) (
          made fresh room refl (node-new unused) (lookup-new unused) (lookup-old unused)
            (node-others unused))
    ]
  ]
