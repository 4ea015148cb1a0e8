-- ===== src/Vfs/Directories/Removal.antt =====
-- RmDir, after CreateDirectory.
use cryptix_os.Boot.CommandLine.{String}
use cryptix_os.Vfs.SynthFs.{is_directory_mode, directory_entry_size}
use cryptix_os.Vfs.Directories.{
  Node, TmpFs, find_child, erase_child, set_node, with_type, directory_type, has_group_bit,
  set_group_bit, new_node, free_inode, created, grown, with_links, create_directory, is_unlinked,
  erase_at, drop_name, unlink, has_children, rmdir,
}
use cryptix_os.Vfs.Directories.Laws.{
  find-assign_self, erase-assign, is_full, after_create, create_node-room, apart-next, node-parent,
  node-new, node-others,
}
use cryptix_os.Common.{
  ℕ, ◌+◌, ◌<◌, ◌≡◌, refl, sym, ap, ◌∙◌, ◌≢◌, inl, inr, true, false, ◌&&◌, Option, none, some, arith,
  ℕ_discrete, Bool-cases, u64_mod, add64, sub64, sub64-add64, Outcome, ok,
}

module _ (t : TmpFs) (d : ℕ) (y : Node) (there : t.node d ≡ some y) where
  pub with_links_lem :
      (change : ℕ → ℕ)
      → with_links t d change ≡ set_node t d (some (record y { link_count = change y.link_count }))
  with_links_lem change = rw (there, with_links) refl

  unlink_lem :
      (name : String) (i j : ℕ)
      → find_child y.children name ≡ some j
      → unlink t d name i ≡ drop_name t d y name i
  unfolding unlink
  unlink_lem name i j listed = rw (there, unlink) (rw listed refl)

  erase_at_lem :
      (name : String)
      → erase_at t d name
        ≡ set_node t d (some (record y { children = erase_child y.children name }))
  unfolding erase_at
  erase_at_lem name = rw (there, erase_at) refl

pub node-set_node_self : (t : TmpFs) (d : ℕ) (x : Option Node) → (set_node t d x).node d ≡ x
node-set_node_self t d x = ground arith

pub node-set_node_other :
    (t : TmpFs) (d e : ℕ) (x : Option Node) → e ≢ d → (set_node t d x).node e ≡ t.node e
node-set_node_other t d e x h = ground arith

-- An empty directory `i` without links from below, under `name` in the directory `d`.
module _ (t : TmpFs) (d i : ℕ) (y z : Node) (name : String) (apart : i ≢ d)
    (there : t.node d ≡ some y) (found : t.node i ≡ some z)
    (listed : find_child y.children name ≡ some i) (dir : is_directory_mode z.mode ≡ true)
    (links : z.link_count ≡ 2) where
  -- The directory after RmDir.
  abbrev lessened : Node
  lessened = record y {
    link_count = sub64 y.link_count 1;
    metadata_size = sub64 y.metadata_size directory_entry_size;
    children = erase_child y.children name;
  }

  -- The file system while RmDir runs: with fewer links, with a smaller directory, with fewer links
  -- of the removed one, without the name.
  abbrev unlinked : TmpFs
  unlinked = set_node t d (some (record y { link_count = sub64 y.link_count 1 }))

  abbrev shrunk : TmpFs
  shrunk = set_node unlinked d (
      some (record y {
        link_count = sub64 y.link_count 1;
        metadata_size = sub64 y.metadata_size directory_entry_size;
      }))

  abbrev dropped : TmpFs
  dropped = set_node shrunk i (some (record z { link_count = 1 }))

  abbrev removed : TmpFs
  removed = free_inode (set_node dropped d (some lessened)) i

  shrunk-node : shrunk.node i ≡ some z
  shrunk-node = ground (arith, apart)

  dropped-node :
      dropped.node d
      ≡ some (record y {
        link_count = sub64 y.link_count 1;
        metadata_size = sub64 y.metadata_size directory_entry_size;
      })
  dropped-node = ground (arith, apart)

  drop_name-empty :
      drop_name unlinked d (record y { link_count = sub64 y.link_count 1 }) name i
      ≡ (ok tt, removed)
  unfolding drop_name is_unlinked sub64
  drop_name-empty =
      rw (shrunk-node, drop_name)
        (rw (links, dir)
          (ap (λ u. (ok tt, free_inode u i))
            (erase_at_lem dropped d
              (record y {
                link_count = sub64 y.link_count 1;
                metadata_size = sub64 y.metadata_size directory_entry_size;
              })
              dropped-node name)))

  rmdir-empty : has_children z ≡ false → rmdir t d name i ≡ (ok tt, removed)
  unfolding rmdir
  rmdir-empty bare =
      rw (found, rmdir)
        (rw bare (
          ap (λ u. unlink u d name i) (with_links_lem t d y there (λ n. sub64 n 1))
          ∙ unlink_lem unlinked d (record y { link_count = sub64 y.link_count 1 })
              (node-set_node_self t d (some (record y { link_count = sub64 y.link_count 1 }))) name
              i i listed
          ∙ drop_name-empty))

  removed_self : removed.node d ≡ some lessened
  unfolding free_inode
  removed_self = ground (arith, apart)

  removed-gone : removed.node i ≡ none
  unfolding free_inode
  removed-gone = ground arith

  removed-others : (e : ℕ) → e ≢ d → e ≢ i → removed.node e ≡ t.node e
  unfolding free_inode
  removed-others e h k = ground arith

directory-with_type : (mode : ℕ) → is_directory_mode (with_type mode directory_type) ≡ true
unfolding with_type
directory-with_type mode = ground arith

directory-set_group_bit :
    (mode : ℕ) → is_directory_mode mode ≡ true → is_directory_mode (set_group_bit mode) ≡ true
unfolding set_group_bit has_group_bit
directory-set_group_bit mode h = ground arith

-- The node that CreateDirectory makes.
module _ (parent_mode mode : ℕ) where
  made_mode : is_directory_mode (created parent_mode (with_type mode directory_type) 0).mode ≡ true
  unfolding created
  made_mode =
      elim (Bool-cases
        (has_group_bit parent_mode && is_directory_mode (with_type mode directory_type))) [
          | inl both ↦ rw both (directory-set_group_bit _ (directory-with_type mode))
          | inr other ↦ rw other (directory-with_type mode)
        ]

  made_links : (created parent_mode (with_type mode directory_type) 0).link_count ≡ 2
  unfolding created new_node
  made_links = rw (directory-with_type mode) refl

  made_bare : has_children (created parent_mode (with_type mode directory_type) 0) ≡ false
  unfolding created new_node has_children
  made_bare = refl

module _ (fs : TmpFs) (d : ℕ) (x : Node) (name : String) (mode : ℕ) (here_ : fs.node d ≡ some x)
    (unused : fs.node fs.next_index ≡ none) (fresh : find_child x.children name ≡ none)
    (room : is_full fs ≡ false) where
  -- The directory with its new child, and the file system then.
  abbrev parent : Node
  parent = record (grown x name fs.next_index) { link_count = add64 x.link_count 1 }

  abbrev child : Node
  child = created x.mode (with_type mode directory_type) 0

  abbrev with_child : TmpFs
  with_child = set_node (after_create fs d x name (with_type mode directory_type) 0) d (some parent)

  create_directory_lem : create_directory fs d name mode ≡ (ok fs.next_index, with_child)
  unfolding create_directory grown
  create_directory_lem =
      rw
        (
          create_node-room fs d x name (with_type mode directory_type) 0 here_ fresh room,
          create_directory,
        )
        (ap (λ (r : Outcome ℕ × TmpFs). (ok fs.next_index, with_links r.1 d (λ n. add64 n 1)))
            (create_node-room fs d x name (with_type mode directory_type) 0 here_ fresh room)
          ∙ ap (λ u. (ok fs.next_index, u))
              (with_links_lem (after_create fs d x name (with_type mode directory_type) 0) d
                (grown x name fs.next_index)
                (node-parent fs d x name (with_type mode directory_type) 0 here_ unused)
                (λ n. add64 n 1)))

  lessened-parent :
      x.metadata_size < u64_mod
      → x.link_count < u64_mod
      → record parent {
        link_count = sub64 parent.link_count 1;
        metadata_size = sub64 parent.metadata_size directory_entry_size;
        children = erase_child parent.children name;
      }
        ≡ x
  unfolding grown
  lessened-parent size links =
      let a = sub64-add64 x.metadata_size directory_entry_size size in
      let b = sub64-add64 x.link_count 1 links in
      let c = erase-assign x.children name fs.next_index fresh in rw (a, b, c) refl

  listed-parent : find_child parent.children name ≡ some fs.next_index
  unfolding grown
  listed-parent = find-assign_self x.children name fs.next_index

  -- The file system between the two calls, and its nodes.
  abbrev before : TmpFs
  before = after_create fs d x name (with_type mode directory_type) 0

  next-apart : fs.next_index ≢ d
  next-apart = apart-next fs d x name (with_type mode directory_type) 0 here_ unused

  parent-node : with_child.node d ≡ some parent
  parent-node = node-set_node_self before d (some parent)

  child-node : with_child.node fs.next_index ≡ some child
  child-node =
      node-set_node_other before d fs.next_index (some parent) next-apart
      ∙ node-new fs d x name (with_type mode directory_type) 0 here_ unused

  abbrev gone : TmpFs
  gone =
      removed with_child d fs.next_index parent child name next-apart parent-node child-node
        listed-parent (made_mode x.mode mode) (made_links x.mode mode)

  rmdir-with_child : rmdir with_child d name fs.next_index ≡ (ok tt, gone)
  rmdir-with_child =
      rmdir-empty with_child d fs.next_index parent child name next-apart parent-node child-node
        listed-parent (made_mode x.mode mode) (made_links x.mode mode) (made_bare x.mode mode)

  gone-node : x.metadata_size < u64_mod → x.link_count < u64_mod → (e : ℕ) → gone.node e ≡ fs.node e
  gone-node size links e = elim (ℕ_discrete e d) [
    | yes own ↦
        ap gone.node own
        ∙ removed_self with_child d fs.next_index parent child name next-apart parent-node
            child-node listed-parent (made_mode x.mode mode) (made_links x.mode mode)
        ∙ ap some (lessened-parent size links)
        ∙ sym here_
        ∙ ap fs.node (sym own)
    | no other ↦ elim (ℕ_discrete e fs.next_index) [
      | yes new ↦
          ap gone.node new
          ∙ removed-gone with_child d fs.next_index parent child name next-apart parent-node
              child-node listed-parent (made_mode x.mode mode) (made_links x.mode mode)
          ∙ sym unused
          ∙ ap fs.node (sym new)
      | no old ↦
          removed-others with_child d fs.next_index parent child name next-apart parent-node
            child-node listed-parent (made_mode x.mode mode) (made_links x.mode mode) e other old
          ∙ node-set_node_other before d e (some parent) other
          ∙ node-others fs d x name (with_type mode directory_type) 0 here_ unused e other old
    ]
  ]

  gone-free_count : gone.free_count ≡ fs.free_count
  unfolding free_inode
  gone-free_count = ground (arith, room)

  -- CreateDirectory of a new name, where there is room and the next number is no node's, succeeds,
  -- and RmDir of that name then succeeds too: every node is what it was before both, and so is the
  -- count of free nodes; only the next number has gone on. (The size and the link count of the
  -- directory are 64-bit words.)
  pub rmdir-create_directory :
      x.metadata_size < u64_mod
      → x.link_count < u64_mod
      → (t : TmpFs) × (u : TmpFs) × ((create_directory fs d name mode ≡ (ok fs.next_index, t))
          × (rmdir t d name fs.next_index ≡ (ok tt, u))
          × ((e : ℕ) → u.node e ≡ fs.node e)
          × (u.free_count ≡ fs.free_count)
          × (u.next_index ≡ fs.next_index + 1))
  unfolding free_inode
  rmdir-create_directory size links = (
    with_child,
    gone,
    (create_directory_lem, rmdir-with_child, gone-node size links, gone-free_count, refl),
  )
