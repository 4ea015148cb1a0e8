-- ===== src/Vfs/Directories/Links.antt =====
-- Link and Unlink.
use cryptix_os.Boot.CommandLine.{String}
use cryptix_os.Vfs.SynthFs.{is_directory_mode, directory_entry_size}
use cryptix_os.Vfs.Directories.{Node, TmpFs, find_child, set_node, lookup, link, unlink}
use cryptix_os.Vfs.Directories.Removal.{with_links_lem, node-set_node_self, node-set_node_other}
use cryptix_os.Common.{
  ℕ, ◌≡◌, refl, sym, ap, ◌∙◌, ◌≢◌, false, none, some, arith, ℕ_discrete, add64, ok,
}

-- A directory with other sizes and links has the same names.
lookup-same_children :
    (fs t : TmpFs) (e : ℕ) (a b : Node) (name : String)
    → fs.node e ≡ some a
    → t.node e ≡ some b
    → b.children ≡ a.children
    → lookup t e name ≡ lookup fs e name
unfolding lookup
lookup-same_children fs t e a b name p q r = rw (p, q, lookup) (rw r refl)

lookup-same_node :
    (fs t : TmpFs) (e : ℕ) (name : String)
    → t.node e ≡ fs.node e
    → lookup t e name ≡ lookup fs e name
unfolding lookup
lookup-same_node fs t e name p = rw (p, lookup) refl

module _ (fs : TmpFs) (d i : ℕ) (x y : Node) (apart : i ≢ d) (file : fs.node i ≡ some x)
    (plain : is_directory_mode x.mode ≡ false) (here_ : fs.node d ≡ some y) where
  -- The directory, the file and the file system after Link.
  abbrev larger : Node
  larger = record y { metadata_size = add64 y.metadata_size directory_entry_size }

  abbrev linked : Node
  linked = record x { link_count = add64 x.link_count 1 }

  abbrev after_link : TmpFs
  after_link = set_node (set_node fs d (some larger)) i (some linked)

  link-ok : link fs d i ≡ (ok i, after_link)
  unfolding link
  link-ok =
      rw (file, link)
        (rw (plain, here_)
          (ap (λ t. (ok i, t))
            (with_links_lem (set_node fs d (some larger)) i x
              (node-set_node_other fs d i (some larger) apart ∙ file) (λ n. add64 n 1))))

  node-after_link : after_link.node d ≡ some larger
  node-after_link = ground (arith, apart)

  lookup-after_link : (e : ℕ) (name : String) → lookup after_link e name ≡ lookup fs e name
  lookup-after_link e name = elim (ℕ_discrete e d) [
    | yes own ↦
        ap (λ k. lookup after_link k name) own
        ∙ lookup-same_children fs after_link d y larger name here_ node-after_link refl
        ∙ ap (λ k. lookup fs k name) (sym own)
    | no other ↦ elim (ℕ_discrete e i) [
      | yes target ↦
          ap (λ k. lookup after_link k name) target
          ∙ lookup-same_children fs after_link i x linked name file
              (node-set_node_self (set_node fs d (some larger)) i (some linked)) refl
          ∙ ap (λ k. lookup fs k name) (sym target)
      | no else_ ↦ lookup-same_node fs after_link e name (
          node-set_node_other (set_node fs d (some larger)) i e (some linked) else_
          ∙ node-set_node_other fs d e (some larger) other)
    ]
  ]

  unlink-after_link :
      (name : String)
      → find_child y.children name ≡ none
      → unlink after_link d name i ≡ (ok tt, after_link)
  unfolding unlink
  unlink-after_link name fresh = rw (node-after_link, unlink) (rw fresh refl)

  -- Link of a file into another node, a directory, succeeds and raises the count of its links, but
  -- no directory gets a name: every Lookup answers what it answered before. Unlink of a name that
  -- was not there before, such as the new one, then succeeds and changes nothing, so the count
  -- stays raised.
  pub unlink-link :
      (t : TmpFs) × ((link fs d i ≡ (ok i, t))
        × (t.node i ≡ some linked)
        × ((e : ℕ) (name : String) → lookup t e name ≡ lookup fs e name)
        × ((name : String) → find_child y.children name ≡ none → unlink t d name i ≡ (ok tt, t)))
  unlink-link = (
    after_link,
    (
      link-ok,
      node-set_node_self (set_node fs d (some larger)) i (some linked),
      lookup-after_link,
      unlink-after_link,
    ),
  )
