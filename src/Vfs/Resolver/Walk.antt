-- ===== src/Vfs/Resolver/Walk.antt =====
-- Resolve and ResolvePath on paths of plain names that lead through no mount but that of the root.
use cryptix_os.Boot.CommandLine.{String, same_string}
use cryptix_os.Vfs.Entries.{
  Run, done, ◌>>=◌, bind-done, InodeOps, Store, is_mount_point, is_directory, follow_mounts,
  root_entry, is_symlink, is_symlink_kind, lookup,
}
use cryptix_os.Vfs.Entries.Cache.{Within, Faithful, dir_bit, LookedUp, lookup-LookedUp}
use cryptix_os.Vfs.Resolver.{
  PathOps, name_segment, segment_type, initialized, finished, terminated, is_finished,
  is_terminated, is_initialized, Resolver, Resolution, slash, ends_in_slash, is_empty, none_left,
  Answer, terminate, pass_mounts, follow_entry, Resolve, enter, step_down, step_found, step,
  after_step, conclude, exists_below, after_loop, segments, resolve, begin, initialize, start_of,
  chase, plain_flags, settle, resolve_with, resolve_path,
}
use cryptix_os.Common.{
  ℕ, suc, ◌≤◌, ◌<◌, ◌≡◌, refl, sym, ap, ◌∙◌, inl, inr, Bool, true, false, not, ◌&&◌, Option, none,
  some, List, [], ◌∷◌, arith, ◌==◌, if◌then◌else◌, Bool-cases, Option-cases, enoent, enotdir,
  Outcome, ok, err, panic,
}

-- `U` is the nodes on whose entries nothing is mounted.
module _ {I : Type 0} (F : InodeOps I) (U : I → Type 0) where
  -- The walk in the file system itself, from the node `i`: every name but the last must be that of
  -- a directory, and so must the last if a slash ends the path.
  pub walk : Bool → I → List String → Outcome I
  walk trailing i [] = ok i
  walk trailing i (name ∷ []) = elim (F.find i name) [
    | none ↦ err enoent
    | some j ↦ if trailing && not (dir_bit (F.kind j)) then err enoent else ok j
  ]
  walk trailing i (name ∷ next ∷ names) = elim (F.find i name) [
    | none ↦ err enoent
    | some j ↦ elim (dir_bit (F.kind j)) [
      | true ↦ walk trailing j (next ∷ names)
      | false ↦ err enotdir
    ]
  ]

  -- No name is "." or "..", no node before the last is a symbolic link, and all nodes are in `U`.
  unfoldable pub Plain : I → List String → Type 0
  Plain i [] = Unit {0}
  Plain i (name ∷ []) =
      (segment_type name ≡ name_segment) × ((j : I) → F.find i name ≡ some j → U j)
  Plain i (name ∷ next ∷ names) =
      (segment_type name ≡ name_segment)
      × ((j : I)
          → F.find i name ≡ some j
          → (is_symlink_kind (F.kind j) ≡ false) × U j × Plain j (next ∷ names))

  -- The answer, and the entry of the resolver, are what the walk finds.
  pub Matches : Outcome I → Answer I → Type 0
  Matches (ok j) (o, r) =
      (c : ℕ) × ((o ≡ ok (some c))
        × (r.entry ≡ some c)
        × (c < r.store.count)
        × ((r.store.entry c).inode ≡ some j))
  Matches (err x) (o, r) = (o ≡ err x) × (r.entry ≡ none)
  Matches panic (o, r) = ⊥

  -- The entry `found` is what the walk finds.
  pub Agrees : Outcome I → Option ℕ → Store I → Type 0
  Agrees (ok j) found s =
      (c : ℕ) × ((found ≡ some c) × (c < s.count) × ((s.entry c).inode ≡ some j))
  Agrees (err _) found s = found ≡ none
  Agrees panic found s = ⊥

  -- The cache is faithful and has the entries of `s` with their nodes.
  pub record Extends (s s' : Store I) : Type 0 where
    pub faithful : Faithful F U s'
    pub grows : s.count ≤ s'.count
    pub same_root : s'.root ≡ s.root
    pub same_nodes : (k : ℕ) → k < s.count → (s'.entry k).inode ≡ (s.entry k).inode

  -- A resolution that starts with the store `s` comes back with what the walk finds.
  Meets : Store I → Outcome I → Run (Answer I) → Type 0
  Meets s w m = (a : Answer I) × ((m ≡ done a) × Extends s a.1.store × Matches w a)

  Extends-trans : {s t u : Store I} → Extends s t → Extends t u → Extends s u
  Extends-trans a b = record {
    faithful = b.faithful;
    grows = let x = a.grows in let y = b.grows in omega arith;
    same_root = b.same_root ∙ a.same_root;
    same_nodes = λ k h. b.same_nodes k (let x = a.grows in omega arith) ∙ a.same_nodes k h;
  }

  LookedUp-Extends :
      {s : Store I} {i : I} {name : String} {found : Option ℕ} {t : Store I}
      → LookedUp F U s i name found t
      → Extends s t
  LookedUp-Extends l = record {
    faithful = l.faithful;
    grows = l.grows;
    same_root = l.same_root;
    same_nodes = l.same_nodes;
  }

  pub is_directory-Faithful :
      {s : Store I} (c : ℕ) {j : I}
      → Faithful F U s
      → Within F U s c
      → (s.entry c).inode ≡ some j
      → is_directory s c ≡ dir_bit (F.kind j)
  unfolding is_directory
  is_directory-Faithful c {j} f h node = (f.clean c h).2 j node

  -- Where nothing is mounted on it, an entry is passed as it is.
  follow_mounts-Faithful :
      (fuel : ℕ) (s : Store I) (e : ℕ)
      → Faithful F U s
      → Within F U s e
      → follow_mounts (suc fuel) s e ≡ done e
  unfolding follow_mounts
  follow_mounts-Faithful fuel s e f h = rw ((f.clean e h).0, follow_mounts) refl

  pass_mounts-Faithful :
      (fuel : ℕ) (s : Store I) (e : ℕ)
      → Faithful F U s
      → Within F U s e
      → pass_mounts (suc fuel) s e ≡ done e
  unfolding pass_mounts is_mount_point
  pass_mounts-Faithful fuel s e f h = rw ((f.clean e h).1, pass_mounts) refl

  module _ (P : PathOps) (fuel : ℕ) (again : Resolve P F) (path : String) (links : Bool) where
    pub conclude-Faithful :
        (r : Resolver I) (e : ℕ)
        → Faithful F U r.store
        → r.entry ≡ some e
        → Within F U r.store e
        → conclude P F (suc fuel) path (plain_flags P F links) r ≡ done (ok (some e), r)
    unfolding conclude is_mount_point exists_below
    conclude-Faithful r e f p h =
        rw (p, (f.clean e h).1, conclude) (ap (λ x. done (ok (some e), record r { entry = x })) p)

    -- What a segment's Step sees of the resolver.
    abbrev pub at_segment : Resolver I → ℕ → Bool → Resolver I
    at_segment r e last = record r { last = last; state = terminated; entry = some e }

    -- A round of the loop at a plain name is a Step.
    pub segments-name :
        (r : Resolver I) (e : ℕ) (name : String) (rest : List String)
        → Faithful F U r.store
        → Within F U r.store e
        → r.entry ≡ some e
        → segment_type name ≡ name_segment
        → segments P F (suc fuel) again path (plain_flags P F links) r (name ∷ rest) ≡ (
            step_found P F
              (suc fuel)
              again
              path
              (at_segment r e (none_left rest))
              name
              e
              (lookup F r.store e name).0
              (lookup F r.store e name).1
            >>= after_step P F
                (suc fuel)
                path
                (plain_flags P F links)
                λ r3. segments P F (suc fuel) again path (plain_flags P F links) r3 rest)
    unfolding segments follow_entry none_left step
    segments-name r e name [] f h p plain =
        rw (p, follow_mounts-Faithful fuel r.store e f h, plain, segments) refl
    segments-name r e name (next ∷ rest) f h p plain =
        rw (p, follow_mounts-Faithful fuel r.store e f h, plain, segments) refl

    -- What is found at the last segment.
    abbrev pub ends_at : Resolver I → Store I → ℕ → String → ℕ → Resolver I
    ends_at r s e name c = record r {
      store = s;
      state = finished;
      parent = some e;
      entry = some c;
      base_name = name;
      last = true;
    }

    -- What is found at another segment.
    abbrev passes_by : Resolver I → Store I → ℕ → String → ℕ → Resolver I
    passes_by r s e name c = record r {
      store = s;
      state = terminated;
      parent = some e;
      entry = some c;
      base_name = name;
      last = false;
    }

    -- What an error leaves.
    abbrev stops_at : Resolver I → Store I → ℕ → String → Bool → Resolver I
    stops_at r s e name last = record r {
      store = s;
      state = terminated;
      parent = some e;
      entry = none;
      base_name = name;
      last = last;
    }

    -- Behind an entry that is no symbolic link only the test for a directory is left.
    step_down-enter :
        (r : Resolver I) (c : ℕ)
        → Faithful F U r.store
        → Within F U r.store c
        → is_symlink F r.store c ≡ done false
        → step_down P F (suc fuel) again r c ≡ done (enter P F r c)
    unfolding step_down
    step_down-enter r c f h straight =
        rw (pass_mounts-Faithful fuel r.store c f h, step_down) (rw straight refl)

    module _ (r : Resolver I) (e : ℕ) (i : I) (name : String) {found : Option ℕ} {s : Store I}
        (l : LookedUp F U r.store i name found s) where
      -- The end of the round at `name`.
      abbrev round : Bool → (Resolver I → Run (Answer I)) → Run (Answer I)
      round last next =
          step_found P F (suc fuel) again path (at_segment r e last) name e found s
          >>= after_step P F (suc fuel) path (plain_flags P F links) next

      round-missing :
          (last : Bool) (next : Resolver I → Run (Answer I))
          → F.find i name ≡ none
          → Meets r.store (err enoent) (round last next)
      unfolding Meets Matches step_found terminate after_step
      round-missing last next gone =
          rw (l.missing gone)
            ((err enoent, stops_at r s e name last), (refl, LookedUp-Extends l, (refl, refl)))

      round-last :
          (next : Resolver I → Run (Answer I))
          → ((j : I) → F.find i name ≡ some j → U j)
          → Meets r.store (walk (ends_in_slash path) i (name ∷ [])) (round true next)
      unfolding walk Meets Matches step_found terminate after_step after_loop is_finished
          is_terminated
      round-last next open_ = elim (Option-cases (F.find i name)) [
        | inl gone ↦ rw (gone, walk) (round-missing true next gone)
        | inr (j, hit) ↦
            let (c, (p, h, node)) = l.present j hit in
            let w : Within F U s c = (h, j, (node, open_ j hit)) in
            let d = is_directory-Faithful c l.faithful w node in
            elim (Bool-cases (ends_in_slash path && not (dir_bit (F.kind j)))) [
              | inl slashed ↦
                  rw (hit, walk, p, d, slashed)
                    (
                      (err enoent, stops_at r s e name true),
                      (refl, LookedUp-Extends l, (refl, refl)),
                    )
              | inr fine ↦
                  rw (hit, walk, p, d, fine)
                    (
                      (ok (some c), ends_at r s e name c),
                      (
                        conclude-Faithful (ends_at r s e name c) c l.faithful refl w,
                        LookedUp-Extends l,
                        (c, (refl, refl, h, node)),
                      ),
                    )
            ]
      ]

      is_symlink-found :
          (c : ℕ) (j : I)
          → (s.entry c).inode ≡ some j
          → is_symlink F s c ≡ done (is_symlink_kind (F.kind j))
      unfolding is_symlink
      is_symlink-found c j node = rw (node, is_symlink) refl

      round-inner :
          (next : String) (names : List String) (rest : Resolver I → Run (Answer I))
          → ((j : I) → F.find i name ≡ some j → (is_symlink_kind (F.kind j) ≡ false) × U j)
          → ((c : ℕ) (j : I)
              → F.find i name ≡ some j
              → Within F U s c
              → (s.entry c).inode ≡ some j
              → Meets s
                  (walk (ends_in_slash path) j (next ∷ names))
                  (rest (passes_by r s e name c)))
          → Meets r.store (walk (ends_in_slash path) i (name ∷ next ∷ names)) (round false rest)
      unfolding walk Meets Matches step_found step_down enter terminate after_step is_finished
      round-inner next names rest straight inner = elim (Option-cases (F.find i name)) [
        | inl gone ↦ rw (gone, walk) (round-missing false rest gone)
        | inr (j, hit) ↦
            let (c, (p, h, node)) = l.present j hit in
            let w : Within F U s c = (h, j, (node, (straight j hit).1)) in
            let d = is_directory-Faithful c l.faithful w node in
            let q : is_symlink F s c ≡ done false =
              is_symlink-found c j node ∙ ap (λ b. done b) (straight j hit).0 in
            let m = step_down-enter (passes_by r s e name c) c l.faithful w q in
            elim (Bool-cases (dir_bit (F.kind j))) [
              | inr file ↦
                  rw (hit, walk, p, file)
                    (
                      (err enotdir, stops_at r s e name false),
                      (rw m (rw (d, file, enter) refl), LookedUp-Extends l, (refl, refl)),
                    )
              | inl dir ↦
                  let (a, (came, ext, match_)) = inner c j hit w node in
                  rw (hit, walk, p, dir)
                    (
                      a,
                      (
                        rw m (rw (d, dir, enter) came),
                        Extends-trans (LookedUp-Extends l) ext,
                        match_,
                      ),
                    )
            ]
      ]

    -- The loop over plain names ends with what the walk in the file system finds.
    segments-Meets :
        (names : List String) (r : Resolver I) (e : ℕ) (i : I) (name : String)
        → Faithful F U r.store
        → Within F U r.store e
        → r.entry ≡ some e
        → (r.store.entry e).inode ≡ some i
        → Plain i (name ∷ names)
        → Meets r.store
            (walk (ends_in_slash path) i (name ∷ names))
            (segments P F (suc fuel) again path (plain_flags P F links) r (name ∷ names))
    unfolding Plain none_left
    segments-Meets [] r e i name f h p node plain = rw (segments-name r e name [] f h p plain.0) (
        round-last r e i name (lookup-LookedUp F U r.store e i name f h.0 node)
          (λ r3. segments P F (suc fuel) again path (plain_flags P F links) r3 []) plain.1)
    segments-Meets (next ∷ names) r e i name f h p node plain =
        let l = lookup-LookedUp F U r.store e i name f h.0 node in
        rw (segments-name r e name (next ∷ names) f h p plain.0) (
          round-inner r e i name l next names
            (λ r3. segments P F (suc fuel) again path (plain_flags P F links) r3 (next ∷ names))
            (λ j hit. ((plain.1 j hit).0, (plain.1 j hit).1))
            (λ c j hit g below.
              segments-Meets names (passes_by r (lookup F r.store e name).1 e name c) c j next
                l.faithful g refl below ((plain.1 j hit).2)))

    -- The resolver before its first round, at the entry `e`.
    abbrev pub starting : Store I → ℕ → Resolver I
    starting s e = record {
      store = s;
      state = initialized;
      parent = some e;
      entry = some e;
      base_name = slash;
      last = false;
      symlink_depth = 0;
    }

    begin_lem :
        (s : Store I) (root e : ℕ)
        → Faithful F U s
        → Within F U s e
        → begin P F (suc fuel) s root (some e) ≡ done (starting s e)
    unfolding begin
    begin_lem s root e f h = elim (Bool-cases (e == root)) [
      | inl own ↦ rw (own, begin) refl
      | inr other ↦ rw (other, follow_mounts-Faithful fuel s e f h, begin) refl
    ]

    initialize_lem :
        (s : Store I) (from : Option ℕ) (root e : ℕ)
        → Faithful F U s
        → root_entry (suc fuel) s ≡ done root
        → is_empty path ≡ false
        → (if P.absolute path then some root else from) ≡ some e
        → Within F U s e
        → initialize P F (suc fuel) s from path ≡ done (starting s e)
    unfolding initialize
    initialize_lem s from root e f rooted full first h =
        rw (full, rooted, initialize)
          (ap (begin P F (suc fuel) s root) first ∙ begin_lem s root e f h)

    -- Following the link of an entry that is none leaves it.
    chase-plain :
        (s : Store I) (c : ℕ) (j : I) (count : ℕ)
        → (s.entry c).inode ≡ some j
        → is_symlink_kind (F.kind j) ≡ false
        → chase P F (suc fuel) again s c count ≡ done (some c, s)
    unfolding chase is_symlink
    chase-plain s c j count node straight = elim (Option-cases (F.read_link j)) [
      | inl gone ↦ rw (node, chase) (rw gone refl)
      | inr (target, linked) ↦ rw (node, chase) (rw (linked, node, straight) refl)
    ]

    settle-Agrees :
        (w : Outcome I) (a : Answer I)
        → Matches w a
        → (links ≡ true → (j : I) → w ≡ ok j → is_symlink_kind (F.kind j) ≡ false)
        → (found : Resolution) × ((settle P F (suc fuel) again links a.1 ≡ done (found, a.1.store))
            × Agrees w found.entry a.1.store)
    unfolding settle Matches Agrees
    settle-Agrees (ok j) (o, r) (c, (p, q, h, node)) straight = elim (Bool-cases links) [
      | inl chased ↦ (
        record { parent = r.parent; entry = some c; base_name = r.base_name },
        (
          rw (q, settle)
              (rw chased (rw (chase-plain r.store c j 0 node (straight chased j refl)) refl)),
          (c, (refl, h, node)),
        ),
      )
      | inr left ↦ (
        record { parent = r.parent; entry = some c; base_name = r.base_name },
        (rw (q, settle) (rw left refl), (c, (refl, h, node))),
      )
    ]
    settle-Agrees (err x) (o, r) (p, q) straight = (
      record { parent = r.parent; entry = none; base_name = r.base_name },
      (rw (q, settle) refl, refl),
    )
    settle-Agrees panic (o, r) none_ straight = absurd none_

    resolve-Meets :
        (s : Store I) (e : ℕ) (i : I) (name : String) (names : List String)
        → Faithful F U s
        → is_empty path ≡ false
        → same_string path slash ≡ false
        → P.split path ≡ name ∷ names
        → Within F U s e
        → (s.entry e).inode ≡ some i
        → Plain i (name ∷ names)
        → Meets s
            (walk (ends_in_slash path) i (name ∷ names))
            (resolve P F (suc fuel) again path (plain_flags P F links) (starting s e))
    unfolding resolve is_initialized
    resolve-Meets s e i name names f full deep split h node plain =
        rw (full, deep, split, resolve)
          (segments-Meets names (starting s e) e i name f h refl node plain)

    -- An absolute path starts at the root.
    absolute_start :
        (from : Option ℕ) (root e : ℕ)
        → start_of P F from path root ≡ some e
        → (if P.absolute path then some root else start_of P F from path root) ≡ some e
    unfolding start_of
    absolute_start from root e start = elim (Bool-cases (P.absolute path)) [
      | inl whole ↦
          ap (λ b. if b then some root else start_of P F from path root) whole
          ∙ sym (
              ap (λ b. if b then some root else (elim from [ none ↦ some root | some x ↦ some x ]))
                whole)
          ∙ start
      | inr part ↦ ap (λ b. if b then some root else start_of P F from path root) part ∙ start
    ]

    pub resolve_with_lem :
        (s : Store I) (from : Option ℕ) (root e : ℕ) (a : Answer I)
        → Faithful F U s
        → root_entry (suc fuel) s ≡ done root
        → is_empty path ≡ false
        → start_of P F from path root ≡ some e
        → Within F U s e
        → resolve P F (suc fuel) again path (plain_flags P F links) (starting s e) ≡ done a
        → resolve_with P F (suc fuel) again s from path links
          ≡ settle P F (suc fuel) again links a.1
    unfolding resolve_with
    resolve_with_lem s from root e a f rooted full start h came =
        let resolved = λ (r : Resolver I).
          resolve P F (suc fuel) again path (plain_flags P F links) r >>= λ x.
          settle P F (suc fuel) again links x.1 in
        bind-done (λ x. initialize P F (suc fuel) s (start_of P F from path x) path >>= resolved)
          rooted
        ∙ bind-done resolved (
            initialize_lem s (start_of P F from path root) root e f rooted full
              (absolute_start from root e start) h)
        ∙ bind-done (λ x. settle P F (suc fuel) again links x.1) came

  -- The root of all is passed to the root `root` of the file system that is mounted on it.
  pub root_entry-Faithful :
      (fuel : ℕ) (s : Store I) (root : ℕ)
      → Faithful F U s
      → (s.entry s.root).gate ≡ some root
      → Within F U s root
      → root_entry (suc (suc fuel)) s ≡ done root
  unfolding root_entry follow_mounts
  root_entry-Faithful fuel s root f gate h =
      rw (gate, root_entry, follow_mounts) (follow_mounts-Faithful fuel s root f h)

  -- ResolvePath of a path that is neither empty nor "/", where the root file system is mounted on
  -- the root of all, with `root` as its root, nothing is mounted on the entries of `root`, of the
  -- start and of the nodes that the path leads to, the cache agrees with the file system, no
  -- segment is "." or ".." and no node before the last is a symbolic link (nor the last, if links
  -- are followed): it comes back with three units of fuel, answers an entry of the node that the
  -- walk through the file system reaches from the start (`root`, if the path is absolute or no
  -- parent is given), or none where the walk ends with an error, and leaves a cache that agrees
  -- with the file system and has all entries of before with their nodes. Other file systems may be
  -- mounted elsewhere.
  pub resolve_path-Agrees :
      (P : PathOps) (fuel : ℕ) (s : Store I) (from : Option ℕ) (path : String) (links : Bool)
      → (root e : ℕ) (i : I) (name : String) (names : List String) → Faithful F U s
      → (s.entry s.root).gate ≡ some root
      → Within F U s root
      → is_empty path ≡ false
      → same_string path slash ≡ false
      → P.split path ≡ name ∷ names
      → start_of P F from path root ≡ some e
      → Within F U s e
      → (s.entry e).inode ≡ some i
      → Plain i (name ∷ names)
      → (links ≡ true
          → (j : I) → walk (ends_in_slash path) i (name ∷ names) ≡ ok j
          → is_symlink_kind (F.kind j) ≡ false)
      → (found : Resolution) × (t : Store I) × ((resolve_path P F
              (suc (suc (suc fuel)))
              s
              from
              path
              links
            ≡ done (found, t))
          × Extends s t
          × Agrees (walk (ends_in_slash path) i (name ∷ names)) found.entry t)
  unfolding resolve_path Meets
  resolve_path-Agrees P fuel s from path links root e i name names f gate above full deep split
        start h node plain straight =
      let again = resolve_path P F (suc (suc fuel)) in
      let rooted = root_entry-Faithful fuel s root f gate above in
      let (a, (came, ext, match_)) =
        resolve-Meets P (suc fuel) again path links s e i name names f full deep split h node
          plain in
      let (found, (settled, agrees)) =
        settle-Agrees P (suc fuel) again path links (walk (ends_in_slash path) i (name ∷ names)) a
          match_ straight in
      (
        found,
        a.1.store,
        (
          resolve_with_lem P (suc fuel) again path links s from root e a f rooted full start h came
              ∙ settled,
          ext,
          agrees,
        ),
      )
