-- ===== src/Vfs/Resolver/Stuck.antt =====
-- Resolutions that do not come back.
use cryptix_os.Boot.CommandLine.{String, same_string}
use cryptix_os.Vfs.Entries.{
  symlink, done, starved, ◌>>=◌, InodeOps, Store, is_directory, follow_mounts, root_entry,
  is_symlink, is_symlink_kind, lookup,
}
use cryptix_os.Vfs.Entries.Cache.{Within, Faithful, dir_bit}
use cryptix_os.Vfs.Resolver.{
  PathOps, name_segment, segment_type, is_finished, is_terminated, is_initialized, slash,
  ends_in_slash, is_empty, none_left, Resolve, step_found, after_step, after_loop, resolve,
  start_of, chase, plain_flags, settle, resolve_with, resolve_path,
}
use cryptix_os.Vfs.Resolver.Walk.{
  ends_at, starting, segments-name, conclude-Faithful, is_directory-Faithful, resolve_with_lem,
  root_entry-Faithful,
}
use cryptix_os.Common.{
  ℕ, zero, suc, ◌≡◌, refl, ap, ◌∙◌, inl, inr, true, false, some, [], ◌∷◌, Bool-cases, ok,
}

-- `U` is the nodes on whose entries nothing is mounted.
module _ {I : Type 0} (P : PathOps) (F : InodeOps I) (U : I → Type 0) where
  -- The entry `a`, cached below `d` under `name`, is a symbolic link whose target `path` is just
  -- this name.
  pub record SelfLink (s : Store I) (d a : ℕ) (j : I) (name path : String) : Type 0 where
    pub faithful : Faithful F U s
    pub root : ℕ
    pub gate : (s.entry s.root).gate ≡ some root
    pub above : Within F U s root
    pub below : Within F U s d
    pub cached : (s.entry d).children name ≡ some a
    pub within : Within F U s a
    pub up : (s.entry a).parent ≡ some d
    pub node : (s.entry a).inode ≡ some j
    pub link : F.kind j ≡ symlink
    pub target : F.read_link j ≡ some path
    pub single : P.split path ≡ name ∷ []
    pub plain : segment_type name ≡ name_segment
    pub full : is_empty path ≡ false
    pub deep : same_string path slash ≡ false
    pub relative : P.absolute path ≡ false

  module _ (fuel : ℕ) (again : Resolve P F) {s : Store I} {d a : ℕ} {j : I} {name path : String}
      (l : SelfLink s d a j name path) where
    -- The resolver finds the link itself.
    resolve-link :
        resolve P F
          (suc fuel)
          again
          path
          (plain_flags P F true)
          (starting F U P fuel again path true s d)
        ≡ done (
          ok (some a),
          ends_at F U P fuel again path true (starting F U P fuel again path true s d) s d name a,
        )
    unfolding resolve is_initialized step_found after_step after_loop is_finished is_terminated
        lookup none_left
    resolve-link =
        let r = starting F U P fuel again path true s d in
        let dir : is_directory s a ≡ true =
          is_directory-Faithful F U a l.faithful l.within l.node ∙ ap dir_bit l.link in
        rw (l.full, l.deep, l.single, resolve)
          (segments-name F U P fuel again path true r d name [] l.faithful l.below refl l.plain
            ∙ rw (l.cached, lookup)
                (elim (Bool-cases (ends_in_slash path)) [
                  | inl slashed ↦
                      rw (slashed, dir)
                        (conclude-Faithful F U P fuel again path true
                          (ends_at F U P fuel again path true r s d name a) a l.faithful refl
                          l.within)
                  | inr open_ ↦ rw open_ (
                      conclude-Faithful F U P fuel again path true
                        (ends_at F U P fuel again path true r s d name a) a l.faithful refl
                        l.within)
                ]))

    -- Following it starts a new resolution of the same path.
    chase-link : again s (some d) path true ≡ starved → chase P F (suc fuel) again s a 0 ≡ starved
    unfolding chase is_symlink is_symlink_kind
    chase-link stuck =
        rw (l.node, chase) (rw l.target (rw l.node (rw (l.link, l.full) (rw (l.up, stuck) refl))))

    start-link : start_of P F (some d) path l.root ≡ some d
    unfolding start_of
    start-link = rw (l.relative, start_of) refl

  -- Resolving a name that is cached as a symbolic link to itself, with links followed, never comes
  -- back, whatever the fuel: the depth that FollowSymlinks counts starts anew in each nested
  -- resolution, so that the limit SYMLOOP_MAX is not reached. The root file system is mounted on
  -- the root of all, nothing is mounted on its root, on the link and on the directory that has the
  -- link, and the cache agrees with the file system.
  pub resolve_path-SelfLink :
      (fuel : ℕ) {s : Store I} {d a : ℕ} {j : I} {name path : String}
      → SelfLink s d a j name path
      → resolve_path P F fuel s (some d) path true ≡ starved
  unfolding resolve_path resolve_with root_entry follow_mounts settle
  resolve_path-SelfLink zero l = refl
  resolve_path-SelfLink (suc zero) l = refl
  resolve_path-SelfLink (suc (suc zero)) l =
      rw (l.gate, resolve_path, resolve_with, root_entry, follow_mounts) refl
  resolve_path-SelfLink (suc (suc (suc fuel))) {s} {d} {a} {j} {name} {path} l =
      let again = resolve_path P F (suc (suc fuel)) in
      let r = starting F U P (suc fuel) again path true s d in
      let rooted = root_entry-Faithful F U fuel s l.root l.faithful l.gate l.above in
      resolve_with_lem F U P (suc fuel) again path true s (some d) l.root d
        (ok (some a), ends_at F U P (suc fuel) again path true r s d name a) l.faithful rooted
        l.full (start-link (suc fuel) again l) l.below (resolve-link (suc fuel) again l)
      ∙ ap (λ m. m >>= λ (x, t). done (record { parent = some d; entry = x; base_name = name }, t))
          (chase-link (suc fuel) again l (resolve_path-SelfLink (suc (suc fuel)) l))
