-- ===== src/Vfs/Resolver/Mounts.antt =====
-- ".." in the root of a mounted file system.
use cryptix_os.Boot.CommandLine.{String}
use cryptix_os.Vfs.Entries.{done, Store, follow_mounts, root_entry, effective_parent, mount_lookup}
use cryptix_os.Vfs.Resolver.{initialized, finished, Resolver, slash}
use cryptix_os.Common.{
  ℕ, suc, ◌≡◌, refl, inl, inr, true, false, Option, none, some, [], ◌∷◌, ◌==◌, Option-cases,
}

-- ".."
abbrev pub up : String
up = 46 ∷ 46 ∷ []

module _ {I : Type 0} where
  -- What VFS::Mount leaves: the entry `r` is the root of the file system mounted on `host`, and the
  -- root of all is `top`, mounted on the first entry.
  pub record Mounted (s : Store I) (host r top : ℕ) : Type 0 where
    pub gate : (s.entry host).gate ≡ some r
    pub open_ : (s.entry r).gate ≡ none
    pub parent : (s.entry r).parent ≡ some host
    pub no_host : mount_lookup s.hosts r ≡ none
    pub top_gate : (s.entry s.root).gate ≡ some top
    pub top_open : (s.entry top).gate ≡ none
    pub r_apart : (r == top) ≡ false
    pub host_apart : (host == top) ≡ false

  module _ {s : Store I} {host r top : ℕ} (m : Mounted s host r top) (fuel : ℕ) where
    root-Mounted : root_entry (suc (suc fuel)) s ≡ done top
    unfolding root_entry follow_mounts
    root-Mounted = rw (m.top_gate, root_entry, follow_mounts) (rw m.top_open refl)

    follow-top : follow_mounts (suc (suc fuel)) s top ≡ done top
    unfolding follow_mounts
    follow-top = rw (m.top_open, follow_mounts) refl

    -- The host has a parent, or is known to have none; either way the call comes back.
    parent-host : (p : Option ℕ) × (effective_parent (suc (suc fuel)) s host ≡ done p)
    unfolding effective_parent
    parent-host = elim (Option-cases (mount_lookup s.hosts host)) [
      | inl gone ↦ (
        (s.entry host).parent,
        rw (root-Mounted, effective_parent) (rw follow-top (rw (m.host_apart, gone) refl)),
      )
      | inr (h, found) ↦ (
        (s.entry h).parent,
        rw (root-Mounted, effective_parent) (rw follow-top (rw (m.host_apart, found) refl)),
      )
    ]

    -- What ".." in `r` ends with.
    abbrev stays : Resolver I
    stays = record {
      store = s;
      state = finished;
      parent = parent-host.0;
      entry = some r;
      base_name = (s.entry r).name;
      last = true;
      symlink_depth = 0;
    }

    abbrev ready : Resolver I
    ready = record {
      store = s;
      state = initialized;
      parent = some r;
      entry = some r;
      base_name = slash;
      last = false;
      symlink_depth = 0;
    }
