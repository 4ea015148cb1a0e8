-- ===== src/Vfs/Listing/Tests.antt =====
-- A directory of two children, on which the laws are applied.
use cryptix_os.Common.Prism.{math_ops}
use cryptix_os.Vfs.Listing.{
  Dirent, Stats, Child, Directory, Listing, dot, dot_dot, hand_out, generate_dir_entries,
}
use cryptix_os.Vfs.Listing.Copy.{sizes, hand_out-overruns}
use cryptix_os.Vfs.Listing.Generate.{names, names-generate_dir_entries}
use cryptix_os.Common.{ℕ, ◌*◌, ◌≡◌, refl, inl, true, false, Option, none, some, [], ◌∷◌, arith, ok}

abbrev sized : ℕ → Dirent
sized n = record { ino = 7; off = n; reclen = n; type = 8; name = 97 ∷ [] }

abbrev fresh : Listing
fresh = record { entries = []; should_regenerate = false; iterator = []; offset = 0 }

abbrev three_left : Listing
three_left = record fresh { entries = sized 32 ∷ sized 32 ∷ sized 40 ∷ [] }

abbrev stats : ℕ → Stats
stats n = record { ino = n; mode = 8 * 4096 }

abbrev child : ℕ → Option Stats → Child
child c inode = record { name = c ∷ []; inode = inode }

abbrev two_children : Directory
two_children = record {
  self = stats 2;
  parent = none;
  children = child 97 (some (stats 3)) ∷ child 98 (some (stats 4)) ∷ [];
}

-- 104 bytes for a buffer of 32.
hand_out-overruns_example : hand_out three_left 32 ≡ (
  ok (sizes (sized 32 ∷ sized 32 ∷ sized 40 ∷ [])),
  sized 32 ∷ sized 32 ∷ sized 40 ∷ [],
  record fresh { entries = []; should_regenerate = true },
)
hand_out-overruns_example =
    hand_out-overruns three_left (sized 32) (sized 32 ∷ sized 40 ∷ []) 32 refl
      (omega arith, (omega arith, (omega arith, tt))) (omega arith) (inl (omega arith))
      (omega arith)

names-generate_dir_entries_example :
    (l : Listing) × (generate_dir_entries math_ops 5 two_children fresh ≡ some l)
    × names l.entries ≡ dot math_ops ∷ dot_dot math_ops ∷ (97 ∷ []) ∷ (98 ∷ []) ∷ []
names-generate_dir_entries_example =
    names-generate_dir_entries math_ops 5 two_children fresh (child 97 (some (stats 3)))
      (child 98 (some (stats 4)) ∷ []) refl refl ((stats 3, refl), ((stats 4, refl), tt))
      (omega arith) (omega arith)
