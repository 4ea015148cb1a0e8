-- ===== src/Vfs/Entries.antt =====
-- Kernel/VFS/DirectoryEntry.{hpp,cpp}, MountPoint.cpp and VFS::RootDirectoryEntry: the cache of
-- directory entries, with what is mounted on them. A reference to an entry is its number in the
-- store. The nodes of the file systems are of a type `I`, their operations an interface.
pub mod Cache
use cryptix_os.Boot.CommandLine.{String, same_string}
use cryptix_os.Common.{
  ℕ, zero, suc, ◌+◌, ◌-◌, ◌*◌, ◌/◌, ◌%◌, ◌^◌, ◌≤◌, ◌<◌, min, ◌≡◌, refl, sym, ap, ◌∙◌, ◌≢◌, ◌↔◌, ◌⊎◌,
  inl, inr, Bool, true, false, not, ◌&&◌, ◌||◌, Option, none, some, List, [], ◌∷◌, ◌++◌, map, arith,
  dec_lt, ℕ_discrete, ltb, leb, ◌==◌, if◌then◌else◌, ltb→lt, lt→ltb, le→not-ltb, not-ltb→le, leb→le,
  ==_iff, tests, Bool-cases, Option-cases, length, get_elem?, set, length-append, All, Inserted,
  here, there, Inserted-All, All-Inserted, All-map, u64_mod, add64, sub64, mul64, add64-eq_add,
  sub64-eq_sub, mul64-eq_mul, sub64-add64, add64-lt, add64_add, add64_add_right, apart_of_disjoint,
  apart_scaled, Errno, eperm, enoent, esrch, ebadf, eagain, enomem, efault, eexist, enotdir, einval,
  epipe, enosys, eisdir, espipe, eoverflow, enolink, enotempty, ebusy, ℤ, pos, negsuc, i32_max,
  to_i32, to_i32_small, increment, to_u64, to_i64, add_i64, to_i64_small, add_i64-eq_add,
  is_negative, int_eq, pos_injective, Outcome, ok, err, panic,
}

-- What a step comes back with: a value, a failed Assert or a null reference that is followed, or
-- none because the fuel of a loop ran out.
pub data Run {ℓ} (A : Type ℓ) : Type ℓ where
  done : A → Run A
  crash starved : Run A

infixl 5 ◌>>=◌
abbrev pub ◌>>=◌ {ℓ κ} : {A : Type ℓ} {B : Type κ} → Run A → (A → Run B) → Run B
done a >>= f = f a
crash >>= f = crash
starved >>= f = starved

-- Going on from a step that is done.
pub bind-done {ℓ κ} :
    {A : Type ℓ} {B : Type κ} {m : Run A} {a : A} (f : A → Run B) → m ≡ done a → (m >>= f) ≡ f a
bind-done f e = ap (λ m. m >>= f) e

-- The type bits of INode::Mode.
pub data Kind : Type 0 where
  directory regular symlink char_device block_device socket fifo : Kind

-- INode::Lookup, with none for its errors, and ReadLink.
pub record InodeOps (I : Type 0) : Type 0 where
  pub find : I → String → Option I
  pub kind : I → Kind
  pub read_link : I → Option String

unfoldable pub is_symlink_kind : Kind → Bool
is_symlink_kind symlink = true
is_symlink_kind _ = false

-- DirectoryEntryFlags: the three bits of the entry's type, and the bit of mount points.
pub record Flags : Type 0 where
  pub bit0 : Bool
  pub bit1 : Bool
  pub bit2 : Bool
  pub mount : Bool

abbrev pub negative : Flags
negative = record { bit0 = false; bit1 = false; bit2 = false; mount = false }

-- The flags that Bind adds: eDirectory = 2, eRegular = 4, eSymlink = 6, eSpecial = 5.
unfoldable pub kind_flags : Kind → Flags
kind_flags directory = record negative { bit1 = true }
kind_flags regular = record negative { bit2 = true }
kind_flags symlink = record negative { bit1 = true; bit2 = true }
kind_flags block_device = negative
kind_flags _ = record negative { bit0 = true; bit2 = true }

unfoldable pub or_flags : Flags → Flags → Flags
or_flags f g = record {
  bit0 = f.bit0 || g.bit0;
  bit1 = f.bit1 || g.bit1;
  bit2 = f.bit2 || g.bit2;
  mount = f.mount || g.mount;
}

pub record Entry (I : Type 0) : Type 0 where
  pub name : String
  pub parent : Option ℕ
  pub gate : Option ℕ
  pub flags : Flags
  pub inode : Option I
  pub children : String → Option ℕ

-- All entries, below `count`; the root's entry; the hosts of the mount points in their order.
pub record Store (I : Type 0) : Type 0 where
  pub root : ℕ
  pub count : ℕ
  pub entry : ℕ → Entry I
  pub hosts : List ℕ

-- MountPoint::Lookup, with the host entry of the mount point that is found.
unfoldable pub mount_lookup : List ℕ → ℕ → Option ℕ
mount_lookup [] e = none
mount_lookup (host ∷ hosts) e =
    let rest = mount_lookup hosts e in if host == e then some host else rest

abbrev pub deref {ℓ} : {A : Type ℓ} → Option A → Run A
deref none = crash
deref (some a) = done a

module _ {I : Type 0} where
  abbrev pub set_entry : Store I → ℕ → Entry I → Store I
  set_entry s e x = record s { entry = λ j. if j == e then x else s.entry j }

  unfoldable pub is_mount_point : Store I → ℕ → Bool
  is_mount_point s e = (s.entry e).flags.mount

  unfoldable pub is_directory : Store I → ℕ → Bool
  is_directory s e = (s.entry e).flags.bit1

  -- FollowMounts
  unfoldable pub follow_mounts : ℕ → Store I → ℕ → Run ℕ
  follow_mounts zero s e = starved
  follow_mounts (suc fuel) s e = elim ((s.entry e).gate) [
    | none ↦ done e
    | some g ↦ follow_mounts fuel s g
  ]

  -- VFS::RootDirectoryEntry
  unfoldable pub root_entry : ℕ → Store I → Run ℕ
  unfolding follow_mounts
  root_entry fuel s = follow_mounts fuel s s.root

  -- GetEffectiveParent
  unfoldable pub effective_parent : ℕ → Store I → ℕ → Run (Option ℕ)
  unfolding root_entry follow_mounts mount_lookup
  effective_parent fuel s e = do
    r ← root_entry fuel s
    r' ← follow_mounts fuel s r
    if e == r' || e == r then done (some e) else elim (mount_lookup s.hosts e) [
      | none ↦ done ((s.entry e).parent)
      | some host ↦ done ((s.entry host).parent)
    ]

  -- SetMountGate and the steps of VFS::Mount that link the root of the mounted file system.
  pub mount_at : Store I → ℕ → ℕ → Store I
  mount_at s target fs_root =
      let s1 = set_entry s fs_root (record (s.entry fs_root) { parent = some target }) in
      let x = s1.entry target in
      let typed = x.flags.bit0 || x.flags.bit1 || x.flags.bit2 in
      let s2 = set_entry s1 target (record x {
        gate = some fs_root;
        flags = record (x.flags) { bit1 = x.flags.bit1 || not typed; mount = true };
      }) in
      record s2 { hosts = s2.hosts ++ (target ∷ []) }

  module _ (F : InodeOps I) where
    -- Bind
    unfoldable pub bind : Entry I → I → Entry I
    unfolding or_flags kind_flags
    bind x i = record x { inode = some i; flags = or_flags x.flags (kind_flags (F.kind i)) }

    -- IsSymlink
    unfoldable pub is_symlink : Store I → ℕ → Run Bool
    unfolding is_symlink_kind
    is_symlink s e = do i ← deref ((s.entry e).inode); done (is_symlink_kind (F.kind i))

    -- The entry that Lookup makes for a node of the file system.
    abbrev pub new_entry : ℕ → String → I → Entry I
    unfolding bind
    new_entry e name i =
        bind
          (record {
            name = name;
            parent = some e;
            gate = none;
            flags = negative;
            inode = none;
            children = λ _. none;
          })
          i

    -- Lookup for a node that the file system has found, with InsertChild.
    unfoldable pub cache : Store I → ℕ → String → I → Store I
    cache s e name i =
        let s1 = record (set_entry s s.count (new_entry e name i)) { count = s.count + 1 } in
        let x = s1.entry e in
        set_entry s1 e
          (record x { children = λ k. if same_string k name then some s.count else x.children k })

    -- Lookup
    unfoldable pub lookup : Store I → ℕ → String → Option ℕ × Store I
    unfolding cache
    lookup s e name = elim ((s.entry e).children name) [
      | some c ↦ (some c, s)
      | none ↦ elim ((s.entry e).inode) [
        | none ↦ (none, s)
        | some i ↦ elim (F.find i name) [
          | none ↦ (none, s)
          | some j ↦ (some s.count, cache s e name j)
        ]
      ]
    ]
