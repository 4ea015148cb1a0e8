-- ===== src/Vfs/Resolver.antt =====
-- Kernel/VFS/PathResolver.{hpp,cpp}, VFS::ResolvePath and DirectoryEntry::FollowSymlinks: from a
-- path to an entry. The resolver reads the segments of the path in their order; those that are left
-- stand for its position. `fuel` bounds each loop and the depth of nested resolutions.
pub mod Walk
pub mod Stuck
pub mod Mounts
mod Tests
use cryptix_os.Boot.CommandLine.{String, same_string}
use cryptix_os.Vfs.Entries.{
  Run, done, crash, starved, ◌>>=◌, InodeOps, Entry, Store, deref, is_mount_point, is_directory,
  follow_mounts, root_entry, effective_parent, is_symlink, lookup,
}
use cryptix_os.Common.{
  ℕ, zero, suc, ◌+◌, ◌-◌, ◌*◌, ◌/◌, ◌%◌, ◌^◌, ◌≤◌, ◌<◌, min, ◌≡◌, refl, sym, ap, ◌∙◌, ◌≢◌, ◌↔◌, ◌⊎◌,
  inl, inr, Bool, true, false, not, ◌&&◌, ◌||◌, Option, none, some, List, [], ◌∷◌, ◌++◌, map, arith,
  dec_lt, ℕ_discrete, ltb, leb, ◌==◌, if◌then◌else◌, ltb→lt, lt→ltb, le→not-ltb, not-ltb→le, leb→le,
  ==_iff, tests, Bool-cases, Option-cases, length, get_elem?, set, length-append, All, Inserted,
  here, there, Inserted-All, All-Inserted, All-map, u64_mod, add64, sub64, mul64, add64-eq_add,
  sub64-eq_sub, mul64-eq_mul, sub64-add64, add64-lt, add64_add, add64_add_right, apart_of_disjoint,
  apart_scaled, Errno, eperm, enoent, esrch, ebadf, eagain, enomem, efault, eexist, enotdir, einval,
  epipe, enosys, eisdir, espipe, eoverflow, enolink, enotempty, ebusy, ℤ, pos, negsuc, i32_max,
  to_i32, to_i32_small, increment, to_u64, to_i64, add_i64, to_i64_small, add_i64-eq_add,
  is_negative, int_eq, pos_injective, Outcome, ok, err, panic,
}

-- PathView of the Prism library.
pub record PathOps : Type 0 where
  pub absolute : String → Bool
  pub split : String → List String
  pub parent_path : String → String
  pub base_name_of : String → String

pub data SegmentType : Type 0 where
  name_segment dot_dot dot : SegmentType

-- The type of a segment in GetNextSegment.
pub segment_type : String → SegmentType
segment_type name =
    if same_string name (46 ∷ [])
    then dot
    else if same_string name (46 ∷ 46 ∷ [])
    then dot_dot
    else name_segment

pub data ResolutionState : Type 0 where
  uninitialized initialized finished last_left terminated : ResolutionState

pub is_finished : ResolutionState → Bool
is_finished finished = true
is_finished _ = false

pub is_terminated : ResolutionState → Bool
is_terminated terminated = true
is_terminated _ = false

pub is_initialized : ResolutionState → Bool
is_initialized initialized = true
is_initialized _ = false

pub record LookupFlags : Type 0 where
  pub to_parent : Bool
  pub follow_links : Bool
  pub negative_entry : Bool
  pub mount_point : Bool

-- `last` is IsLast of the current segment.
pub record Resolver (I : Type 0) : Type 0 where
  pub store : Store I
  pub state : ResolutionState
  pub parent : Option ℕ
  pub entry : Option ℕ
  pub base_name : String
  pub last : Bool
  pub symlink_depth : ℕ

pub record Resolution : Type 0 where
  pub parent : Option ℕ
  pub entry : Option ℕ
  pub base_name : String

-- SYMLOOP_MAX
abbrev pub symloop_max : ℕ
symloop_max = 40

abbrev pub slash : String
slash = 47 ∷ []

pub ends_in_slash : String → Bool
ends_in_slash [] = false
ends_in_slash (c ∷ []) = c == 47
ends_in_slash (c ∷ d ∷ cs) = ends_in_slash (d ∷ cs)

pub is_empty : String → Bool
is_empty [] = true
is_empty (_ ∷ _) = false

pub one_left : List String → Bool
one_left (_ ∷ []) = true
one_left _ = false

pub none_left : List String → Bool
none_left [] = true
none_left (_ ∷ _) = false

-- What a function of the resolver returns, with the resolver after it.
abbrev pub Answer : Type 0 → Type 0
Answer I = Outcome (Option ℕ) × Resolver I

module _ {I : Type 0} where
  -- Terminate
  pub terminate : Resolver I → Errno → Answer I
  terminate r e = (err e, record r { state = terminated; entry = none })

  -- The loop in Step that goes through mount points.
  pub pass_mounts : ℕ → Store I → ℕ → Run ℕ
  unfolding is_mount_point
  pass_mounts zero s e = starved
  pass_mounts (suc fuel) s e = elim (is_mount_point s e) [
    | true ↦ follow_mounts fuel s e >>= λ e'. pass_mounts fuel s e'
    | false ↦ done e
  ]

  -- FollowMounts without an argument.
  pub follow_entry : ℕ → Resolver I → Run (Option ℕ)
  follow_entry fuel r = elim (r.entry) [
    | none ↦ done none
    | some e ↦ follow_mounts fuel r.store e >>= λ e'. done (some e')
  ]

  -- FollowDots at the last segment, from its test of IsLast on.
  pub finish_dots : ℕ → LookupFlags → Resolver I → Option ℕ → Run (Resolver I)
  finish_dots fuel flags r here_ = do
    e ← deref here_
    p ← effective_parent fuel r.store e
    x ← (if flags.mount_point then done e else follow_mounts fuel r.store e)
    done (record r {
      state = finished;
      parent = p;
      entry = some x;
      base_name = (r.store.entry x).name;
    })

  -- FollowDots, at a segment "." or ".." with `rest` behind it.
  pub follow_dots : ℕ → LookupFlags → Resolver I → Bool → List String → Run (Resolver I)
  unfolding one_left finish_dots
  follow_dots fuel flags r upwards rest = do
    e ← deref r.entry
    e' ← (if upwards then effective_parent fuel r.store e else done (some e))
    if r.last
        then finish_dots fuel flags r e'
        else done (record r { entry = e'; state = if one_left rest then last_left else r.state })

  module _ (P : PathOps) (F : InodeOps I) where
    -- VFS::ResolvePath, as a call.
    abbrev pub Resolve : Type 0
    Resolve = Store I → Option ℕ → String → Bool → Run (Resolution × Store I)

    -- FollowSymlink; the null reference is an error here.
    pub follow_symlink : Resolve → Store I → ℕ → ℕ → Run (Option ℕ × Store I)
    follow_symlink again s e depth = if leb (symloop_max - 1) depth then done (none, s) else (do
      i ← deref ((s.entry e).inode)
      elim (F.read_link i) [
        | none ↦ done (none, s)
        | some target ↦
            if is_empty target
            then done (some e, s)
            else again s ((s.entry e).parent) target false >>= λ (found, s'). done (found.entry, s')
      ])

    -- FollowSymlinks of the resolver.
    pub follow_symlinks : ℕ → Resolve → Store I → ℕ → ℕ → Run (Option ℕ × Store I)
    follow_symlinks zero again s e depth = starved
    follow_symlinks (suc fuel) again s e depth = is_symlink F s e >>= λ linked. elim linked [
      | false ↦ done (some e, s)
      | true ↦ follow_symlink again s e depth >>= λ (next, s'). elim next [
        | none ↦ done (none, s')
        | some e' ↦ follow_symlinks fuel again s' e' depth
      ]
    ]

    -- The end of Step: what is found must be a directory.
    pub enter : Resolver I → ℕ → Answer I
    unfolding terminate is_directory
    enter r e =
        if is_directory r.store e
        then (ok (some e), record r { entry = some e })
        else terminate r enotdir

    -- Step behind the entry `c` of a segment that is not the last.
    pub step_down : ℕ → Resolve → Resolver I → ℕ → Run (Answer I)
    unfolding terminate enter
    step_down fuel again r c = do
      e ← pass_mounts fuel r.store c
      linked ← is_symlink F r.store e
      elim linked [
        | false ↦ done (enter r e)
        | true ↦ follow_symlinks fuel again r.store e r.symlink_depth >>= λ (target, s).
            elim target [
              | none ↦ done (terminate (record r { store = s }) enolink)
              | some e' ↦ done (enter (record r { store = s }) e')
            ]
      ]

    -- Step behind Lookup of `name` below the entry `e`, which left the store `s`.
    pub step_found :
        ℕ → Resolve → String → Resolver I → String → ℕ → Option ℕ → Store I → Run (Answer I)
    unfolding terminate step_down
    step_found fuel again path r name e none s =
        done (
          terminate (record r { store = s; parent = some e; entry = none; base_name = name })
            enoent)
    step_found fuel again path r name e (some c) s =
        let r1 : Resolver I = record r {
          store = s;
          parent = some e;
          entry = some c;
          base_name = name;
        } in
        if r.last
        then if ends_in_slash path && not (is_directory s c)
          then done (terminate r1 enoent)
          else done (ok (some c), record r1 { state = finished })
        else step_down fuel again r1 c

    -- Step at the segment `name` of the path.
    pub step : ℕ → Resolve → String → Resolver I → String → Run (Answer I)
    unfolding step_found
    step fuel again path r name = deref r.entry >>= λ e.
        let (found, s) = lookup F r.store e name in step_found fuel again path r name e found s

    -- The test for eNegativeEntry: an entry named like the path's last name exists below `e`.
    pub exists_below : LookupFlags → Resolver I → ℕ → String → Bool × Store I
    exists_below flags r e path =
        if flags.negative_entry
        then (let (found, s) = lookup F r.store e (P.base_name_of path) in
            (elim found [ none ↦ false | some _ ↦ true ], s))
        else (false, r.store)

    -- The end of Resolve once the last segment is done.
    pub conclude : ℕ → String → LookupFlags → Resolver I → Run (Answer I)
    unfolding exists_below
    conclude fuel path flags r = elim (r.entry) [
      | none ↦ done (ok none, r)
      | some e ↦
          let (exists, s) = exists_below flags r e path in
          if exists
          then done (err eexist, record r { store = s })
          else if is_mount_point s e && not (r.last && flags.mount_point)
          then (follow_mounts fuel s e >>= λ x.
              done (ok (some x), record r { store = s; entry = some x }))
          else done (ok (some e), record r { store = s })
    ]

    -- Resolve behind its loop. There errno is taken as unset.
    pub after_loop : ℕ → String → LookupFlags → Resolver I → Run (Answer I)
    unfolding conclude
    after_loop fuel path flags r =
        if is_terminated r.state
        then done (err enoent, record r { entry = none })
        else conclude fuel path flags r

    -- A round of the loop behind Step; `next` is the rest of the loop.
    pub after_step :
        ℕ → String → LookupFlags → (Resolver I → Run (Answer I)) → Answer I → Run (Answer I)
    unfolding after_loop
    after_step fuel path flags next (ok _, r) = elim (is_finished r.state) [
      | true ↦ after_loop fuel path flags r
      | false ↦ next r
    ]
    after_step fuel path flags next (err x, r) = done (err x, r)
    after_step fuel path flags next (panic, r) = crash

    -- The loop of Resolve over the segments that are left.
    pub segments : ℕ → Resolve → String → LookupFlags → Resolver I → List String → Run (Answer I)
    unfolding follow_entry follow_dots step after_step after_loop conclude segment_type
    segments fuel again path flags r [] = after_loop fuel path flags r
    segments fuel again path flags r (name ∷ rest) = do
      let last = none_left rest
      e ← (if last && flags.mount_point then done (r.entry) else follow_entry fuel r)
      let r2 : Resolver I = record r { last = last; state = terminated; entry = e }
      elim (segment_type name) [
        | name_segment ↦
            step fuel again path r2 name
            >>= after_step fuel path flags (λ r3. segments fuel again path flags r3 rest)
        | dot ↦ follow_dots fuel flags r2 false rest >>= λ r3. elim (is_finished r3.state) [
          | true ↦ conclude fuel path flags r3
          | false ↦ segments fuel again path flags r3 rest
        ]
        | dot_dot ↦ follow_dots fuel flags r2 true rest >>= λ r3. elim (is_finished r3.state) [
          | true ↦ conclude fuel path flags r3
          | false ↦ segments fuel again path flags r3 rest
        ]
      ]

    -- Resolve at the path "/": the entry where the resolver starts.
    pub resolve_root : String → LookupFlags → Resolver I → Run (Answer I)
    unfolding exists_below
    resolve_root path flags r =
        if flags.negative_entry
        then (do
          e ← deref r.entry
          let (exists, s) = exists_below flags r e path
          done (if exists then err eexist else ok (some e), record r { store = s }))
        else done (ok r.entry, r)

    -- Resolve
    pub resolve : ℕ → Resolve → String → LookupFlags → Resolver I → Run (Answer I)
    unfolding segments resolve_root
    resolve fuel again path flags r =
        if not (is_initialized r.state)
        then crash
        else if same_string path slash || is_empty path
        then resolve_root path flags r
        else segments fuel again path flags r
            (P.split (if flags.to_parent then P.parent_path path else path))

    -- Initialize where the path is not empty, from the entry `first`; `root` is the root's.
    pub begin : ℕ → Store I → ℕ → Option ℕ → Run (Resolver I)
    begin fuel s root first =
        let named : Resolver I = record {
          store = s;
          state = initialized;
          parent = none;
          entry = first;
          base_name = slash;
          last = false;
          symlink_depth = 0;
        } in
        elim first [
          | none ↦ done named
          | some e ↦
              if e == root
              then done (record named { parent = some e })
              else follow_mounts fuel s e >>= λ e'. done (record named { parent = some e' })
        ]

    -- The constructor and Initialize.
    pub initialize : ℕ → Store I → Option ℕ → String → Run (Resolver I)
    unfolding begin
    initialize fuel s from path =
        if is_empty path
        then done (record {
          store = s;
          state = terminated;
          parent = none;
          entry = none;
          base_name = [];
          last = false;
          symlink_depth = 0;
        })
        else root_entry fuel s >>= λ r. begin fuel s r (if P.absolute path then some r else from)

    -- FollowSymlinks of a directory entry.
    pub chase : ℕ → Resolve → Store I → ℕ → ℕ → Run (Option ℕ × Store I)
    chase zero again s e count = starved
    chase (suc fuel) again s e count = deref ((s.entry e).inode) >>= λ i. elim (F.read_link i) [
      | none ↦ done (some e, s)
      | some target ↦ is_symlink F s e >>= λ linked. elim (linked && not (is_empty target)) [
        | false ↦ done (some e, s)
        | true ↦ elim (leb (symloop_max - 1) count) [
          | true ↦ done (none, s)
          | false ↦ again s ((s.entry e).parent) target true >>= λ (found, s'). elim (found.entry) [
            | none ↦ done (none, s')
            | some e' ↦ chase fuel again s' e' (count + 1)
          ]
        ]
      ]
    ]

    abbrev pub plain_flags : Bool → LookupFlags
    plain_flags links = record {
      to_parent = false;
      follow_links = links;
      negative_entry = false;
      mount_point = false;
    }

    -- VFS::ResolvePath behind the resolver's Resolve, whose error it ignores.
    pub settle : ℕ → Resolve → Bool → Resolver I → Run (Resolution × Store I)
    unfolding chase
    settle fuel again links r = elim (r.entry) [
      | none ↦ done (record { parent = r.parent; entry = none; base_name = r.base_name }, r.store)
      | some e ↦ elim links [
        | false ↦
            done (record { parent = r.parent; entry = some e; base_name = r.base_name }, r.store)
        | true ↦ chase fuel again r.store e 0 >>= λ (x, s).
            done (record { parent = r.parent; entry = x; base_name = r.base_name }, s)
      ]
    ]

    -- Where VFS::ResolvePath starts.
    pub start_of : Option ℕ → String → ℕ → Option ℕ
    start_of from path root =
        if P.absolute path then some root else elim from [ none ↦ some root | some e ↦ some e ]

    -- VFS::ResolvePath; `again` is its call for the target of a symbolic link.
    pub resolve_with : ℕ → Resolve → Resolve
    unfolding initialize resolve settle start_of
    resolve_with fuel again s from path links = do
      root ← root_entry fuel s
      r ← initialize fuel s (start_of from path root) path
      (answer, r') ← resolve fuel again path (plain_flags links) r
      settle fuel again links r'

    pub resolve_path : ℕ → Resolve
    unfolding resolve_with
    resolve_path zero s from path links = starved
    resolve_path (suc fuel) s from path links =
        resolve_with fuel (resolve_path fuel) s from path links
