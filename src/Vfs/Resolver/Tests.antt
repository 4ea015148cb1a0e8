-- ===== src/Vfs/Resolver/Tests.antt =====
-- Small trees of directories, on which the laws are applied.
use mathlib.Core.Path.{subst}
use cryptix_os.Boot.CommandLine.{String, same_string}
use cryptix_os.Vfs.Entries.{
  Kind, directory, regular, symlink, done, starved, InodeOps, negative, is_symlink_kind, Entry,
  Store,
}
use cryptix_os.Vfs.Entries.Cache.{dir_bit, Within, Faithful, Clean, Coherent, same_string-eq}
use cryptix_os.Vfs.Resolver.{
  PathOps, segment_type, Resolution, slash, is_empty, ends_in_slash, start_of, resolve_path,
}
use cryptix_os.Vfs.Resolver.Walk.{walk, Plain, Agrees, Extends, resolve_path-Agrees}
use cryptix_os.Vfs.Resolver.Stuck.{SelfLink, resolve_path-SelfLink}
use cryptix_os.Vfs.Resolver.Mounts.{up}
use cryptix_os.Common.{
  ℕ, zero, suc, ◌<◌, ◌≡◌, refl, sym, ap, ◌∙◌, inl, inr, Bool, true, false, ◌&&◌, Option, none, some,
  List, [], ◌∷◌, arith, ◌==◌, if◌then◌else◌, Bool-cases,
}

abbrev put_first : ℕ → List String → List String
put_first c [] = (c ∷ []) ∷ []
put_first c (piece ∷ pieces) = (c ∷ piece) ∷ pieces

abbrev pieces : String → List String
pieces [] = [] ∷ []
pieces (c ∷ cs) = let rest = pieces cs in if c == 47 then [] ∷ rest else put_first c rest

abbrev starts_in_slash : String → Bool
starts_in_slash [] = false
starts_in_slash (c ∷ cs) = c == 47

abbrev paths : PathOps
paths = record {
  absolute = starts_in_slash;
  split = pieces;
  parent_path = λ path. path;
  base_name_of = λ path. path;
}

-- "a", "b", "l" and "a/b"
abbrev a_text : String
a_text = 97 ∷ []

abbrev b_text : String
b_text = 98 ∷ []

abbrev l_text : String
l_text = 108 ∷ []

abbrev a_b : String
a_b = 97 ∷ 47 ∷ 98 ∷ []

-- Node 0 has the directory "a", node 1, and the link "l" to itself, node 3; "a" has the file "b",
-- node 2.
abbrev child_of : ℕ → String → Option ℕ
unfolding same_string
child_of i name =
    if i == 0 && same_string name a_text
    then some 1
    else if i == 1 && same_string name b_text
    then some 2
    else if i == 0 && same_string name l_text
    then some 3
    else none

abbrev kind_of : ℕ → Kind
kind_of i = if i == 2 then regular else if i == 3 then symlink else directory

abbrev nodes : InodeOps ℕ
nodes = record {
  find = child_of;
  kind = kind_of;
  read_link = λ i. if i == 3 then some l_text else none;
}

abbrev root_of_all : Entry ℕ
root_of_all = record {
  name = slash;
  parent = none;
  gate = none;
  flags = record negative { bit1 = true };
  inode = some 0;
  children = λ _. none;
}

-- Nothing is mounted on the entry of any node here.
abbrev OpenNodes : ℕ → Type 0
OpenNodes _ = Unit

-- The root of all, entry 0, which has no node and on which the entry 1 is mounted.
abbrev gated : Entry ℕ
gated = record root_of_all {
  gate = some 1;
  flags = record negative { bit1 = true; mount = true };
  inode = none;
}

-- The link is cached as entry 2 below the root.
abbrev linked_root : Entry ℕ
linked_root = record root_of_all {
  children = λ name. if same_string name l_text then some 2 else none;
}

abbrev link_entry : Entry ℕ
link_entry = record {
  name = l_text;
  parent = some 1;
  gate = none;
  flags = record negative { bit1 = true; bit2 = true };
  inode = some 3;
  children = λ _. none;
}

abbrev fresh_entry : ℕ → Entry ℕ
fresh_entry zero = gated
fresh_entry (suc e) = root_of_all

-- Nothing is cached yet.
abbrev fresh : Store ℕ
fresh = record { root = 0; count = 2; entry = fresh_entry; hosts = 0 ∷ [] }

root-Clean : Clean nodes OpenNodes root_of_all
root-Clean = (refl, refl, λ i p. let q : ◌≡◌ {A = ℕ} 0 i = cc in ap (λ x. dir_bit (kind_of x)) q)

link-Clean : Clean nodes OpenNodes link_entry
link-Clean = (refl, refl, λ i p. let q : ◌≡◌ {A = ℕ} 3 i = cc in ap (λ x. dir_bit (kind_of x)) q)

fresh-Coherent :
    (e : ℕ) (name : String) (c : ℕ)
    → e < 2
    → (fresh.entry e).children name ≡ some c
    → Coherent nodes OpenNodes fresh e name c
fresh-Coherent zero name c h p = absurd (cc)
fresh-Coherent (suc e) name c h p = absurd (cc)

fresh-Clean : (e : ℕ) → Within nodes OpenNodes fresh e → Clean nodes OpenNodes (fresh.entry e)
fresh-Clean zero (h, i, (p, u)) = absurd (cc)
fresh-Clean (suc e) w = root-Clean

fresh-Faithful : Faithful nodes OpenNodes fresh
fresh-Faithful = record { rooted = omega arith; coherent = fresh-Coherent; clean = fresh-Clean }

fresh-Within : Within nodes OpenNodes fresh 1
fresh-Within = (omega arith, 0, (refl, tt))

a_b-Plain : Plain nodes OpenNodes 0 (a_text ∷ b_text ∷ [])
unfolding Plain segment_type same_string is_symlink_kind
a_b-Plain = (
  refl,
  λ j hit. (
    let q : ◌≡◌ {A = ℕ} 1 j = cc in ap (λ x. is_symlink_kind (kind_of x)) (sym q),
    tt,
    (refl, λ k hit'. tt),
  ),
)

resolve_path-Agrees_example :
    (found : Resolution) × (t : Store ℕ) × ((resolve_path paths nodes 3 fresh none a_b false
        ≡ done (found, t))
      × Extends nodes OpenNodes fresh t
      × Agrees nodes OpenNodes
          (walk nodes OpenNodes (ends_in_slash a_b) 0 (a_text ∷ b_text ∷ []))
          found.entry
          t)
unfolding is_empty same_string start_of
resolve_path-Agrees_example =
    resolve_path-Agrees nodes OpenNodes paths 0 fresh none a_b false 1 1 0 a_text (b_text ∷ [])
      fresh-Faithful refl fresh-Within refl refl refl refl fresh-Within refl a_b-Plain
      (λ f. absurd (cc))

abbrev linked_entry : ℕ → Entry ℕ
linked_entry zero = gated
linked_entry (suc zero) = linked_root
linked_entry (suc (suc e)) = link_entry

abbrev linked : Store ℕ
linked = record { root = 0; count = 3; entry = linked_entry; hosts = 0 ∷ [] }

linked-Coherent :
    (e : ℕ) (name : String) (c : ℕ)
    → e < 3
    → (linked.entry e).children name ≡ some c
    → Coherent nodes OpenNodes linked e name c
unfolding same_string
linked-Coherent zero name c h p = absurd (cc)
linked-Coherent (suc zero) name c h p = elim (Bool-cases (same_string name l_text)) [
  | inl same ↦
      let q : some 2 ≡ some c = sym (ap (λ b. if b then some 2 else none) same) ∙ p in
      let r : ◌≡◌ {A = ℕ} 2 c = cc in
      subst (λ x. Coherent nodes OpenNodes linked 1 name x) r
        (subst (λ x. Coherent nodes OpenNodes linked 1 x 2) (sym (same_string-eq name l_text same))
          (omega arith, 0, 3, (refl, refl, refl)))
  | inr other ↦
      let q : none ≡ some c = sym (ap (λ b. if b then some 2 else none) other) ∙ p in absurd (cc)
]
linked-Coherent (suc (suc e)) name c h p = absurd (cc)

linked-Clean : (e : ℕ) → Within nodes OpenNodes linked e → Clean nodes OpenNodes (linked.entry e)
linked-Clean zero (h, i, (p, u)) = absurd (cc)
linked-Clean (suc zero) w = root-Clean
linked-Clean (suc (suc e)) w = link-Clean

linked-Faithful : Faithful nodes OpenNodes linked
linked-Faithful = record { rooted = omega arith; coherent = linked-Coherent; clean = linked-Clean }

linked-SelfLink : SelfLink paths nodes OpenNodes linked 1 2 3 l_text l_text
unfolding same_string segment_type is_empty
linked-SelfLink = record {
  faithful = linked-Faithful;
  root = 1;
  gate = refl;
  above = (omega arith, 0, (refl, tt));
  below = (omega arith, 0, (refl, tt));
  cached = refl;
  within = (omega arith, 3, (refl, tt));
  up = refl;
  node = refl;
  link = refl;
  target = refl;
  single = refl;
  plain = refl;
  full = refl;
  deep = refl;
  relative = refl;
}

resolve_path-SelfLink_example : resolve_path paths nodes 7 linked (some 1) l_text true ≡ starved
resolve_path-SelfLink_example = resolve_path-SelfLink paths nodes OpenNodes 7 linked-SelfLink

-- Entry 1 is mounted on the root's entry 0, entry 3 on entry 2 below it.
abbrev mounted : Store ℕ
mounted = record {
  root = 0;
  count = 4;
  entry = λ e.
      if e == 0
      then record root_of_all { gate = some 1 }
      else if e == 1
      then record root_of_all { parent = some 0 }
      else if e == 2
      then record root_of_all { parent = some 1; gate = some 3 }
      else record root_of_all { parent = some 2 };
  hosts = 0 ∷ 2 ∷ [];
}
