-- ===== src/Library/Strings.antt =====
-- Kernel/Library/KLibC/string.cpp. Memory is a family of bytes by address; objects lie within the
-- address space, so addresses do not wrap around.
mod Tests
pub mod Copy
pub mod Compare
pub mod Terminated
use cryptix_os.Common.Family.{update}
use cryptix_os.Common.{
  ℕ, zero, suc, ◌+◌, ◌-◌, ◌*◌, ◌/◌, ◌%◌, ◌^◌, ◌≤◌, ◌<◌, min, ◌≡◌, refl, sym, ap, ◌∙◌, ◌≢◌, ◌↔◌, ◌⊎◌,
  inl, inr, Bool, true, false, not, ◌&&◌, ◌||◌, Option, none, some, List, [], ◌∷◌, ◌++◌, map, arith,
  dec_lt, ℕ_discrete, ltb, leb, ◌==◌, if◌then◌else◌, ltb→lt, lt→ltb, le→not-ltb, not-ltb→le, leb→le,
  ==_iff, tests, Bool-cases, Option-cases, length, get_elem?, set, length-append, All, Inserted,
  here, there, Inserted-All, All-Inserted, All-map, u64_mod, add64, sub64, mul64, add64-eq_add,
  sub64-eq_sub, mul64-eq_mul, sub64-add64, add64-lt, add64_add, add64_add_right, apart_of_disjoint,
  apart_scaled, Errno, eperm, enoent, esrch, ebadf, eagain, enomem, efault, eexist, enotdir, einval,
  epipe, enosys, ℤ, pos, negsuc, i32_max, to_i32, to_i32_small, increment, is_negative, int_eq,
  pos_injective, Outcome, ok, err, panic, ◌>>=◌,
}

abbrev pub Bytes : Type 0
Bytes = ℕ → ℕ

-- for (usize i = first; i < first + rounds; i++) d[i] = s[i];
pub copy_up : ℕ → Bytes → ℕ → ℕ → ℕ → Bytes
copy_up zero m d s i = m
copy_up (suc rounds) m d s i = copy_up rounds (update m (d + i) (m (s + i))) d s (i + 1)

-- for (usize i = len; i > 0; i--) d[i - 1] = s[i - 1];
pub copy_down : ℕ → Bytes → ℕ → ℕ → Bytes
copy_down zero m d s = m
copy_down (suc len) m d s = copy_down len (update m (d + len) (m (s + len))) d s

pub memcpy : Bytes → ℕ → ℕ → ℕ → Bytes
memcpy m dest src len = copy_up len m dest src 0

pub memmove : Bytes → ℕ → ℕ → ℕ → Bytes
memmove m dest src len =
    if ltb dest src
    then copy_up len m dest src 0
    else if ltb src dest
    then copy_down len m dest src
    else m

pub fill : ℕ → Bytes → ℕ → ℕ → ℕ → Bytes
fill zero m d i byte = m
fill (suc rounds) m d i byte = fill rounds (update m (d + i) byte) d (i + 1) byte

-- `ch` is the int's bit pattern.
pub memset : Bytes → ℕ → ℕ → ℕ → Bytes
memset m dest ch len = fill len m dest 0 (ch % 256)

pub memcmp : ℕ → Bytes → ℕ → ℕ → ℤ
memcmp zero m p q = pos 0
memcmp (suc len) m p q =
    let rest = memcmp len m (p + 1) (q + 1) in
    if m p == m q then rest else if ltb (m p) (m q) then negsuc 0 else pos 1

-- The byte is compared with the whole int.
pub memchr : ℕ → Bytes → ℕ → ℤ → Option ℕ
memchr zero m p ch = none
memchr (suc len) m p ch =
    let rest = memchr len m (p + 1) ch in if int_eq (pos (m p)) ch then some p else rest

-- The loop of strlen, on fuel.
pub strlen : ℕ → Bytes → ℕ → ℕ → Option ℕ
strlen zero m str length = none
strlen (suc fuel) m str length =
    let rest = strlen fuel m str (length + 1) in if m (str + length) == 0 then some length else rest

-- A byte as a char, which is signed, moved up by 256.
pub signed : ℕ → ℕ
signed byte = if ltb byte 128 then byte + 256 else byte

pub difference : ℕ → ℕ → ℤ
difference a b =
    if leb (signed b) (signed a)
    then pos (signed a - signed b)
    else negsuc (signed b - signed a - 1)

-- The loop of strcmp, on fuel.
pub strcmp : ℕ → Bytes → ℕ → ℕ → Option ℤ
strcmp zero m a b = none
strcmp (suc fuel) m a b =
    let rest = strcmp fuel m (a + 1) (b + 1) in
    if not (m a == 0) && not (m b == 0) && m a == m b then rest else some (difference (m a) (m b))

-- The loop of strncmp, on fuel; `len--` wraps around at 0.
pub strncmp : ℕ → Bytes → ℕ → ℕ → ℕ → Option ℤ
strncmp zero m a b len = none
strncmp (suc fuel) m a b len =
    let rest = strncmp fuel m (a + 1) (b + 1) (sub64 len 1) in
    let same = not (m a == 0) && not (m b == 0) && m a == m b in
    let left = if same then sub64 len 1 else len in
    if same && ltb 0 len
    then rest
    else if not (left == 0)
    then some (difference (m a) (m b))
    else some (pos 0)
