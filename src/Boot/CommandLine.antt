-- ===== src/Boot/CommandLine.antt =====
-- Kernel/Boot/CommandLine.cpp: the options of the kernel's command line. The string views are
-- Prism's and taken as lists of characters, the map of options as a function.
pub mod Print
mod Tests
use cryptix_os.Common.{
  ℕ, zero, suc, ◌+◌, ◌-◌, ◌*◌, ◌/◌, ◌%◌, ◌^◌, ◌≤◌, ◌<◌, min, ◌≡◌, refl, sym, ap, ◌∙◌, ◌≢◌, ◌↔◌, ◌⊎◌,
  inl, inr, Bool, true, false, not, ◌&&◌, ◌||◌, Option, none, some, List, [], ◌∷◌, ◌++◌, map, arith,
  dec_lt, ℕ_discrete, ltb, leb, ◌==◌, if◌then◌else◌, ltb→lt, lt→ltb, le→not-ltb, not-ltb→le, leb→le,
  ==_iff, tests, Bool-cases, Option-cases, length, get_elem?, set, length-append, All, Inserted,
  here, there, Inserted-All, All-Inserted, All-map, u64_mod, add64, sub64, mul64, add64-eq_add,
  sub64-eq_sub, mul64-eq_mul, sub64-add64, add64-lt, add64_add, add64_add_right, apart_of_disjoint,
  apart_scaled, Errno, eperm, enoent, esrch, ebadf, eagain, enomem, efault, eexist, enotdir, einval,
  epipe, enosys, eisdir, espipe, eoverflow, ℤ, pos, negsuc, i32_max, to_i32, to_i32_small,
  increment, to_u64, to_i64, add_i64, to_i64_small, add_i64-eq_add, is_negative, int_eq,
  pos_injective, Outcome, ok, err, panic, ◌>>=◌,
}

-- StringUtils::IsSpace of the Prism library.
pub record CharOps : Type 0 where
  pub is_space : ℕ → Bool
  pub is_space-blank : is_space 32 ≡ true
  pub is_space-dash : is_space 45 ≡ false

abbrev pub ascii : CharOps
ascii = record {
  is_space = λ c. c == 32 || leb 9 c && leb c 13;
  is_space-blank = refl;
  is_space-dash = refl;
}

abbrev pub String : Type 0
String = List ℕ

unfoldable pub same_string : String → String → Bool
same_string [] [] = true
same_string [] (_ ∷ _) = false
same_string (_ ∷ _) [] = false
same_string (c ∷ cs) (d ∷ ds) = let rest = same_string cs ds in if c == d then rest else false

abbrev pub OptionMap : Type 0
OptionMap = String → Option String

pub store : OptionMap → String → String → OptionMap
store options key value k = if same_string k key then some value else options k

-- '-', '=' and '"'
abbrev pub dash : ℕ
dash = 45

abbrev pub equals_sign : ℕ
equals_sign = 61

abbrev pub quote : ℕ
quote = 34

-- The argument's key and the value behind its first '='; none without one.
pub split_at_equals : String → String × Option String
split_at_equals [] = ([], none)
split_at_equals (c ∷ cs) =
    let (key, value) = split_at_equals cs in
    if c == equals_sign then ([], some cs) else (c ∷ key, value)

pub value_or_empty : Option String → String
value_or_empty none = []
value_or_empty (some value) = value

pub store_argument : OptionMap → String → OptionMap
store_argument options arg =
    let (key, value) = split_at_equals arg in store options key (value_or_empty value)

-- The tests for a quote at the start and at the end.
pub drop_first_quote : String → String
drop_first_quote [] = []
drop_first_quote (c ∷ cs) = if c == quote then cs else c ∷ cs

pub drop_last_quote : String → String
drop_last_quote [] = []
drop_last_quote (c ∷ []) = if c == quote then [] else c ∷ []
drop_last_quote (c ∷ d ∷ cs) = c ∷ drop_last_quote (d ∷ cs)

module _ (C : CharOps) where
  open C use {is_space}

  pub skip_space : String → String
  skip_space [] = []
  skip_space (c ∷ cs) = let rest = skip_space cs in if is_space c then rest else c ∷ cs

  -- The characters up to the next space, and the others.
  pub take_word : String → String × String
  take_word [] = ([], [])
  take_word (c ∷ cs) =
      let (word, rest) = take_word cs in if is_space c then ([], c ∷ cs) else (c ∷ word, rest)

  -- A round of ParseArguments from the first character that is no space; `next` is the rest of the
  -- loop.
  pub parse_at : (String → OptionMap → OptionMap) → String → OptionMap → OptionMap
  parse_at next [] options = options
  parse_at next (c ∷ cs) options =
      if c == dash
      then next (take_word cs).1 (store_argument options (take_word cs).0)
      else next cs options

  -- The loop of ParseArguments. Each round takes at least one character, so that their number is
  -- fuel enough.
  pub parse_from : ℕ → String → OptionMap → OptionMap
  parse_from zero s options = options
  parse_from (suc fuel) s options = parse_at (parse_from fuel) (skip_space s) options

  pub parse_arguments : String → OptionMap → OptionMap
  parse_arguments args options =
      let s = drop_last_quote (drop_first_quote args) in parse_from (length s) s options

-- "true" and "1"
abbrev pub true_text : String
true_text = 116 ∷ 114 ∷ 117 ∷ 101 ∷ []

abbrev pub one_text : String
one_text = 49 ∷ []

pub contains : OptionMap → String → Bool
contains options key = elim (options key) [ none ↦ false | some _ ↦ true ]

pub get_boolean : OptionMap → String → Option Bool
get_boolean options key = elim (options key) [
  | none ↦ none
  | some value ↦ some (same_string value true_text || same_string value one_text)
]

pub get_string : OptionMap → String → String
get_string options key = value_or_empty (options key)
