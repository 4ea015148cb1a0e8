-- ===== src/Boot/CommandLine/Print.antt =====
-- Printed options, and what the parser makes of them.
use mathlib.Core.List.{append_assoc}
use cryptix_os.Boot.CommandLine.{
  CharOps, String, OptionMap, store, dash, equals_sign, split_at_equals, value_or_empty,
  store_argument, drop_first_quote, drop_last_quote, skip_space, take_word, parse_at, parse_from,
  parse_arguments,
}
use cryptix_os.Common.{
  ℕ, zero, suc, ◌+◌, ◌-◌, ◌≤◌, ◌≡◌, refl, sym, ap, ◌∙◌, false, some, List, [], ◌∷◌, ◌++◌, arith,
  ◌==◌, length, length-append, All,
}

abbrev pub Setting : Type 0
Setting = String × String

-- "-key=value " for each setting.
pub print_settings : List Setting → String
print_settings [] = []
print_settings ((k, v) ∷ ps) = dash ∷ (k ++ (equals_sign ∷ (v ++ (32 ∷ print_settings ps))))

pub store_all : List Setting → OptionMap → OptionMap
store_all [] options = options
store_all ((k, v) ∷ ps) options = store_all ps (store options k v)

drop_last-append :
    (xs : String) (y : ℕ) (ys : String)
    → drop_last_quote (xs ++ (y ∷ ys)) ≡ xs ++ drop_last_quote (y ∷ ys)
unfolding drop_last_quote
drop_last-append [] y ys = refl
drop_last-append (x ∷ []) y ys = refl
drop_last-append (x ∷ z ∷ xs) y ys = ap (λ s. x ∷ s) (drop_last-append (z ∷ xs) y ys)

keep_blank :
    (ps : List Setting)
    → drop_last_quote (print_settings ps) ≡ print_settings ps
    → drop_last_quote (32 ∷ print_settings ps) ≡ 32 ∷ print_settings ps
unfolding print_settings drop_last_quote
keep_blank [] h = refl
keep_blank (p ∷ ps) h = ap (λ s. 32 ∷ s) h

-- A text of settings ends with a blank, and so with no quote.
keep_last : (ps : List Setting) → drop_last_quote (print_settings ps) ≡ print_settings ps
unfolding print_settings drop_last_quote
keep_last [] = refl
keep_last ((k, v) ∷ ps) =
    let text = append_assoc (dash ∷ k) (equals_sign ∷ v) (32 ∷ print_settings ps) in
    ap drop_last_quote (sym text)
    ∙ drop_last-append ((dash ∷ k) ++ (equals_sign ∷ v)) 32 (print_settings ps)
    ∙ ap (λ s. ((dash ∷ k) ++ (equals_sign ∷ v)) ++ s) (keep_blank ps (keep_last ps))
    ∙ text

module _ (C : CharOps) where
  open C use {is_space, is_space-blank, is_space-dash}

  -- A key has neither spaces nor '=', a value has no spaces.
  abbrev pub IsSetting : Setting → Type 0
  IsSetting p =
      All (λ c. (is_space c ≡ false) × (c == equals_sign) ≡ false) p.0
      × All (λ c. is_space c ≡ false) p.1

  take_word-blank :
      (word rest : String)
      → All (λ c. is_space c ≡ false) word
      → take_word C (word ++ (32 ∷ rest)) ≡ (word, 32 ∷ rest)
  unfolding take_word
  take_word-blank [] rest a = rw is_space-blank refl
  take_word-blank (c ∷ word) rest (a, as_) = let ih = take_word-blank word rest as_ in simp (a, ih)

  split_setting :
      (k v : String)
      → All (λ c. (is_space c ≡ false) × (c == equals_sign) ≡ false) k
      → split_at_equals (k ++ (equals_sign ∷ v)) ≡ (k, some v)
  unfolding split_at_equals
  split_setting [] v a = refl
  split_setting (c ∷ k) v (a, as_) = let ih = split_setting k v as_ in let n = a.1 in simp (n, ih)

  -- The text of a setting, as one word and what follows it.
  setting_word :
      (k v rest : String)
      → k ++ (equals_sign ∷ (v ++ (32 ∷ rest))) ≡ (k ++ (equals_sign ∷ v)) ++ (32 ∷ rest)
  setting_word k v rest = sym (append_assoc k (equals_sign ∷ v) (32 ∷ rest))

  no_spaces :
      (k v : String)
      → All (λ c. (is_space c ≡ false) × (c == equals_sign) ≡ false) k
      → All (λ c. is_space c ≡ false) (equals_sign ∷ v)
      → All (λ c. is_space c ≡ false) (k ++ (equals_sign ∷ v))
  no_spaces [] v a b = b
  no_spaces (c ∷ k) v (a, as_) b = (a.0, no_spaces k v as_ b)

  parse_nothing : (fuel : ℕ) (options : OptionMap) → parse_from C fuel [] options ≡ options
  unfolding parse_from skip_space parse_at
  parse_nothing zero options = refl
  parse_nothing (suc fuel) options = refl

  skip_blank : (s : String) → skip_space C (32 ∷ s) ≡ skip_space C s
  unfolding skip_space
  skip_blank s = rw is_space-blank refl

  parse_blank :
      (fuel : ℕ) (s : String) (options : OptionMap)
      → parse_from C (suc fuel) (32 ∷ s) options ≡ parse_from C (suc fuel) s options
  unfolding parse_from
  parse_blank fuel s options = ap (λ x. parse_at C (parse_from C fuel) x options) (skip_blank s)

  parse_at-setting :
      (next : String → OptionMap → OptionMap) (k v rest : String) (options : OptionMap)
      → is_space equals_sign ≡ false
      → IsSetting (k, v)
      → parse_at C next (dash ∷ ((k ++ (equals_sign ∷ v)) ++ (32 ∷ rest))) options
        ≡ next (32 ∷ rest) (store options k v)
  unfolding parse_at store_argument value_or_empty
  parse_at-setting next k v rest options e (a, b) =
      let word = take_word-blank (k ++ (equals_sign ∷ v)) rest (no_spaces k v a (e, b)) in
      let split = split_setting k v a in simp (word, split)

  parse_setting :
      (fuel : ℕ) (k v rest : String) (options : OptionMap)
      → is_space equals_sign ≡ false
      → IsSetting (k, v)
      → parse_from C (suc fuel) (dash ∷ (k ++ (equals_sign ∷ (v ++ (32 ∷ rest))))) options
        ≡ parse_from C fuel (32 ∷ rest) (store options k v)
  unfolding parse_from skip_space
  parse_setting fuel k v rest options e p = rw is_space-dash (
      ap (λ s. parse_at C (parse_from C fuel) (dash ∷ s) options) (setting_word k v rest)
      ∙ parse_at-setting (parse_from C fuel) k v rest options e p)

  parse_print :
      (fuel : ℕ) (ps : List Setting) (options : OptionMap)
      → is_space equals_sign ≡ false
      → All IsSetting ps
      → length ps ≤ fuel
      → parse_from C (suc fuel) (print_settings ps) options ≡ store_all ps options
  unfolding print_settings store_all
  parse_print fuel [] options e a enough = parse_nothing (suc fuel) options
  parse_print zero (p ∷ ps) options e a enough = absurd (omega arith)
  parse_print (suc fuel) ((k, v) ∷ ps) options e (a, as_) enough =
      parse_setting (suc fuel) k v (print_settings ps) options e a
      ∙ parse_blank fuel (print_settings ps) (store options k v)
      ∙ parse_print fuel ps (store options k v) e as_ (omega arith)

  print_length : (ps : List Setting) → length ps + length ps ≤ length (print_settings ps)
  unfolding print_settings
  print_length [] = omega arith
  print_length ((k, v) ∷ ps) =
      let ih = print_length ps in
      let l : length (k ++ (equals_sign ∷ (v ++ (32 ∷ print_settings ps))))
          ≡ length k + suc (length v + suc (length (print_settings ps))) =
        length-append k (equals_sign ∷ (v ++ (32 ∷ print_settings ps)))
        ∙ ap (λ n. length k + suc n) (length-append v (32 ∷ print_settings ps)) in
      omega (arith, l, ih)

  -- Parsing settings that are printed as "-key=value " one behind the other stores each value under
  -- its key, in order, so that of two with the same key the later one counts, and changes no other
  -- option. A key has neither spaces nor '=', a value has no spaces, and '=' is no space.
  pub parse_arguments-print_settings :
      (ps : List Setting) (options : OptionMap)
      → is_space equals_sign ≡ false
      → All IsSetting ps
      → parse_arguments C (print_settings ps) options ≡ store_all ps options
  unfolding parse_arguments drop_first_quote print_settings drop_last_quote store_all
  parse_arguments-print_settings [] options e a = parse_nothing 0 options
  parse_arguments-print_settings ((k, v) ∷ ps) options e a =
      let s = print_settings ((k, v) ∷ ps) in
      let l = print_length ((k, v) ∷ ps) in
      let kept : drop_last_quote s ≡ s = keep_last ((k, v) ∷ ps) in
      let n : length s ≡ suc (length s - 1) = omega (arith, l) in
      ap (λ x. parse_from C (length x) x options) kept
      ∙ ap (λ x. parse_from C x s options) n
      ∙ parse_print (length s - 1) ((k, v) ∷ ps) options e a (omega (arith, l))
