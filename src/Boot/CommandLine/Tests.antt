-- ===== src/Boot/CommandLine/Tests.antt =====
-- A command line of two options, on which the laws are applied.
use cryptix_os.Boot.CommandLine.{OptionMap, ascii, parse_arguments}
use cryptix_os.Boot.CommandLine.Print.{
  Setting, print_settings, store_all, parse_arguments-print_settings,
}
use cryptix_os.Common.{◌≡◌, refl, none, List, [], ◌∷◌}

abbrev no_options : OptionMap
no_options key = none

-- -tty=1 -ab=true
abbrev two_settings : List Setting
two_settings = (116 ∷ 116 ∷ 121 ∷ [], 49 ∷ []) ∷ (97 ∷ 98 ∷ [], 116 ∷ 114 ∷ 117 ∷ 101 ∷ []) ∷ []

parse_arguments-print_settings_example :
    parse_arguments ascii (print_settings two_settings) no_options
    ≡ store_all two_settings no_options
parse_arguments-print_settings_example =
    parse_arguments-print_settings ascii two_settings no_options refl (
      (((refl, refl), ((refl, refl), ((refl, refl), tt))), (refl, tt)),
      ((((refl, refl), ((refl, refl), tt)), (refl, (refl, (refl, (refl, tt))))), tt),
    )
