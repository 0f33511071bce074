-- ===== src/Main/Arguments.antt =====
-- What main reads off the command line.
use mathlib.Core.List.{append-nil}
use http_storm.Common.{
  Bool, true, false, Bytes, codes, equal, List, [], ◌∷◌, ◌++◌, if◌then◌else◌, none, some, ◌≡◌, refl,
  ap, sym, ◌∙◌, All,
}
use http_storm.Main.{is_config, is_help, parse_args}

-- A command line without a request for help: options with their values, and arguments that main skips.
pub data Argument : Type 0 where
  path_option : Bool → Bytes → Argument
  skipped : Bytes → Argument

abbrev pub print_all : List Argument → List Bytes
print_all [] = []
print_all (path_option long value ∷ args) =
    (if long then codes "--config" else codes "-c") ∷ value ∷ print_all args
print_all (skipped arg ∷ args) = arg ∷ print_all args

abbrev pub last_path : Bytes → List Argument → Bytes
last_path path [] = path
last_path path (path_option long value ∷ args) = last_path value args
last_path path (skipped arg ∷ args) = last_path path args

abbrev pub IsSkipped : Argument → Type 0
IsSkipped (path_option long value) = Unit {0}
IsSkipped (skipped arg) = (is_config arg ≡ false) × (is_help arg ≡ false)

skip :
    (arg : Bytes) (rest : List Bytes) (path : Bytes)
    → is_config arg ≡ false
    → is_help arg ≡ false
    → parse_args (arg ∷ rest) path ≡ parse_args rest path
unfolding parse_args
skip arg [] path e f = rw f refl
skip arg (value ∷ rest) path e f = rw (e, f) refl

help : (rest : List Bytes) (path : Bytes) → parse_args (codes "--help" ∷ rest) path ≡ none
unfolding parse_args equal
help [] path = refl
help (value ∷ rest) path = refl

parse_args-append :
    (args : List Argument) (rest : List Bytes) (path : Bytes)
    → All IsSkipped args
    → parse_args (print_all args ++ rest) path ≡ parse_args rest (last_path path args)
unfolding parse_args equal
parse_args-append [] rest path h = refl
parse_args-append (path_option true value ∷ args) rest path (_, hs) =
    parse_args-append args rest value hs
parse_args-append (path_option false value ∷ args) rest path (_, hs) =
    parse_args-append args rest value hs
parse_args-append (skipped arg ∷ args) rest path ((e, f), hs) =
    skip arg (print_all args ++ rest) path e f ∙ parse_args-append args rest path hs

-- main takes the value of the last --config or -c of its command line, or the path of the default if there is
-- none, and skips what it does not know; a --help behind them makes it print the help and end, whatever follows.
pub parse_args-print_all :
    (args : List Argument) (path : Bytes)
    → All IsSkipped args
    → (parse_args (print_all args) path ≡ some (last_path path args))
      × ((rest : List Bytes) → parse_args (print_all args ++ codes "--help" ∷ rest) path ≡ none)
unfolding parse_args equal
parse_args-print_all args path h = (
  ap (λ (l : List Bytes). parse_args l path) (sym (append-nil (print_all args)))
      ∙ parse_args-append args [] path h,
  λ rest. parse_args-append args (codes "--help" ∷ rest) path h ∙ help rest (last_path path args),
)
