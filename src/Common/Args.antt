-- ===== src/Common/Args.antt =====
-- src/common.rs, `init_args`, `arg_name` and `get_arg`: the arguments, as variables of the
-- environment. clap's reading of the command line and ini's of a file are parameters (Launch); the
-- upper case of a character beyond ASCII is one too, and set_var is used on names that it accepts.
pub mod Sources
use Prim.Native.Char.{Char, code}
use Prim.Native.String.{◌++◌ as append, char_at}
use kinbridge_server.Prelude.{
  ℕ, ◌-◌, Bool, ◌&&◌, String, List, [], ◌∷◌, Option, none, some, leb, ltb, eqb, if◌then◌else◌, ◌==◌,
  string_eq,
}

-- The variables of the environment.
abbrev pub Vars : Type 0
Vars = String → Option String

-- `std::env::set_var`.
unfoldable pub set_var : String → String → Vars → Vars
set_var key value vars name = if key == name then some value else vars name

-- `name.replace('_', "-")`.
hyphens : String → String
hyphens String.[] = ""
hyphens (String.◌∷◌ c s) =
    let rest = hyphens s in if eqb (code c) b'_' then String.◌∷◌ "-" rest else String.◌∷◌ c rest

-- An argument without a value sets nothing.
unfoldable pub given : List (String × Option String) → List (String × String)
given [] = []
given ((k, none) ∷ args) = given args
given ((k, some v) ∷ args) = (k, v) ∷ given args

module _ (upper : Char → String) where
  upper_char : Char → String
  upper_char c =
      if leb b'a' (code c) && leb (code c) b'z'
      then String.◌∷◌ (char_at "ABCDEFGHIJKLMNOPQRSTUVWXYZ" (code c - b'a')) ""
      else if ltb (code c) 128
      then String.◌∷◌ c ""
      else upper c

  to_uppercase : String → String
  unfolding upper_char
  to_uppercase String.[] = ""
  to_uppercase (String.◌∷◌ c s) = append (upper_char c) (to_uppercase s)

  unfoldable pub arg_name : String → String
  unfolding to_uppercase hyphens
  arg_name name = hyphens (to_uppercase name)

  -- `std::env::set_var(arg_name(k), v)` for each pair.
  unfoldable pub set_section : List (String × String) → Vars → Vars
  unfolding arg_name set_var
  set_section [] vars = vars
  set_section ((k, v) ∷ section) vars = set_section section (set_var (arg_name k) v vars)

-- The general section of the file .env, and of a file by its name, and the arguments that were
-- matched, each with its first value.
pub record Launch : Type 0 where
  pub env_file : Option (List (String × String))
  pub load_file : String → Option (List (String × String))
  pub args : List (String × Option String)

unfoldable pub or_empty : Option (List (String × String)) → List (String × String)
or_empty none = []
or_empty (some section) = section

-- `matches.value_of(name)`.
unfoldable pub value_of : String → List (String × Option String) → Option String
value_of name [] = none
value_of name ((k, v) ∷ args) = if k == name then v else value_of name args

pub config_section : Launch → Option String → List (String × String)
unfolding or_empty
config_section launch none = []
config_section launch (some file) = or_empty (launch.load_file file)

unfoldable pub init_args : (Char → String) → Launch → Vars → Vars
unfolding set_section or_empty config_section value_of given
init_args upper launch vars =
    let with_env = set_section upper (or_empty launch.env_file) vars in
    let with_config =
      set_section upper (config_section launch (value_of "config" launch.args)) with_env in
    set_section upper (given launch.args) with_config
