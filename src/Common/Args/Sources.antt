-- ===== src/Common/Args/Sources.antt =====
-- Where the value of an argument comes from.
use Prim.Native.Char.{Char, code}
use kinbridge_server.Prelude.{
  ◌≡◌, refl, sym, ap, ◌∙◌, Bool, true, false, String, List, [], ◌∷◌, Option, none, some, eqb,
  eq_iff, ◌==◌, string_eq, if◌then◌else◌, inl, inr, Bool-cases,
}
use kinbridge_server.Common.Text.{contains_char}
use kinbridge_server.Common.Args.{
  Vars, Launch, set_var, hyphens, to_uppercase, arg_name, set_section, given, or_empty,
  config_section, value_of, init_args,
}

true≢false : ◌≡◌ {A = Bool} true false → ⊥
true≢false e = cc

abbrev pub or_else : Option String → Option String → Option String
or_else none o = o
or_else (some v) o = some v

-- The last pair of a section that sets the variable.
abbrev pub last_value : (Char → String) → String → List (String × String) → Option String
last_value upper name [] = none
last_value upper name ((k, v) ∷ section) =
    or_else (last_value upper name section) (if arg_name upper k == name then some v else none)

or_else_assoc : (a b c : Option String) → or_else (or_else a b) c ≡ or_else a (or_else b c)
or_else_assoc none b c = refl
or_else_assoc (some v) b c = refl

or_else-if :
    (b : Bool) (v : String) (o : Option String)
    → or_else (if b then some v else none) o ≡ (if b then some v else o)
or_else-if true v o = refl
or_else-if false v o = refl

module _ (upper : Char → String) (name : String) where
  set_section-last :
      (section : List (String × String)) (vars : Vars)
      → set_section upper section vars name ≡ or_else (last_value upper name section) (vars name)
  unfolding set_section set_var
  set_section-last [] vars = refl
  set_section-last ((k, v) ∷ section) vars =
      let b = arg_name upper k == name in
      set_section-last section (set_var (arg_name upper k) v vars)
      ∙ ap (or_else (last_value upper name section)) (sym (or_else-if b v (vars name)))
      ∙ sym (or_else_assoc (last_value upper name section) (if b then some v else none) (vars name))

  -- The value of a variable after init_args is that of the last argument on the command line that
  -- sets it; where none does, of the last line of the config file that does; then of the file .env;
  -- and else it is what it was.
  pub init_args-precedence :
      (launch : Launch) (vars : Vars)
      → init_args upper launch vars name
        ≡ or_else (last_value upper name (given launch.args)) (
            or_else
              (last_value upper name (config_section launch (value_of "config" launch.args)))
              (or_else (last_value upper name (or_empty launch.env_file)) (vars name)))
  unfolding init_args
  init_args-precedence launch vars =
      let env_section = or_empty launch.env_file in
      let config = config_section launch (value_of "config" launch.args) in
      set_section-last (given launch.args) _
      ∙ ap (or_else (last_value upper name (given launch.args))) (
          set_section-last config (set_section upper env_section vars)
          ∙ ap (or_else (last_value upper name config)) (set_section-last env_section vars))

hyphens_none : (s : String) → contains_char b'_' (hyphens s) ≡ false
unfolding hyphens contains_char
hyphens_none String.[] = refl
hyphens_none (String.◌∷◌ c s) = elim (Bool-cases (eqb (code c) b'_')) [
  | inl e ↦ rw e (hyphens_none s)
  | inr e ↦ rw (e, e) (hyphens_none s)
]

module _ (upper : Char → String) (name : String) (underlined : contains_char b'_' name ≡ true) where
  arg_name-ne : (k : String) → (arg_name upper k == name) ≡ false
  unfolding arg_name
  arg_name-ne k = elim (Bool-cases (arg_name upper k == name)) [
    | inl e ↦
        let same : arg_name upper k ≡ name = (eq_iff (arg_name upper k) name).0 e in
        let none_in_it = hyphens_none (to_uppercase upper k) in
        absurd (true≢false (sym underlined ∙ ap (contains_char b'_') (sym same) ∙ none_in_it))
    | inr e ↦ e
  ]

  set_section-unseen :
      (section : List (String × String)) (vars : Vars)
      → set_section upper section vars name ≡ vars name
  unfolding set_section set_var
  set_section-unseen [] vars = refl
  set_section-unseen ((k, v) ∷ section) vars =
      set_section-unseen section (set_var (arg_name upper k) v vars) ∙ rw (arg_name-ne k) refl

  -- A variable with an underline in its name is out of the reach of the files and of the command line.
  pub init_args-unseen :
      (launch : Launch) (vars : Vars) → init_args upper launch vars name ≡ vars name
  unfolding init_args
  init_args-unseen launch vars =
      set_section-unseen (given launch.args) _
      ∙ set_section-unseen (config_section launch (value_of "config" launch.args)) _
      ∙ set_section-unseen (or_empty launch.env_file) vars
