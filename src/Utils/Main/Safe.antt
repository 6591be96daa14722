-- ===== src/Utils/Main/Safe.antt =====
-- How rustdesk-utils ends.
use kinbridge_server.Prelude.{
  ◌≡◌, refl, Bool, true, false, String, List, [], ◌∷◌, leb, length, get_elem?, inl, inr, Bool-cases,
  if◌then◌else◌, ◌==◌, string_eq,
}
use kinbridge_server.Common.Keys.{Crypto, KeyPair}
use kinbridge_server.Utils.{
  Signing, Validation, valid, undecoded_secret, short_secret, undecoded_public, short_public,
  invalid_pair, validate_keypair,
}
use kinbridge_server.Utils.Doctor.{Network, Run, returned, exited, panicked, then_run, to_lowercase}
use kinbridge_server.Utils.Doctor.Lookups.{IsOrderly, Resolves, doctor-IsOrderly}
use kinbridge_server.Utils.Main.{
  print_help, error_then_help, run_genkeypair, report, run_validate, run_doctor, dispatch,
  run_command, main,
}

-- After a check that ends the program, what follows is not reached.
checked-IsOrderly :
    (b : Bool) (r s : Run)
    → r.1 ≡ exited
    → (b ≡ false → IsOrderly s)
    → IsOrderly (then_run (if b then r else ([], returned)) s)
checked-IsOrderly true (lines, returned) s e k = cc
checked-IsOrderly true (lines, exited) s e k = λ h. cc
checked-IsOrderly true (lines, panicked) s e k = cc
checked-IsOrderly false r s e k = k refl

report-IsOrderly : (v : Validation) → IsOrderly (report v)
unfolding report
report-IsOrderly valid = λ h. cc
report-IsOrderly undecoded_secret = λ h. cc
report-IsOrderly short_secret = λ h. cc
report-IsOrderly undecoded_public = λ h. cc
report-IsOrderly short_public = λ h. cc
report-IsOrderly invalid_pair = λ h. cc

module _ (net : Network) (c : Crypto) (signing : Signing) (pair : KeyPair)
    (finds : Resolves net) where
  run_validate-IsOrderly :
      (args : List String)
      → leb (length args) 3 ≡ false
      → IsOrderly (run_validate net c signing pair (get_elem? args 2) (get_elem? args 3))
  unfolding run_validate
  run_validate-IsOrderly [] h = cc
  run_validate-IsOrderly (a ∷ []) h = cc
  run_validate-IsOrderly (a ∷ b ∷ []) h = cc
  run_validate-IsOrderly (a ∷ b ∷ pk ∷ []) h = cc
  run_validate-IsOrderly (a ∷ b ∷ pk ∷ sk ∷ rest) h =
      report-IsOrderly (validate_keypair signing c pk sk)

  run_doctor-IsOrderly :
      (args : List String)
      → leb (length args) 2 ≡ false
      → IsOrderly (run_doctor net c signing pair (get_elem? args 2))
  unfolding run_doctor
  run_doctor-IsOrderly [] h = cc
  run_doctor-IsOrderly (a ∷ []) h = cc
  run_doctor-IsOrderly (a ∷ b ∷ []) h = cc
  run_doctor-IsOrderly (a ∷ b ∷ server_address ∷ rest) h = doctor-IsOrderly net finds server_address

  dispatch-IsOrderly :
      (command : String) (args : List String) → IsOrderly (dispatch net c signing pair command args)
  unfolding dispatch run_genkeypair error_then_help print_help
  dispatch-IsOrderly command args = elim (Bool-cases (command == "genkeypair")) [
    | inl e ↦ rw e (λ h. cc)
    | inr e ↦ elim (Bool-cases (command == "validatekeypair")) [
      | inl f ↦
          rw (e, f) (checked-IsOrderly (leb (length args) 3) _ _ refl (run_validate-IsOrderly args))
      | inr f ↦ elim (Bool-cases (command == "doctor")) [
        | inl g ↦
            rw (e, f, g)
              (checked-IsOrderly (leb (length args) 2) _ _ refl (run_doctor-IsOrderly args))
        | inr g ↦ rw (e, f, g) (λ h. cc)
      ]
    ]
  ]

  run_command-IsOrderly :
      (args : List String)
      → leb (length args) 1 ≡ false
      → IsOrderly (run_command net c signing pair (get_elem? args 1) args)
  unfolding run_command
  run_command-IsOrderly [] h = cc
  run_command-IsOrderly (a ∷ []) h = cc
  run_command-IsOrderly (a ∷ command ∷ rest) h =
      dispatch-IsOrderly (to_lowercase net command) (a ∷ command ∷ rest)

  -- Where every name and address that is looked up is found, no list of arguments, however short,
  -- makes rustdesk-utils panic: it returns, or exits with its message.
  pub main-IsOrderly : (args : List String) → IsOrderly (main net c signing pair args)
  unfolding main print_help
  main-IsOrderly args =
      checked-IsOrderly (leb (length args) 1) _ _ refl (run_command-IsOrderly args)
