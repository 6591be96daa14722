-- ===== src/Utils/Main.antt =====
-- `main` of rustdesk-utils: its commands, and what happens to their arguments.
pub mod Safe
use Prim.Native.String.{◌++◌ as append}
use kinbridge_server.Prelude.{
  ℕ, Bool, String, List, [], ◌∷◌, Option, none, some, leb, length, get_elem?, if◌then◌else◌, ◌==◌,
  string_eq,
}
use kinbridge_server.Common.Keys.{Crypto, KeyPair}
use kinbridge_server.Utils.{
  Signing, Validation, valid, undecoded_secret, short_secret, undecoded_public, short_public,
  invalid_pair, validate_keypair,
}
use kinbridge_server.Utils.Doctor.{
  Network, Run, Ending, returned, exited, panicked, then_run, to_lowercase, doctor,
}

print_help : Run
print_help = (
  "Usage:\n    rustdesk-utils [command]\n\nAvailable Commands:\n    genkeypair                                   Generate a new keypair\n    validatekeypair [public key] [secret key]    Validate an existing keypair\n    doctor [rustdesk-server]                     Check for server connection problems"
      ∷ [],
  exited,
)

error_then_help : String → Run
unfolding print_help
error_then_help msg = then_run (append "ERROR: " (append msg "\n") ∷ [], returned) print_help

run_genkeypair : Crypto → KeyPair → Run
run_genkeypair c pair = (
  append "Public Key:  " (c.encode pair.pk) ∷ append "Secret Key:  " (c.encode pair.sk) ∷ [],
  returned,
)

report : Validation → Run
report valid = ("Key pair is VALID" ∷ [], returned)
report undecoded_secret = ("Invalid secret key" ∷ [], exited)
report short_secret = ("Invalid Secret key" ∷ [], exited)
report undecoded_public = ("Invalid public key" ∷ [], exited)
report short_public = ("Invalid Public key" ∷ [], exited)
report invalid_pair = ("Key pair is INVALID" ∷ [], exited)

module _ (net : Network) (c : Crypto) (signing : Signing) (pair : KeyPair) where
  -- An index out of range panics.
  run_validate : Option String → Option String → Run
  unfolding report validate_keypair
  run_validate (some pk) (some sk) = report (validate_keypair signing c pk sk)
  run_validate (some pk) none = ([], panicked)
  run_validate none _ = ([], panicked)

  run_doctor : Option String → Run
  unfolding doctor
  run_doctor none = ([], panicked)
  run_doctor (some server_address) = doctor net server_address

  dispatch : String → List String → Run
  unfolding run_genkeypair run_validate run_doctor error_then_help print_help
  dispatch command args =
      if command == "genkeypair"
      then run_genkeypair c pair
      else if command == "validatekeypair"
      then then_run
          (if leb (length args) 3
            then error_then_help "You must supply both the public and the secret key"
            else ([], returned))
          (run_validate (get_elem? args 2) (get_elem? args 3))
      else if command == "doctor"
      then then_run
          (if leb (length args) 2
            then error_then_help "You must supply the rustdesk-server address"
            else ([], returned))
          (run_doctor (get_elem? args 2))
      else print_help

  run_command : Option String → List String → Run
  unfolding dispatch to_lowercase
  run_command none args = ([], panicked)
  run_command (some command) args = dispatch (to_lowercase net command) args

  -- The arguments begin with the name of the program. `pair` is what sign::gen_keypair returns.
  unfoldable pub main : List String → Run
  unfolding run_command print_help
  main args =
      then_run (if leb (length args) 1 then print_help else ([], returned))
        (run_command (get_elem? args 1) args)
