-- ===== src/Utils.antt =====
-- src/utils.rs: the command rustdesk-utils. What is printed is a list of lines.
pub mod Doctor
pub mod Keys
pub mod Main
use Prim.Native.Char.{Char, code}
use Prim.Native.String.{◌++◌ as append, char_at}
use kinbridge_server.Prelude.{
  ℕ, ◌-◌, Bool, ◌&&◌, String, List, [], ◌∷◌, ◌++◌, Option, none, some, leb, ltb, eqb, length,
  get_elem?, if◌then◌else◌, ◌==◌, string_eq, list_eq, nat_eq,
}
use kinbridge_server.Message.{Bytes}
use kinbridge_server.Common.Keys.{Crypto, KeyPair}

-- sodiumoxide's `sign` and `verify`: a signed message, and the message of one that is accepted.
pub record Signing : Type 0 where
  pub sign : Bytes → Bytes → Bytes
  pub verify : Bytes → Bytes → Option Bytes

pub data Validation : Type 0 where
  valid undecoded_secret short_secret undecoded_public short_public invalid_pair : Validation

-- b"This is meh."
abbrev test_data : Bytes
test_data = 84 ∷ 104 ∷ 105 ∷ 115 ∷ 32 ∷ 105 ∷ 115 ∷ 32 ∷ 109 ∷ 101 ∷ 104 ∷ 46 ∷ []

module _ (s : Signing) where
  check_verified : Option Bytes → Validation
  check_verified none = invalid_pair
  check_verified (some m) = if m == test_data then valid else invalid_pair

  check_public : Bytes → Option Bytes → Validation
  unfolding check_verified
  check_public sk none = undecoded_public
  check_public sk (some pk) =
      if eqb (length pk) 32
      then check_verified (s.verify (s.sign test_data sk) pk)
      else short_public

  check_secret : Option Bytes → Option Bytes → Validation
  unfolding check_public
  check_secret none pk = undecoded_secret
  check_secret (some sk) pk = if eqb (length sk) 64 then check_public sk pk else short_secret

  unfoldable pub validate_keypair : Crypto → String → String → Validation
  unfolding check_secret
  validate_keypair c pk sk = check_secret (c.decode sk) (c.decode pk)
