-- ===== src/Utils/Keys.antt =====
-- Which key pairs are valid.
use kinbridge_server.Prelude.{ℕ, ◌≡◌, refl, true, String, none, some, length, list_eq, nat_eq}
use kinbridge_server.Message.{Bytes}
use kinbridge_server.Common.Keys.{Crypto, CryptoLaws, Disk, Io, draw, gen_sk}
use kinbridge_server.Common.Keys.Stored.{gen_sk-fresh}
use kinbridge_server.Utils.{
  Signing, valid, test_data, check_verified, check_public, check_secret, validate_keypair,
}

-- Documented behaviour of sodiumoxide: a public key has 32 bytes, and what the secret key of a pair
-- signs its public key accepts.
pub record SigningLaws (c : Crypto) (s : Signing) : Type 0 where
  pub length-pk : (i : ℕ) → length (c.gen_keypair i).pk ≡ 32
  pub verify-sign :
      (i : ℕ) (m : Bytes) → s.verify (s.sign m (c.gen_keypair i).sk) (c.gen_keypair i).pk ≡ some m

-- The two files hold a pair that the tool finds valid.
abbrev pub HoldsValid : Crypto → Signing → Disk → Type 0
HoldsValid c s d =
    (pk sk : String) × (d.public ≡ some pk)
    × (d.secret ≡ some sk)
    × (validate_keypair s c pk sk ≡ valid)

module _ (c : Crypto) (s : Signing) (laws : CryptoLaws c) (signs : SigningLaws c s) where
  generated_valid :
      (i : ℕ)
      → validate_keypair s c (c.encode (c.gen_keypair i).pk) (c.encode (c.gen_keypair i).sk) ≡ valid
  unfolding validate_keypair check_secret check_public check_verified
  generated_valid i =
      rw
        (
          laws.decode-encode (c.gen_keypair i).sk,
          laws.decode-encode (c.gen_keypair i).pk,
          laws.length-sk i,
          signs.length-pk i,
          signs.verify-sign i test_data,
        )
        refl

  -- A server that finds no key file, and can create and write both, leaves a pair in them that
  -- rustdesk-utils finds valid.
  pub gen_sk-HoldsValid :
      (io : Io) (i : ℕ) (d : Disk)
      → d.secret ≡ none
      → io.creates_public ≡ true
      → io.creates_secret ≡ true
      → io.writes_public ≡ true
      → io.writes_secret ≡ true
      → HoldsValid c s (gen_sk c io i 0 d).1
  gen_sk-HoldsValid io i d e cp cs wp ws =
      rw (gen_sk-fresh c io i d e cp cs wp ws) (_, _, refl, refl, generated_valid (draw c 300 i))
