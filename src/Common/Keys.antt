-- ===== src/Common/Keys.antt =====
-- src/common.rs, `gen_sk`: the key pair of the servers, from its files, or made and written to them.
-- base64 and sodiumoxide's `sign` are parameters (Crypto), and so is what the file system allows (Io).
pub mod Drawn
pub mod Stored
use kinbridge_server.Prelude.{
  ℕ, zero, suc, ◌+◌, ◌≡◌, ◌⊎◌, Bool, true, false, not, ◌&&◌, ◌||◌, String, Option, none, some,
  length, drop, eqb, ltb, if◌then◌else◌,
}
use kinbridge_server.Message.{Bytes}
use kinbridge_server.Common.Text.{contains_char, trim}

pub record KeyPair : Type 0 where
  pub pk : Bytes
  pub sk : Bytes

-- `gen_keypair i` is the result of the i-th call.
pub record Crypto : Type 0 where
  pub encode : Bytes → String
  pub decode : String → Option Bytes
  pub gen_keypair : ℕ → KeyPair

-- Documented behaviour: base64 has no white space and is decoded to what was encoded, and an ed25519
-- secret key has 64 bytes, the last 32 of them the public key.
pub record CryptoLaws (c : Crypto) : Type 0 where
  pub decode-encode : (b : Bytes) → c.decode (c.encode b) ≡ some b
  pub trim-encode : (b : Bytes) → trim (c.encode b) ≡ c.encode b
  pub length-sk : (i : ℕ) → length (c.gen_keypair i).sk ≡ 64
  pub drop-sk : (i : ℕ) → drop 32 (c.gen_keypair i).sk ≡ (c.gen_keypair i).pk

-- The files id_ed25519 and id_ed25519.pub, in the working directory.
pub record Disk : Type 0 where
  pub secret : Option String
  pub public : Option String

-- `partial` is what a failed write leaves of a text, and `meanwhile` what other processes do to the
-- files during the wait.
pub record Io : Type 0 where
  pub opens : Bool
  pub reads : Bool
  pub creates_public : Bool
  pub writes_public : Bool
  pub creates_secret : Bool
  pub writes_secret : Bool
  pub partial : String → String
  pub meanwhile : Disk → Disk

-- `exited` is the exit of the process, with a malformed key.
pub data Generated : Type 0 where
  exited : Generated
  returned : String → Option Bytes → Generated

exists : Option String → Bool
exists none = false
exists (some contents) = true

written : (String → String) → Bool → String → String
written partial ok text = if ok then text else partial text

module _ (c : Crypto) where
  -- `!pk.contains('/') && !pk.contains(':')`.
  unfoldable pub is_clean : ℕ → Bool
  unfolding contains_char
  is_clean i =
      let pk = c.encode (c.gen_keypair i).pk in
      not (contains_char b'/' pk) && not (contains_char b':' pk)

  -- At most `rounds` further pairs: which pair is used, the i-th being the one at hand.
  unfoldable pub draw : ℕ → ℕ → ℕ
  unfolding is_clean
  draw zero i = i
  draw (suc rounds) i = let further = draw rounds (i + 1) in if is_clean i then i else further

  -- A key of 64 bytes.
  unfoldable pub as_secret_key : Option Bytes → Option Bytes
  as_secret_key none = none
  as_secret_key (some sk) = if eqb (length sk) 64 then some sk else none

  read_key : Option Bytes → Generated
  read_key none = exited
  read_key (some sk) = returned (c.encode (drop 32 sk)) (some sk)

  -- The files of a new pair: the public key first, whatever becomes of its contents.
  unfoldable pub write_pair : Io → KeyPair → Disk → Generated × Disk
  unfolding written
  write_pair io pair d =
      let d_public : Disk = record d {
        public = some (written io.partial io.writes_public (c.encode pair.pk));
      } in
      let d_both : Disk = record d_public {
        secret = some (written io.partial io.writes_secret (c.encode pair.sk));
      } in
      if not io.creates_public
      then (returned "" none, d)
      else if not io.creates_secret
      then (returned "" none, d_public)
      else if io.writes_secret
      then (returned (c.encode pair.pk) (some pair.sk), d_both)
      else (returned "" none, d_both)

  -- `File::open` on the secret key: `none` is its failure.
  open_key : Io → ℕ → Disk → Option String → Generated × Disk
  unfolding write_pair draw read_key as_secret_key trim
  open_key io i d none = write_pair io (c.gen_keypair (draw 300 i)) d
  open_key io i d (some contents) =
      if io.opens
      then if io.reads
        then (read_key (as_secret_key (c.decode (trim contents))), d)
        else (returned "" none, d)
      else write_pair io (c.gen_keypair (draw 300 i)) d

  -- With `i` pairs made before.
  unfoldable pub gen_sk : Io → ℕ → ℕ → Disk → Generated × Disk
  unfolding open_key exists
  gen_sk io i wait d =
      let d' = if ltb 0 wait && not (exists d.secret) then io.meanwhile d else d in
      open_key io i d' d'.secret

-- The argument that asks for the key of the key files: no key itself, as "-" is no base64.
abbrev pub AsksForFile : Crypto → String → Type 0
AsksForFile c arg = (as_secret_key c (c.decode arg) ≡ none) × ((arg ≡ "-") ⊎ (arg ≡ "_"))
