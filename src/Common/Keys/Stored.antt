-- ===== src/Common/Keys/Stored.antt =====
-- The key pair over several starts.
use kinbridge_server.Prelude.{
  ℕ, ◌≡◌, refl, ap, ◌∙◌, true, false, String, Option, none, some, ltb, Bool-cases, inl, inr,
}
use mathlib.Core.Path.{subst}
use kinbridge_server.Message.{Bytes}
use kinbridge_server.Common.Text.{trim}
use kinbridge_server.Common.Text.Words.{and_false}
use kinbridge_server.Common.Keys.{
  Crypto, CryptoLaws, Disk, Io, Generated, exited, returned, exists, written, draw, as_secret_key,
  read_key, write_pair, open_key, gen_sk,
}

-- The file of the secret key, when it is read, has the key that was returned.
abbrev Rereads : Crypto → Generated × Disk → Type 0
Rereads c (exited, d) = Unit
Rereads c (returned pk none, d) = Unit
Rereads c (returned pk (some sk), d) =
    (contents : String) × (d.secret ≡ some contents)
    × (read_key c (as_secret_key c (c.decode (trim contents))) ≡ returned pk (some sk))

module _ (c : Crypto) (laws : CryptoLaws c) where
  own_key :
      (i : ℕ)
      → read_key c (as_secret_key c (c.decode (trim (c.encode (c.gen_keypair i).sk))))
        ≡ returned (c.encode (c.gen_keypair i).pk) (some (c.gen_keypair i).sk)
  unfolding read_key as_secret_key
  own_key i =
      let sk = (c.gen_keypair i).sk in
      rw (laws.trim-encode sk, laws.decode-encode sk, laws.length-sk i, laws.drop-sk i) refl

  write_pair-Rereads :
      (io : Io) (i : ℕ) (d : Disk) → Rereads c (write_pair c io (c.gen_keypair i) d)
  unfolding write_pair written
  write_pair-Rereads io i d = elim (Bool-cases io.creates_public) [
    | inr e ↦ rw e tt
    | inl e ↦ elim (Bool-cases io.creates_secret) [
      | inr f ↦ rw (e, f) tt
      | inl f ↦ elim (Bool-cases io.writes_secret) [
        | inr g ↦ rw (e, f, g) tt
        | inl g ↦ rw (e, f, g) (_, refl, own_key i)
      ]
    ]
  ]

  read_key-Rereads :
      (o : Option Bytes) (contents : String) (d : Disk)
      → d.secret ≡ some contents
      → read_key c (as_secret_key c (c.decode (trim contents))) ≡ read_key c o
      → Rereads c (read_key c o, d)
  unfolding read_key
  read_key-Rereads none contents d e q = tt
  read_key-Rereads (some sk) contents d e q = (contents, e, q)

  open_key-Rereads :
      (io : Io) (i : ℕ) (d : Disk) (o : Option String)
      → d.secret ≡ o
      → Rereads c (open_key c io i d o)
  unfolding open_key
  open_key-Rereads io i d none e = write_pair-Rereads io (draw c 300 i) d
  open_key-Rereads io i d (some contents) e = elim (Bool-cases io.opens) [
    | inr f ↦ rw f (write_pair-Rereads io (draw c 300 i) d)
    | inl f ↦ elim (Bool-cases io.reads) [
      | inr g ↦ rw (f, g) tt
      | inl g ↦ rw (f, g) (read_key-Rereads _ contents d e refl)
    ]
  ]

  gen_sk-Rereads : (io : Io) (i wait : ℕ) (d : Disk) → Rereads c (gen_sk c io i wait d)
  unfolding gen_sk
  gen_sk-Rereads io i wait d = open_key-Rereads io (i) _ _ refl

  gen_sk-again :
      (io : Io) (i wait : ℕ) (d : Disk) (pk : String) (sk : Bytes)
      → Rereads c (returned pk (some sk), d)
      → io.opens ≡ true
      → io.reads ≡ true
      → gen_sk c io i wait d ≡ (returned pk (some sk), d)
  unfolding gen_sk open_key exists
  gen_sk-again io i wait d pk sk (contents, e, k) o r =
      rw (e, and_false (ltb 0 wait), o, r) (ap (λ g. (g, record d { secret = some contents })) k)

  -- A start that got a secret key, from its file or as a new pair, leaves it there: every later start
  -- that can open and read the file gets the same pair, and leaves the files as they are.
  pub keys_persist :
      (io later_io : Io) (i later_i wait later_wait : ℕ) (d after : Disk) (pk : String) (sk : Bytes)
      → gen_sk c io i wait d ≡ (returned pk (some sk), after)
      → later_io.opens ≡ true
      → later_io.reads ≡ true
      → gen_sk c later_io later_i later_wait after ≡ (returned pk (some sk), after)
  keys_persist io later_io i later_i wait later_wait d after pk sk e o r =
      gen_sk-again later_io later_i later_wait after pk sk
        (subst (Rereads c) e (gen_sk-Rereads io i wait d)) o r

pub gen_sk-unwritten :
    (c : Crypto) (io : Io) (i : ℕ) (d : Disk)
    → d.secret ≡ none
    → io.creates_public ≡ false
    → gen_sk c io i 0 d ≡ (returned "" none, d)
unfolding gen_sk open_key exists write_pair
gen_sk-unwritten c io i d e f = ap (λ o. open_key c io i d o) e ∙ rw f refl

-- Where there is no key and every file can be created and written, the files hold the drawn pair.
pub gen_sk-fresh :
    (c : Crypto) (io : Io) (i : ℕ) (d : Disk)
    → d.secret ≡ none
    → io.creates_public ≡ true
    → io.creates_secret ≡ true
    → io.writes_public ≡ true
    → io.writes_secret ≡ true
    → (gen_sk c io i 0 d).1 ≡ record {
      secret = some (c.encode (c.gen_keypair (draw c 300 i)).sk);
      public = some (c.encode (c.gen_keypair (draw c 300 i)).pk);
    }
unfolding gen_sk open_key write_pair written exists
gen_sk-fresh c io i d e cp cs wp ws = ap (λ o. (open_key c io i d o).1) e ∙ rw (cp, cs, wp, ws) refl
