-- ===== src/Examples/Keys.antt =====
-- The theorems on the keys, at concrete files.
use Prim.Native.Char.{code}
use Prim.Native.String.{String}
use kinbridge_server.Prelude.{
  ℕ, zero, suc, ◌+◌, ◌≤◌, ◌<◌, ◌≡◌, ◌⊎◌, refl, ap, ◌∙◌, true, false, [], ◌∷◌, ◌++◌, Option, none,
  some, eqb, inl, inr, arith, if◌then◌else◌, string_eq,
}
use kinbridge_server.Message.{Bytes, PunchHoleRequest, unknown}
use kinbridge_server.Common.Text.{contains_char, is_whitespace}
use kinbridge_server.Common.Text.Words.{IsWord, trim-word}
use kinbridge_server.Common.Keys.{
  Crypto, CryptoLaws, Disk, Io, AsksForFile, is_clean, draw, as_secret_key, gen_sk,
}
use kinbridge_server.Common.Keys.Drawn.{draw-first}
use kinbridge_server.Server.Keys.{keyed, get_server_sk}
use kinbridge_server.Server.Punch.{punch_peer, handle_punch_hole_request}
use kinbridge_server.Server.Punch.Unkeyed.{lost_key_admits}
use kinbridge_server.RelayServer.Keys.{get_server_sk as relay_server_sk}
use kinbridge_server.Startup.{servers_share_key}
use kinbridge_server.Peers.{get}
use kinbridge_server.Env.Sample.{sample_env}
use kinbridge_server.Examples.{ctx, own, shared, addr_a}

-- A code of bytes: each in ones, with a full stop behind it.
abbrev unary : ℕ → String → String
unary zero s = String.◌∷◌ "." s
unary (suc n) s = String.◌∷◌ "1" (unary n s)

abbrev encode : Bytes → String
encode [] = ""
encode (b ∷ bytes) = unary b (encode bytes)

abbrev prepend : ℕ → Option Bytes → Option Bytes
prepend b none = none
prepend b (some bytes) = some (b ∷ bytes)

abbrev read_from : ℕ → String → Option Bytes
read_from zero String.[] = some []
read_from (suc k) String.[] = none
read_from k (String.◌∷◌ c s) =
    let more = read_from (suc k) s in
    let next = prepend k (read_from 0 s) in
    if eqb (code c) b'1' then more else if eqb (code c) b'.' then next else none

read_from-unary : (n k : ℕ) (s : String) → read_from k (unary n s) ≡ prepend (k + n) (read_from 0 s)
read_from-unary zero k s = ap (λ i. prepend i (read_from 0 s)) (omega arith)
read_from-unary (suc n) k s =
    read_from-unary n (suc k) s ∙ ap (λ i. prepend i (read_from 0 s)) (omega arith)

read_from-encode : (bytes : Bytes) → read_from 0 (encode bytes) ≡ some bytes
read_from-encode [] = refl
read_from-encode (b ∷ bytes) =
    read_from-unary b 0 (encode bytes)
    ∙ ap (prepend (0 + b)) (read_from-encode bytes)
    ∙ ap (λ i. prepend i (some bytes)) (omega arith)

unary-IsWord : (n : ℕ) (s : String) → IsWord s → IsWord (unary n s)
unfolding is_whitespace
unary-IsWord zero s h = (refl, refl, refl, h)
unary-IsWord (suc n) s h = (refl, refl, refl, unary-IsWord n s h)

encode-IsWord : (bytes : Bytes) → IsWord (encode bytes)
encode-IsWord [] = tt
encode-IsWord (b ∷ bytes) = unary-IsWord b (encode bytes) (encode-IsWord bytes)

abbrev repeat : ℕ → ℕ → Bytes
repeat zero b = []
repeat (suc n) b = b ∷ repeat n b

abbrev pub crypto : Crypto
crypto = record {
  encode = encode;
  decode = read_from 0;
  gen_keypair = λ i. record { pk = repeat 32 i; sk = repeat 32 0 ++ repeat 32 i };
}

pub crypto-CryptoLaws : CryptoLaws crypto
crypto-CryptoLaws = record {
  decode-encode = read_from-encode;
  trim-encode = λ b. trim-word (encode b) (encode-IsWord b);
  length-sk = λ i. refl;
  drop-sk = λ i. refl;
}

abbrev pub works : Io
works = record {
  opens = true;
  reads = true;
  creates_public = true;
  writes_public = true;
  creates_secret = true;
  writes_secret = true;
  partial = λ s. "";
  meanwhile = λ d. d;
}

abbrev pub empty : Disk
empty = record { secret = none; public = none }

abbrev full : Disk
full = record {
  secret = some (encode (crypto.gen_keypair 0).sk);
  public = some (encode (crypto.gen_keypair 0).pk);
}

asks_hyphen : AsksForFile crypto "-"
unfolding as_secret_key
asks_hyphen = (refl, inl refl)

asks_underline : AsksForFile crypto "_"
unfolding as_secret_key
asks_underline = (refl, inr refl)

hbbs_start :
    get_server_sk crypto works 0 empty "-"
    ≡ (keyed (encode (crypto.gen_keypair 0).pk) (some (crypto.gen_keypair 0).sk), full)
unfolding get_server_sk as_secret_key gen_sk draw is_clean contains_char
hbbs_start = refl

servers_share_key_example :
    relay_server_sk crypto works 3 full "_" ≡ (some (encode (crypto.gen_keypair 0).pk), full)
servers_share_key_example =
    servers_share_key crypto crypto-CryptoLaws works works 0 3 empty full "-" "_"
      (encode (crypto.gen_keypair 0).pk) (crypto.gen_keypair 0).sk asks_hyphen asks_underline
      hbbs_start refl refl

draw-first_example :
    (5 ≤ draw crypto 300 5)
    × (draw crypto 300 5 ≤ 305)
    × ((j : ℕ) → 5 ≤ j → j < draw crypto 300 5 → is_clean crypto j ≡ false)
    × ((is_clean crypto (draw crypto 300 5) ≡ true) ⊎ (draw crypto 300 5 ≡ 305))
draw-first_example = draw-first crypto 300 5

abbrev read_only : Io
read_only = record works { creates_public = false }

abbrev unkeyed_request : PunchHoleRequest
unkeyed_request = record { id = "b"; nat_type = unknown 0; licence_key = "" }

lost_key_admits_example :
    (get_server_sk crypto read_only 0 empty "-" ≡ (keyed "" none, empty))
    × (handle_punch_hole_request sample_env ctx own addr_a unkeyed_request "" false shared
        ≡ punch_peer sample_env ctx own addr_a unkeyed_request false
            (get sample_env ctx "b" shared.pm)
            shared)
lost_key_admits_example =
    lost_key_admits crypto read_only 0 empty "-" sample_env ctx own addr_a unkeyed_request false
      shared asks_hyphen refl refl
