-- ===== src/Examples/Utils.antt =====
-- The theorems on rustdesk-utils, at a concrete network and concrete signatures.
use kinbridge_server.Prelude.{refl, [], ◌∷◌, none, some, string_eq}
use kinbridge_server.Net.{v4}
use kinbridge_server.Common.Keys.{gen_sk}
use kinbridge_server.Utils.{Signing}
use kinbridge_server.Utils.Keys.{SigningLaws, HoldsValid, gen_sk-HoldsValid}
use kinbridge_server.Utils.Doctor.{Network}
use kinbridge_server.Utils.Doctor.Lookups.{IsOrderly, Resolves}
use kinbridge_server.Utils.Main.{main}
use kinbridge_server.Utils.Main.Safe.{main-IsOrderly}
use kinbridge_server.Examples.Keys.{crypto, crypto-CryptoLaws, works, empty}

-- A signed message is the message.
abbrev signing : Signing
signing = record { sign = λ m sk. m; verify = λ m pk. some m }

signing-SigningLaws : SigningLaws crypto signing
signing-SigningLaws = record { length-pk = λ i. refl; verify-sign = λ i m. refl }

gen_sk-HoldsValid_example : HoldsValid crypto signing (gen_sk crypto works 0 0 empty).1
gen_sk-HoldsValid_example =
    gen_sk-HoldsValid crypto signing crypto-CryptoLaws signing-SigningLaws works 0 empty refl refl
      refl refl refl

-- Every name and address is the same host, of which one port is open.
abbrev net : Network
net = record {
  parse_ip = λ s. none;
  show_ip = λ ip. "1.2.3.4";
  lookup_host = λ name. some (v4 16_909_060 ∷ []);
  lookup_addr = λ ip. some "host";
  connects = λ s. none;
  lower = λ c. "?";
}

net-Resolves : Resolves net
net-Resolves = record { found_host = λ name e. cc; found_addr = λ ip e. cc }

main-IsOrderly_example :
    IsOrderly
      (main net crypto signing (crypto.gen_keypair 0) ("utils" ∷ "validatekeypair" ∷ "a" ∷ []))
main-IsOrderly_example =
    main-IsOrderly net crypto signing (crypto.gen_keypair 0) net-Resolves
      ("utils" ∷ "validatekeypair" ∷ "a" ∷ [])
