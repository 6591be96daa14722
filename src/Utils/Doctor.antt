-- ===== src/Utils/Doctor.antt =====
-- `doctor`, which looks at a server from outside.
pub mod Lookups
use Prim.Native.Char.{Char, code}
use Prim.Native.String.{◌++◌ as append, char_at}
use kinbridge_server.Prelude.{
  ℕ, ◌-◌, Bool, true, false, ◌&&◌, String, List, [], ◌∷◌, ◌++◌, Option, none, some, leb, ltb,
  length, get_elem?, if◌then◌else◌, ◌==◌, string_eq, map,
}
use kinbridge_server.Net.{IpAddr, v4, v6}
use kinbridge_server.Common.Text.{trim}
use kinbridge_server.Common.Number.{show_nat}

-- The resolver, of names and of addresses (`none` is its failure), the milliseconds in which a
-- connection to a text of address and port succeeds, and the texts of an address. `lower` is the
-- lower case of a character beyond ASCII.
pub record Network : Type 0 where
  pub parse_ip : String → Option IpAddr
  pub show_ip : IpAddr → String
  pub lookup_host : String → Option (List IpAddr)
  pub lookup_addr : IpAddr → Option String
  pub connects : String → Option ℕ
  pub lower : Char → String

pub data Ending : Type 0 where
  -- `process::exit(1)`, and an `unwrap` or an index that panics.
  returned exited panicked : Ending

-- What was printed, and how it ended.
abbrev pub Run : Type 0
Run = List String × Ending

-- A run that goes on after it returned.
abbrev pub then_run : Run → Run → Run
then_run (lines, returned) (more, e) = (lines ++ more, e)
then_run (lines, exited) rest = (lines, exited)
then_run (lines, panicked) rest = (lines, panicked)

bool_text : Bool → String
bool_text true = "true"
bool_text false = "false"

is_v4 : IpAddr → Bool
is_v4 (v4 n) = true
is_v4 (v6 n) = false

is_v6 : IpAddr → Bool
is_v6 (v4 n) = false
is_v6 (v6 n) = true

-- The six ports, and what listens there.
abbrev ports : List (String × String)
ports =
    ("21114", "API")
    ∷ ("21115", "hbbs extra port for nat test")
    ∷ ("21116", "hbbs")
    ∷ ("21117", "hbbr tcp")
    ∷ ("21118", "hbbs websocket")
    ∷ ("21119", "hbbr websocket")
    ∷ []

tcp_result : Option ℕ → String
unfolding show_nat
tcp_result none = "): ERROR"
tcp_result (some ms) = append "): OK in " (append (show_nat ms) " ms")

reverse_text : String → Option String → List String
reverse_text name none = []
reverse_text name (some server_address) =
    if name == server_address
    then append "Reverse DNS lookup: '" (append name "' MATCHES server address") ∷ []
    else append "Reverse DNS lookup: '"
        (append name (append "' DOESN'T MATCH server address '" (append server_address "'")))
      ∷ []

module _ (net : Network) where
  -- An IPv6 address stands without brackets in front of the port.
  unfoldable pub doctor_tcp : IpAddr → String × String → String
  unfolding tcp_result
  doctor_tcp address (port, desc) = append "TCP Port " (
      append port (
        append " (" (
          append desc
            (tcp_result (net.connects (append (net.show_ip address) (append ":" port)))))))

  after_lookup : IpAddr → Option String → Option String → Run
  unfolding reverse_text doctor_tcp
  after_lookup ip server_address none = ([], panicked)
  after_lookup ip server_address (some name) =
      (reverse_text name server_address ++ map (doctor_tcp ip) ports, returned)

  unfoldable pub doctor_ip : Option String → IpAddr → Run
  unfolding after_lookup bool_text is_v4 is_v6
  doctor_ip server_address ip =
      then_run
        (
          append "\nChecking IP address: " (net.show_ip ip)
              ∷ append "Is IPV4: " (bool_text (is_v4 ip))
              ∷ append "Is IPV6: " (bool_text (is_v6 ip))
              ∷ [],
          returned,
        )
        (after_lookup ip server_address (net.lookup_addr ip))

  -- `ips.iter().for_each(..)`.
  doctor_ips : String → List IpAddr → Run
  unfolding doctor_ip
  doctor_ips server_address [] = ([], returned)
  doctor_ips server_address (ip ∷ ips) =
      then_run (doctor_ip (some server_address) ip) (doctor_ips server_address ips)

  found_ips : String → Option (List IpAddr) → Run
  unfolding doctor_ips show_nat
  found_ips server_address none = ([], panicked)
  found_ips server_address (some ips) =
      then_run
        (
          append "Found " (append (show_nat (length ips)) " IP addresses: ")
              ∷ map (λ ip. append " - " (net.show_ip ip)) ips,
          returned,
        )
        (doctor_ips server_address ips)

  doctor_named : String → Option IpAddr → Run
  unfolding doctor_ip found_ips
  doctor_named server_address (some ip) = doctor_ip none ip
  doctor_named server_address none = found_ips server_address (net.lookup_host server_address)

  lower_char : Char → String
  lower_char c =
      if leb b'A' (code c) && leb (code c) b'Z'
      then String.◌∷◌ (char_at "abcdefghijklmnopqrstuvwxyz" (code c - b'A')) ""
      else if ltb (code c) 128
      then String.◌∷◌ c ""
      else net.lower c

  unfoldable pub to_lowercase : String → String
  unfolding lower_char
  to_lowercase String.[] = ""
  to_lowercase (String.◌∷◌ c s) = append (lower_char c) (to_lowercase s)

  unfoldable pub doctor : String → Run
  unfolding doctor_named to_lowercase trim
  doctor server_address_unclean =
      let server_address = to_lowercase (trim server_address_unclean) in
      then_run (append "Checking server:  " (append server_address "\n") ∷ [], returned)
        (doctor_named server_address (net.parse_ip server_address))
