-- ===== src/Utils/Doctor/Lookups.antt =====
-- What doctor makes of a resolver that fails.
use kinbridge_server.Prelude.{
  ◌≡◌, ◌≢◌, refl, String, List, [], ◌∷◌, Option, none, some, string_eq, length,
}
use kinbridge_server.Net.{IpAddr}
use kinbridge_server.Common.Text.{trim}
use kinbridge_server.Utils.Doctor.{
  Network, Run, returned, exited, panicked, then_run, to_lowercase, after_lookup, doctor_ip,
  doctor_ips, found_ips, doctor_named, doctor,
}

abbrev pub IsOrderly : Run → Type 0
IsOrderly r = r.1 ≢ panicked

pub then_run-IsOrderly : (r s : Run) → IsOrderly r → IsOrderly s → IsOrderly (then_run r s)
then_run-IsOrderly (lines, returned) s h k = k
then_run-IsOrderly (lines, exited) s h k = h
then_run-IsOrderly (lines, panicked) s h k = h

-- Every name and every address that is looked up is found.
pub record Resolves (net : Network) : Type 0 where
  pub found_host : (name : String) → net.lookup_host name ≢ none
  pub found_addr : (ip : IpAddr) → net.lookup_addr ip ≢ none

module _ (net : Network) (finds : Resolves net) where
  after_lookup-IsOrderly :
      (ip : IpAddr) (server_address o : Option String)
      → o ≢ none
      → IsOrderly (after_lookup net ip server_address o)
  unfolding after_lookup
  after_lookup-IsOrderly ip server_address none h = absurd (h refl)
  after_lookup-IsOrderly ip server_address (some name) h = λ e. cc

  doctor_ip-IsOrderly :
      (server_address : Option String) (ip : IpAddr) → IsOrderly (doctor_ip net server_address ip)
  unfolding doctor_ip
  doctor_ip-IsOrderly server_address ip =
      after_lookup-IsOrderly ip server_address (net.lookup_addr ip) (finds.found_addr ip)

  doctor_ips-IsOrderly :
      (server_address : String) (ips : List IpAddr) → IsOrderly (doctor_ips net server_address ips)
  unfolding doctor_ips
  doctor_ips-IsOrderly server_address [] = λ e. cc
  doctor_ips-IsOrderly server_address (ip ∷ ips) =
      then_run-IsOrderly (doctor_ip net (some server_address) ip)
        (doctor_ips net server_address ips) (doctor_ip-IsOrderly (some server_address) ip)
        (doctor_ips-IsOrderly server_address ips)

  found_ips-IsOrderly :
      (server_address : String) (o : Option (List IpAddr))
      → o ≢ none
      → IsOrderly (found_ips net server_address o)
  unfolding found_ips
  found_ips-IsOrderly server_address none h = absurd (h refl)
  found_ips-IsOrderly server_address (some ips) h = doctor_ips-IsOrderly server_address ips

  doctor_named-IsOrderly :
      (server_address : String) (o : Option IpAddr) → IsOrderly (doctor_named net server_address o)
  unfolding doctor_named
  doctor_named-IsOrderly server_address (some ip) = doctor_ip-IsOrderly none ip
  doctor_named-IsOrderly server_address none =
      found_ips-IsOrderly server_address (net.lookup_host server_address)
        (finds.found_host server_address)

  pub doctor-IsOrderly : (server_address : String) → IsOrderly (doctor net server_address)
  unfolding doctor
  doctor-IsOrderly server_address =
      doctor_named-IsOrderly (to_lowercase net (trim server_address)) _

-- For an IP address without a name, which the resolver then reports as an error, `doctor` panics:
-- whatever is listening there, it has printed no more than the four lines on the server's address.
pub doctor_panics :
    (net : Network) (server_address : String) (ip : IpAddr)
    → net.parse_ip (to_lowercase net (trim server_address)) ≡ some ip
    → net.lookup_addr ip ≡ none
    → ((doctor net server_address).1 ≡ panicked) × (length (doctor net server_address).0 ≡ 4)
unfolding doctor doctor_named doctor_ip after_lookup
doctor_panics net server_address ip e h = rw (e, h) (refl, refl)
