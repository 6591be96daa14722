-- ===== src/Server/Punch/Networks.antt =====
-- The route between the networks: who is told to punch a hole, to answer with a local address, or to
-- use a relay.
use kinbridge_server.Prelude.{
  ◌≡◌, refl, Bool, true, false, not, xor, String, arith, if◌then◌else◌, inl, inr, ◌⊎◌,
}
use kinbridge_server.Net.{IpAddr, SocketAddr, v4, v6, ip_beq_iff}
use kinbridge_server.Env.{Env}
use kinbridge_server.Message.{NatTypeField, known, symmetric, fetch_local_addr, punch_hole}
use kinbridge_server.Server.State.{Local}
use kinbridge_server.Server.Relays.{is_lan}
use kinbridge_server.Server.Punch.{same_ip, route}

xor_cases : (p q : Bool) → ((xor p q ≡ true) × (p ≡ not q)) ⊎ ((xor p q ≡ false) × (p ≡ q))
unfolding xor
xor_cases true true = inr (refl, refl)
xor_cases true false = inl (refl, refl)
xor_cases false true = inl (refl, refl)
xor_cases false false = inr (refl, refl)

same_ip-eq : (i j : IpAddr) → same_ip i j ≡ true → i ≡ j
unfolding same_ip
same_ip-eq (v4 a) (v4 b) h = (ip_beq_iff (v4 a) (v4 b)).0 h
same_ip-eq (v6 a) (v6 b) h = (ip_beq_iff (v6 a) (v6 b)).0 h
same_ip-eq (v4 a) (v6 b) h = cc
same_ip-eq (v6 a) (v4 b) h = cc

-- One IP address is on one side of the network's border.
same_ip-is_lan : (l : Local) (a b : SocketAddr) → same_ip a.ip b.ip ≡ true → is_lan l a ≡ is_lan l b
unfolding is_lan
same_ip-is_lan l a b h = rw (same_ip-eq a.ip b.ip h) refl

module _ (env : Env) (l : Local) (always : Bool) (addr peer : SocketAddr) (nat : NatTypeField) where
  -- Between a client inside the server's network and one outside it the peer is told to punch a hole
  -- for a symmetric NAT, which makes it use a relay, and the relay server is the server's own local
  -- address if the peer is inside.
  pub route_crossing :
      (ws : Bool) (chosen : String)
      → xor (is_lan l peer) (is_lan l addr) ≡ true
      → route env l always addr peer nat ws chosen
        ≡ punch_hole (record {
          socket_addr = env.encode addr;
          nat_type = known symmetric;
          relay_server = if is_lan l peer then l.inner.local_ip else chosen;
        })
  unfolding route
  route_crossing ws chosen x =
      ground (arith, same_ip-is_lan l peer addr, xor_cases (is_lan l peer) (is_lan l addr))

  -- Between two clients inside the server's network that do not talk over WebSocket the peer is asked
  -- for its local address, and the relay server is the chosen one unless relays are always used.
  pub route_inside :
      (chosen : String)
      → is_lan l peer ≡ true
      → is_lan l addr ≡ true
      → route env l always addr peer nat false chosen
        ≡ fetch_local_addr (record {
          socket_addr = env.encode addr;
          relay_server = if always then l.inner.local_ip else chosen;
        })
  unfolding route
  route_inside chosen p a = ground (arith, xor_cases (is_lan l peer) (is_lan l addr))
