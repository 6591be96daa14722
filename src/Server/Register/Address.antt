-- ===== src/Server/Register/Address.antt =====
-- The address of a peer: a RegisterPeer moves it only within its IP address.
use kinbridge_server.Prelude.{
  ◌≡◌, ◌≢◌, true, false, String, some, nat_eq, string_eq, list_eq, arith, ◌⊎◌, inl, inr,
}
use kinbridge_server.Dict.{lookup}
use kinbridge_server.Net.{SocketAddr, is_loopback, ip_eq, ip_beq_iff}
use kinbridge_server.Env.{Env, Ctx}
use kinbridge_server.Peers.{PeerMap, LockPeer, write}
use kinbridge_server.Server.State.{Shared}
use kinbridge_server.Server.Send.Frame.{pm-send_udp}
use kinbridge_server.Server.Register.{has_moved, refresh, update_addr}

module _ (env : Env) (ctx : Ctx) (id : String) (addr : SocketAddr) where
  refresh_stays :
      (r : LockPeer) (pm : PeerMap)
      → ((pm.cell r).socket_addr.port ≡ 0 → ⊥)
      → (((refresh env ctx addr (some r) pm).1.cell r).socket_addr.ip ≡ (pm.cell r).socket_addr.ip)
        ⊎ (is_loopback addr.ip ≡ true)
  unfolding refresh has_moved write
  refresh_stays r pm h = ground (arith, ip_beq_iff addr.ip (pm.cell r).socket_addr.ip)

  -- A RegisterPeer from an address that is no loopback address leaves the IP address of a peer that
  -- has an address as it is.
  pub update_addr_stays :
      (r : LockPeer) (s : Shared)
      → lookup id s.pm.map ≡ some r
      → (s.pm.cell r).socket_addr.port ≢ 0
      → is_loopback addr.ip ≡ false
      → ((update_addr env ctx id addr s).1.pm.cell r).socket_addr.ip ≡ (s.pm.cell r).socket_addr.ip
  unfolding update_addr
  update_addr_stays r s e h b =
      rw (pm-send_udp, e) (elim (refresh_stays r s.pm h) [ inl stays ↦ stays | inr loop ↦ cc loop ])
