-- ===== src/Server/Udp/Config.antt =====
-- The configuration: who may change it, and which way.
use kinbridge_server.Prelude.{
  ◌≡◌, refl, Bool, true, false, ◌&&◌, String, All, Option, some, none, ◌⊎◌, inl, inr, Bool-cases,
}
use kinbridge_server.Prelude.Int.{ltb_ℤ}
use kinbridge_server.Net.{SocketAddr, is_loopback}
use kinbridge_server.Common.{is_server}
use kinbridge_server.Common.Servers.{keep_servers-All}
use kinbridge_server.Env.{Env, Ctx}
use kinbridge_server.Message.{
  Message, Bytes, ConfigUpdate, register_peer, register_pk, punch_hole_request, punch_hole_sent,
  local_addr, configure_update, software_update,
}
use kinbridge_server.Server.State.{Local, Shared}
use kinbridge_server.Server.Udp.{handle_udp_message, handle_parsed, handle_udp, configured}

-- After a datagram the serial number is the same or a later one; the configuration is the same
-- unless the sender is a loopback address, and what it names as rendezvous servers are servers.
abbrev pub IsConfigured : Env → SocketAddr → Local → Local → Type 0
IsConfigured env addr l l' =
    (l' ≡ l)
    ⊎ ((is_loopback (env.try_into_v4 addr).ip ≡ true)
        × (ltb_ℤ l.inner.serial l'.inner.serial ≡ true)
        × All (λ x. is_server env x ≡ true) l'.rendezvous_servers
        × (l'.relay_servers ≡ l.relay_servers))

both : (b c : Bool) → b && c ≡ true → (b ≡ true) × (c ≡ true)
both true true e = (refl, refl)
both true false e = cc
both false c e = cc

configured-IsConfigured :
    (env : Env) (addr : SocketAddr) (cu : ConfigUpdate) (l : Local)
    → IsConfigured env addr l (configured env addr cu l)
unfolding configured
configured-IsConfigured env addr cu l =
    let b = is_loopback (env.try_into_v4 addr).ip in
    let c = ltb_ℤ l.inner.serial cu.serial in
    elim (Bool-cases (b && c)) [
      | inr e ↦ inl (rw e refl)
      | inl e ↦
          rw e
            (inr ((both b c e).0, (both b c e).1, keep_servers-All env cu.rendezvous_servers, refl))
    ]

module _ (env : Env) (ctx : Ctx) (l : Local) (key : String) (addr : SocketAddr) where
  handle_udp_message-IsConfigured :
      (m : Message) (s : Shared)
      → IsConfigured env addr l (handle_udp_message env ctx l key addr m s).1
  unfolding handle_udp_message
  handle_udp_message-IsConfigured (register_peer rp) s = inl refl
  handle_udp_message-IsConfigured (register_pk rk) s = inl refl
  handle_udp_message-IsConfigured (punch_hole_request ph) s = inl refl
  handle_udp_message-IsConfigured (punch_hole_sent phs) s = inl refl
  handle_udp_message-IsConfigured (local_addr la) s = inl refl
  handle_udp_message-IsConfigured (configure_update cu) s = configured-IsConfigured env addr cu l
  handle_udp_message-IsConfigured (software_update url) s = inl refl
  handle_udp_message-IsConfigured m s = inl refl

  handle_parsed-IsConfigured :
      (o : Option Message) (s : Shared)
      → IsConfigured env addr l (handle_parsed env ctx l key addr o s).1
  unfolding handle_parsed
  handle_parsed-IsConfigured none s = inl refl
  handle_parsed-IsConfigured (some m) s = handle_udp_message-IsConfigured m s

  -- After any datagram the configuration is as it was, or the sender's address is a loopback address,
  -- the serial number has grown, every rendezvous server has a name that resolves, and the relay
  -- servers are as they were.
  pub handle_udp-IsConfigured :
      (bytes : Bytes) (s : Shared)
      → IsConfigured env addr l (handle_udp env ctx l key addr bytes s).1
  unfolding handle_udp
  handle_udp-IsConfigured bytes s = handle_parsed-IsConfigured (env.parse_from_bytes bytes) s
