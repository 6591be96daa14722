-- ===== src/Server/Register/Owner.antt =====
-- Registrations keep the owners of ids, and answer a stranger with a refusal.
use kinbridge_server.Prelude.{
  ◌≡◌, refl, Bool, true, false, String, Option, none, some, ◌==◌, nat_eq, string_eq, list_eq,
  if◌then◌else◌, arith, ◌⊎◌, inl, inr, is_empty, Bool-cases, ltb, ◌||◌,
}
use kinbridge_server.Net.{SocketAddr}
use kinbridge_server.Message.{
  RegisterPk, RegisterPeer, RegisterPkResult, uuid_mismatch, bytes_eq_iff,
}
use kinbridge_server.Env.{Env, Ctx}
use kinbridge_server.Blocker.{IpBlockMap, check_ip_blocker}
use Prim.Native.String.{len}
use kinbridge_server.Peers.{Peer, PeerMap, LockPeer, RegPk, write, get_or, get_in_memory}
use kinbridge_server.Peers.Valid.{IsValid}
use kinbridge_server.Peers.Owners.{
  Keeps, Keeps-refl, Keeps-trans, write-Keeps, get_or-Keeps, update_pk-Keeps,
}
use kinbridge_server.Server.State.{Local, Shared}
use kinbridge_server.Server.Send.{Status, done, failed, send_rk_res}
use kinbridge_server.Server.Send.Frame.{pm-send_udp}
use kinbridge_server.Server.Register.{
  compare_owner, next_reg_pk, accept_pk, limit_pk, compare_pk, register_found, admit_pk,
  handle_register_pk, refresh, has_moved, update_addr, send_config, handle_register_peer,
}

-- A registration that is not refused comes from the owner, or the Peer has none.
compare_owner-some :
    (p : Peer) (rk : RegisterPk) (ip : String) {c : Bool × Bool}
    → compare_owner p rk ip ≡ some c
    → (is_empty p.uuid ≡ true) ⊎ (rk.uuid ≡ p.uuid)
unfolding compare_owner
compare_owner-some p rk ip {c} e = elim (Bool-cases (is_empty p.uuid)) [
  | inl h ↦ inl h
  | inr h ↦ inr (ground (arith, bytes_eq_iff p.uuid rk.uuid))
]

module _ (env : Env) (ctx : Ctx) (addr : SocketAddr) (rk : RegisterPk) (ip : String) where
  accept_pk-Keeps :
      (r : LockPeer) (changed ip_changed : Bool) (req_pk : RegPk) (s : Shared)
      → IsValid s.pm
      → (is_empty (s.pm.cell r).uuid ≡ true) ⊎ (rk.uuid ≡ (s.pm.cell r).uuid)
      → Keeps s.pm (accept_pk env ctx addr rk ip r changed ip_changed req_pk s).pm
  unfolding accept_pk
  accept_pk-Keeps r false ip_changed req_pk s v h = write-Keeps r _ s.pm v (inr refl)
  accept_pk-Keeps r true ip_changed req_pk s v h =
      let p : Peer = record (s.pm.cell r) { reg_pk = req_pk } in
      let first : Keeps s.pm (write r p s.pm) = write-Keeps r p s.pm v (inr refl) in
      Keeps-trans first (
        update_pk-Keeps env ctx rk.id r addr rk.uuid rk.pk ip (write r p s.pm) first.valid
          (ground arith))

  limit_pk-Keeps :
      (r : LockPeer) (c : Bool × Bool) (o : Option RegPk) (s : Shared)
      → IsValid s.pm
      → (is_empty (s.pm.cell r).uuid ≡ true) ⊎ (rk.uuid ≡ (s.pm.cell r).uuid)
      → Keeps s.pm (limit_pk env ctx addr rk ip r c o s).1.pm
  unfolding limit_pk
  limit_pk-Keeps r c none s v h = rw (pm-send_udp) (Keeps-refl s.pm v)
  limit_pk-Keeps r (changed, ip_changed) (some q) s v h =
      rw (pm-send_udp) (accept_pk-Keeps r changed ip_changed q s v h)

  compare_pk-Keeps :
      (r : LockPeer) (o : Option (Bool × Bool)) (s : Shared)
      → IsValid s.pm
      → compare_owner (s.pm.cell r) rk ip ≡ o
      → Keeps s.pm (compare_pk env ctx addr rk ip r o s).1.pm
  unfolding compare_pk
  compare_pk-Keeps r none s v h = rw (pm-send_udp) (Keeps-refl s.pm v)
  compare_pk-Keeps r (some c) s v h =
      limit_pk-Keeps r c (next_reg_pk ctx.now (s.pm.cell r).reg_pk) s v
        (compare_owner-some (s.pm.cell r) rk ip h)

  admit_pk-Keeps :
      (b : Bool × IpBlockMap) (s : Shared)
      → IsValid s.pm
      → Keeps s.pm (admit_pk env ctx addr rk ip b s).1.pm
  unfolding admit_pk register_found
  admit_pk-Keeps (false, blocker) s v = rw (pm-send_udp) (Keeps-refl s.pm v)
  admit_pk-Keeps (true, blocker) s v =
      let k : Keeps s.pm (get_or env ctx rk.id s.pm).1 = get_or-Keeps env ctx rk.id s.pm v in
      Keeps-trans k (
        compare_pk-Keeps (get_or env ctx rk.id s.pm).0 _
          (record s { ip_blocker = blocker; pm = (get_or env ctx rk.id s.pm).1 }) k.valid refl)

Keeps-if :
    (pm : PeerMap) (b : Bool) (x y : Status × Shared)
    → Keeps pm x.1.pm
    → Keeps pm y.1.pm
    → Keeps pm (if b then x else y).1.pm
Keeps-if pm true x y kx ky = kx
Keeps-if pm false x y kx ky = ky

send_rk_res-Keeps :
    (ctx : Ctx) (addr : SocketAddr) (res : RegisterPkResult) (s : Shared)
    → IsValid s.pm
    → Keeps s.pm (send_rk_res ctx addr res s).1.pm
unfolding send_rk_res
send_rk_res-Keeps ctx addr res s v = rw pm-send_udp (Keeps-refl s.pm v)

-- A RegisterPk keeps every owner.
pub handle_register_pk-Keeps :
    (env : Env) (ctx : Ctx) (addr : SocketAddr) (rk : RegisterPk) (s : Shared)
    → IsValid s.pm
    → Keeps s.pm (handle_register_pk env ctx addr rk s).1.pm
unfolding handle_register_pk
handle_register_pk-Keeps env ctx addr rk s v =
    Keeps-if s.pm (is_empty rk.uuid || is_empty rk.pk) _ _ (Keeps-refl s.pm v) (
      Keeps-if s.pm (ltb (len rk.id) 6) _ _ (send_rk_res-Keeps ctx addr uuid_mismatch s v) (
        admit_pk-Keeps env ctx addr rk (env.show_ip addr.ip)
          (check_ip_blocker ctx.now (env.show_ip addr.ip) rk.id s.ip_blocker) s v))

Keeps-branch :
    (pm : PeerMap) (b : Bool) (x y : Bool × PeerMap)
    → Keeps pm x.1
    → Keeps pm y.1
    → Keeps pm (if b then x else y).1
Keeps-branch pm true x y kx ky = kx
Keeps-branch pm false x y kx ky = ky

refresh-Keeps :
    (env : Env) (ctx : Ctx) (addr : SocketAddr) (o : Option LockPeer) (pm : PeerMap)
    → IsValid pm
    → Keeps pm (refresh env ctx addr o pm).1
unfolding refresh
refresh-Keeps env ctx addr none pm v = Keeps-refl pm v
refresh-Keeps env ctx addr (some r) pm v =
    Keeps-branch pm (is_empty (pm.cell r).pk || has_moved env (pm.cell r) addr) _ _
      (Keeps-refl pm v) (write-Keeps r _ pm v (inr refl))

update_addr-Keeps :
    (env : Env) (ctx : Ctx) (id : String) (addr : SocketAddr) (s : Shared)
    → IsValid s.pm
    → Keeps s.pm (update_addr env ctx id addr s).1.pm
unfolding update_addr
update_addr-Keeps env ctx id addr s v =
    rw pm-send_udp (refresh-Keeps env ctx addr (get_in_memory id s.pm) s.pm v)

send_config-pm :
    (ctx : Ctx) (l : Local) (addr : SocketAddr) (rp : RegisterPeer) (o : Status × Shared)
    → (send_config ctx l addr rp o).1.pm ≡ o.1.pm
unfolding send_config
send_config-pm ctx l addr rp (failed, s) = refl
send_config-pm ctx l addr rp (done, s) = ground arith

-- A RegisterPeer keeps every owner.
pub handle_register_peer-Keeps :
    (env : Env) (ctx : Ctx) (l : Local) (addr : SocketAddr) (rp : RegisterPeer) (s : Shared)
    → IsValid s.pm
    → Keeps s.pm (handle_register_peer env ctx l addr rp s).1.pm
unfolding handle_register_peer
handle_register_peer-Keeps env ctx l addr rp s v =
    Keeps-if s.pm (rp.id == "") _ _ (Keeps-refl s.pm v) (
      rw (send_config-pm ctx l addr rp (update_addr env ctx rp.id addr s))
        (update_addr-Keeps env ctx rp.id addr s v))
