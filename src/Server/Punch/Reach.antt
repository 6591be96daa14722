-- ===== src/Server/Punch/Reach.antt =====
-- From a registration to a request: who registered can be reached for thirty seconds.
use kinbridge_server.Prelude.{
  ℕ, ◌+◌, ◌≤◌, ◌<◌, ◌≡◌, ap, ◌∙◌, Bool, true, String, some, nat_eq, string_eq, arith, ◌⊎◌, inl, inr,
  if◌then◌else◌,
}
use kinbridge_server.Dict.{lookup}
use kinbridge_server.Net.{SocketAddr}
use kinbridge_server.Env.{Env, Ctx}
use kinbridge_server.Message.{Bytes, Failure, offline, PunchHoleRequest}
use kinbridge_server.Peers.{PeerMap, LockPeer, get, get_or, update_pk}
use kinbridge_server.Peers.Race.{get_or-canonical}
use kinbridge_server.Peers.Stored.{IsRegistered, update_pk-stored, get-cached}
use kinbridge_server.Time.{elapsed, as_millis, elapsed_millis_i32}
use kinbridge_server.Server.State.{Local, Shared}
use kinbridge_server.Server.Punch.{handle_punch_hole_request}
use kinbridge_server.Server.Punch.Answer.{is_recent, is_recent_wraps, verdict, punch-Follows}

soon_is_recent : (now later : ℕ) → later < now + 30_000_000_000 → is_recent later now ≡ true
unfolding elapsed_millis_i32
soon_is_recent now later h = ground arith

module _ (env : Env) (ctx : Ctx) (addr : SocketAddr) (uuid pk : Bytes) (ip : String) where
  -- After `update_pk` filled the Peer that `get_or` found for an id: as long as the id leads to that
  -- Peer and the Peer stays as it is, whatever else changes in the server, a request for the id less
  -- than thirty seconds later, with the server's key or to a server without one, is addressed to the
  -- address that registered, whether or not the database stored it.
  pub registered_is_reachable :
      (later : Ctx) (l : Local) (from : SocketAddr) (ph : PunchHoleRequest) (key : String)
      (ws : Bool) (pm : PeerMap) (s : Shared)
      → let found = get_or env ctx ph.id pm in
        let after = (update_pk env ctx ph.id found.0 addr uuid pk ip found.1).1 in
        lookup ph.id s.pm.map ≡ lookup ph.id after.map
        → s.pm.cell found.0 ≡ after.cell found.0
        → later.now < ctx.now + 30_000_000_000
        → (key ≡ "") ⊎ (ph.licence_key ≡ key)
        → (handle_punch_hole_request env later l from ph key ws s).0.1 ≡ some addr
  registered_is_reachable later l from ph key ws pm s same_handle same_peer t k =
      let found = get_or env ctx ph.id pm in
      let r : LockPeer = found.0 in
      let stored = update_pk-stored env ctx ph.id r addr uuid pk ip found.1 in
      let there : lookup ph.id s.pm.map ≡ some r =
        same_handle ∙ ap (lookup ph.id) stored.1 ∙ get_or-canonical env ctx ph.id pm in
      let peer : IsRegistered (s.pm.cell r) ctx.now addr uuid pk ip = rw same_peer stored.0 in
      let recent : is_recent later.now (s.pm.cell r).last_reg_time ≡ true =
        rw peer.time_set (soon_is_recent ctx.now later.now t) in
      let when : Bool → SocketAddr ⊎ Failure =
        λ b. if b then inl (s.pm.cell r).socket_addr else inr offline in
      let seen : verdict later (get env later ph.id s.pm) ≡ inl addr =
        ap (verdict later) (get-cached env later ph.id r s.pm there)
        ∙ ap when recent
        ∙ ap inl peer.addr_set in
      rw seen at (punch-Follows env later l from ph ws key s k)

-- Where a Peer stays as it is for 2^31 milliseconds (24.8 days) after its last registration, a
-- request for its id, with the server's key or to a server without one, is still addressed to it,
-- up to 2^32 milliseconds after that registration, and not answered OFFLINE.
pub long_gone_is_reached :
    (env : Env) (later : Ctx) (l : Local) (from : SocketAddr) (ph : PunchHoleRequest) (key : String)
    (ws : Bool) (r : LockPeer) (s : Shared)
    → lookup ph.id s.pm.map ≡ some r
    → 2_147_483_648 ≤ as_millis (elapsed later.now (s.pm.cell r).last_reg_time)
    → as_millis (elapsed later.now (s.pm.cell r).last_reg_time) < 4_294_967_296
    → (key ≡ "") ⊎ (ph.licence_key ≡ key)
    → (handle_punch_hole_request env later l from ph key ws s).0.1 ≡ some (s.pm.cell r).socket_addr
long_gone_is_reached env later l from ph key ws r s there lo hi k =
    let when : Bool → SocketAddr ⊎ Failure =
      λ b. if b then inl (s.pm.cell r).socket_addr else inr offline in
    let seen : verdict later (get env later ph.id s.pm) ≡ inl (s.pm.cell r).socket_addr =
      ap (verdict later) (get-cached env later ph.id r s.pm there)
      ∙ ap when (is_recent_wraps later.now (s.pm.cell r).last_reg_time lo hi) in
    rw seen at (punch-Follows env later l from ph ws key s k)
