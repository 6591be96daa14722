-- ===== src/Server/Register/Unstored.antt =====
-- What a registration answers when the database fails.
use kinbridge_server.Prelude.{
  ◌≡◌, refl, true, false, String, [], ◌∷◌, ◌++◌, some, is_empty, list_eq, string_eq, nat_eq,
}
use kinbridge_server.Net.{SocketAddr}
use kinbridge_server.Env.{Env, Ctx}
use kinbridge_server.Message.{RegisterPk, pk_ok, register_pk_response}
use kinbridge_server.Peers.{LockPeer, RegPk, write}
use kinbridge_server.Peers.Unstored.{update_pk-down}
use kinbridge_server.Server.State.{Shared}
use kinbridge_server.Server.Send.{send_rk_res, send_udp}
use kinbridge_server.Server.Register.{
  compare_owner, next_reg_pk, accept_pk, limit_pk, compare_pk, register_found,
}

module _ (env : Env) (ctx : Ctx) (r : LockPeer) where
  -- A Peer without a uuid whose RegisterPk is within the limit of its rate is answered OK while the
  -- database is down, if the socket accepts the answer, and the rows are as they were.
  pub ok_though_not_stored :
      (addr : SocketAddr) (rk : RegisterPk) (ip : String) (q : RegPk) (s : Shared)
      → ctx.db_up ≡ false
      → ctx.send_ok ≡ true
      → is_empty (s.pm.cell r).uuid ≡ true
      → next_reg_pk ctx.now (s.pm.cell r).reg_pk ≡ some q
      → let after = (register_found env ctx addr rk ip r s).1 in
        (after.udp_sent ≡ s.udp_sent ++ (register_pk_response pk_ok, addr) ∷ [])
        × (after.pm.db ≡ s.pm.db)
  unfolding register_found compare_owner compare_pk limit_pk accept_pk send_rk_res send_udp
  ok_though_not_stored addr rk ip q s d o u n =
      rw
        (
          u,
          n,
          o,
          update_pk-down env ctx r rk.id addr rk.uuid rk.pk ip
              (write r (record (s.pm.cell r) { reg_pk = q }) s.pm) d,
          write,
        )
        (refl, refl)
