-- ===== src/Peers/Unstored.antt =====
-- `update_pk` while the database fails.
use kinbridge_server.Prelude.{
  ◌≡◌, refl, ap, false, String, List, [], ◌∷◌, list_eq, string_eq, nat_eq,
}
use kinbridge_server.Net.{SocketAddr}
use kinbridge_server.Env.{Env, Ctx}
use kinbridge_server.Message.{Bytes, server_error}
use kinbridge_server.Database.{insert_peer, update_pk as update_row, Row, err}
use kinbridge_server.Peers.{
  PeerMap, LockPeer, write, renewed, inserted, updated, store_row, update_pk,
}

module _ (env : Env) (ctx : Ctx) (r : LockPeer) where
  insert_down :
      (id : String) (uuid pk : Bytes) (info : String) (rows : List Row)
      → ctx.db_up ≡ false
      → insert_peer ctx.db_up ctx.db_accepts ctx.new_guid id uuid pk info rows ≡ (err, rows)
  unfolding insert_peer
  insert_down id uuid pk info rows d = rw d refl

  update_down :
      (guid : Bytes) (id : String) (pk : Bytes) (info : String) (rows : List Row)
      → ctx.db_up ≡ false
      → update_row ctx.db_up ctx.db_accepts guid id pk info rows ≡ (err, rows)
  unfolding update_row
  update_down guid id pk info rows d = rw d refl

  store_row-down :
      (id : String) (uuid pk : Bytes) (info : String) (guid : Bytes) (pm : PeerMap)
      → ctx.db_up ≡ false
      → store_row ctx id r uuid pk info guid pm ≡ (server_error, pm)
  unfolding store_row inserted updated
  store_row-down id uuid pk info [] pm d =
      ap (λ i. inserted r i pm) (insert_down id uuid pk info pm.db d)
  store_row-down id uuid pk info (g ∷ guid) pm d =
      ap (λ u. updated u pm) (update_down (g ∷ guid) id pk info pm.db d)

  -- With the database down `update_pk` reports SERVER_ERROR, and the Peer has its new data in memory
  -- only.
  pub update_pk-down :
      (id : String) (addr : SocketAddr) (uuid pk : Bytes) (ip : String) (pm : PeerMap)
      → ctx.db_up ≡ false
      → update_pk env ctx id r addr uuid pk ip pm
        ≡ (server_error, write r (renewed ctx.now (pm.cell r) addr uuid pk ip) pm)
  unfolding update_pk
  update_pk-down id addr uuid pk ip pm d =
      store_row-down id uuid pk (env.info_to_string ip) (pm.cell r).guid
        (write r (renewed ctx.now (pm.cell r) addr uuid pk ip) pm) d
