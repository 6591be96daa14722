-- ===== src/Peers/Stored.antt =====
-- What a registration leaves behind, in memory and in the table.
use kinbridge_server.Prelude.{
  ℕ, ◌≡◌, refl, String, List, [], ◌∷◌, Option, none, some, nat_eq, string_eq, arith, ap,
}
use kinbridge_server.Dict.{lookup}
use kinbridge_server.Net.{SocketAddr}
use kinbridge_server.Env.{Env, Ctx}
use kinbridge_server.Message.{Bytes}
use kinbridge_server.Database.{Row, ResultType, ok, err, insert_peer}
use kinbridge_server.Database
use kinbridge_server.Peers.{
  get_or, get_or_found, Peer, PeerMap, LockPeer, write, renewed, inserted, updated, store_row,
  update_pk, get, get_uncached,
}

-- The Peer as registered, whatever the database did.
pub record IsRegistered (p : Peer) (now : ℕ) (addr : SocketAddr) (uuid pk : Bytes) (ip : String)
    : Type 0 where
  pub addr_set : p.socket_addr ≡ addr
  pub time_set : p.last_reg_time ≡ now
  pub uuid_set : p.uuid ≡ uuid
  pub pk_set : p.pk ≡ pk
  pub ip_set : p.info.ip ≡ ip

module _ (env : Env) (ctx : Ctx) (id : String) (r : LockPeer) (addr : SocketAddr) (uuid pk : Bytes)
    (ip : String) where
  abbrev AsRegistered : PeerMap → Type 0
  AsRegistered pm = IsRegistered (pm.cell r) ctx.now addr uuid pk ip

  inserted-keeps :
      (i : ResultType Bytes × List Row) (pm : PeerMap)
      → AsRegistered pm
      → AsRegistered (inserted r i pm).1
  unfolding inserted
  inserted-keeps (err, rows) pm h = record {
    addr_set = h.addr_set;
    time_set = h.time_set;
    uuid_set = h.uuid_set;
    pk_set = h.pk_set;
    ip_set = h.ip_set;
  }
  inserted-keeps (ok guid, rows) pm h = ground arith

  updated-keeps :
      (u : ResultType (Unit {0}) × List Row) (pm : PeerMap)
      → AsRegistered pm
      → AsRegistered (updated u pm).1
  unfolding updated
  updated-keeps (err, rows) pm h = h
  updated-keeps (ok x, rows) pm h = h

  store_row-keeps :
      (info : String) (guid : Bytes) (pm : PeerMap)
      → AsRegistered pm
      → AsRegistered (store_row ctx id r uuid pk info guid pm).1
  unfolding store_row
  store_row-keeps info [] pm h =
      inserted-keeps (insert_peer ctx.db_up ctx.db_accepts ctx.new_guid id uuid pk info pm.db) pm h
  store_row-keeps info (g ∷ guid) pm h =
      updated-keeps (Database.update_pk ctx.db_up ctx.db_accepts (g ∷ guid) id pk info pm.db) pm h

  inserted-map : (i : ResultType Bytes × List Row) (pm : PeerMap) → (inserted r i pm).1.map ≡ pm.map
  unfolding inserted write
  inserted-map (err, rows) pm = refl
  inserted-map (ok guid, rows) pm = refl

  updated-map :
      (u : ResultType (Unit {0}) × List Row) (pm : PeerMap) → (updated u pm).1.map ≡ pm.map
  unfolding updated
  updated-map (err, rows) pm = refl
  updated-map (ok x, rows) pm = refl

  store_row-map :
      (info : String) (guid : Bytes) (pm : PeerMap)
      → (store_row ctx id r uuid pk info guid pm).1.map ≡ pm.map
  unfolding store_row
  store_row-map info [] pm =
      inserted-map (insert_peer ctx.db_up ctx.db_accepts ctx.new_guid id uuid pk info pm.db) pm
  store_row-map info (g ∷ guid) pm =
      updated-map (Database.update_pk ctx.db_up ctx.db_accepts (g ∷ guid) id pk info pm.db) pm

  -- After `update_pk` the Peer is as registered, also when the database failed, and every id leads
  -- to the Peer that it led to.
  pub update_pk-stored :
      (pm : PeerMap)
      → IsRegistered ((update_pk env ctx id r addr uuid pk ip pm).1.cell r) ctx.now addr uuid pk ip
        × ((update_pk env ctx id r addr uuid pk ip pm).1.map ≡ pm.map)
  unfolding update_pk renewed
  update_pk-stored pm =
      let first : PeerMap = write r (renewed ctx.now (pm.cell r) addr uuid pk ip) pm in
      (
        store_row-keeps (env.info_to_string ip) (pm.cell r).guid first (ground arith),
        store_row-map (env.info_to_string ip) (pm.cell r).guid first,
      )

-- A peer in memory is found there, and nothing changes.
get_uncached-cached :
    (env : Env) (ctx : Ctx) (id : String) (r : LockPeer) (o : Option LockPeer) (pm : PeerMap)
    → o ≡ some r
    → get_uncached env ctx id o pm ≡ (some r, pm)
unfolding get_uncached
get_uncached-cached env ctx id r none pm e = cc
get_uncached-cached env ctx id r (some q) pm e = ap (λ o. (o, pm)) e

pub get-cached :
    (env : Env) (ctx : Ctx) (id : String) (r : LockPeer) (pm : PeerMap)
    → lookup id pm.map ≡ some r
    → get env ctx id pm ≡ (some r, pm)
unfolding get
get-cached env ctx id r pm e = get_uncached-cached env ctx id r (lookup id pm.map) pm e

pub get_or-cached :
    (env : Env) (ctx : Ctx) (id : String) (r : LockPeer) (pm : PeerMap)
    → lookup id pm.map ≡ some r
    → get_or env ctx id pm ≡ (r, pm)
unfolding get_or get_or_found
get_or-cached env ctx id r pm e = ap (get_or_found ctx id) (get-cached env ctx id r pm e)
