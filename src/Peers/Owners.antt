-- ===== src/Peers/Owners.antt =====
-- Who owns an id: once the Peer of an id has a uuid, no operation of the map gives it another one
-- or gives the id another Peer.
use kinbridge_server.Prelude.{
  ◌≡◌, refl, ◌∙◌, true, false, String, List, [], ◌∷◌, Option, none, some, nat_eq, string_eq, arith,
  eq_iff, ◌⊎◌, inr, is_empty,
}
use kinbridge_server.Dict.{lookup}
use kinbridge_server.Dict.Laws.{lookup-insert}
use kinbridge_server.Net.{SocketAddr}
use kinbridge_server.Message.{Bytes}
use kinbridge_server.Env.{Env, Ctx}
use kinbridge_server.Database.{Row, ResultType, ok, err, get_peer, insert_peer}
use kinbridge_server.Database
use kinbridge_server.Peers.{
  Peer, PeerMap, LockPeer, write, insert_alloc, of_row, get_fetched, get_uncached, get,
  default_peer, insert_absent, get_or_insert, get_or_found, get_or, inserted, updated, store_row,
  update_pk, renewed,
}
use kinbridge_server.Peers.Valid.{IsValid, write-IsValid, insert_alloc-IsValid}

-- What an operation from `pm` to `pm'` keeps.
pub record Keeps (pm pm' : PeerMap) : Type 0 where
  pub valid : IsValid pm'
  pub handles :
      (id : String) (r : LockPeer) → lookup id pm.map ≡ some r → lookup id pm'.map ≡ some r
  pub owners :
      (id : String) (r : LockPeer)
      → lookup id pm.map ≡ some r
      → is_empty (pm.cell r).uuid ≡ false
      → (pm'.cell r).uuid ≡ (pm.cell r).uuid

pub Keeps-refl : (pm : PeerMap) → IsValid pm → Keeps pm pm
Keeps-refl pm v = record { valid = v; handles = λ id r e. e; owners = λ id r e h. refl }

-- What stands outside the memory does not matter.
pub Keeps-db :
    {pm pm' : PeerMap} (rows : List Row) → Keeps pm pm' → Keeps pm (record pm' { db = rows })
Keeps-db rows k = record {
  valid = record { allocated = k.valid.allocated; unshared = k.valid.unshared };
  handles = k.handles;
  owners = k.owners;
}

pub Keeps-trans : {p q r : PeerMap} → Keeps p q → Keeps q r → Keeps p r
Keeps-trans {p} {q} {r} a b = record {
  valid = b.valid;
  handles = λ id x e. b.handles id x (a.handles id x e);
  owners = λ id x e h.
      let first : (q.cell x).uuid ≡ (p.cell x).uuid = a.owners id x e h in
      b.owners id x (a.handles id x e) (rw first h) ∙ first;
}

pub write-Keeps :
    (r : LockPeer) (p : Peer) (pm : PeerMap)
    → IsValid pm
    → (is_empty (pm.cell r).uuid ≡ true) ⊎ (p.uuid ≡ (pm.cell r).uuid)
    → Keeps pm (write r p pm)
unfolding write
write-Keeps r p pm v h = record {
  valid = write-IsValid r p v;
  handles = λ id q e. e;
  owners = λ id q e k. ground arith;
}

pub insert_alloc-Keeps :
    (id : String) (p : Peer) (pm : PeerMap)
    → IsValid pm
    → lookup id pm.map ≡ none
    → Keeps pm (insert_alloc id p pm).1
unfolding insert_alloc
insert_alloc-Keeps id p pm v absent = record {
  valid = insert_alloc-IsValid id p pm v;
  handles = λ j r e. ground (arith, lookup-insert id j pm.next pm.map, eq_iff id j);
  owners = λ j r e k. ground (arith, v.allocated j r);
}

module _ (env : Env) (ctx : Ctx) (id : String) where
  get_fetched-Keeps :
      (o : ResultType (Option Row)) (pm : PeerMap)
      → IsValid pm
      → lookup id pm.map ≡ none
      → Keeps pm (get_fetched env ctx id o pm).1
  unfolding get_fetched
  get_fetched-Keeps (ok (some row)) pm v absent =
      insert_alloc-Keeps id (of_row env ctx.now row) pm v absent
  get_fetched-Keeps (ok none) pm v absent = Keeps-refl pm v
  get_fetched-Keeps err pm v absent = Keeps-refl pm v

  get_uncached-Keeps :
      (o : Option LockPeer) (pm : PeerMap)
      → IsValid pm
      → lookup id pm.map ≡ o
      → Keeps pm (get_uncached env ctx id o pm).1
  unfolding get_uncached
  get_uncached-Keeps (some r) pm v e = Keeps-refl pm v
  get_uncached-Keeps none pm v e = get_fetched-Keeps (get_peer ctx.db_up id pm.db) pm v e

  -- Looking a peer up, in memory or in the database, keeps every owner.
  pub get-Keeps : (pm : PeerMap) → IsValid pm → Keeps pm (get env ctx id pm).1
  unfolding get
  get-Keeps pm v = get_uncached-Keeps (lookup id pm.map) pm v refl

  insert_absent-Keeps :
      (o : Option LockPeer) (pm : PeerMap)
      → IsValid pm
      → lookup id pm.map ≡ o
      → Keeps pm (insert_absent ctx id o pm).1
  unfolding insert_absent
  insert_absent-Keeps (some r) pm v e = Keeps-refl pm v
  insert_absent-Keeps none pm v e = insert_alloc-Keeps id (default_peer ctx.now) pm v e

  get_or_insert-Keeps : (pm : PeerMap) → IsValid pm → Keeps pm (get_or_insert ctx id pm).1
  unfolding get_or_insert
  get_or_insert-Keeps pm v = insert_absent-Keeps (lookup id pm.map) pm v refl

  get_or_found-Keeps :
      (pm : PeerMap) (g : Option LockPeer × PeerMap)
      → Keeps pm g.1
      → Keeps pm (get_or_found ctx id g).1
  unfolding get_or_found
  get_or_found-Keeps pm (some r, pm') k = k
  get_or_found-Keeps pm (none, pm') k = Keeps-trans k (get_or_insert-Keeps pm' k.valid)

  pub get_or-Keeps : (pm : PeerMap) → IsValid pm → Keeps pm (get_or env ctx id pm).1
  unfolding get_or
  get_or-Keeps pm v = get_or_found-Keeps pm (get env ctx id pm) (get-Keeps pm v)

  inserted-Keeps :
      (r : LockPeer) (i : ResultType Bytes × List Row) (pm : PeerMap)
      → IsValid pm
      → Keeps pm (inserted r i pm).1
  unfolding inserted
  inserted-Keeps r (ok guid, rows) pm v =
      Keeps-db rows (write-Keeps r (record (pm.cell r) { guid = guid }) pm v (inr refl))
  inserted-Keeps r (err, rows) pm v = Keeps-db rows (Keeps-refl pm v)

  updated-Keeps :
      (u : ResultType (Unit {0}) × List Row) (pm : PeerMap) → IsValid pm → Keeps pm (updated u pm).1
  unfolding updated
  updated-Keeps (ok x, rows) pm v = Keeps-db rows (Keeps-refl pm v)
  updated-Keeps (err, rows) pm v = Keeps-db rows (Keeps-refl pm v)

  store_row-Keeps :
      (r : LockPeer) (uuid pk : Bytes) (info : String) (guid : Bytes) (pm : PeerMap)
      → IsValid pm
      → Keeps pm (store_row ctx id r uuid pk info guid pm).1
  unfolding store_row
  store_row-Keeps r uuid pk info [] pm v =
      inserted-Keeps r (insert_peer ctx.db_up ctx.db_accepts ctx.new_guid id uuid pk info pm.db) pm
        v
  store_row-Keeps r uuid pk info (g ∷ guid) pm v =
      updated-Keeps (Database.update_pk ctx.db_up ctx.db_accepts (g ∷ guid) id pk info pm.db) pm v

  -- A registration keeps every owner, if it comes from the owner or there was none.
  pub update_pk-Keeps :
      (r : LockPeer) (addr : SocketAddr) (uuid pk : Bytes) (ip : String) (pm : PeerMap)
      → IsValid pm
      → (is_empty (pm.cell r).uuid ≡ true) ⊎ (uuid ≡ (pm.cell r).uuid)
      → Keeps pm (update_pk env ctx id r addr uuid pk ip pm).1
  unfolding update_pk
  update_pk-Keeps r addr uuid pk ip pm v h =
      let first : Keeps pm (write r (renewed ctx.now (pm.cell r) addr uuid pk ip) pm) =
        write-Keeps r (renewed ctx.now (pm.cell r) addr uuid pk ip) pm v (unfold renewed in h) in
      Keeps-trans first
        (store_row-Keeps r uuid pk (env.info_to_string ip) (pm.cell r).guid _ first.valid)
