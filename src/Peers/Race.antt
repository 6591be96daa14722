-- ===== src/Peers/Race.antt =====
-- What the two lookups promise about the Peer that they return. `get_or` looks again under the write
-- lock and so returns the Peer of the map; `get` inserts what it fetched without looking again.
use kinbridge_server.Prelude.{
  suc, ◌≡◌, refl, String, Option, none, some, nat_eq, string_eq, arith, eq_iff,
}
use kinbridge_server.Dict.{lookup}
use kinbridge_server.Dict.Laws.{lookup-insert}
use kinbridge_server.Env.{Env, Ctx}
use kinbridge_server.Database.{Row, ResultType, ok, err, get_peer}
use kinbridge_server.Peers.{
  Peer, PeerMap, LockPeer, write, insert_alloc, of_row, get_fetched, get_uncached, get,
  default_peer, insert_absent, get_or_insert, get_or_found, get_or,
}

lookup-insert_alloc :
    (id : String) (p : Peer) (pm : PeerMap)
    → lookup id (insert_alloc id p pm).1.map ≡ some (insert_alloc id p pm).0
unfolding insert_alloc
lookup-insert_alloc id p pm = ground (arith, lookup-insert id id pm.next pm.map, eq_iff id id)

module _ (ctx : Ctx) (id : String) where
  insert_absent-canonical :
      (o : Option LockPeer) (pm : PeerMap)
      → lookup id pm.map ≡ o
      → lookup id (insert_absent ctx id o pm).1.map ≡ some (insert_absent ctx id o pm).0
  unfolding insert_absent
  insert_absent-canonical (some r) pm e = e
  insert_absent-canonical none pm e = lookup-insert_alloc id (default_peer ctx.now) pm

  -- Whatever happened to the map since the first look, the second part of `get_or` returns the Peer
  -- that the map then has for the id, so all callers share one Peer.
  pub get_or_insert-canonical :
      (pm : PeerMap) → lookup id (get_or_insert ctx id pm).1.map ≡ some (get_or_insert ctx id pm).0
  unfolding get_or_insert
  get_or_insert-canonical pm = insert_absent-canonical (lookup id pm.map) pm refl

module _ (env : Env) (ctx : Ctx) (id : String) where
  get_fetched-canonical :
      (o : ResultType (Option Row)) (pm : PeerMap) (r : LockPeer)
      → (get_fetched env ctx id o pm).0 ≡ some r
      → lookup id (get_fetched env ctx id o pm).1.map ≡ some r
  unfolding get_fetched
  get_fetched-canonical (ok (some row)) pm r e =
      ground (arith, lookup-insert_alloc id (of_row env ctx.now row) pm)
  get_fetched-canonical (ok none) pm r e = cc
  get_fetched-canonical err pm r e = cc

  get_uncached-canonical :
      (o : Option LockPeer) (pm : PeerMap) (r : LockPeer)
      → lookup id pm.map ≡ o
      → (get_uncached env ctx id o pm).0 ≡ some r
      → lookup id (get_uncached env ctx id o pm).1.map ≡ some r
  unfolding get_uncached
  get_uncached-canonical (some q) pm r h e = ground arith
  get_uncached-canonical none pm r h e = get_fetched-canonical (get_peer ctx.db_up id pm.db) pm r e

  get_or_found-canonical :
      (g : Option LockPeer × PeerMap)
      → ((r : LockPeer) → g.0 ≡ some r → lookup id g.1.map ≡ some r)
      → lookup id (get_or_found ctx id g).1.map ≡ some (get_or_found ctx id g).0
  unfolding get_or_found
  get_or_found-canonical (some r, pm) h = h r refl
  get_or_found-canonical (none, pm) h = get_or_insert-canonical ctx id pm

  -- Run without interruption, `get_or` returns the Peer that the map has for the id afterwards.
  pub get_or-canonical :
      (pm : PeerMap) → lookup id (get_or env ctx id pm).1.map ≡ some (get_or env ctx id pm).0
  unfolding get_or get
  get_or-canonical pm =
      get_or_found-canonical (get env ctx id pm)
        (λ r e. get_uncached-canonical (lookup id pm.map) pm r refl e)

  -- Two tasks that both found the id missing from memory, and both read its row, get two Peers; only
  -- the later one stays in the map, and what the first task writes to its own does not reach it.
  pub get_fetched_twice :
      (row : Row) (p : Peer) (pm : PeerMap)
      → let first = get_fetched env ctx id (ok (some row)) pm in
        let second = get_fetched env ctx id (ok (some row)) first.1 in
        (first.0 ≡ some pm.next)
        × (lookup id second.1.map ≡ some (suc pm.next))
        × (second.0 ≡ some (suc pm.next))
        × ((write pm.next p second.1).cell (suc pm.next) ≡ of_row env ctx.now row)
  unfolding get_fetched write
  get_fetched_twice row p pm = (
    ground arith,
    ground (
      arith,
      lookup-insert id id (suc pm.next) (get_fetched env ctx id (ok (some row)) pm).1.map,
      eq_iff id id,
    ),
    ground arith,
    ground arith,
  )
