-- ===== src/Peers/Valid.antt =====
-- The peers in memory are a partial injection from ids into the allocated part of the heap, and
-- every operation keeps them so.
use kinbridge_server.Prelude.{◌<◌, ◌≡◌, String, some, nat_eq, string_eq, arith, eq_iff}
use kinbridge_server.Dict.{lookup}
use kinbridge_server.Dict.Laws.{lookup-insert}
use kinbridge_server.Peers.{Peer, PeerMap, LockPeer, write, insert_alloc}

pub record IsValid (pm : PeerMap) : Type 0 where
  -- Every id leads to an allocated Peer,
  pub allocated : (id : String) (r : LockPeer) → lookup id pm.map ≡ some r → r < pm.next
  -- and two ids never share one.
  pub unshared :
      (i j : String) (r : LockPeer) → lookup i pm.map ≡ some r → lookup j pm.map ≡ some r → i ≡ j

pub write-IsValid : (r : LockPeer) (p : Peer) {pm : PeerMap} → IsValid pm → IsValid (write r p pm)
unfolding write
write-IsValid r p v = record { allocated = v.allocated; unshared = v.unshared }

pub insert_alloc-IsValid :
    (id : String) (p : Peer) (pm : PeerMap) → IsValid pm → IsValid (insert_alloc id p pm).1
unfolding insert_alloc
insert_alloc-IsValid id p pm v = record {
  allocated =
      λ j r e. ground (arith, lookup-insert id j pm.next pm.map, v.allocated j r, eq_iff id j);
  unshared = λ i j r e f. ground (
    arith,
    lookup-insert id i pm.next pm.map,
    lookup-insert id j pm.next pm.map,
    v.allocated i r,
    v.allocated j r,
    v.unshared i j r,
    eq_iff id i,
    eq_iff id j,
  );
}
