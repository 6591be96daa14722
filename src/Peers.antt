-- ===== src/Peers.antt =====
-- src/peer.rs: the peers in memory, in front of the table of src/database.rs. A LockPeer is an
-- address of the heap, so that two holders of one LockPeer see the same Peer.
pub mod Valid
pub mod Owners
pub mod Race
pub mod Stored
pub mod Unstored
use kinbridge_server.Prelude.{
  ℕ, suc, Bool, true, false, String, List, [], ◌∷◌, Option, none, some, ◌==◌, nat_eq, string_eq,
  if◌then◌else◌,
}
use kinbridge_server.Dict.{Dict, lookup, contains_key, insert}
use kinbridge_server.Net.{SocketAddr, v4}
use kinbridge_server.Time.{get_expired_time}
use kinbridge_server.Message.{Bytes, RegisterPkResult, pk_ok, server_error}
use kinbridge_server.Env.{Env, Ctx}
use kinbridge_server.Database.{Row, ResultType, ok, err, get_peer, insert_peer}
use kinbridge_server.Database

pub record PeerInfo : Type 0 where
  pub ip : String

-- (u32, Instant): the registrations of a key in the current window, and the last of them.
pub record RegPk : Type 0 where
  pub count : ℕ
  pub tm : ℕ

pub record Peer : Type 0 where
  pub socket_addr : SocketAddr
  pub last_reg_time : ℕ
  pub guid : Bytes
  pub uuid : Bytes
  pub pk : Bytes
  pub info : PeerInfo
  pub reg_pk : RegPk

-- `Peer::default()`.
unfoldable pub default_peer : ℕ → Peer
unfolding get_expired_time
default_peer now = record {
  socket_addr = record { ip = v4 0; port = 0 };
  last_reg_time = get_expired_time now;
  guid = [];
  uuid = [];
  pk = [];
  info = record { ip = "" };
  reg_pk = record { count = 0; tm = get_expired_time now };
}

-- The heap holds a Peer at every address below `next`; what stands above is never read.
pub record PeerMap : Type 0 where
  pub cell : ℕ → Peer
  pub next : ℕ
  pub map : Dict String ℕ
  pub db : List Row

abbrev pub LockPeer : Type 0
LockPeer = ℕ

-- `peer.write()`.
unfoldable pub write : LockPeer → Peer → PeerMap → PeerMap
write r p pm = record pm { cell = λ q. if q == r then p else pm.cell q }

-- `Arc::new(RwLock::new(p))`, and the insertion of the result under `id`.
unfoldable pub insert_alloc : String → Peer → PeerMap → LockPeer × PeerMap
unfolding insert
insert_alloc id p pm = (
  pm.next,
  record pm {
    cell = λ q. if q == pm.next then p else pm.cell q;
    next = suc pm.next;
    map = insert id pm.next pm.map;
  },
)

unfoldable pub get_in_memory : String → PeerMap → Option LockPeer
unfolding lookup
get_in_memory id pm = lookup id pm.map

unfoldable pub is_in_memory : String → PeerMap → Bool
unfolding contains_key
is_in_memory id pm = contains_key id pm.map

info_or_default : Option String → PeerInfo
info_or_default none = record { ip = "" }
info_or_default (some ip) = record { ip = ip }

-- The second part of `get_or`, under the write lock: it looks again before it inserts.
insert_absent : Ctx → String → Option LockPeer → PeerMap → LockPeer × PeerMap
unfolding insert_alloc default_peer
insert_absent ctx id (some p) pm = (p, pm)
insert_absent ctx id none pm = insert_alloc id (default_peer ctx.now) pm

unfoldable pub get_or_insert : Ctx → String → PeerMap → LockPeer × PeerMap
unfolding insert_absent get_in_memory
get_or_insert ctx id pm = insert_absent ctx id (get_in_memory id pm) pm

-- The first half of `update_pk`: the Peer in memory.
unfoldable pub renewed : ℕ → Peer → SocketAddr → Bytes → Bytes → String → Peer
renewed now p addr uuid pk ip = record p {
  socket_addr = addr;
  uuid = uuid;
  pk = pk;
  last_reg_time = now;
  info = record { ip = ip };
}

inserted : LockPeer → ResultType Bytes × List Row → PeerMap → RegisterPkResult × PeerMap
unfolding write
inserted r (err, rows) pm = (server_error, record pm { db = rows })
inserted r (ok guid, rows) pm =
    (pk_ok, record (write r (record (pm.cell r) { guid = guid }) pm) { db = rows })

updated : ResultType (Unit {0}) × List Row → PeerMap → RegisterPkResult × PeerMap
updated (err, rows) pm = (server_error, record pm { db = rows })
updated (ok _, rows) pm = (pk_ok, record pm { db = rows })

-- The second half: the row, inserted for an empty guid and updated else.
store_row :
    Ctx → String → LockPeer → Bytes → Bytes → String → Bytes → PeerMap → RegisterPkResult × PeerMap
unfolding inserted updated insert_peer Database.update_pk
store_row ctx id r uuid pk info [] pm =
    inserted r (insert_peer ctx.db_up ctx.db_accepts ctx.new_guid id uuid pk info pm.db) pm
store_row ctx id r uuid pk info (g ∷ guid) pm =
    updated (Database.update_pk ctx.db_up ctx.db_accepts (g ∷ guid) id pk info pm.db) pm

get_or_found : Ctx → String → Option LockPeer × PeerMap → LockPeer × PeerMap
unfolding get_or_insert
get_or_found ctx id (some p, pm) = (p, pm)
get_or_found ctx id (none, pm) = get_or_insert ctx id pm

module _ (env : Env) where
  -- The Peer made of a row.
  unfoldable pub of_row : ℕ → Row → Peer
  unfolding default_peer info_or_default
  of_row now v = record (default_peer now) {
    guid = v.guid;
    uuid = v.uuid;
    pk = v.pk;
    info = info_or_default (env.info_from_str v.info);
  }

  -- The second part of `get`, on what the database answered: it inserts without looking again.
  unfoldable pub get_fetched :
      Ctx → String → ResultType (Option Row) → PeerMap → Option LockPeer × PeerMap
  unfolding of_row insert_alloc
  get_fetched ctx id (ok (some v)) pm =
      let (r, pm') = insert_alloc id (of_row ctx.now v) pm in (some r, pm')
  get_fetched ctx id (ok none) pm = (none, pm)
  get_fetched ctx id err pm = (none, pm)

  get_uncached : Ctx → String → Option LockPeer → PeerMap → Option LockPeer × PeerMap
  unfolding get_fetched get_peer
  get_uncached ctx id (some r) pm = (some r, pm)
  get_uncached ctx id none pm = get_fetched ctx id (get_peer ctx.db_up id pm.db) pm

  unfoldable pub get : Ctx → String → PeerMap → Option LockPeer × PeerMap
  unfolding get_uncached get_in_memory
  get ctx id pm = get_uncached ctx id (get_in_memory id pm) pm

  unfoldable pub get_or : Ctx → String → PeerMap → LockPeer × PeerMap
  unfolding get_or_found get
  get_or ctx id pm = get_or_found ctx id (get ctx id pm)

  unfoldable pub update_pk :
      Ctx
      → String
      → LockPeer
      → SocketAddr
      → Bytes
      → Bytes
      → String
      → PeerMap
      → RegisterPkResult × PeerMap
  unfolding write renewed store_row
  update_pk ctx id r addr uuid pk ip pm =
      store_row ctx id r uuid pk (env.info_to_string ip) (pm.cell r).guid
        (write r (renewed ctx.now (pm.cell r) addr uuid pk ip) pm)
