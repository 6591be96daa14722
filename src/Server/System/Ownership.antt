-- ===== src/Server/System/Ownership.antt =====
-- The identity of peers in every state that the running server can reach.
use kinbridge_server.Dict.Members.{All-remove_at, All-get_elem?}
use kinbridge_server.Prelude.{
  ◌≡◌, ◌≢◌, refl, sym, ap, ◌∙◌, false, String, List, Option, none, some, is_empty, All, string_eq,
  nat_eq, eq_iff, arith,
}
use kinbridge_server.Dict.{Dict, lookup}
use kinbridge_server.Dict.Laws.{lookup-insert}
use kinbridge_server.Env.{Env}
use kinbridge_server.Message.{Bytes}
use kinbridge_server.Peers.{Peer, PeerMap, LockPeer, insert_alloc, of_row, get_fetched}
use kinbridge_server.Peers.Valid.{IsValid, insert_alloc-IsValid}
use kinbridge_server.Peers.Owners.{Keeps}
use kinbridge_server.Server.Tcp.Owner.{handle_tcp-Keeps}
use kinbridge_server.Server.Commands.Untouched.{check_cmd-pm}
use kinbridge_server.Server.Loop.Owner.{io_step-Keeps}
use kinbridge_server.Server.System.{
  System, Get, get_id, Step, loop, frame, closed, commanded, misses, reads, inserts, gives_up,
  Reach, here, next,
}

-- No `get` of the id is under way.
abbrev pub NoGet : String → List Get → Type 0
NoGet id = All (λ (g : Get). get_id g ≢ id)

none-some : (r : LockPeer) → ◌≡◌ {A = Option LockPeer} none (some r) → ⊥
none-some r e = cc

missing-ne :
    (j id : String) (r : LockPeer) (map : Dict String LockPeer)
    → lookup j map ≡ none
    → lookup id map ≡ some r
    → j ≢ id
missing-ne j id r map e f same = none-some r (sym e ∙ ap (λ k. lookup k map) same ∙ f)

-- What stays, once the id has the Peer at `r` with the uuid `u`.
record Owned (id : String) (r : LockPeer) (u : Bytes) (pm : PeerMap) : Type 0 where
  valid : IsValid pm
  handle : lookup id pm.map ≡ some r
  owner : (pm.cell r).uuid ≡ u

Keeps-Owned :
    (id : String) (r : LockPeer) (u : Bytes) (pm pm' : PeerMap)
    → is_empty u ≡ false
    → Keeps pm pm'
    → Owned id r u pm
    → Owned id r u pm'
Keeps-Owned id r u pm pm' h k o = record {
  valid = k.valid;
  handle = k.handles id r o.handle;
  owner = k.owners id r o.handle (rw o.owner h) ∙ o.owner;
}

-- The insertion of a Peer for another id.
insert_alloc-Owned :
    (id j : String) (r : LockPeer) (u : Bytes) (p : Peer) (pm : PeerMap)
    → j ≢ id
    → Owned id r u pm
    → Owned id r u (insert_alloc j p pm).1
unfolding insert_alloc
insert_alloc-Owned id j r u p pm ne o = record {
  valid = insert_alloc-IsValid j p pm o.valid;
  handle = ground (arith, lookup-insert j id pm.next pm.map, eq_iff j id, o.handle);
  owner = ground (arith, o.valid.allocated id r o.handle, o.owner);
}

module _ (env : Env) (key : String) where
  Step-IsValid : {x y : System} → Step env key x y → IsValid x.shared.pm → IsValid y.shared.pm
  unfolding get_fetched
  Step-IsValid {x} {y} (loop ctx e o h g) v =
      rw h (io_step-Keeps env ctx key e x.own x.shared v).valid
  Step-IsValid {x} {y} (frame ctx clone ws addr bytes sink o h g) v =
      rw h (handle_tcp-Keeps env ctx clone key ws addr bytes sink x.shared v).valid
  Step-IsValid {x} {y} (closed addr o h g) v = rw h v
  Step-IsValid {x} {y} (commanded texts now clone cmd o h g) v =
      rw (h, check_cmd-pm texts now clone cmd x.shared) v
  Step-IsValid {x} {y} (misses id e o h g) v = rw h v
  Step-IsValid {x} {y} (reads i id row e f o h g) v = rw h v
  Step-IsValid {x} {y} (inserts ctx i id row e o h g) v =
      rw h (insert_alloc-IsValid id (of_row env ctx.now row) x.shared.pm v)
  Step-IsValid {x} {y} (gives_up i o h g) v = rw h v

  pub Reach-IsValid : {x y : System} → Reach env key x y → IsValid x.shared.pm → IsValid y.shared.pm
  Reach-IsValid here v = v
  Reach-IsValid (next r st) v = Step-IsValid st (Reach-IsValid r v)

module _ (env : Env) (key : String) (id : String) (r : LockPeer) (u : Bytes)
    (named : is_empty u ≡ false) where
  Step-Owned :
      {x y : System}
      → Step env key x y
      → Owned id r u x.shared.pm
      → NoGet id x.gets
      → Owned id r u y.shared.pm × NoGet id y.gets
  unfolding get_fetched
  Step-Owned {x} {y} (loop ctx e o h g) w n = (
    rw h (
        Keeps-Owned id r u x.shared.pm _ named (io_step-Keeps env ctx key e x.own x.shared w.valid)
          w),
    rw g n,
  )
  Step-Owned {x} {y} (frame ctx clone ws addr bytes sink o h g) w n = (
    rw h (
        Keeps-Owned id r u x.shared.pm _ named
          (handle_tcp-Keeps env ctx clone key ws addr bytes sink x.shared w.valid) w),
    rw g n,
  )
  Step-Owned {x} {y} (closed addr o h g) w n = (rw h w, rw g n)
  Step-Owned {x} {y} (commanded texts now clone cmd o h g) w n =
      (rw (h, check_cmd-pm texts now clone cmd x.shared) w, rw g n)
  Step-Owned {x} {y} (misses j e o h g) w n =
      (rw h w, rw g (missing-ne j id r x.shared.pm.map e w.handle, n))
  Step-Owned {x} {y} (reads i j row e f o h g) w n = (
    rw h w,
    rw g (
      All-get_elem? (λ (g : Get). get_id g ≢ id) i x.gets n e,
      All-remove_at (λ (g : Get). get_id g ≢ id) i x.gets n,
    ),
  )
  Step-Owned {x} {y} (inserts ctx i j row e o h g) w n = (
    rw h (
        insert_alloc-Owned id j r u (of_row env ctx.now row) x.shared.pm
          (All-get_elem? (λ (g : Get). get_id g ≢ id) i x.gets n e) w),
    rw g (All-remove_at (λ (g : Get). get_id g ≢ id) i x.gets n),
  )
  Step-Owned {x} {y} (gives_up i o h g) w n =
      (rw h w, rw g (All-remove_at (λ (g : Get). get_id g ≢ id) i x.gets n))

  Reach-Owned :
      {x y : System}
      → Reach env key x y
      → Owned id r u x.shared.pm
      → NoGet id x.gets
      → Owned id r u y.shared.pm × NoGet id y.gets
  Reach-Owned here w n = (w, n)
  Reach-Owned (next steps st) w n = let k = Reach-Owned steps w n in Step-Owned st k.0 k.1

-- From a state whose map of peers is valid, and in which an id has a Peer with a uuid and no look-up
-- of that id is under way that found it missing: however datagrams, frames, timers, messages of the
-- channel, commands and the parts of look-ups interleave, the id keeps that Peer and the Peer that
-- uuid.
pub uuid_is_kept :
    (env : Env) (key : String) (x y : System) (id : String) (r : LockPeer)
    → IsValid x.shared.pm
    → lookup id x.shared.pm.map ≡ some r
    → is_empty (x.shared.pm.cell r).uuid ≡ false
    → NoGet id x.gets
    → Reach env key x y
    → (lookup id y.shared.pm.map ≡ some r) × ((y.shared.pm.cell r).uuid ≡ (x.shared.pm.cell r).uuid)
uuid_is_kept env key x y id r v e h n steps =
    let k =
      (Reach-Owned env key id r (x.shared.pm.cell r).uuid h steps
        (record { valid = v; handle = e; owner = refl }) n).0 in
    (k.handle, k.owner)
