-- ===== src/Server/Punch/Answer.antt =====
-- Which punch hole requests reach a peer.
use kinbridge_server.Prelude.{
  ℕ, ◌≤◌, ◌<◌, ◌≡◌, ◌≢◌, refl, Bool, true, false, not, ◌&&◌, String, Option, none, some, ◌==◌,
  string_eq, arith, eq_iff, if◌then◌else◌, ◌⊎◌, inl, inr, ◌↔◌,
}
use kinbridge_server.Prelude.Int.{ℤ, leb_ℤ, ltb_ℤ}
use kinbridge_server.Net.{SocketAddr}
use kinbridge_server.Time.{elapsed, as_millis, elapsed_millis_i32}
use kinbridge_server.Env.{Env, Ctx}
use kinbridge_server.Message.{PunchHoleRequest, Failure, id_not_exist, offline, license_mismatch}
use kinbridge_server.Peers.{PeerMap, LockPeer, get}
use kinbridge_server.Server.State.{Local, Shared}
use kinbridge_server.Server.Punch.{
  Answer, refusal, reg_timeout, punch_peer, handle_punch_hole_request,
}

-- Whether a time of registration counts as recent: the test of both `handle_punch_hole_request` and
-- `handle_online_request`.
abbrev pub is_recent : ℕ → ℕ → Bool
is_recent now tm = ltb_ℤ (elapsed_millis_i32 now tm) reg_timeout

-- For 2^31 milliseconds (24.8 days) after the registration, the test is whether fewer than 30
-- seconds have passed.
pub is_recent_early :
    (now tm : ℕ)
    → as_millis (elapsed now tm) < 2_147_483_648
    → (is_recent now tm ≡ true) ↔ (as_millis (elapsed now tm) < 30_000)
unfolding elapsed_millis_i32 as_millis elapsed
is_recent_early now tm h = ground arith

-- From 2^31 to 2^32 milliseconds after it the test is always passed.
pub is_recent_wraps :
    (now tm : ℕ)
    → 2_147_483_648 ≤ as_millis (elapsed now tm)
    → as_millis (elapsed now tm) < 4_294_967_296
    → is_recent now tm ≡ true
unfolding elapsed_millis_i32 as_millis elapsed
is_recent_wraps now tm lo hi = ground arith

-- The peer that a look-up found, if it is recent, by its address; else why the request fails.
abbrev pub verdict : Ctx → Option LockPeer × PeerMap → SocketAddr ⊎ Failure
verdict ctx (none, pm) = inr id_not_exist
verdict ctx (some r, pm) =
    if is_recent ctx.now (pm.cell r).last_reg_time then inl (pm.cell r).socket_addr else inr offline

-- What a verdict asks of the answer and of the state.
abbrev pub Follows : SocketAddr ⊎ Failure → Shared → Answer × Shared → Type 0
Follows (inl to) s (a, s') = a.1 ≡ some to
Follows (inr f) s (a, s') =
    (a ≡ (refusal f, none))
    × (s'.punch_reqs ≡ s.punch_reqs)
    × (s'.rotation_relay_server ≡ s.rotation_relay_server)
    × (s'.tx ≡ s.tx)

opposite_tests : (a b : ℤ) → ltb_ℤ a b ≡ not (leb_ℤ b a)
opposite_tests a b = ground arith

Follows-if :
    (stale recent : Bool) (to : SocketAddr) (s : Shared) (pm : PeerMap) (alive : Answer × Shared)
    → recent ≡ not stale
    → Follows (inl to) s alive
    → Follows
        (if recent then inl to else inr offline)
        s
        (if stale then ((refusal offline, none), record s { pm = pm }) else alive)
Follows-if true false to s pm alive e h = (refl, refl, refl, refl)
Follows-if true true to s pm alive e h = cc
Follows-if false true to s pm alive e h = h
Follows-if false false to s pm alive e h = cc

Follows-guard :
    (b : Bool) (v : SocketAddr ⊎ Failure) (s : Shared) (x y : Answer × Shared)
    → b ≡ false
    → Follows v s y
    → Follows v s (if b then x else y)
Follows-guard false v s x y e h = h
Follows-guard true v s x y e h = cc

guard_false :
    (key licence_key : String)
    → (key ≡ "") ⊎ (licence_key ≡ key)
    → (not (key == "") && not (licence_key == key)) ≡ false
guard_false key licence_key h = ground (arith, eq_iff key "", eq_iff licence_key key)

module _ (env : Env) (ctx : Ctx) (l : Local) (addr : SocketAddr) (ph : PunchHoleRequest)
    (ws : Bool) where
  punch_peer-Follows :
      (g : Option LockPeer × PeerMap) (s : Shared)
      → Follows (verdict ctx g) s (punch_peer env ctx l addr ph ws g s)
  unfolding punch_peer
  punch_peer-Follows (none, pm) s = (refl, refl, refl, refl)
  punch_peer-Follows (some r, pm) s =
      let age : ℤ = elapsed_millis_i32 ctx.now (pm.cell r).last_reg_time in
      Follows-if (leb_ℤ reg_timeout age) (ltb_ℤ age reg_timeout) (pm.cell r).socket_addr s pm _
        (opposite_tests age reg_timeout) refl

  -- A request with the server's key, or to a server without one, follows what the look-up of the id
  -- finds: for a recent peer the answer is addressed to that peer; for one that is not recent or not
  -- there it is the failure alone, and neither a request is recorded nor a relay server used up.
  pub punch-Follows :
      (key : String) (s : Shared)
      → (key ≡ "") ⊎ (ph.licence_key ≡ key)
      → Follows
          (verdict ctx (get env ctx ph.id s.pm))
          s
          (handle_punch_hole_request env ctx l addr ph key ws s)
  unfolding handle_punch_hole_request
  punch-Follows key s (inl k) =
      Follows-guard _ _ s _ _ (guard_false key ph.licence_key (inl k))
        (punch_peer-Follows (get env ctx ph.id s.pm) s)
  punch-Follows key s (inr k) =
      Follows-guard _ _ s _ _ (guard_false key ph.licence_key (inr k))
        (punch_peer-Follows (get env ctx ph.id s.pm) s)

  -- At a server with a key, a request with another key is answered LICENSE_MISMATCH, and nothing at
  -- all changes.
  pub punch_wrong_key :
      (key : String) (s : Shared)
      → key ≢ ""
      → ph.licence_key ≢ key
      → handle_punch_hole_request env ctx l addr ph key ws s ≡ ((refusal license_mismatch, none), s)
  unfolding handle_punch_hole_request
  punch_wrong_key key s k h = ground (arith, eq_iff key "", eq_iff ph.licence_key key)
