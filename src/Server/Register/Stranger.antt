-- ===== src/Server/Register/Stranger.antt =====
-- What one RegisterPk does to the Peer that it found: refusals, the change of a key, and the answer
-- when the database fails.
use Prim.Native.String.{len}
use kinbridge_server.Prelude.{
  ◌≤◌, ◌≡◌, refl, Bool, true, false, String, [], ◌∷◌, ◌++◌, none, some, ◌==◌, nat_eq, string_eq,
  list_eq, arith, is_empty, ◌⊎◌, ltb, if◌then◌else◌,
}
use kinbridge_server.Dict.{lookup}
use kinbridge_server.Net.{SocketAddr}
use kinbridge_server.Message.{RegisterPk, uuid_mismatch, too_frequent, register_pk_response}
use kinbridge_server.Blocker.{IpBlockMap, check_ip_blocker}
use kinbridge_server.Env.{Env, Ctx}
use kinbridge_server.Peers.{Peer, LockPeer}
use kinbridge_server.Peers.Stored.{get_or-cached}
use kinbridge_server.Server.State.{Shared}
use kinbridge_server.Server.Send.{done, send_udp, send_rk_res}
use kinbridge_server.Server.Register.{
  compare_owner, compare_pk, register_found, admit_pk, handle_register_pk,
}

compare_owner-none :
    (p : Peer) (rk : RegisterPk) (ip : String)
    → is_empty p.uuid ≡ false
    → ((p.uuid == rk.uuid) ≡ false) ⊎ (((p.info.ip == ip) ≡ false) × ((p.pk == rk.pk) ≡ false))
    → compare_owner p rk ip ≡ none
unfolding compare_owner
compare_owner-none p rk ip h d = ground arith

-- Who is not the owner of the Peer that the id has.
abbrev pub IsStranger : Env → SocketAddr → RegisterPk → Peer → Type 0
IsStranger env addr rk p =
    (is_empty p.uuid ≡ false)
    × (((p.uuid == rk.uuid) ≡ false)
        ⊎ (((p.info.ip == env.show_ip addr.ip) ≡ false) × ((p.pk == rk.pk) ≡ false)))

module _ (env : Env) (ctx : Ctx) (addr : SocketAddr) (rk : RegisterPk) where
  admit_pk-stranger :
      (r : LockPeer) (s : Shared) (attempt : Bool × IpBlockMap)
      → ctx.send_ok ≡ true
      → lookup rk.id s.pm.map ≡ some r
      → IsStranger env addr rk (s.pm.cell r)
      → admit_pk env ctx addr rk (env.show_ip addr.ip) attempt s ≡ (
        done,
        record s {
          ip_blocker = attempt.1;
          udp_sent =
              s.udp_sent
              ++ (register_pk_response (if attempt.0 then uuid_mismatch else too_frequent), addr)
                ∷ [];
        },
      )
  unfolding admit_pk register_found compare_pk send_rk_res send_udp
  admit_pk-stranger r s (false, blocker) ok found h = rw ok refl
  admit_pk-stranger r s (true, blocker) ok found h =
      let refused : compare_owner (s.pm.cell r) rk (env.show_ip addr.ip) ≡ none =
        compare_owner-none (s.pm.cell r) rk (env.show_ip addr.ip) h.0 h.1 in
      rw (get_or-cached env ctx rk.id r s.pm found, refused, ok) refl

  -- For an id of six bytes or more whose Peer in memory has a uuid, a RegisterPk with another uuid,
  -- or with another key from another IP address, is answered UUID_MISMATCH where the limit of its IP
  -- address allows the attempt, and TOO_FREQUENT else, if the answer can be sent. Beside the answer
  -- the attempt changes nothing but the table of that limit.
  pub stranger_refused :
      (r : LockPeer) (s : Shared)
      → ctx.send_ok ≡ true
      → is_empty rk.uuid ≡ false
      → is_empty rk.pk ≡ false
      → 6 ≤ len rk.id
      → lookup rk.id s.pm.map ≡ some r
      → IsStranger env addr rk (s.pm.cell r)
      → let attempt = check_ip_blocker ctx.now (env.show_ip addr.ip) rk.id s.ip_blocker in
        handle_register_pk env ctx addr rk s ≡ (
          done,
          record s {
            ip_blocker = attempt.1;
            udp_sent =
                s.udp_sent
                ++ (register_pk_response (if attempt.0 then uuid_mismatch else too_frequent), addr)
                  ∷ [];
          },
        )
  unfolding handle_register_pk
  stranger_refused r s ok u k long found h =
      let checked : ltb (len rk.id) 6 ≡ false = ground arith in
      let attempt = check_ip_blocker ctx.now (env.show_ip addr.ip) rk.id s.ip_blocker in
      rw (u, k, checked) (admit_pk-stranger r s attempt ok found h)
