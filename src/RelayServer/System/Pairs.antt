-- ===== src/RelayServer/System/Pairs.antt =====
-- Whom the relay server brings together: only connections that asked for one uuid with the key.
use kinbridge_server.Prelude.{
  ℕ, ◌≡◌, refl, true, false, not, ◌&&◌, String, List, [], ◌∷◌, Option, none, some, get_elem?,
  string_eq, ◌==◌, ◌⊎◌, inl, inr, All, Bool-cases, arith, eq_iff,
}
use kinbridge_server.Dict.{Dict, lookup, remove}
use kinbridge_server.Dict.Members.{
  All-remove, All-insert, All-lookup, All-remove_at, All-get_elem?, All-map,
}
use kinbridge_server.Net.{SocketAddr}
use kinbridge_server.Env.{Env}
use kinbridge_server.Message.{Message, RequestRelay, request_relay}
use kinbridge_server.Server.Connection.{connection_addr}
use kinbridge_server.RelayServer.{
  Stream, Tables, Progress, closed, relaying, must_wait, set_both_raw, pair_with, take_peer, admit,
  first_message, arrive, wait, expire, relay_ended,
}
use kinbridge_server.RelayServer.Commands.{Floats}
use kinbridge_server.RelayServer.Commands.Lists.{check_cmd-tables}
use kinbridge_server.RelayServer.Start.{enter_loop, start}
use kinbridge_server.RelayServer.Access.{Access, operator, blocked, served, usage_id}
use kinbridge_server.RelayServer.System.{
  Asked, Relaying, Hbbr, Connection, with_tables, ask, settle, serve, connect, relay_goes_on,
  relay_stops, store_stream, wake, Step, connected, stored, woken, relayed, stopped, commanded,
  entered, listening, Reach, here, next,
}

-- The connection of this number asked for the uuid, with the key where one is set.
abbrev pub Said : String → List Asked → ℕ → String → Type 0
Said key [] number uuid = true ≡ false
Said key (a ∷ asked) number uuid =
    ((a.number ≡ number) × (a.uuid ≡ uuid) × ((key ≡ "") ⊎ (a.licence_key ≡ key)))
    ⊎ Said key asked number uuid

-- Both connections of a relay asked for one uuid.
abbrev pub SameUuid : String → List Asked → Relaying → Type 0
SameUuid key asked r =
    (uuid : String) × Said key asked r.stream.number uuid × Said key asked r.peer.number uuid

abbrev Waits : String → List Asked → String × Stream → Type 0
Waits key asked (uuid, stream) = Said key asked stream.number uuid

pub record IsPaired (key : String) (x : Hbbr) : Type 0 where
  pub storing : All (Waits key x.asked) x.operated.tables.peers
  pub waiting : All (Waits key x.asked) x.pending
  pub relays : All (SameUuid key x.asked) x.running

-- What `arrive` found, in terms of who asked.
abbrev Found : String → List Asked → ℕ → Progress × Tables → Type 0
Found key asked number (closed, t) = All (Waits key asked) t.peers
Found key asked number (must_wait uuid, t) =
    All (Waits key asked) t.peers × Said key asked number uuid
Found key asked number (relaying stream peer id, t) =
    All (Waits key asked) t.peers
    × ((uuid : String) × Said key asked stream.number uuid × Said key asked peer.number uuid)

module _ (key : String) (asked : List Asked) (stream : Stream) (id uuid : String) where
  set_both_raw-Found :
      (peer : Stream) (t : Tables)
      → All (Waits key asked) t.peers
      → Said key asked stream.number uuid
      → Said key asked peer.number uuid
      → Found key asked stream.number (set_both_raw stream peer id, t)
  unfolding set_both_raw
  set_both_raw-Found peer t h a b = elim (Bool-cases (not stream.is_ws && not peer.is_ws)) [
    | inl e ↦ rw e (h, (uuid, a, b))
    | inr e ↦ rw e (h, (uuid, a, b))
  ]

  pair_with-Found :
      (o : Option Stream) (t : Tables)
      → ((peer : Stream) → o ≡ some peer → Said key asked peer.number uuid)
      → All (Waits key asked) t.peers
      → Said key asked stream.number uuid
      → Found key asked stream.number (pair_with stream id uuid o t)
  unfolding pair_with
  pair_with-Found none t f h a = (h, a)
  pair_with-Found (some peer) t f h a = set_both_raw-Found peer _ h a (f peer refl)

  take_peer-Found :
      (t : Tables)
      → All (Waits key asked) t.peers
      → Said key asked stream.number uuid
      → Found key asked stream.number (take_peer stream id uuid t)
  unfolding take_peer
  take_peer-Found t h a =
      pair_with-Found (lookup uuid t.peers) (record t { peers = remove uuid t.peers })
        (λ peer e. All-lookup (Waits key asked) uuid t.peers h e)
        (All-remove (Waits key asked) uuid t.peers h) a

more :
    (key : String) (a : Asked) (asked : List Asked) (d : Dict String Stream)
    → All (Waits key asked) d
    → All (Waits key (a ∷ asked)) d
more key a asked d h = All-map (Waits key asked) (Waits key (a ∷ asked)) d (λ p w. inr w) h

module _ (key : String) (stream : Stream) (id : String) (asked : List Asked) (t : Tables) where
  admit-Found :
      (rf : RequestRelay)
      → All (Waits key asked) t.peers
      → Found key
          (ask stream.number (some (request_relay rf)) asked)
          stream.number
          (admit key stream id rf t)
  unfolding admit ask
  admit-Found rf h =
      let a : Asked = record {
        number = stream.number;
        uuid = rf.uuid;
        licence_key = rf.licence_key;
      } in
      elim (Bool-cases (not (key == "") && not (rf.licence_key == key))) [
        | inl e ↦ rw e (more key a asked t.peers h)
        | inr e ↦ elim (Bool-cases (rf.uuid == "")) [
          | inl f ↦ rw (e, f) (more key a asked t.peers h)
          | inr f ↦
              let keyed : (key ≡ "") ⊎ (rf.licence_key ≡ key) =
                ground (arith, eq_iff key "", eq_iff rf.licence_key key) in
              rw (e, f)
                (take_peer-Found key (a ∷ asked) stream id rf.uuid t (more key a asked t.peers h)
                  (inl (refl, refl, keyed)))
        ]
      ]

  first_message-Found :
      (o : Option Message)
      → All (Waits key asked) t.peers
      → Found key (ask stream.number o asked) stream.number (first_message key stream id o t)
  unfolding first_message ask
  first_message-Found none h = h
  first_message-Found (some (request_relay rf)) h = admit-Found rf h
  first_message-Found (some m) h = h

module _ (key : String) (number : ℕ) (asked : List Asked) where
  ask-Waits :
      (o : Option Message) (d : List (String × Stream))
      → All (Waits key asked) d
      → All (Waits key (ask number o asked)) d
  unfolding ask
  ask-Waits none d h = h
  ask-Waits (some (request_relay rf)) d h = more key _ asked d h
  ask-Waits (some m) d h = h

  ask-SameUuid :
      (o : Option Message) (rs : List Relaying)
      → All (SameUuid key asked) rs
      → All (SameUuid key (ask number o asked)) rs
  unfolding ask
  ask-SameUuid none rs h = h
  ask-SameUuid (some (request_relay rf)) rs h =
      All-map (SameUuid key asked) (SameUuid key (_ ∷ asked)) rs (λ r s. (s.0, inr s.1, inr s.2)) h
  ask-SameUuid (some m) rs h = h

module _ (env : Env) (floats : Floats) (vars : String → Option String) (key : String) where
  settle-IsPaired :
      (c : Connection) (addr : SocketAddr) (p : Progress × Tables) (x : Hbbr)
      → All (Waits key x.asked) x.pending
      → All (SameUuid key x.asked) x.running
      → Found key x.asked c.stream.number p
      → IsPaired key (settle env floats vars key c addr p x)
  unfolding settle with_tables
  settle-IsPaired c addr (closed, t) x w r f = record { storing = f; waiting = w; relays = r }
  settle-IsPaired c addr (must_wait uuid, t) x w r f = record {
    storing = f.0;
    waiting = (f.1, w);
    relays = r;
  }
  settle-IsPaired c addr (relaying stream peer id, t) x w r f = record {
    storing = f.0;
    waiting = w;
    relays = (f.1, r);
  }

  serve-IsPaired :
      (c : Connection) (a : Access) (x : Hbbr)
      → IsPaired key x
      → IsPaired key (serve env floats vars key c a x)
  unfolding serve arrive
  serve-IsPaired c operator x k = k
  serve-IsPaired c blocked x k = k
  serve-IsPaired c served x k =
      let addr = connection_addr env c.stream.is_ws c.addr c.real_ip in
      let o : Option Message = env.parse_from_bytes c.first_bytes in
      let t : Tables = x.operated.tables in
      settle-IsPaired c addr (first_message key c.stream (usage_id env addr) o t)
        (record x { asked = ask c.stream.number o x.asked })
        (ask-Waits key c.stream.number x.asked o x.pending k.waiting)
        (ask-SameUuid key c.stream.number x.asked o x.running k.relays)
        (first_message-Found key c.stream (usage_id env addr) x.asked t o k.storing)

  Step-IsPaired : {x y : Hbbr} → Step env floats vars key x y → IsPaired key x → IsPaired key y
  unfolding connect enter_loop relay_goes_on relay_stops store_stream wake with_tables wait expire
      relay_ended
  Step-IsPaired {x} (connected c) k = serve-IsPaired c _ x k
  Step-IsPaired {x} (stored i uuid stream e) k =
      let here : Waits key x.asked (uuid, stream) =
        All-get_elem? (Waits key x.asked) i x.pending k.waiting e in
      record {
        storing = All-insert (Waits key x.asked) uuid stream x.operated.tables.peers here k.storing;
        waiting = All-remove_at (Waits key x.asked) i x.pending k.waiting;
        relays = k.relays;
      }
  Step-IsPaired {x} (woken i uuid e) k = record {
    storing = All-remove (Waits key x.asked) uuid x.operated.tables.peers k.storing;
    waiting = k.waiting;
    relays = k.relays;
  }
  Step-IsPaired {x} (relayed i r m p e g) k =
      let both : SameUuid key x.asked r =
        All-get_elem? (SameUuid key x.asked) i x.running k.relays e in
      record {
        storing = k.storing;
        waiting = k.waiting;
        relays = (both, All-remove_at (SameUuid key x.asked) i x.running k.relays);
      }
  Step-IsPaired {x} (stopped i r e) k = record {
    storing = k.storing;
    waiting = k.waiting;
    relays = All-remove_at (SameUuid key x.asked) i x.running k.relays;
  }
  Step-IsPaired {x} entered k = record {
    storing = k.storing;
    waiting = k.waiting;
    relays = k.relays;
  }
  Step-IsPaired {x} (commanded cmd) k = record {
    storing = rw (check_cmd-tables floats cmd x.operated) k.storing;
    waiting = k.waiting;
    relays = k.relays;
  }

  Reach-IsPaired : {x y : Hbbr} → Reach env floats vars key x y → IsPaired key x → IsPaired key y
  Reach-IsPaired here k = k
  Reach-IsPaired (next r s) k = Step-IsPaired s (Reach-IsPaired r k)

  -- From the start of the server on, however connections, relays, timers, commands and restarts of
  -- the loop interleave: the two connections of every relay asked for one uuid, and both with the
  -- key, where one is set.
  pub relayed_alike :
      (blacklist_file blocklist_file : Option String) (y : Hbbr) (i : ℕ) (r : Relaying)
      → Reach env floats vars key (listening (start floats vars blacklist_file blocklist_file)) y
      → get_elem? y.running i ≡ some r
      → SameUuid key y.asked r
  unfolding listening start enter_loop
  relayed_alike blacklist_file blocklist_file y i r steps e =
      let k = Reach-IsPaired steps (record { storing = tt; waiting = tt; relays = tt }) in
      All-get_elem? (SameUuid key y.asked) i y.running k.relays e
