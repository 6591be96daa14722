-- ===== src/RelayServer/Pairing.antt =====
-- Who is paired with whom.
use kinbridge_server.Prelude.{
  ◌≡◌, ◌≢◌, refl, ap, ◌∙◌, String, true, false, Bool-cases, none, some, string_eq, arith, eq_iff,
  ◌⊎◌, inl, inr,
}
use kinbridge_server.Dict.{lookup, insert, remove}
use kinbridge_server.Dict.Laws.{
  lookup-insert, lookup-insert_self, lookup-remove, lookup-remove_self,
}
use kinbridge_server.Message.{Bytes, RequestRelay, request_relay}
use kinbridge_server.Env.{Env}
use kinbridge_server.RelayServer.{
  Stream, Tables, closed, relaying, Progress, must_wait, set_both_raw, pair_with, take_peer, admit,
  first_message, arrive, wait, expire,
}

-- A RequestRelay that the server accepts: it has the key, where one is set, and a uuid.
abbrev pub IsAdmitted : String → RequestRelay → Type 0
IsAdmitted key rf = ((key ≡ "") ⊎ (rf.licence_key ≡ key)) × (rf.uuid ≢ "")

admit-take :
    (key : String) (stream : Stream) (id : String) (rf : RequestRelay) (t : Tables)
    → IsAdmitted key rf
    → admit key stream id rf t ≡ take_peer stream id rf.uuid t
unfolding admit
admit-take key stream id rf t (k, u) =
    ground (arith, eq_iff key "", eq_iff rf.licence_key key, eq_iff rf.uuid "")

-- The two streams are relayed under the arriving address; both are raw if neither is a WebSocket
-- connection, and else both are as they were.
abbrev pub IsPaired : Stream → Stream → String → Progress → Type 0
IsPaired a b id p =
    ((a.is_ws ≡ false)
      × (b.is_ws ≡ false)
      × (p ≡ relaying (record a { raw = true }) (record b { raw = true }) id))
    ⊎ (((a.is_ws ≡ true) ⊎ (b.is_ws ≡ true)) × (p ≡ relaying a b id))

set_both_raw-IsPaired : (a b : Stream) (id : String) → IsPaired a b id (set_both_raw a b id)
unfolding set_both_raw
set_both_raw-IsPaired a b id = elim (Bool-cases a.is_ws) [
  | inl e ↦ inr (inl e, rw e refl)
  | inr e ↦ elim (Bool-cases b.is_ws) [
    | inl f ↦ inr (inr f, rw (e, f) refl)
    | inr f ↦ inl (e, f, rw (e, f) refl)
  ]
]

module _ (env : Env) (key : String) (bytes : Bytes) (rf : RequestRelay) where
  arrive-take :
      (stream : Stream) (id : String) (t : Tables)
      → env.parse_from_bytes bytes ≡ some (request_relay rf)
      → IsAdmitted key rf
      → arrive env key stream id bytes t ≡ take_peer stream id rf.uuid t
  unfolding arrive first_message
  arrive-take stream id t p a = rw p (admit-take key stream id rf t a)

  -- The first connection that names a uuid waits under it.
  pub arrive-waits :
      (stream : Stream) (id : String) (t : Tables)
      → env.parse_from_bytes bytes ≡ some (request_relay rf)
      → IsAdmitted key rf
      → lookup rf.uuid t.peers ≡ none
      → (arrive env key stream id bytes t).0 ≡ must_wait rf.uuid
  unfolding take_peer pair_with
  arrive-waits stream id t p a e = rw (arrive-take stream id t p a, e) refl

  arrive-wait :
      (stream peer : Stream) (id : String) (t : Tables)
      → env.parse_from_bytes bytes ≡ some (request_relay rf)
      → IsAdmitted key rf
      → arrive env key stream id bytes (wait rf.uuid peer t) ≡ (
        set_both_raw stream peer id,
        record t {
          peers = remove rf.uuid (insert rf.uuid peer t.peers);
          usage = insert id (0, 0, 0, 0) t.usage;
        },
      )
  unfolding take_peer pair_with wait
  arrive-wait stream peer id t p a =
      arrive-take stream id (wait rf.uuid peer t) p a
      ∙ ap
          (λ o.
            pair_with stream id rf.uuid o
              (record t { peers = remove rf.uuid (insert rf.uuid peer t.peers) }))
          (lookup-insert_self rf.uuid peer t.peers)

  -- A connection with the key, where one is set, that names a uuid under which another waits is
  -- paired with that one; the two are set raw exactly if neither is a WebSocket connection. Nothing
  -- is left under the uuid, the other uuids keep what waits under them, and a new usage is kept
  -- under the arriving address.
  pub arrive-pairs :
      (stream peer : Stream) (id : String) (t : Tables)
      → env.parse_from_bytes bytes ≡ some (request_relay rf)
      → IsAdmitted key rf
      → let after = arrive env key stream id bytes (wait rf.uuid peer t) in
        IsPaired stream peer id after.0
        × (lookup rf.uuid after.1.peers ≡ none)
        × ((uuid : String) → rf.uuid ≢ uuid → lookup uuid after.1.peers ≡ lookup uuid t.peers)
        × (lookup id after.1.usage ≡ some (0, 0, 0, 0))
  arrive-pairs stream peer id t p a = rw (arrive-wait stream peer id t p a) (
    set_both_raw-IsPaired stream peer id,
    lookup-remove_self rf.uuid (insert rf.uuid peer t.peers),
    (λ uuid ne. ground (
      arith,
      lookup-remove rf.uuid uuid (insert rf.uuid peer t.peers),
      lookup-insert rf.uuid uuid peer t.peers,
      eq_iff rf.uuid uuid,
    )),
    lookup-insert_self id (0, 0, 0, 0) t.usage,
  )

  -- A connection whose request has a wrong key or no uuid is closed, and nothing changes.
  pub arrive-refused :
      (stream : Stream) (id : String) (t : Tables)
      → env.parse_from_bytes bytes ≡ some (request_relay rf)
      → ((key ≢ "") × (rf.licence_key ≢ key)) ⊎ (rf.uuid ≡ "")
      → arrive env key stream id bytes t ≡ (closed, t)
  unfolding arrive first_message admit
  arrive-refused stream id t p (inl (k, w)) =
      rw p (ground (arith, eq_iff key "", eq_iff rf.licence_key key))
  arrive-refused stream id t p (inr e) = rw p (ground (arith, eq_iff rf.uuid ""))

  -- Two admitted connections with one uuid, under which nothing waits, that both looked before
  -- either was stored are not paired: the one stored later takes the place of the other.
  pub arrive_together :
      (a b : Stream) (id jd : String) (t : Tables)
      → env.parse_from_bytes bytes ≡ some (request_relay rf)
      → IsAdmitted key rf
      → lookup rf.uuid t.peers ≡ none
      → let first = arrive env key a id bytes t in
        let second = arrive env key b jd bytes first.1 in
        (first.0 ≡ must_wait rf.uuid)
        × (second.0 ≡ must_wait rf.uuid)
        × (lookup rf.uuid (wait rf.uuid b (wait rf.uuid a second.1)).peers ≡ some b)
  unfolding take_peer pair_with wait
  arrive_together a b id jd t p adm e =
      let looked : arrive env key a id bytes t
          ≡ (must_wait rf.uuid, record t { peers = remove rf.uuid t.peers }) =
        arrive-take a id t p adm
        ∙ ap (λ o. pair_with a id rf.uuid o (record t { peers = remove rf.uuid t.peers })) e in
      (
        arrive-waits a id t p adm e,
        arrive-waits b jd (arrive env key a id bytes t).1 p adm
            (ap (λ x. lookup rf.uuid x.1.peers) looked ∙ lookup-remove_self rf.uuid t.peers),
        lookup-insert_self rf.uuid b _,
      )

  -- After two admitted connections with one uuid were paired, a third with that uuid waits until the
  -- timer of the first runs out, which drops it.
  pub stale_timer :
      (a b c : Stream) (id jd : String) (t : Tables)
      → env.parse_from_bytes bytes ≡ some (request_relay rf)
      → IsAdmitted key rf
      → let paired = arrive env key b id bytes (wait rf.uuid a t) in
        let waiting = arrive env key c jd bytes paired.1 in
        (paired.0 ≡ set_both_raw b a id)
        × (waiting.0 ≡ must_wait rf.uuid)
        × (lookup rf.uuid (wait rf.uuid c waiting.1).peers ≡ some c)
        × (lookup rf.uuid (expire rf.uuid (wait rf.uuid c waiting.1)).peers ≡ none)
  unfolding expire wait
  stale_timer a b c id jd t p adm =
      let paired = arrive env key b id bytes (wait rf.uuid a t) in
      let facts = arrive-pairs b a id t p adm in
      (
        ap (λ x. x.0) (arrive-wait b a id t p adm),
        arrive-waits c jd paired.1 p adm facts.1,
        lookup-insert_self rf.uuid c _,
        lookup-remove_self rf.uuid _,
      )
