-- ===== src/Server/SelfTest.antt =====
-- src/rendezvous_server.rs, `test_hbbs` and the task of `start` that runs it: the server sends itself
-- a RegisterPeer every second, and ends the process where no answer comes.
pub mod Watchdog
use kinbridge_server.Prelude.{
  ℕ, Bool, true, false, String, List, [], ◌∷◌, ◌++◌, Option, none, some, ltb, if◌then◌else◌, ◌==◌,
  ◌||◌, string_eq,
}
use kinbridge_server.Prelude.Int.{pos}
use kinbridge_server.Net.{SocketAddr, IpAddr, v4, v6, is_unspecified}
use kinbridge_server.Time.{elapsed_secs}
use kinbridge_server.Env.{Env}
use kinbridge_server.Message.{Bytes, Message, register_peer}

-- A tick of the timer, with the time and whether the message can be sent, and a datagram.
pub data TestEvent : Type 0 where
  ticked : ℕ → Bool → TestEvent
  received : ℕ → Bytes → TestEvent

pub data TestFailure : Type 0 where
  timed_out send_failed no_socket : TestFailure

-- `messages` are the messages that the test has sent.
pub record Testing : Type 0 where
  pub last_time_recv : ℕ
  pub messages : List (Message × SocketAddr)

-- What one run of the test meets; without events it goes on.
pub record TestRun : Type 0 where
  pub has_socket : Bool
  pub now : ℕ
  pub events : List TestEvent

localhost_of : IpAddr → IpAddr
localhost_of (v4 a) = v4 2_130_706_433
localhost_of (v6 a) = v6 1

-- The address to which the test sends.
unfoldable pub target : SocketAddr → SocketAddr
unfolding localhost_of is_unspecified
target addr = if is_unspecified addr.ip then record addr { ip = localhost_of addr.ip } else addr

unfoldable pub test_message : Message
test_message = register_peer (record { id = "(:test_hbbs:)"; serial = pos 0 })

-- `last_time_recv` after a datagram.
unfoldable pub heard_at : ℕ → Option Message → ℕ → ℕ
heard_at now (some m) last = now
heard_at now none last = last

module _ (env : Env) where
  -- The failure that ends the test, if any.
  unfoldable pub test_loop : SocketAddr → List TestEvent → Testing → Option TestFailure × Testing
  unfolding elapsed_secs heard_at test_message
  test_loop addr [] s = (none, s)
  test_loop addr (received now bytes ∷ events) s =
      test_loop addr events
        (record s { last_time_recv = heard_at now (env.parse_from_bytes bytes) s.last_time_recv })
  test_loop addr (ticked now sends ∷ events) s =
      let rest =
        test_loop addr events (record s { messages = s.messages ++ (test_message, addr) ∷ [] }) in
      if ltb 12 (elapsed_secs now s.last_time_recv)
      then (some timed_out, s)
      else if sends
      then rest
      else (some send_failed, s)

  unfoldable pub test_hbbs : SocketAddr → TestRun → Option TestFailure
  unfolding test_loop target
  test_hbbs addr run =
      if run.has_socket
      then (test_loop (target addr) run.events
          (record { last_time_recv = run.now; messages = [] })).0
      else some no_socket

  exits_after : Option TestFailure → Bool
  exits_after none = false
  exits_after (some e) = true

  try_v4 : IpAddr → ℕ → TestRun → Bool
  unfolding test_hbbs exits_after
  try_v4 (v4 a) port run = true
  try_v4 (v6 a) port run =
      if is_unspecified (v6 a)
      then exits_after (test_hbbs (record { ip = v4 0; port = port }) run)
      else true

  second_try : SocketAddr → TestRun → Option TestFailure → Bool
  unfolding try_v4
  second_try addr run none = false
  second_try addr run (some e) = try_v4 addr.ip addr.port run

  -- Whether the process exits; after a failure at an unspecified IPv6 address IPv4 is tried.
  unfoldable pub self_test : SocketAddr → TestRun → TestRun → Bool
  unfolding test_hbbs second_try
  self_test addr first second = second_try addr second (test_hbbs addr first)

-- `test_addr.to_lowercase() != "no"`, of TEST_HBBS, and the address otherwise. `none` is an error of
-- `parse`, which ends the server's start.
unfoldable pub is_no : String → Bool
is_no s = s == "no" || s == "No" || s == "nO" || s == "NO"

unfoldable pub test_addr :
    (String → Option SocketAddr) → SocketAddr → String → Option (Option SocketAddr)
unfolding is_no
test_addr parse own text =
    if is_no text then some none else if text == "" then some (some own) else asked (parse text)
  where
    asked : Option SocketAddr → Option (Option SocketAddr)
    asked none = none
    asked (some a) = some (some a)
