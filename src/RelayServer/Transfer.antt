-- ===== src/RelayServer/Transfer.antt =====
-- src/relay_server.rs, `relay`: the loop that copies between two paired streams, with its usage
-- statistics, its limits of speed and the two lists of addresses. A round is what `select!` picks and
-- what follows it. A usize has 64 bits; the limiters only delay, so the model keeps what each consumed.
-- USAGE is what it is between two rounds of this relay; the steps of the others are in System.
pub mod Pipes
pub mod Accounts
pub mod Seconds
pub mod Limits
use kinbridge_server.Prelude.{
  ℕ, ◌+◌, ◌*◌, ◌/◌, ◌%◌, ◌^◌, Bool, true, false, not, ◌&&◌, ◌||◌, String, List, [], ◌∷◌, ◌++◌,
  Option, none, some, ltb, leb, length, is_empty, if◌then◌else◌, string_eq,
}
use kinbridge_server.Dict.{Dict, insert, contains}
use kinbridge_server.Time.{elapsed, as_millis, elapsed_secs}
use kinbridge_server.Message.{Bytes}
use kinbridge_server.RelayServer.{Usage}

unfoldable pub usize : ℕ → ℕ
usize n = n % 2 ^ 64

pub data LimiterName : Type 0 where
  single blacklist total_bandwidth : LimiterName

-- What does not change during one relay: the address of the arriving stream, the key of its entry in
-- USAGE, and `downgrade_threshold` in bit/ms, which is computed in floating point before the loop.
pub record Terms : Type 0 where
  pub ip : String
  pub id : String
  pub downgrade_threshold : ℕ

-- What a round reads: the clock, the lists, DOWNGRADE_START_CHECK, and whether a send succeeds.
pub record Moment : Type 0 where
  pub now : ℕ
  pub blocklist : List String
  pub blacklist : List String
  pub downgrade_start_check : ℕ
  pub send_ok : Bool

-- `none` is the end of a stream, or an error of it.
pub data Pick : Type 0 where
  from_peer from_stream : Option Bytes → Pick
  tick : Pick

-- The local variables, what was sent to either side, and what the limiters consumed, newest first.
pub record Transfer : Type 0 where
  pub tm : ℕ
  pub elapsed_ms : ℕ
  pub total : ℕ
  pub total_s : ℕ
  pub highest_s : ℕ
  pub downgrade : Bool
  pub blacked : Bool
  pub last_recv_time : ℕ
  pub to_stream : List Bytes
  pub to_peer : List Bytes
  pub consumed : List (LimiterName × ℕ)

pub data Outcome : Type 0 where
  going ended timed_out send_failed : Outcome

-- The variables before the loop.
unfoldable pub begin_transfer : ℕ → Transfer
begin_transfer now = record {
  tm = now;
  elapsed_ms = 0;
  total = 0;
  total_s = 0;
  highest_s = 0;
  downgrade = false;
  blacked = false;
  last_recv_time = now;
  to_stream = [];
  to_peer = [];
  consumed = [];
}

unfoldable pub limiter_for : Transfer → LimiterName
limiter_for r = if r.blacked || r.downgrade then blacklist else single

-- A frame was received: it is counted, and the limiters are asked.
unfoldable pub count_frame : Moment → Bytes → Transfer → Transfer
unfolding usize limiter_for
count_frame m bytes r =
    let nb = usize (length bytes * 8) in
    record r {
      last_recv_time = m.now;
      consumed = (total_bandwidth, nb) ∷ (limiter_for r, nb) ∷ r.consumed;
      total = usize (r.total + nb);
      total_s = usize (r.total_s + nb);
    }

-- An empty frame, a WebSocket message that is not binary, is not sent.
unfoldable pub forward : Moment → Bytes → Outcome
forward m bytes = if is_empty bytes || m.send_ok then going else send_failed

sent : Moment → Bytes → List Bytes → List Bytes
sent m bytes out = if not (is_empty bytes) && m.send_ok then out ++ bytes ∷ [] else out

unfoldable pub pick_step : Moment → Pick → Transfer → Outcome × Transfer
unfolding count_frame forward sent elapsed_secs
pick_step m (from_peer none) r = (ended, r)
pick_step m (from_peer (some bytes)) r =
    (forward m bytes, record (count_frame m bytes r) { to_stream = sent m bytes r.to_stream })
pick_step m (from_stream none) r = (ended, r)
pick_step m (from_stream (some bytes)) r =
    (forward m bytes, record (count_frame m bytes r) { to_peer = sent m bytes r.to_peer })
pick_step m tick r = (if ltb 30 (elapsed_secs m.now r.last_recv_time) then timed_out else going, r)

-- The figures of the last second, or longer: `n` is its length in ms, and so at least 1000.
unfoldable pub measured : Terms → Moment → ℕ → Transfer → Transfer
unfolding usize contains
measured c m n r =
    let speed = r.total_s / n in
    let elapsed_ms = usize (r.elapsed_ms + n) in
    record r {
      blacked = contains c.ip m.blacklist;
      tm = m.now;
      highest_s = if ltb r.highest_s speed then speed else r.highest_s;
      elapsed_ms = elapsed_ms;
      total_s = 0;
      downgrade =
          r.downgrade
          || ltb m.downgrade_start_check elapsed_ms
            && ltb (usize (elapsed_ms * c.downgrade_threshold)) r.total;
    }

-- The new entry of USAGE, from the variables before and after `measured`.
figures : ℕ → Transfer → Transfer → Usage
figures n r r' = (r'.elapsed_ms, r'.total, r'.highest_s, r.total_s / n)

abbrev pub Round : Type 0
Round = Outcome × Transfer × Dict String Usage

-- What follows `select!`, with `n` the milliseconds since `tm`.
unfoldable pub check_second : Terms → Moment → ℕ → Transfer → Dict String Usage → Round
unfolding measured figures insert contains
check_second c m n r usage =
    if leb 1000 n
    then if contains c.ip m.blocklist
      then (ended, r, usage)
      else (going, measured c m n r, insert c.id (figures n r (measured c m n r)) usage)
    else (going, r, usage)

after_pick : Terms → Moment → Outcome × Transfer → Dict String Usage → Round
unfolding check_second usize elapsed as_millis
after_pick c m (going, r) usage = check_second c m (usize (as_millis (elapsed m.now r.tm))) r usage
after_pick c m (ended, r) usage = (ended, r, usage)
after_pick c m (timed_out, r) usage = (timed_out, r, usage)
after_pick c m (send_failed, r) usage = (send_failed, r, usage)

unfoldable pub relay_round : Terms → Moment → Pick → Transfer → Dict String Usage → Round
unfolding after_pick pick_step
relay_round c m p r usage = after_pick c m (pick_step m p r) usage

next_round : (Transfer → Dict String Usage → Round) → Round → Round
next_round go_on (going, r, usage) = go_on r usage
next_round go_on (o, r, usage) = (o, r, usage)

-- The loop over what `select!` picks; it is `going` where the list ends.
unfoldable pub relay_rounds : Terms → List (Moment × Pick) → Transfer → Dict String Usage → Round
unfolding relay_round next_round
relay_rounds c [] r usage = (going, r, usage)
relay_rounds c ((m, p) ∷ rest) r usage =
    next_round (relay_rounds c rest) (relay_round c m p r usage)
