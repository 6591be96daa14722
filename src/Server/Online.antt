-- ===== src/Server/Online.antt =====
-- `handle_online_request`: one bit for each peer that was asked about, from left to right.
pub mod Bits
pub mod Marks
use Prim.Native.Nat.{bit_or}
use kinbridge_server.Prelude.{
  ℕ, zero, suc, ◌+◌, ◌-◌, ◌/◌, ◌%◌, ◌^◌, Bool, true, false, String, List, [], ◌∷◌, map, Option,
  some, none, length, if◌then◌else◌,
}
use kinbridge_server.Prelude.Int.{ltb_ℤ}
use kinbridge_server.Time.{elapsed_millis_i32}
use kinbridge_server.Env.{Ctx}
use kinbridge_server.Message.{Bytes, Message, online_response}
use kinbridge_server.Peers.{LockPeer, PeerMap, get_in_memory}
use kinbridge_server.Server.Punch.{reg_timeout}

-- `BytesMut::zeroed(n)`.
unfoldable pub zeroed : ℕ → Bytes
zeroed zero = []
zeroed (suc n) = 0 ∷ zeroed n

-- `states[idx] |= bit`. An index out of range would panic; the model leaves the bytes as they are,
-- and length-fill with the bound of `mark` shows that this does not happen.
unfoldable pub or_at : ℕ → ℕ → Bytes → Bytes
or_at idx bit [] = []
or_at zero bit (b ∷ bs) = bit_or b bit ∷ bs
or_at (suc idx) bit (b ∷ bs) = b ∷ or_at idx bit bs

unfoldable pub mark : ℕ → Bytes → Bytes
unfolding or_at
mark i states = or_at (i / 8) (2 ^ (7 - i % 8)) states

-- The loop, from index i on; `onlines` says of each peer if it is online.
unfoldable pub fill : ℕ → List Bool → Bytes → Bytes
unfolding mark
fill i [] states = states
fill i (online ∷ rest) states = fill (i + 1) rest (if online then mark i states else states)

is_fresh : Ctx → PeerMap → Option LockPeer → Bool
unfolding elapsed_millis_i32
is_fresh ctx pm none = false
is_fresh ctx pm (some r) = ltb_ℤ (elapsed_millis_i32 ctx.now (pm.cell r).last_reg_time) reg_timeout

unfoldable pub is_online : Ctx → PeerMap → String → Bool
unfolding is_fresh get_in_memory
is_online ctx pm id = is_fresh ctx pm (get_in_memory id pm)

unfoldable pub online_states : Ctx → PeerMap → List String → Bytes
unfolding is_online fill zeroed
online_states ctx pm peers = fill 0 (map (is_online ctx pm) peers) (zeroed ((length peers + 7) / 8))

-- The answer that is written to the stream.
unfoldable pub handle_online_request : Ctx → PeerMap → List String → Message
unfolding online_states
handle_online_request ctx pm peers = online_response (online_states ctx pm peers)
