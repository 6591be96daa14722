-- ===== src/Server/Loop/Delivery.antt =====
-- The channel to the loop: what a task queues with `tx` the loop sends over UDP, in that order.
use kinbridge_server.Prelude.{
  ◌≡◌, refl, sym, ap, true, String, List, [], ◌∷◌, ◌++◌, some, none, All, length, arith,
}
use mathlib.Core.List.{append_assoc, append-nil}
use kinbridge_server.Net.{SocketAddr}
use kinbridge_server.Env.{Env, Ctx}
use kinbridge_server.Message.{Message}
use kinbridge_server.Server.State.{Local, Shared, Data, msg}
use kinbridge_server.Server.Send.{send_udp}
use kinbridge_server.Server.Loop.{io_step, received, Round}

abbrev pub Outgoing : Type 0
Outgoing = Message × SocketAddr

abbrev pub queued : Outgoing → Data
queued (m, a) = msg m a

abbrev pub queue_of : List Outgoing → List Data
queue_of [] = []
queue_of (x ∷ xs) = queued x ∷ queue_of xs

module _ (env : Env) (key : String) where
  -- The rounds in which the loop picks the channel, one for each context, up to a failure.
  after_round : (Local → Shared → Round) → Round → Round
  after_round go_on (none, l, s) = go_on l s
  after_round go_on (some f, l, s) = (some f, l, s)

  unfoldable pub rounds : List Ctx → Local → Shared → Round
  unfolding io_step after_round
  rounds [] l s = (none, l, s)
  rounds (ctx ∷ ctxs) l s = after_round (rounds ctxs) (io_step env ctx key received l s)

  -- Messages at the head of the channel are all sent, in their order and to their addresses, by as
  -- many rounds, while the socket accepts them. The loop does not end, and what was queued behind
  -- them is next.
  pub rounds-deliver :
      (ctxs : List Ctx) (xs : List Outgoing) (l : Local) (s : Shared) (rest : List Data)
      → length ctxs ≡ length xs
      → All (λ (c : Ctx). c.send_ok ≡ true) ctxs
      → s.tx ≡ queue_of xs ++ rest
      → rounds ctxs l s ≡ (none, l, record s { tx = rest; udp_sent = s.udp_sent ++ xs })
  unfolding rounds io_step after_round
  rounds-deliver [] [] l s rest n ok e =
      rw (sym e) (ap (λ u. (none, l, record s { udp_sent = u })) (sym (append-nil s.udp_sent)))
  rounds-deliver [] (x ∷ xs) l s rest n ok e = ground (arith, n)
  rounds-deliver (c ∷ cs) [] l s rest n ok e = ground (arith, n)
  rounds-deliver (c ∷ cs) ((m, a) ∷ xs) l s rest n ok e =
      rw
        (
          e,
          send_udp,
          ok.0,
          rounds-deliver cs xs l
              (record s { tx = queue_of xs ++ rest; udp_sent = s.udp_sent ++ (m, a) ∷ [] }) rest
              (omega arith) ok.1 refl,
        )
        (ap (λ u. (none, l, record s { tx = rest; udp_sent = u }))
          (append_assoc s.udp_sent ((m, a) ∷ []) xs))
