-- ===== src/Server/Loop/Owner.antt =====
-- A round of the loop keeps the owners of ids.
use kinbridge_server.Prelude.{
  ℕ, ◌≡◌, refl, Bool, true, false, String, List, [], ◌∷◌, ltb, length, if◌then◌else◌,
}
use kinbridge_server.Env.{Env, Ctx}
use kinbridge_server.Peers.Valid.{IsValid}
use kinbridge_server.Peers.Owners.{Keeps, Keeps-refl}
use kinbridge_server.Server.State.{Local, Shared, Data, msg, relay_servers0, relay_servers}
use kinbridge_server.Server.Send.{done, failed}
use kinbridge_server.Server.Send.Frame.{pm-send_udp}
use kinbridge_server.Server.Udp.{Outcome, handle_udp}
use kinbridge_server.Server.Udp.Identity.{handle_udp-Keeps}
use kinbridge_server.Server.Loop.{
  Event, timer, received, datagram, report_servers, reachable_servers, check_relay_servers,
  handle_data, receive, after_udp, io_step,
}

report_servers-pm : (xs : List String) (s : Shared) → (report_servers xs s).pm ≡ s.pm
unfolding report_servers
report_servers-pm [] s = refl
report_servers-pm (x ∷ xs) s = refl

timer-pm :
    (b : Bool) (answers : List ℕ) (rs : List String) (s : Shared)
    → (if b then check_relay_servers answers rs s else s).pm ≡ s.pm
unfolding check_relay_servers
timer-pm true answers rs s = report_servers-pm (reachable_servers answers rs) s
timer-pm false answers rs s = refl

after_udp-pm : (o : Outcome) → (after_udp o).2.pm ≡ o.2.pm
unfolding after_udp
after_udp-pm (done, l, s) = refl
after_udp-pm (failed, l, s) = refl

module _ (env : Env) (ctx : Ctx) (key : String) where
  handle_data-pm : (l : Local) (d : Data) (s : Shared) → (handle_data env ctx l d s).2.pm ≡ s.pm
  unfolding handle_data
  handle_data-pm l (msg m addr) s = pm-send_udp ctx m addr s
  handle_data-pm l (relay_servers0 rs) s = refl
  handle_data-pm l (relay_servers rs) s = refl

  receive-pm : (l : Local) (q : List Data) (s : Shared) → (receive env ctx l q s).2.pm ≡ s.pm
  unfolding receive
  receive-pm l [] s = refl
  receive-pm l (d ∷ q) s = handle_data-pm l d (record s { tx = q })

  -- A round of the loop keeps every owner, whatever event it picks.
  pub io_step-Keeps :
      (e : Event) (l : Local) (s : Shared)
      → IsValid s.pm
      → Keeps s.pm (io_step env ctx key e l s).2.pm
  unfolding io_step
  io_step-Keeps (timer answers) l s v =
      rw (timer-pm (ltb 1 (length l.relay_servers0)) answers l.relay_servers0 s) (Keeps-refl s.pm v)
  io_step-Keeps received l s v = rw (receive-pm l s.tx s) (Keeps-refl s.pm v)
  io_step-Keeps (datagram bytes addr) l s v =
      rw (after_udp-pm (handle_udp env ctx l key addr bytes s))
        (handle_udp-Keeps env ctx l key addr bytes s v)
  io_step-Keeps _ l s v = Keeps-refl s.pm v
