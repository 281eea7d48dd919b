-- ===== src/ZeroMq/Queue.antt =====
-- A socket for the examples that takes every frame and delivers what was sent in order.
use zippylog.Prelude.{◌≡◌, refl, true, Option, none, some, List, [], ◌∷◌, ◌++◌}
use zippylog.ZeroMq.{Part, Socket}
use zippylog.ZeroMq.Delivery.{IsWired}
use zippylog.ZeroMq.Transfer.{IsOpen}

-- The frames that are under way.
abbrev queue_recv : List Part → Option Part × List Part
queue_recv [] = (none, [])
queue_recv (p ∷ ps) = (some p, ps)

abbrev pub queue : Socket (List Part)
queue = record {
  send = λ flags t ps. (true, ps ++ (t, flags.more) ∷ []);
  recv = λ flags ps. queue_recv ps;
}

took :
    (p : Part) (ps qs : List Part)
    → qs ≡ p ∷ ps
    → ((queue_recv qs).0 ≡ some p) × ((queue_recv qs).1 ≡ ps)
took p ps qs e = rw e (refl, refl)

pub queue-IsWired : IsWired queue (λ ps. ps)
queue-IsWired = record {
  send_adds = λ flags t ps h. refl;
  recv_takes = λ flags qs p ps e. took p ps qs e;
}

pub queue-IsOpen : IsOpen queue
unfolding IsOpen
queue-IsOpen flags t ps = refl
