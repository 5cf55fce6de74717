-- ===== src/Pwrpc/System/Connected.antt =====
-- libmaestro/src/pwrpc/client.rs: a request queue for the examples, over the logged channels.
use pbpctrl.Prelude.{Bool, true, false, if◌then◌else◌, arith}
use pbpctrl.Pwrpc.Client.Logger.{logger, unbounded}
use pbpctrl.Pwrpc.System.{Mpsc, TakesOpen}

-- An end that is connected takes requests until the client terminates.
abbrev pub mpsc : Mpsc logger
mpsc = record {
  unbounded = unbounded;
  QueueTx = Bool;
  takes = λ connected s. if connected then s.is_open else false;
  is_closed = λ connected s. if connected then (if s.is_open then false else true) else true;
  disconnect = λ connected. false;
}

pub opened : TakesOpen logger mpsc
opened true s h = h
opened false s h = absurd (ground (arith, h))
