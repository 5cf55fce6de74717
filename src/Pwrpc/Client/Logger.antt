-- ===== src/Pwrpc/Client/Logger.antt =====
-- libmaestro/src/pwrpc/client.rs: an environment for the client's examples, which keeps a log of each
-- caller's updates. Its channels are numbered in the order in which they are made.
use pbpctrl.Prelude.{
  ℕ, suc, ◌≡◌, ◌⊎◌, refl, subst, inl, inr, List, [], ◌∷◌, ◌++◌, ok, Bool, true, false, Bool-cases,
  ◌||◌, ◌==◌, if◌then◌else◌, arith,
}
use pbpctrl.Pwrpc.Types.{RpcPacket}
use pbpctrl.Pwrpc.Client.{CallUid, CallUpdate, Io}
use pbpctrl.Pwrpc.Client.Callers.{Channels}
use pbpctrl.Pwrpc.Client.Callers.Answer.{Delivers}

pub record Log : Type 0 where
  pub log : ℕ → List CallUpdate
  pub shut : List ℕ
  pub made : ℕ

abbrev pub is_shut : ℕ → List ℕ → Bool
is_shut n [] = false
is_shut n (m ∷ ms) = (n == m) || is_shut n ms

abbrev pub logger : Io
logger = record {
  World = Log;
  Sender = ℕ;
  Failure = ℕ;
  unbounded_send = λ s u w.
      if is_shut s w.shut
      then w
      else record w { log = λ t. if s == t then w.log t ++ u ∷ [] else w.log t };
  close_channel = λ s w. record w { shut = s ∷ w.shut };
  is_closed = λ s w. is_shut s w.shut;
  send = λ p w. (ok tt, w);
  close = λ w. (ok tt, w);
}

pub logs :
    (s t : ℕ) (u : CallUpdate) (w : Log)
    → ((logger.unbounded_send s u w).log t ≡ w.log t)
      ⊎ ((s ≡ t)
          × (is_shut t w.shut ≡ false)
          × ((logger.unbounded_send s u w).log t ≡ w.log t ++ u ∷ []))
logs s t u w = elim (Bool-cases (is_shut s w.shut)) [
  | inl is ↦ inl (rw is refl)
  | inr not ↦ elim (Bool-cases (s == t)) [
    | inl same ↦
        let e : s ≡ t = ground (arith, same) in
        inr (e, subst (λ x. is_shut x w.shut ≡ false) e not, rw (not, same) refl)
    | inr other ↦ inl (rw (not, other) refl)
  ]
]

pub stays_sent :
    (s t : ℕ) (u : CallUpdate) (w : Log)
    → is_shut t w.shut ≡ true
    → is_shut t (logger.unbounded_send s u w).shut ≡ true
stays_sent s t u w h = elim (Bool-cases (is_shut s w.shut)) [
  | inl is ↦ rw is h
  | inr not ↦ rw not h
]

pub shut_self : (s : ℕ) (w : Log) → is_shut s (logger.close_channel s w).shut ≡ true
shut_self s w = ground arith

pub stays_shut :
    (s t : ℕ) (w : Log) → is_shut t w.shut ≡ true → is_shut t (logger.close_channel s w).shut ≡ true
stays_shut s t w h = ground (arith, h)

abbrev pub channels : Channels logger
channels = record {
  received = λ s w. w.log s;
  sent = logs;
  closed_self = shut_self;
  received_closed = λ s t w. refl;
  received_sent = λ t p w. refl;
  received_end = λ t w. refl;
  stays_sent = stays_sent;
  stays_closed = stays_shut;
  stays_send = λ t p w h. h;
  stays_end = λ t w h. h;
}

-- `mpsc::unbounded`.
abbrev pub unbounded : Log → ℕ × Log
unbounded w = (w.made, record w { made = suc w.made })

abbrev pub uid : ℕ → CallUid
uid n = record { channel = 19; service = 5; method = 6; call = n }

abbrev pub packet_of : ℕ → ℕ → RpcPacket
packet_of type call = record {
  type = type;
  channel_id = 19;
  service_id = 5;
  method_id = 6;
  payload = 7 ∷ [];
  status = 0;
  call_id = call;
}

pub taken :
    (s : ℕ) (u : CallUpdate) (w : Log)
    → is_shut s w.shut ≡ false
    → (logger.unbounded_send s u w).log s ≡ w.log s ++ u ∷ []
taken s u w h = let same : (s == s) ≡ true = ground arith in rw (h, same) refl

abbrev pub delivers : Delivers logger channels
delivers = record { taken = taken; open_send = λ s p w h. h }
