-- ===== src/Pwrpc/Client/Callers/History.antt =====
-- libmaestro/src/pwrpc/client.rs: in every run a caller receives stream items, then at most one final
-- update, and nothing behind it.
use pbpctrl.Prelude.{
  ◌≡◌, refl, sym, ◌∙◌, subst, ◌⊎◌, inl, inr, List, [], ◌∷◌, ◌++◌, true, false, All-append, arith,
}
use pbpctrl.Pwrpc.Client.{CallUpdate, Io, Client}
use pbpctrl.Pwrpc.Client.Run.{Event, run}
use pbpctrl.Pwrpc.Client.Run.Rule.{IsStable, run-keeps}
use pbpctrl.Pwrpc.Client.Callers.{Channels, is_item, AreItems}

module _ (io : Io) (ch : Channels io) where
  -- A history that has ended, on a closed channel.
  pub record Ended (t : io.Sender) (w : io.World) : Type 0 where
    pub items : List CallUpdate
    pub last : CallUpdate
    pub shape : ch.received t w ≡ items ++ last ∷ []
    pub streamed : AreItems items
    pub final : is_item last ≡ false
    pub shut : io.is_closed t w ≡ true

  abbrev pub IsHistory : io.Sender → io.World → Type 0
  IsHistory t w = AreItems (ch.received t w) ⊎ Ended t w

  -- Nothing was delivered, and a closed channel stayed closed.
  pub IsHistory-same :
      (t : io.Sender) (w w' : io.World)
      → ch.received t w' ≡ ch.received t w
      → (io.is_closed t w ≡ true → io.is_closed t w' ≡ true)
      → IsHistory t w
      → IsHistory t w'
  IsHistory-same t w w' same stays (inl items) = inl (subst AreItems (sym same) items)
  IsHistory-same t w w' same stays (inr e) = inr (record {
    items = e.items;
    last = e.last;
    shape = same ∙ e.shape;
    streamed = e.streamed;
    final = e.final;
    shut = stays e.shut;
  })

  IsHistory-item :
      (s t : io.Sender) (u : CallUpdate) (w : io.World)
      → is_item u ≡ true
      → IsHistory t w
      → IsHistory t (io.unbounded_send s u w)
  IsHistory-item s t u w item h = elim (ch.sent s t u w) [
    | inl same ↦ IsHistory-same t w _ same (ch.stays_sent s t u w) h
    | inr (e, is_open, longer) ↦ elim h [
      | inl items ↦ inl (
          subst AreItems (sym longer)
            (All-append (λ x. is_item x ≡ true) (ch.received t w) (u ∷ []) items (item, tt)))
      | inr ended ↦ absurd (ground (arith, is_open, ended.shut))
    ]
  ]

  -- A final update is followed by closing the channel.
  IsHistory-final :
      (s t : io.Sender) (u : CallUpdate) (w : io.World)
      → is_item u ≡ false
      → IsHistory t w
      → IsHistory t (io.close_channel s (io.unbounded_send s u w))
  IsHistory-final s t u w final h = elim (ch.sent s t u w) [
    | inl same ↦
        IsHistory-same t w _ (ch.received_closed s t _ ∙ same)
          (λ shut. ch.stays_closed s t _ (ch.stays_sent s t u w shut)) h
    | inr (e, is_open, longer) ↦ elim h [
      | inl items ↦ inr (record {
        items = ch.received t w;
        last = u;
        shape = ch.received_closed s t _ ∙ longer;
        streamed = items;
        final = final;
        shut =
            subst (λ x. io.is_closed x (io.close_channel s (io.unbounded_send s u w)) ≡ true) e
              (ch.closed_self s _);
      })
      | inr ended ↦ absurd (ground (arith, is_open, ended.shut))
    ]
  ]

  pub IsHistory-IsStable : (t : io.Sender) → IsStable io (IsHistory t)
  IsHistory-IsStable t = record {
    completes = λ c b s w h. IsHistory-final c.sender t (CallUpdate.complete b s) w refl h;
    fails = λ c s w h. IsHistory-final c.sender t (CallUpdate.error s) w refl h;
    pushes = λ c b w h. IsHistory-item c.sender t (CallUpdate.stream_item b) w refl h;
    sends = λ p w h. IsHistory-same t w _ (ch.received_sent t p w) (ch.stays_send t p w) h;
  }

  -- However the client runs, each caller receives stream items and then at most one final update,
  -- with nothing behind it on its closed channel, if that held at the start.
  pub run-IsHistory :
      (stream_closed : io.Failure) (events : List (Event io)) (client : Client io) (t : io.Sender)
      → IsHistory t client.world
      → IsHistory t (run io stream_closed events client).1.world
  run-IsHistory stream_closed events client t h =
      run-keeps io (IsHistory t) (IsHistory-IsStable t) stream_closed events client h
