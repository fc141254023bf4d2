-- ===== src/Batch/Live/Drain/Ends.antt =====
-- The shutdown of the batch processor of internal/storage/loki/batch.go reaches its end under every
-- scheduler.
use alertsnitch.Base.{
  ℕ, suc, ◌≤◌, ◌<◌, ◌≡◌, ◌≢◌, ◌⊎◌, refl, ap, List, [], ◌∷◌, arith, length, ltb, inl, inr,
  Bool-cases,
}
use alertsnitch.Wal.{Codec}
use alertsnitch.Batch.{QueuedAlert}
use alertsnitch.Batch.Accumulate.{concat}
use alertsnitch.Batch.Flush.{FlushEnv}
use alertsnitch.Batch.Live.{
  channel_room, Live, Phase, running, draining, ended, Action, deliver_next, act,
}
use alertsnitch.Batch.Live.Weights.{weight-append}
use alertsnitch.Batch.Live.Drain.{
  one, backlog, IsWork, taking, dispatching, delivering, acknowledging, Works-act,
}

-- Both goroutines have nothing left to do.
pub record IsDrained (s : Live) : Type 0 where
  pub queue : s.queue ≡ []
  pub in_hand : s.in_hand ≡ []
  pub sent : s.sent ≡ []
  pub delivered : s.delivered ≡ []
  pub phase : s.phase ≡ ended

-- The stop signal came, and an accumulator that is gone left nothing behind.
abbrev pub StopsWith : Phase → List QueuedAlert → List QueuedAlert → Type 0
StopsWith running queue in_hand = ⊥
StopsWith draining queue in_hand = Unit
StopsWith ended queue in_hand = (queue ≡ []) × (in_hand ≡ [])

abbrev pub Stopping : Live → Type 0
Stopping s = StopsWith s.phase s.queue s.in_hand

module _ (c : Codec) (size room : ℕ) where
  -- An action at work changes the state.
  abbrev pub Enabled : Live → Type 0
  Enabled s = (a : Action) × IsWork a × (act c size room a s ≢ s)

  enabled :
      {a : Action} (s : Live) → IsWork a → backlog (act c size room a s) < backlog s → Enabled s
  enabled {a} s w less = (a, w, λ same. omega (arith, ap backlog same))

  -- The flusher has nothing to do.
  abbrev idle : Phase → List QueuedAlert → List QueuedAlert → Live → Live
  idle phase queue in_hand s = record s {
    phase = phase;
    queue = queue;
    in_hand = in_hand;
    sent = [];
    delivered = [];
  }

  progress_idle :
      (s : Live) (phase : Phase) (queue in_hand : List QueuedAlert)
      → StopsWith phase queue in_hand
      → IsDrained (idle phase queue in_hand s) ⊎ Enabled (idle phase queue in_hand s)
  unfolding act
  progress_idle s running queue in_hand h = elim h [ ]
  progress_idle s draining (qa ∷ queue) in_hand h =
      inr (enabled _ taking (omega (arith, weight-append one in_hand (qa ∷ []))))
  progress_idle s draining [] [] h = inr (enabled _ dispatching (omega arith))
  progress_idle s draining [] (qa ∷ in_hand) h =
      inr (enabled _ dispatching (omega (arith, weight-append one (qa ∷ in_hand) [])))
  progress_idle s ended queue in_hand h =
      inl (record { queue = h.0; in_hand = h.1; sent = refl; delivered = refl; phase = refl })

  progress :
      (env : FlushEnv) (s : Live) (sent : List (List QueuedAlert)) (delivered : List QueuedAlert)
      → Stopping s
      → IsDrained (record s { sent = sent; delivered = delivered })
        ⊎ Enabled (record s { sent = sent; delivered = delivered })
  unfolding act
  progress env s sent (qa ∷ delivered) h = inr (enabled _ (acknowledging env) (omega arith))
  progress env s (batch ∷ sent) [] h =
      inr (enabled _ (delivering env) (omega (arith, weight-append one batch (concat sent))))
  progress env s [] [] h = progress_idle s s.phase s.queue s.in_hand h

  Stopping-deliver_next :
      (env : FlushEnv) (s : Live) (sent : List (List QueuedAlert)) (delivered : List QueuedAlert)
      → Stopping s
      → Stopping (deliver_next env sent delivered s)
  Stopping-deliver_next env s (batch ∷ sent) [] h = h
  Stopping-deliver_next env s [] delivered h = h
  Stopping-deliver_next env s (batch ∷ sent) (qa ∷ delivered) h = h

  Stopping-act :
      {a : Action}
      → IsWork a
      → (s : Live) (phase : Phase) (queue in_hand : List QueuedAlert)
      → StopsWith phase queue in_hand
      → Stopping (act c size room a (record s { phase = phase; queue = queue; in_hand = in_hand }))
  unfolding act
  Stopping-act w s running queue in_hand h = elim h [ ]
  Stopping-act taking s draining [] in_hand h = _
  Stopping-act taking s draining (qa ∷ queue) in_hand h = _
  Stopping-act taking s ended queue in_hand h = h
  Stopping-act dispatching s draining [] [] h = (refl, refl)
  Stopping-act dispatching s draining [] (qa ∷ in_hand) h =
      elim (Bool-cases (ltb (length s.sent) (channel_room s.delivered))) [
        | inl fits ↦ rw fits (refl, refl)
        | inr full ↦ rw full _
      ]
  Stopping-act dispatching s draining (qa ∷ queue) in_hand h = _
  Stopping-act dispatching s ended queue in_hand h = h
  Stopping-act (delivering env) s draining queue in_hand h =
      Stopping-deliver_next (record env { codec = c })
        (record s { phase = draining; queue = queue; in_hand = in_hand }) s.sent s.delivered h
  Stopping-act (delivering env) s ended queue in_hand h =
      Stopping-deliver_next (record env { codec = c })
        (record s { phase = ended; queue = queue; in_hand = in_hand }) s.sent s.delivered h
  Stopping-act (acknowledging env) s draining queue in_hand h = h
  Stopping-act (acknowledging env) s ended queue in_hand h = h

  -- A run of so many actions at work, each of which changes the state.
  pub data Busy : Live → ℕ → Live → Type 0 where
    rest : (s : Live) → Busy s 0 s
    works :
        {a : Action} {s t : Live} {n : ℕ}
        → IsWork a
        → act c size room a s ≢ s
        → Busy (act c size room a s) n t
        → Busy s (suc n) t

  -- The shutdown ends and does not block. From the stop signal on, with no caller and no replay that
  -- still sends, accumulator and flusher together make at most `backlog` moves, whichever of them goes
  -- next; and as long as queue, batch in hand, channel and flush are not all empty and the accumulator
  -- is not gone, one of them can move, also when the channel between them is full.
  pub Busy-ends :
      {s t : Live} {n : ℕ}
      → Stopping s
      → Busy s n t
      → (env : FlushEnv) → (n ≤ backlog s) × (IsDrained t ⊎ Enabled t)
  Busy-ends h (rest s) env = (omega arith, progress env s s.sent s.delivered h)
  Busy-ends h (works {s = s} w changes more) env =
      let (bound, final) = Busy-ends (Stopping-act w s s.phase s.queue s.in_hand h) more env in
      elim (Works-act c size room w s) [
        | inl same ↦ absurd (changes same)
        | inr less ↦ (omega (arith, bound, less), final)
      ]
