-- ===== src/Exchange/Feed/Machine.antt =====
-- What holds of the feed after any events: the queue, the pauses, and the end.
use Prim.Native.Nat.{◌+◌, ◌^◌}
use cryptotrader.Prelude.{
  ℕ, zero, suc, ◌≤◌, ◌<◌, ◌≡◌, refl, false, Bool, List, [], ◌∷◌, none, some, arith, nat_beq,
  Bool-cases, inl, inr, if-elim, subst, sym,
}
use cryptotrader.Float.{Float}
use cryptotrader.Desk.{Queue}
use cryptotrader.Models.{PriceTick}
use cryptotrader.Exchange.Feed.{
  read_item, publish, Item, Feed, Phase, connecting, receiving, cooling, pausing, finished, Event,
  connected, ended, arrived, slept, watched, stopped, SessionEnd, returned, timed_out, closed,
  bad_status, failed, Message, no_json, object, pause_seconds, end_round, next_round, on_end,
  dispatch, publish_all, is_stale, react, feed_step, steps, new_feed,
}
use cryptotrader.Exchange.Feed.Window.{IsBounded, publish_all-window}

power_pos : (n : ℕ) → 0 < 2 ^ n
power_pos zero = omega arith
power_pos (suc n) = omega (arith, power_pos n)

pub pause_seconds_bounds : (n : ℕ) → (1 ≤ pause_seconds n) × (pause_seconds n ≤ 60)
unfolding pause_seconds
pause_seconds_bounds n = ground (arith, power_pos n)

-- Between one second and a minute.
abbrev pub HasShortPause : Phase → Type 0
HasShortPause (pausing n) = (1 ≤ n) × (n ≤ 60)
HasShortPause connecting = Unit
HasShortPause receiving = Unit
HasShortPause cooling = Unit
HasShortPause finished = Unit

-- The loop is over only where it was stopped.
abbrev pub EndsStopped : Phase → Bool → Type 0
EndsStopped finished running = running ≡ false
EndsStopped connecting running = Unit
EndsStopped receiving running = Unit
EndsStopped cooling running = Unit
EndsStopped (pausing n) running = Unit

EndsStopped-false : (p : Phase) → EndsStopped p false
EndsStopped-false p = ground arith

module _ {W : Type 0} where
  pub record IsSound (f : Feed W) : Type 0 where
    pub bounded : IsBounded f.queue
    pub short_pause : HasShortPause f.phase
    pub ends_stopped : EndsStopped f.phase f.running

  end_round-IsSound : (f : Feed W) → IsBounded f.queue → IsSound (end_round f)
  end_round-IsSound f h = elim (Bool-cases f.running) [
    | inl on ↦ record {
      bounded = h;
      short_pause = ground (arith, pause_seconds_bounds f.backoff_attempt);
      ends_stopped = ground arith;
    }
    | inr off ↦ record { bounded = h; short_pause = ground arith; ends_stopped = ground arith }
  ]

  halt-IsSound : (f : Feed W) → IsSound f → IsSound (record f { running = false })
  halt-IsSound f h = record {
    bounded = h.bounded;
    short_pause = h.short_pause;
    ends_stopped = EndsStopped-false f.phase;
  }

  next_round-IsSound : (f : Feed W) → IsBounded f.queue → IsSound (next_round f)
  next_round-IsSound f h = record {
    bounded = h;
    short_pause = ground arith;
    ends_stopped = ground arith;
  }

  on_end-IsSound : (e : SessionEnd) (f : Feed W) → IsSound f → IsSound (on_end e f)
  unfolding on_end
  on_end-IsSound returned f h = end_round-IsSound f h.bounded
  on_end-IsSound timed_out f h = end_round-IsSound f h.bounded
  on_end-IsSound (closed none) f h = end_round-IsSound f h.bounded
  on_end-IsSound (closed (some code)) f h =
      if-elim (λ g. IsSound (end_round g)) (nat_beq code 1000) _ _
        (λ _. end_round-IsSound (record f { backoff_attempt = 0 }) h.bounded)
        (λ _. end_round-IsSound f h.bounded)
  on_end-IsSound (bad_status code) f h =
      if-elim IsSound (nat_beq code 429) _ _
        (λ _. record { bounded = h.bounded; short_pause = tt; ends_stopped = tt })
        (λ _. end_round-IsSound f h.bounded)
  on_end-IsSound failed f h = end_round-IsSound f h.bounded

  publish_all-phase :
      (items : List (Item W)) (f : Feed W)
      → ((publish_all items f).phase ≡ f.phase) × ((publish_all items f).running ≡ f.running)
  unfolding publish_all
  publish_all-phase [] f = (refl, refl)
  publish_all-phase (i ∷ is) f =
      ground (arith, publish_all-phase is (publish (read_item i) i.loop_time f))

  dispatch-IsSound : (m : Message W) (f : Feed W) → IsSound f → IsSound (dispatch m f)
  unfolding dispatch
  dispatch-IsSound no_json f h = h
  dispatch-IsSound (object channel kind items) f h = if-elim IsSound _ _ _ (λ _. published) (λ _. h)
    where
      published : IsSound (publish_all items f)
      published = record {
        bounded = (publish_all-window items f h.bounded).0;
        short_pause = subst HasShortPause (sym (publish_all-phase items f).0) h.short_pause;
        ends_stopped =
            subst (λ b. EndsStopped (publish_all items f).phase b)
              (sym (publish_all-phase items f).1)
              (subst (λ p. EndsStopped p f.running) (sym (publish_all-phase items f).0)
                h.ends_stopped);
      }

module _ {W : Type 0} ⦃fl : Float W⦄ where
  react-IsSound :
      (threshold : W) (p : Phase) (e : Event W) (f : Feed W)
      → f.phase ≡ p
      → IsSound f
      → IsSound (react threshold p e f)
  react-IsSound threshold connecting (connected now) f q h = record {
    bounded = h.bounded;
    short_pause = tt;
    ends_stopped = tt;
  }
  react-IsSound threshold connecting (ended e) f q h = on_end-IsSound e f h
  react-IsSound threshold connecting (arrived m) f q h = h
  react-IsSound threshold connecting slept f q h = h
  react-IsSound threshold connecting (watched now) f q h = h
  react-IsSound threshold connecting stopped f q h = halt-IsSound f h
  react-IsSound threshold receiving (connected now) f q h = h
  react-IsSound threshold receiving (ended e) f q h = on_end-IsSound e f h
  react-IsSound threshold receiving (arrived m) f q h =
      if-elim IsSound f.running _ _ (λ _. dispatch-IsSound m f h) (λ _. on_end-IsSound returned f h)
  react-IsSound threshold receiving slept f q h = h
  react-IsSound threshold receiving (watched now) f q h =
      if-elim IsSound (is_stale threshold now f) _ _ (λ _. end_round-IsSound f h.bounded) (λ _. h)
  react-IsSound threshold receiving stopped f q h =
      end_round-IsSound (record f { running = false }) h.bounded
  react-IsSound threshold cooling slept f q h = end_round-IsSound f h.bounded
  react-IsSound threshold cooling stopped f q h = halt-IsSound f h
  react-IsSound threshold cooling (connected now) f q h = h
  react-IsSound threshold cooling (ended e) f q h = h
  react-IsSound threshold cooling (arrived m) f q h = h
  react-IsSound threshold cooling (watched now) f q h = h
  react-IsSound threshold (pausing n) slept f q h =
      next_round-IsSound (record f { backoff_attempt = f.backoff_attempt + 1 }) h.bounded
  react-IsSound threshold (pausing n) stopped f q h = halt-IsSound f h
  react-IsSound threshold (pausing n) (connected now) f q h = h
  react-IsSound threshold (pausing n) (ended e) f q h = h
  react-IsSound threshold (pausing n) (arrived m) f q h = h
  react-IsSound threshold (pausing n) (watched now) f q h = h
  react-IsSound threshold finished stopped f q h = halt-IsSound f h
  react-IsSound threshold finished (connected now) f q h = h
  react-IsSound threshold finished (ended e) f q h = h
  react-IsSound threshold finished (arrived m) f q h = h
  react-IsSound threshold finished slept f q h = h
  react-IsSound threshold finished (watched now) f q h = h

  -- Whatever events come, in whatever order: the queue never exceeds its size, each pause before an
  -- attempt is between one second and a minute, and the loop is over only where it was stopped.
  pub steps-IsSound :
      (threshold : W) (es : List (Event W)) (f : Feed W)
      → IsSound f
      → IsSound (steps threshold es f)
  unfolding steps feed_step
  steps-IsSound threshold [] f h = h
  steps-IsSound threshold (e ∷ es) f h =
      steps-IsSound threshold es (react threshold f.phase e f)
        (react-IsSound threshold f.phase e f refl h)

  pub new_feed-IsSound : (queue : Queue (PriceTick W)) → IsBounded queue → IsSound (new_feed queue)
  unfolding new_feed
  new_feed-IsSound queue h = record { bounded = h; short_pause = tt; ends_stopped = tt }
