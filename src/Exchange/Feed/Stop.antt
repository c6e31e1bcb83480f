-- ===== src/Exchange/Feed/Stop.antt =====
-- `stop` ends the connect loop.
use Prim.Native.Nat.{◌+◌}
use cryptotrader.Prelude.{ℕ, ◌≤◌, ◌≡◌, refl, ap, false, List, [], ◌∷◌, none, some, arith}
use cryptotrader.Float.{Float}
use cryptotrader.Exchange.Feed.{
  Feed, Phase, connecting, receiving, cooling, pausing, finished, Event, connected, ended, arrived,
  slept, watched, stopped, SessionEnd, returned, timed_out, closed, bad_status, failed, on_end,
  react, feed_step, steps,
}

-- What a phase waits for: the connection or its failure, a message or the end of the session, the
-- end of a sleep.
abbrev pub awaits : {W : Type 0} → Phase → Event W → ℕ
awaits connecting (connected now) = 1
awaits connecting (ended e) = 1
awaits receiving (ended e) = 1
awaits receiving (arrived m) = 1
awaits cooling slept = 1
awaits (pausing n) slept = 1
awaits phase e = 0

-- How many such events a loop that is not running has before it.
abbrev rank : Phase → ℕ
rank connecting = 3
rank receiving = 2
rank cooling = 1
rank (pausing n) = 1
rank finished = 0

rank-zero : (p : Phase) → rank p ≤ 0 → p ≡ finished
rank-zero finished h = refl
rank-zero connecting h = absurd (omega arith)
rank-zero receiving h = absurd (omega arith)
rank-zero cooling h = absurd (omega arith)
rank-zero (pausing n) h = absurd (omega arith)

rank-le : (p : Phase) → rank p ≤ 3
rank-le p = ground arith

module _ {W : Type 0} ⦃fl : Float W⦄ where
  on_end-rank :
      (e : SessionEnd) (f : Feed W)
      → f.running ≡ false
      → (rank (on_end e f).phase ≤ 1) × ((on_end e f).running ≡ false)
  unfolding on_end
  on_end-rank returned f h = ground arith
  on_end-rank timed_out f h = ground arith
  on_end-rank (closed none) f h = ground arith
  on_end-rank (closed (some code)) f h = ground arith
  on_end-rank (bad_status code) f h = ground arith
  on_end-rank failed f h = ground arith

  -- Each event leaves at most as many to come, and one that is awaited leaves fewer.
  abbrev Nears : Phase → Event W → Feed W → Type 0
  Nears p e f = (rank f.phase + awaits p e ≤ rank p) × (f.running ≡ false)

  react-Nears :
      (threshold : W) (p : Phase) (e : Event W) (f : Feed W)
      → f.phase ≡ p
      → f.running ≡ false
      → Nears p e (react threshold p e f)
  react-Nears threshold connecting (connected now) f q h = ground arith
  react-Nears threshold connecting (ended e) f q h = ground (arith, on_end-rank e f h)
  react-Nears threshold receiving (ended e) f q h = ground (arith, on_end-rank e f h)
  react-Nears threshold receiving (arrived m) f q h = ground (arith, on_end-rank returned f h)
  react-Nears threshold receiving (watched now) f q h = ground arith
  react-Nears threshold receiving stopped f q h = ground arith
  react-Nears threshold cooling slept f q h = ground arith
  react-Nears threshold (pausing n) slept f q h = ground arith
  react-Nears threshold connecting (arrived m) f q h = ground (arith, ap rank q)
  react-Nears threshold connecting slept f q h = ground (arith, ap rank q)
  react-Nears threshold connecting (watched now) f q h = ground (arith, ap rank q)
  react-Nears threshold connecting stopped f q h = ground (arith, ap rank q)
  react-Nears threshold receiving (connected now) f q h = ground (arith, ap rank q)
  react-Nears threshold receiving slept f q h = ground (arith, ap rank q)
  react-Nears threshold cooling _ f q h = ground (arith, ap rank q)
  react-Nears threshold (pausing n) _ f q h = ground (arith, ap rank q)
  react-Nears threshold finished _ f q h = ground (arith, ap rank q)

  feed_step-Nears :
      (threshold : W) (e : Event W) (f : Feed W)
      → f.running ≡ false
      → Nears f.phase e (feed_step threshold e f)
  unfolding feed_step
  feed_step-Nears threshold e f h = react-Nears threshold f.phase e f refl h

  -- The awaited events among those that come.
  abbrev pub awaited : W → List (Event W) → Feed W → ℕ
  awaited threshold [] f = 0
  awaited threshold (e ∷ es) f = awaits f.phase e + awaited threshold es (feed_step threshold e f)

  stop_lem : (threshold : W) (f : Feed W) → (feed_step threshold stopped f).running ≡ false
  unfolding feed_step
  stop_lem threshold f = ground arith

  steps-finished :
      (threshold : W) (es : List (Event W)) (f : Feed W)
      → f.running ≡ false
      → rank f.phase ≤ awaited threshold es f
      → (steps threshold es f).phase ≡ finished
  unfolding steps
  steps-finished threshold [] f h n = rank-zero f.phase (omega arith)
  steps-finished threshold (e ∷ es) f h n =
      let near = feed_step-Nears threshold e f h in
      steps-finished threshold es (feed_step threshold e f) near.1 (omega arith)

  -- After `stop` the connect loop ends for good, once at most three of the events have come that
  -- its phases wait for: the connection or its failure, a message or the end of the session, and
  -- the end of a sleep.
  pub stop_ends :
      (threshold : W) (f : Feed W) (es : List (Event W))
      → 3 ≤ awaited threshold es (feed_step threshold stopped f)
      → (steps threshold es (feed_step threshold stopped f)).phase ≡ finished
  stop_ends threshold f es n =
      steps-finished threshold es (feed_step threshold stopped f) (stop_lem threshold f)
        (omega (arith, rank-le (feed_step threshold stopped f).phase))
