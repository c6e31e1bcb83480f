-- ===== src/Backtest/Validate.antt =====
-- scripts/backtest.py: `validate`, the replay of the pairs against what production traded. Times
-- stand for their texts in the table of expected extras; the printed lines are not modelled.
use Prim.Native.Nat.{◌+◌, ◌*◌}
use cryptotrader.Prelude.{
  ℕ, String, Bool, false, not, leb, ◌&&◌, ◌||◌, ◌==◌, string_eq, nat_eq, pair_eq, if◌then◌else◌,
  Option, none, some, List, [], ◌∷◌, foldl, filter, map, Result, ok, enumerate, key_error, or_raise,
  ◌>>=◌,
}
use cryptotrader.Prelude.Dict.{Dict, lookup, keys}
use cryptotrader.Float.{Float}
use cryptotrader.Models.{Trade, Side, side_eq, Candle}
use cryptotrader.Models.Time.{DateTime, time_eq, instant, not_after}
use cryptotrader.Database.{Database, order_by}
use cryptotrader.Reconcile.{sorted, text_before}
use cryptotrader.Backtest.Data.{Params, BtTrade, Outcome}
use cryptotrader.Backtest.Loop.{run}

-- `failures` and `matched`, the indices of simulated trades that are taken.
pub record Matching : Type 0 where
  pub failures : ℕ
  pub matched : List ℕ

abbrev pub new_matching : ℕ → Matching
new_matching n = record { failures = n; matched = [] }

abbrev pub is_matched : ℕ → List ℕ → Bool
is_matched i [] = false
is_matched i (j ∷ rest) = j == i || is_matched i rest

-- Between 3595 and 3660 seconds after the candle of the decision.
abbrev pub in_time : DateTime → DateTime → Bool
in_time sts real =
    leb (instant sts + 3_595_000_000) (instant real)
    && leb (instant real) (instant sts + 3_660_000_000)

abbrev pub take_hit : Matching → Option ℕ → Matching
take_hit s none = record s { failures = s.failures + 1 }
take_hit s (some i) = record s { matched = i ∷ s.matched }

abbrev pub is_explained : Option String → Bool
is_explained none = false
is_explained (some text) = not (text == "")

module _ (W : Type 0) where
  -- PAIR_SIZING, TRADED_UNDER, VALIDATE_FROM and EXPECTED_EXTRA.
  pub record Constants : Type 0 where
    pub pair_sizing : Dict String (W × W)
    pub traded_under : Params W
    pub validate_from : DateTime
    pub expected_extra : Dict (String × (Side × DateTime)) String

module _ {W : Type 0} where
  unfoldable pub load_candles : Database W → String → ℕ → List (DateTime × W)
  load_candles db pair tf =
      map (λ (c : Candle W). (c.timestamp, c.close))
        (order_by (λ c. c.timestamp)
          (filter (λ c. c.pair == pair && nat_eq.beq c.timeframe tf) db.candles))

  -- The rows of the query of `validate`.
  unfoldable pub real_trades : Database W → List (Trade W)
  real_trades db =
      order_by (λ t. t.timestamp)
        (filter (λ t. t.mode == "production" && t.strategy == "bollinger") db.trades)

  abbrev pub is_hit : Trade W → BtTrade W → Bool
  is_hit t x = x.side == t.side && in_time x.ts t.timestamp

  unfoldable pub first_hit : List ℕ → Trade W → Dict ℕ (BtTrade W) → Option ℕ
  first_hit used t [] = none
  first_hit used t ((i, x) ∷ rest) =
      let later = first_hit used t rest in
      if is_matched i used || not (is_hit t x) then later else some i

  -- One real trade.
  unfoldable pub match_step : Dict ℕ (BtTrade W) → Matching → Trade W → Matching
  match_step sim s t = take_hit s (first_hit s.matched t sim)

  unfoldable pub is_expected : Constants W → String → BtTrade W → Bool
  is_expected k pair x = is_explained (lookup (pair, (x.side, x.ts)) k.expected_extra)

  -- One simulated trade.
  unfoldable pub extra_step : Constants W → String → List ℕ → ℕ → ℕ × BtTrade W → ℕ
  extra_step k pair matched n (i, x) =
      if is_matched i matched || is_expected k pair x then n else n + 1

  unfoldable pub compare_pair : Constants W → String → Dict ℕ (BtTrade W) → List (Trade W) → ℕ → ℕ
  compare_pair k pair sim actual n =
      let s = foldl (match_step sim) (new_matching n) actual in
      foldl (extra_step k pair s.matched) s.failures sim

  -- The simulated trades of the window, by their index.
  abbrev pub simulated : Constants W → Outcome W → Dict ℕ (BtTrade W)
  simulated k res = enumerate 0 (filter (λ x. not_after k.validate_from x.ts) res.replay.trades)

  abbrev pub actual_trades : Constants W → Database W → String → List (Trade W)
  actual_trades k db pair =
      filter (λ t. t.pair == pair && not_after k.validate_from t.timestamp) (real_trades db)

  -- From WARMUP, 30 days, before the window on.
  abbrev pub warm : Constants W → List (DateTime × W) → List (DateTime × W)
  warm k = filter λ c. leb (instant k.validate_from) (instant c.0 + 30 * 86_400 * 1_000_000)

module _ {W : Type 0} ⦃fl : Float W⦄ where
  abbrev pub replay_pair :
      (W → ℕ) → Constants W → Database W → String → List (DateTime × W) → Result (Outcome W)
  replay_pair trunc k db pair c60 =
      or_raise key_error (lookup pair k.pair_sizing) >>= λ (budget, qty).
      run trunc
        (record {
          params = k.traded_under;
          budget_usd = budget;
          fixed_qty = qty;
          trade_from = some k.validate_from;
        })
        c60 (warm k (load_candles db pair 240))

  -- A pair without candles is skipped.
  abbrev pub judge_pair :
      (W → ℕ) → Constants W → Database W → String → List (DateTime × W) → ℕ → Result ℕ
  judge_pair trunc k db pair [] n = ok n
  judge_pair trunc k db pair (c ∷ c60) n = replay_pair trunc k db pair (c ∷ c60) >>= λ res.
      ok (compare_pair k pair (simulated k res) (actual_trades k db pair) n)

  unfoldable pub validate_pair : (W → ℕ) → Constants W → Database W → String → ℕ → Result ℕ
  validate_pair trunc k db pair n = judge_pair trunc k db pair (warm k (load_candles db pair 60)) n

  unfoldable pub validate_pairs : (W → ℕ) → Constants W → Database W → List String → ℕ → Result ℕ
  validate_pairs trunc k db [] n = ok n
  validate_pairs trunc k db (pair ∷ rest) n =
      let more = validate_pairs trunc k db rest in validate_pair trunc k db pair n >>= more

  unfoldable pub validate : (W → ℕ) → Constants W → Database W → Result ℕ
  validate trunc k db =
      validate_pairs trunc k db (sorted text_before (keys k.pair_sizing)) 0 >>= λ failures.
      ok (if nat_eq.beq failures 0 then 0 else 1)
