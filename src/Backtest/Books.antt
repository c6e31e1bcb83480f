-- ===== src/Backtest/Books.antt =====
-- What it is for the books of a replay to agree, and that an entry and an exit keep it.
use cryptotrader.Prelude.{
  suc, String, ◌≡◌, ◌≤◌, refl, sym, ap, subst, true, false, Bool, not, Option, none, some, List, [],
  ◌∷◌, ◌++◌, Result, ok, raise, Error, ◌>>=◌, arith, is_some,
}
use cryptotrader.Float.{Float, max}
use cryptotrader.Models.{Side}
use cryptotrader.Models.Time.{DateTime}
use cryptotrader.Backtest.Data.{Params, BtTrade, Replay}
use cryptotrader.Backtest.Rules.{exit_reason}
use cryptotrader.Backtest.Loop.{close_position, open_position, end_if, hold_hour, new_replay}

abbrev side_from : Bool → Side
side_from true = Side.sell
side_from false = Side.buy

module _ {W : Type 0} where
  -- From a position or none, the trades alternate and end with a position or none.
  abbrev pub Alternate : Bool → List (BtTrade W) → Bool → Type 0
  Alternate from [] to = from ≡ to
  Alternate from (t ∷ rest) to = (t.side ≡ side_from from) × Alternate (not from) rest to

  Alternate-append :
      (from to : Bool) (ts : List (BtTrade W)) (t : BtTrade W)
      → Alternate from ts to
      → t.side ≡ side_from to
      → Alternate from (ts ++ t ∷ []) (not to)
  Alternate-append from to [] t e h = (subst (λ b. t.side ≡ side_from b) (sym e) h, ap not e)
  Alternate-append from to (u ∷ ts) t (p, rest) h = (p, Alternate-append (not from) to ts t rest h)

  pub record IsCoherent (s : Replay W) : Type 0 where
    pub alternate : Alternate false s.trades s.in_pos
    pub has_entry : is_some s.entry ≡ s.in_pos
    pub wins_le : s.wins ≤ s.round_trips
    pub trips_le : s.round_trips ≤ s.hours_in_market
    pub hours_le : s.hours_in_market ≤ s.hours_total

ok_inj : {A : Type 0} {a b : A} → ok a ≡ ok b → a ≡ b
ok_inj h = cc

-- So it is for a call that may raise.
pub data Keeps {A : Type 0} (P : A → Type 0) : Result A → Type 0 where
  raised : (e : Error) → Keeps P (raise e)
  kept : {a : A} → P a → Keeps P (ok a)

module _ {A B : Type 0} {P : B → Type 0} where
  pub Keeps-bind :
      (m : Result A) (next : A → Result B) → ((a : A) → Keeps P (next a)) → Keeps P (m >>= next)
  Keeps-bind (raise e) next k = raised e
  Keeps-bind (ok a) next k = k a

  pub Keeps-then :
      {Q : A → Type 0} {r : Result A} (next : A → Result B)
      → Keeps Q r
      → ((a : A) → Q a → Keeps P (next a))
      → Keeps P (r >>= next)
  Keeps-then next (raised e) k = raised e
  Keeps-then next (kept {a} h) k = k a h

pub Keeps_lem : {A : Type 0} {P : A → Type 0} {r : Result A} {a : A} → Keeps P r → r ≡ ok a → P a
Keeps_lem (raised e) q = cc
Keeps_lem {P} (kept h) q = subst P (ok_inj q) h

module _ {W : Type 0} ⦃fl : Float W⦄ where
  pub new_replay-IsCoherent : IsCoherent {W = W} new_replay
  unfolding new_replay
  new_replay-IsCoherent = record {
    alternate = refl;
    has_entry = refl;
    wins_le = omega arith;
    trips_le = omega arith;
    hours_le = omega arith;
  }

  -- An exit, in an hour that is counted as one with a position.
  close_position-IsCoherent :
      (p : Params W) (ts : DateTime) (close : W) (reason : String) (s : Replay W)
      → s.in_pos ≡ true
      → IsCoherent s
      → suc s.round_trips ≤ s.hours_in_market
      → IsCoherent (close_position p ts close reason s)
  unfolding close_position
  close_position-IsCoherent p ts close reason s on h room = record {
    alternate =
        Alternate-append false true s.trades _ (subst (Alternate false s.trades) on h.alternate)
          refl;
    has_entry = refl;
    wins_le = ground (arith, h.wins_le);
    trips_le = room;
    hours_le = h.hours_le;
  }

  pub open_position-IsCoherent :
      (p : Params W) (ts : DateTime) (close qty : W) (s : Replay W)
      → s.in_pos ≡ false
      → IsCoherent s
      → IsCoherent (open_position p ts close qty s)
  unfolding open_position
  open_position-IsCoherent p ts close qty s off h = record {
    alternate =
        Alternate-append false false s.trades _ (subst (Alternate false s.trades) off h.alternate)
          refl;
    has_entry = refl;
    wins_le = h.wins_le;
    trips_le = h.trips_le;
    hours_le = h.hours_le;
  }

  end_if-IsCoherent :
      (p : Params W) (ts : DateTime) (close : W) (s : Replay W) (reason : Option String)
      → s.in_pos ≡ true
      → IsCoherent s
      → suc s.round_trips ≤ s.hours_in_market
      → IsCoherent (end_if p ts close s reason)
  end_if-IsCoherent p ts close s none on h room = h
  end_if-IsCoherent p ts close s (some reason) on h room =
      close_position-IsCoherent p ts close reason s on h room

  -- An hour that is counted already.
  pub hold_hour-Keeps :
      (p : Params W) (ts : DateTime) (close mid : W) (s : Replay W)
      → s.in_pos ≡ true
      → IsCoherent s
      → suc s.hours_in_market ≤ s.hours_total
      → Keeps IsCoherent (hold_hour p ts close mid s)
  unfolding hold_hour
  hold_hour-Keeps p ts close mid s on h room =
      let held : Replay W = record s {
        hours_in_market = suc s.hours_in_market;
        peak = max s.peak close;
      } in
      Keeps-bind (exit_reason p close mid held) _ (λ reason. kept (
        end_if-IsCoherent p ts close held reason on
          (record {
            alternate = h.alternate;
            has_entry = h.has_entry;
            wins_le = h.wins_le;
            trips_le = omega (arith, h.trips_le);
            hours_le = room;
          })
          (omega (arith, h.trips_le))))
