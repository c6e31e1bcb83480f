-- ===== src/Tui/Weekly.antt =====
-- cryptotrader/tui/weekly_summary_panel.py. The pairs of the settings and the clock are arguments.
pub mod Counted
use Prim.Native.Nat.{◌+◌}
use cryptotrader.Prelude.{
  ℕ, suc, String, string_eq, if◌then◌else◌, Option, none, some, List, [], ◌∷◌, ◌++◌, foldl, map,
}
use cryptotrader.Prelude.Dict.{Dict, get_or, insert}
use cryptotrader.Models.{Trade, Side}
use cryptotrader.Models.Time.{DateTime}
use cryptotrader.Database.{Database, no_filters, query_trades}
use cryptotrader.Reconcile.{sorted, text_before}

-- The dict of one pair, `buy` and `sell`.
pub record Counts : Type 0 where
  pub buys : ℕ
  pub sells : ℕ

abbrev pub no_counts : Counts
no_counts = record { buys = 0; sells = 0 }

abbrev pub count_side : Side → Counts → Counts
count_side Side.buy c = record c { buys = c.buys + 1 }
count_side Side.sell c = record c { sells = c.sells + 1 }

module _ {W : Type 0} where
  -- `setdefault`, and one more.
  unfoldable pub add_count : Dict String Counts → Trade W → Dict String Counts
  add_count counts t = insert t.pair (count_side t.side (get_or t.pair no_counts counts)) counts

  unfoldable pub week_counts : List String → List (Trade W) → Dict String Counts
  week_counts pairs trades = foldl add_count (foldl (λ d p. insert p no_counts d) [] pairs) trades

abbrev pub sum_buys : Dict String Counts → ℕ
sum_buys [] = 0
sum_buys (p ∷ d) = p.1.buys + sum_buys d

abbrev pub sum_sells : Dict String Counts → ℕ
sum_sells [] = 0
sum_sells (p ∷ d) = p.1.sells + sum_sells d

-- `sorted(counts.items())`, by the keys, which are distinct.
abbrev pub summary_rows : Dict String Counts → Dict String Counts
summary_rows counts =
    sorted (λ p q. text_before p.0 q.0) counts
    ++ ("TOTAL", record { buys = sum_buys counts; sells = sum_sells counts }) ∷ []

module _ {W : Type 0} where
  -- The query, from seven days before `now` on, which is `since`.
  unfoldable pub week_rows : Database W → List String → DateTime → Dict String Counts
  week_rows db pairs since =
      summary_rows (week_counts pairs (query_trades db (record no_filters { since = some since })))

-- The table after the rows: a known row is changed in place, and a new one is added.
unfoldable pub refresh_table : Dict String Counts → Dict String Counts → Dict String Counts
refresh_table rows table = foldl (λ d r. insert r.0 r.1 d) table rows

module _ {W : Type 0} where
  unfoldable pub refresh_summary :
      Database W → List String → DateTime → Dict String Counts → Dict String Counts
  refresh_summary db pairs since = refresh_table (week_rows db pairs since)
