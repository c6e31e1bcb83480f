-- ===== src/Tui/Weekly/Counted.antt =====
-- The figures of the summary_rows against the trades of the week.
use Prim.Native.Nat.{◌+◌}
use cryptotrader.Prelude.{
  true, String, ◌≡◌, refl, ap, ◌∙◌, Bool, true, false, ◌&&◌, inl, inr, ◌==◌, string_eq,
  if◌then◌else◌, Option, some, List, [], ◌∷◌, foldl, filter, length, arith,
}
use cryptotrader.Prelude.Dict.{Dict, lookup, get_or, insert, lookup-insert, get_or-insert}
use cryptotrader.Models.{Trade, Side, side_eq, side_cases}
use cryptotrader.Tui.Weekly.{
  Counts, no_counts, count_side, add_count, week_counts, sum_buys, sum_sells, refresh_table,
}

module _ {W : Type 0} where
  -- The trades of a side, and those of a pair and a side.
  abbrev pub of_side : Side → List (Trade W) → List (Trade W)
  of_side side = filter λ t. t.side == side

  abbrev pub of_pair : String → Side → List (Trade W) → List (Trade W)
  of_pair pair side = filter λ t. t.pair == pair && t.side == side

  counted-trade :
      (p : String) (counts : Dict String Counts) (t : Trade W)
      → get_or p no_counts (add_count counts t) ≡ (
          if t.pair == p
          then count_side t.side (get_or p no_counts counts)
          else get_or p no_counts counts)
  unfolding add_count
  counted-trade p counts t =
      get_or-insert t.pair p (count_side t.side (get_or t.pair no_counts counts)) no_counts counts
      ∙ same_pair (t.pair == p) (λ e. (string_eq.beq_iff t.pair p).0 e)
    where
      same_pair :
          (b : Bool)
          → (b ≡ true → t.pair ≡ p)
          → (if b
              then count_side t.side (get_or t.pair no_counts counts)
              else get_or p no_counts counts)
            ≡ (if b
                then count_side t.side (get_or p no_counts counts)
                else get_or p no_counts counts)
      same_pair true e = ap (λ q. count_side t.side (get_or q no_counts counts)) (e refl)
      same_pair false e = refl

  counted-trades :
      (p : String) (trades : List (Trade W)) (counts : Dict String Counts)
      → ((get_or p no_counts (foldl add_count counts trades)).buys
          ≡ (get_or p no_counts counts).buys + length (of_pair p Side.buy trades))
        × ((get_or p no_counts (foldl add_count counts trades)).sells
            ≡ (get_or p no_counts counts).sells + length (of_pair p Side.sell trades))
  counted-trades p [] counts = (omega arith, omega arith)
  counted-trades p (t ∷ trades) counts =
      let later = counted-trades p trades (add_count counts t) in
      let one = counted-trade p counts t in
      (ground (arith, later.0, one), ground (arith, later.1, one))

sum-insert :
    (k : String) (c : Counts) (d : Dict String Counts)
    → (sum_buys (insert k c d) + (get_or k no_counts d).buys ≡ sum_buys d + c.buys)
      × (sum_sells (insert k c d) + (get_or k no_counts d).sells ≡ sum_sells d + c.sells)
sum-insert k c [] = (omega arith, omega arith)
sum-insert k c ((j, v) ∷ d) =
    let later = sum-insert k c d in (ground (arith, later.0), ground (arith, later.1))

module _ {W : Type 0} where
  sums-trade :
      (t : Trade W) (counts : Dict String Counts)
      → (sum_buys (add_count counts t) ≡ sum_buys counts + length (of_side Side.buy (t ∷ [])))
        × (sum_sells (add_count counts t) ≡ sum_sells counts + length (of_side Side.sell (t ∷ [])))
  unfolding add_count
  sums-trade t counts =
      let sums = sum-insert t.pair (count_side t.side (get_or t.pair no_counts counts)) counts in
      elim (side_cases t.side) [
        | inl e ↦ (ground (arith, sums.0), ground (arith, sums.1))
        | inr e ↦ (ground (arith, sums.0), ground (arith, sums.1))
      ]

  sums-trades :
      (trades : List (Trade W)) (counts : Dict String Counts)
      → (sum_buys (foldl add_count counts trades)
          ≡ sum_buys counts + length (of_side Side.buy trades))
        × (sum_sells (foldl add_count counts trades)
            ≡ sum_sells counts + length (of_side Side.sell trades))
  sums-trades [] counts = (omega arith, omega arith)
  sums-trades (t ∷ trades) counts =
      let later = sums-trades trades (add_count counts t) in
      let one = sums-trade t counts in
      (ground (arith, later.0, one.0), ground (arith, later.1, one.1))

-- A dict in which every pair has no trade yet.
abbrev AreEmpty : Dict String Counts → Type 0
AreEmpty d =
    ((p : String) → get_or p no_counts d ≡ no_counts) × (sum_buys d ≡ 0) × (sum_sells d ≡ 0)

insert-AreEmpty :
    (q : String) (d : Dict String Counts) → AreEmpty d → AreEmpty (insert q no_counts d)
insert-AreEmpty q d h =
    let sums = sum-insert q no_counts d in
    (
      λ p. get_or-insert q p no_counts no_counts d ∙ either (q == p) (h.0 p),
      omega (arith, sums.0, ap (λ (c : Counts). c.buys) (h.0 q), h.1),
      omega (arith, sums.1, ap (λ (c : Counts). c.sells) (h.0 q), h.2),
    )
  where
    either : {c : Counts} (b : Bool) → c ≡ no_counts → (if b then no_counts else c) ≡ no_counts
    either true e = refl
    either false e = e

all-AreEmpty :
    (pairs : List String) (d : Dict String Counts)
    → AreEmpty d
    → AreEmpty (foldl (λ d p. insert p no_counts d) d pairs)
all-AreEmpty [] d h = h
all-AreEmpty (q ∷ pairs) d h = all-AreEmpty pairs (insert q no_counts d) (insert-AreEmpty q d h)

-- Over any trades and configured pairs: the counts of a pair are its buys and its sells among the
-- trades, and the two totals are all buys and all sells.
pub week_counts-count :
    {W : Type 0} (pairs : List String) (trades : List (Trade W))
    → let counts = week_counts pairs trades in
      ((p : String) → (get_or p no_counts counts).buys ≡ length (of_pair p Side.buy trades))
      × ((p : String) → (get_or p no_counts counts).sells ≡ length (of_pair p Side.sell trades))
      × (sum_buys counts ≡ length (of_side Side.buy trades))
      × (sum_sells counts ≡ length (of_side Side.sell trades))
unfolding week_counts
week_counts-count pairs trades =
    let start = foldl (λ (d : Dict String Counts) p. insert p no_counts d) [] pairs in
    let empty : AreEmpty start = all-AreEmpty pairs [] (λ p. refl, refl, refl) in
    let sums = sums-trades trades start in
    (
      λ p.
          omega (arith, (counted-trades p trades start).0, ap (λ (c : Counts). c.buys) (empty.0 p)),
      λ p.
          omega
            (arith, (counted-trades p trades start).1, ap (λ (c : Counts). c.sells) (empty.0 p)),
      omega (arith, sums.0, empty.1),
      omega (arith, sums.1, empty.2),
    )

-- The row of a key that was listed last, or the one before.
abbrev pub last_of : String → Dict String Counts → Option Counts → Option Counts
last_of p [] old = old
last_of p ((k, c) ∷ rows) old = last_of p rows (if k == p then some c else old)

-- After a refresh a pair of the new rows has its new counts, and any other row is as it was, however
-- old.
pub refresh_table-lookup :
    (p : String) (rows table : Dict String Counts)
    → lookup p (refresh_table rows table) ≡ last_of p rows (lookup p table)
unfolding refresh_table
refresh_table-lookup p [] table = refl
refresh_table-lookup p ((k, c) ∷ rows) table =
    refresh_table-lookup p rows (insert k c table) ∙ ap (last_of p rows) (lookup-insert k p c table)
