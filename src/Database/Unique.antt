-- ===== src/Database/Unique.antt =====
-- The unique index: two instances of the bot cannot both record one fill.
use cryptotrader.Prelude.{
  ◌⊎◌, ℕ, All, sym, ◌≡◌, refl, Bool, true, false, inl, inr, List, [], ◌∷◌, ◌++◌, ok, raise,
  runtime_error, arith, string_eq, Bool-cases,
}
use mathlib.Core.List.{Mem, mem-cons_of_mem, mem-cons_self}
use cryptotrader.Models.{Trade, side_eq, side_beq_iff}
use cryptotrader.Models.Time.{time_eq, time_beq_iff}
use cryptotrader.Database.{
  ◌+◌, length, Database, insert_trade, init_db, has_key, has_duplicates, same_key,
}

module _ {W : Type 0} where
  -- Two rows that agree in every column of the index.
  abbrev pub IsSame : Trade W → Trade W → Type 0
  IsSame t u =
      (t.pair ≡ u.pair)
      × (t.strategy ≡ u.strategy)
      × (t.timestamp ≡ u.timestamp)
      × (t.side ≡ u.side)

  -- No two rows agree so.
  abbrev pub Distinct : List (Trade W) → Type 0
  Distinct [] = Unit
  Distinct (t ∷ ts) = All (λ u. ¬ IsSame t u) ts × Distinct ts

  same_key_iff :
      (t u : Trade W) → (same_key t u ≡ true → IsSame t u) × (IsSame t u → same_key t u ≡ true)
  same_key_iff t u = ground (
    arith,
    string_eq.beq_iff t.pair u.pair,
    string_eq.beq_iff t.strategy u.strategy,
    time_beq_iff t.timestamp u.timestamp,
    side_beq_iff t.side u.side,
  )

  has_key-some :
      (t : Trade W) (us : List (Trade W))
      → has_key t us ≡ true
      → (u : Trade W) × Mem u us × IsSame t u
  unfolding has_key
  has_key-some t [] h = absurd (cc)
  has_key-some t (u ∷ us) h = elim (Bool-cases (same_key t u)) [
    | inl same ↦ (u, mem-cons_self, (same_key_iff t u).0 same)
    | inr other ↦
        let (w, m, same) = has_key-some t us (ground (arith)) in (w, mem-cons_of_mem u m, same)
  ]

  has_key-none :
      (t : Trade W) (us : List (Trade W)) → has_key t us ≡ false → All (λ u. ¬ IsSame t u) us
  unfolding has_key
  has_key-none t [] h = tt
  has_key-none t (u ∷ us) h =
      (λ same. ground (arith, (same_key_iff t u).1 same), has_key-none t us (ground (arith)))

  IsSame-symm : (t u : Trade W) → IsSame t u → IsSame u t
  IsSame-symm t u (a, b, c, d) = (sym a, sym b, sym c, sym d)

  All-append_one :
      (P : Trade W → Type 0) (us : List (Trade W)) (t : Trade W)
      → All P us
      → P t
      → All P (us ++ t ∷ [])
  All-append_one P [] t h p = (p, tt)
  All-append_one P (u ∷ us) t (h, hs) p = (h, All-append_one P us t hs p)

  Distinct-append_one :
      (t : Trade W) (us : List (Trade W))
      → All (λ u. ¬ IsSame t u) us
      → Distinct us
      → Distinct (us ++ t ∷ [])
  Distinct-append_one t [] h d = (tt, tt)
  Distinct-append_one t (u ∷ us) (h, hs) (d, ds) = (
    All-append_one (λ w. ¬ IsSame u w) us t d (λ same. h (IsSame-symm u t same)),
    Distinct-append_one t us hs ds,
  )

  has_duplicates-Distinct : (ts : List (Trade W)) → has_duplicates ts ≡ false → Distinct ts
  unfolding has_duplicates
  has_duplicates-Distinct [] h = tt
  has_duplicates-Distinct (t ∷ ts) h =
      (has_key-none t ts (ground (arith)), has_duplicates-Distinct ts (ground (arith)))

  -- While the index exists, no two rows of the log agree in its columns.
  abbrev pub IsUnique : Database W → Type 0
  IsUnique db = (db.unique_trades ≡ true) × Distinct db.trades

  -- Under the unique index an insertion raises exactly when the log has a row of the same pair,
  -- strategy, timestamp and side; else the log gains the row, at its end, and stays without two
  -- rows that agree in these columns.
  pub insert_trade-IsUnique :
      (db : Database W) (t : Trade W)
      → IsUnique db
      → ((insert_trade db t ≡ raise runtime_error) × ((u : Trade W) × Mem u db.trades × IsSame t u))
        ⊎ ((r : ℕ × Database W) × (insert_trade db t ≡ ok r)
            × All (λ u. ¬ IsSame t u) db.trades
            × (r.1.trades ≡ db.trades ++ t ∷ [])
            × IsUnique r.1)
  unfolding insert_trade
  insert_trade-IsUnique db t (on, distinct) = elim (Bool-cases (has_key t db.trades)) [
    | inl there ↦ inl (ground arith, has_key-some t db.trades there)
    | inr free ↦
        let new = has_key-none t db.trades free in
        inr (
          (length db.trades + 1, record db { trades = db.trades ++ t ∷ [] }),
          ground arith,
          new,
          refl,
          (on, Distinct-append_one t db.trades new distinct),
        )
  ]

  -- `init_db` is idempotent, keeps every row, and on a log with no duplicate makes the index.
  pub init_db_lem :
      (db : Database W) (read_only : Bool)
      → (init_db (init_db db read_only) read_only ≡ init_db db read_only)
        × ((init_db db read_only).trades ≡ db.trades)
        × (has_duplicates db.trades ≡ false → IsUnique (init_db db false))
  unfolding init_db
  init_db_lem db read_only =
      (ground arith, ground arith, λ h. (ground arith, has_duplicates-Distinct db.trades h))
