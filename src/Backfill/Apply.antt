-- ===== src/Backfill/Apply.antt =====
-- What `--apply` writes: the rows that had a figure keep it, and a second run writes nothing.
use cryptotrader.Prelude.{
  ℕ, zero, suc, String, ◌≡◌, refl, sym, subst, ap, ◌∙◌, true, Bool-cases, inl, inr, is_some, List,
  [], ◌∷◌, ◌++◌, map, foldl, All, string_eq, ◌==◌,
}
use mathlib.Core.List.{map-append, head-eq_of_cons-eq, tail-eq_of_cons-eq}
use cryptotrader.Prelude.Dict.{Dict, get_or, insert, get_or-insert}
use cryptotrader.Float.{Float}
use cryptotrader.Models.{Trade, side_cases}
use cryptotrader.Backfill.{
  Closed, Progress, new_progress, closed_row, numbered_rows, match_trade, close_first,
  compute_backfill, set_pnl, write_rows, backfill,
}
use cryptotrader.Backfill.Order.{bare, bare_row, numbered_rows-bare}

module _ {W : Type 0} where
  -- The row after the run: its figure is the old one, where there was one.
  abbrev pub IsKept : Trade W → Trade W → Type 0
  IsKept t u = (bare u ≡ bare t) × (is_some t.pnl ≡ true → u ≡ t)

  abbrev pub AreKept : List (Trade W) → List (Trade W) → Type 0
  AreKept [] us = us ≡ []
  AreKept (t ∷ ts) [] = ⊥
  AreKept (t ∷ ts) (u ∷ us) = IsKept t u × AreKept ts us

  AreKept-refl : (ts : List (Trade W)) → AreKept ts ts
  AreKept-refl [] = refl
  AreKept-refl (t ∷ ts) = ((refl, λ e. refl), AreKept-refl ts)

  AreKept-trans : (ts us vs : List (Trade W)) → AreKept ts us → AreKept us vs → AreKept ts vs
  AreKept-trans [] us vs h k = subst (λ l. AreKept l vs → vs ≡ []) (sym h) (λ e. e) k
  AreKept-trans (t ∷ ts) [] vs h k = absurd h
  AreKept-trans (t ∷ ts) (u ∷ us) [] h k = absurd k
  AreKept-trans (t ∷ ts) (u ∷ us) (v ∷ vs) h k = (
    (k.0.0 ∙ h.0.0, λ e. k.0.1 (subst (λ w. is_some w.pnl ≡ true) (sym (h.0.1 e)) e) ∙ h.0.1 e),
    AreKept-trans ts us vs h.1 k.1,
  )

  set_pnl-AreKept : (id : ℕ) (x : W) (ts : List (Trade W)) → AreKept ts (set_pnl id x ts).0
  unfolding set_pnl
  set_pnl-AreKept id x [] = refl
  set_pnl-AreKept zero x (t ∷ ts) = elim (Bool-cases (is_some t.pnl)) [
    | inl e ↦ rw e ((refl, λ q. refl), AreKept-refl ts)
    | inr e ↦ rw e ((refl, λ q. cc), AreKept-refl ts)
  ]
  set_pnl-AreKept (suc id) x (t ∷ ts) = ((refl, λ e. refl), set_pnl-AreKept id x ts)

  write_rows-AreKept :
      (rows : List (Closed W)) (ts : List (Trade W)) → AreKept ts (write_rows rows ts).0
  unfolding write_rows
  write_rows-AreKept [] ts = AreKept-refl ts
  write_rows-AreKept (r ∷ rows) ts =
      let next = (set_pnl r.id r.pnl ts).0 in
      AreKept-trans ts next (write_rows rows next).0 (set_pnl-AreKept r.id r.pnl ts)
        (write_rows-AreKept rows next)

  -- The row of an id has its figure, if there is such a row.
  abbrev pub HasFigure : List (Trade W) → ℕ → Type 0
  HasFigure [] id = Unit
  HasFigure (t ∷ ts) zero = is_some t.pnl ≡ true
  HasFigure (t ∷ ts) (suc id) = HasFigure ts id

  AreKept-HasFigure :
      (ts us : List (Trade W)) (id : ℕ) → AreKept ts us → HasFigure ts id → HasFigure us id
  AreKept-HasFigure [] us id k h = subst (λ l. HasFigure l id) (sym k) tt
  AreKept-HasFigure (t ∷ ts) [] id k h = absurd k
  AreKept-HasFigure (t ∷ ts) (u ∷ us) zero k h = subst (λ w. is_some w.pnl ≡ true) (sym (k.0.1 h)) h
  AreKept-HasFigure (t ∷ ts) (u ∷ us) (suc id) k h = AreKept-HasFigure ts us id k.1 h

  set_pnl-HasFigure : (id : ℕ) (x : W) (ts : List (Trade W)) → HasFigure (set_pnl id x ts).0 id
  unfolding set_pnl
  set_pnl-HasFigure id x [] = tt
  set_pnl-HasFigure zero x (t ∷ ts) = elim (Bool-cases (is_some t.pnl)) [
    | inl e ↦ rw e e
    | inr e ↦ rw e refl
  ]
  set_pnl-HasFigure (suc id) x (t ∷ ts) = set_pnl-HasFigure id x ts

  write_rows-HasFigure :
      (rows : List (Closed W)) (ts : List (Trade W))
      → All (λ r. HasFigure (write_rows rows ts).0 r.id) rows
  unfolding write_rows
  write_rows-HasFigure [] ts = tt
  write_rows-HasFigure (r ∷ rows) ts =
      let next = (set_pnl r.id r.pnl ts).0 in
      (
        AreKept-HasFigure next (write_rows rows next).0 r.id (write_rows-AreKept rows next)
            (set_pnl-HasFigure r.id r.pnl ts),
        write_rows-HasFigure rows next,
      )

  set_pnl_idle :
      (id : ℕ) (x : W) (ts : List (Trade W)) → HasFigure ts id → set_pnl id x ts ≡ (ts, 0)
  unfolding set_pnl
  set_pnl_idle id x [] h = refl
  set_pnl_idle zero x (t ∷ ts) h = rw h
  set_pnl_idle (suc id) x (t ∷ ts) h = rw (set_pnl_idle id x ts h)

  write_rows_idle :
      (rows : List (Closed W)) (ts : List (Trade W))
      → All (λ r. HasFigure ts r.id) rows
      → write_rows rows ts ≡ (ts, 0)
  unfolding write_rows
  write_rows_idle [] ts h = refl
  write_rows_idle (r ∷ rows) ts h = rw (set_pnl_idle r.id r.pnl ts h.0, write_rows_idle rows ts h.1)

  map-bare_kept : (ts us : List (Trade W)) → AreKept ts us → map bare us ≡ map bare ts
  map-bare_kept [] us k = ap (map bare) k
  map-bare_kept (t ∷ ts) [] k = absurd k
  map-bare_kept (t ∷ ts) (u ∷ us) k = cc (k.0.0, map-bare_kept ts us k.1)

  get_or-insert-bare :
      (k p : String) (v v' : List (Trade W)) (d d' : Dict String (List (Trade W)))
      → map bare v ≡ map bare v'
      → map bare (get_or p [] d) ≡ map bare (get_or p [] d')
      → map bare (get_or p [] (insert k v d)) ≡ map bare (get_or p [] (insert k v' d'))
  get_or-insert-bare k p v v' d d' e h =
      rw (get_or-insert k p v [] d, get_or-insert k p v' [] d')
        (elim (Bool-cases (k == p)) [ inl same ↦ rw same e | inr other ↦ rw other h ])

module _ {W : Type 0} ⦃fl : Float W⦄ where
  -- Two runs of the loop that differ in the stored figures of the open buys alone.
  record Alike (s s' : Progress W) : Type 0 where
    same_rows : s.rows ≡ s'.rows
    same_buys :
        (p : String) → map bare (get_or p [] s.open_buys) ≡ map bare (get_or p [] s'.open_buys)

  close_first-Alike :
      (s s' : Progress W) (id : ℕ) (t : Trade W) (buys buys' : List (Trade W))
      → map bare buys ≡ map bare buys'
      → Alike s s'
      → Alike (close_first s (id, t) buys) (close_first s' (id, bare t) buys')
  unfolding close_first
  close_first-Alike s s' id t [] [] e h = h
  close_first-Alike s s' id t [] (b' ∷ buys') e h = absurd (cc)
  close_first-Alike s s' id t (b ∷ buys) [] e h = absurd (cc)
  close_first-Alike s s' id t (b ∷ buys) (b' ∷ buys') e h = record {
    same_rows = cc (h.same_rows, ap (λ (w : Trade W). closed_row id t w) (head-eq_of_cons-eq e));
    same_buys = λ p.
        get_or-insert-bare t.pair p buys buys' s.open_buys s'.open_buys (tail-eq_of_cons-eq e)
          (h.same_buys p);
  }

  match_trade-Alike :
      (s s' : Progress W) (r : ℕ × Trade W)
      → Alike s s'
      → Alike (match_trade s r) (match_trade s' (bare_row r))
  unfolding match_trade
  match_trade-Alike s s' (id, t) h = elim (side_cases t.side) [
    | inl e ↦
        rw (e, match_trade)
          (record {
            same_rows = h.same_rows;
            same_buys = λ p.
                get_or-insert-bare t.pair p (get_or t.pair [] s.open_buys ++ t ∷ [])
                  (get_or t.pair [] s'.open_buys ++ bare t ∷ []) s.open_buys s'.open_buys
                  (rw (map-append, map-append, h.same_buys t.pair) refl) (h.same_buys p);
          })
    | inr e ↦
        rw (e, match_trade)
          (close_first-Alike s s' id t (get_or t.pair [] s.open_buys)
            (get_or t.pair [] s'.open_buys) (h.same_buys t.pair) h)
  ]

  foldl-Alike :
      (rows : List (ℕ × Trade W)) (s s' : Progress W)
      → Alike s s'
      → Alike (foldl match_trade s rows) (foldl match_trade s' (map bare_row rows))
  foldl-Alike [] s s' h = h
  foldl-Alike (r ∷ rows) s s' h =
      foldl-Alike rows (match_trade s r) (match_trade s' (bare_row r)) (match_trade-Alike s s' r h)

  compute_backfill-bare :
      (ts : List (Trade W)) (mode : String)
      → compute_backfill ts mode ≡ compute_backfill (map bare ts) mode
  unfolding compute_backfill
  compute_backfill-bare ts mode =
      (foldl-Alike (numbered_rows mode ts) new_progress new_progress
        (record { same_rows = refl; same_buys = λ p. refl })).same_rows
      ∙ ap (λ rows. (foldl match_trade new_progress rows).rows) (sym (numbered_rows-bare mode ts))

  -- The stored figures are not read.
  compute_backfill-kept :
      (ts us : List (Trade W)) (mode : String)
      → AreKept ts us
      → compute_backfill us mode ≡ compute_backfill ts mode
  compute_backfill-kept ts us mode k =
      compute_backfill-bare us mode
      ∙ ap (λ l. compute_backfill l mode) (map-bare_kept ts us k)
      ∙ sym (compute_backfill-bare ts mode)

pub backfill_applied :
    {W : Type 0} ⦃fl : Float W⦄ (mode : String) (trades : List (Trade W))
    → let updated = (backfill true mode trades).0 in
      AreKept trades updated
      × All (λ r. HasFigure updated r.id) (compute_backfill trades mode)
      × (backfill true mode updated ≡ (updated, 0))
unfolding backfill
backfill_applied mode trades =
    let rows = compute_backfill trades mode in
    let updated = (write_rows rows trades).0 in
    let kept = write_rows-AreKept rows trades in
    (
      kept,
      write_rows-HasFigure rows trades,
      rw (compute_backfill-kept trades updated mode kept)
          (write_rows_idle rows updated (write_rows-HasFigure rows trades)),
    )
