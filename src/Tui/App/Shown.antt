-- ===== src/Tui/App/Shown.antt =====
-- What is written to the trade log after its history, and any run of keys and items.
use cryptotrader.Prelude.{
  String, ◌≡◌, refl, sym, ap, ◌∙◌, Bool, true, false, not, Bool-cases, inl, inr, string_eq,
  if◌then◌else◌, List, [], ◌∷◌, ◌++◌, foldl, map, filter, filter-append, take_last, length, Result,
  ok, raise,
}
use mathlib.Core.List.{map-append, append-nil, append_assoc}
use cryptotrader.Float.{Float}
use cryptotrader.Models.{LogItem}
use cryptotrader.Database.{Database}
use cryptotrader.Tui.TradeLog.{
  Line, item_line, history_mark, TradeLogPanel, empty_panel, item_mode, is_foreign, merged,
  write_item, write_history, load_history, append_trade, re_render,
}
use cryptotrader.Tui.App.{
  App, ScreenEvent, tz_toggled, panel_toggled, price_came, trade_came, mount, toggle_tz,
  toggle_panel, handle_event, handle_events,
}

module _ {W : Type 0} where
  abbrev pub is_item : Line W → Bool
  is_item (item_line use_utc item) = true
  is_item (history_mark n) = false

  -- The lines of items that were written are those of the kept ones, each in the zone.
  abbrev pub Shows : Bool → TradeLogPanel W → Type 0
  Shows use_utc p = filter is_item p.written_lines ≡ map (item_line use_utc) p.log_items

  -- The items that come live and are kept.
  abbrev pub kept_live : String → List (ScreenEvent W) → List (LogItem W)
  kept_live active [] = []
  kept_live active (trade_came item ∷ es) =
      if is_foreign active (item_mode item) then kept_live active es else item ∷ kept_live active es
  kept_live active (tz_toggled ∷ es) = kept_live active es
  kept_live active (panel_toggled id ∷ es) = kept_live active es
  kept_live active (price_came tick ∷ es) = kept_live active es

  filter-item_lines :
      (u : Bool) (xs : List (LogItem W))
      → filter is_item (map (item_line u) xs) ≡ map (item_line u) xs
  filter-item_lines u [] = refl
  filter-item_lines u (x ∷ xs) = ap (λ l. item_line u x ∷ l) (filter-item_lines u xs)

  write_item-Shows :
      (u : Bool) (p : TradeLogPanel W) (x : LogItem W) → Shows u p → Shows u (write_item u p x)
  write_item-Shows u p x h =
      filter-append is_item p.written_lines (item_line u x ∷ [])
      ∙ ap (λ l. l ++ item_line u x ∷ []) h
      ∙ sym (map-append (item_line u) p.log_items (x ∷ []))

  write_items-Shows :
      (u : Bool) (xs : List (LogItem W)) (p : TradeLogPanel W)
      → Shows u p
      → Shows u (foldl (write_item u) p xs)
        × ((foldl (write_item u) p xs).log_items ≡ p.log_items ++ xs)
  write_items-Shows u [] p h = (h, sym (append-nil p.log_items))
  write_items-Shows u (x ∷ xs) p h =
      let (shows, items) = write_items-Shows u xs (write_item u p x) (write_item-Shows u p x h) in
      (shows, items ∙ append_assoc p.log_items (x ∷ []) xs)

  write_history-Shows :
      (u : Bool) (xs : List (LogItem W))
      → Shows u (write_history u xs empty_panel) × ((write_history u xs empty_panel).log_items ≡ xs)
  write_history-Shows u [] = (refl, refl)
  write_history-Shows u (x ∷ xs) =
      let (shows, items) = write_items-Shows u (x ∷ xs) empty_panel refl in
      let written = foldl (write_item u) empty_panel (x ∷ xs) in
      (
        filter-append is_item written.written_lines (history_mark (length (x ∷ xs)) ∷ [])
            ∙ append-nil (filter is_item written.written_lines)
            ∙ shows,
        items,
      )

  -- The history of the panel: the newest hundred, or nothing where the reading raised.
  abbrev pub history : Result (String × Database W) → List (LogItem W)
  history (raise e) = []
  history (ok (active, db)) = take_last 100 (merged active db)

  load_history-Shows :
      (u : Bool) (read : Result (String × Database W))
      → Shows u (load_history u read empty_panel)
        × ((load_history u read empty_panel).log_items ≡ history read)
  unfolding load_history
  load_history-Shows u (raise e) = (refl, refl)
  load_history-Shows u (ok (active, db)) = write_history-Shows u (take_last 100 (merged active db))

  append_trade-Shows :
      (active : String) (u : Bool) (x : LogItem W) (p : TradeLogPanel W)
      → Shows u p
      → Shows u (append_trade active u x p)
        × ((append_trade active u x p).log_items
            ≡ p.log_items ++ (if is_foreign active (item_mode x) then [] else x ∷ []))
  unfolding append_trade
  append_trade-Shows active u x p h = elim (Bool-cases (is_foreign active (item_mode x))) [
    | inl foreign ↦ rw foreign (h, sym (append-nil p.log_items))
    | inr own ↦ rw own (write_item-Shows u p x h, refl)
  ]

module _ {W : Type 0} ⦃fl : Float W⦄ where
  kept_one :
      (active : String) (x : LogItem W) (es : List (ScreenEvent W)) (items : List (LogItem W))
      → (items ++ (if is_foreign active (item_mode x) then [] else x ∷ [])) ++ kept_live active es
        ≡ items ++ kept_live active (trade_came x ∷ es)
  kept_one active x es items = elim (Bool-cases (is_foreign active (item_mode x))) [
    | inl foreign ↦ rw foreign (ap (λ l. l ++ kept_live active es) (append-nil items))
    | inr own ↦ rw own (append_assoc items (x ∷ []) (kept_live active es))
  ]

  handle_events-Shows :
      (active : String) (es : List (ScreenEvent W)) (a : App W)
      → Shows a.use_utc a.trade_log
      → let b = handle_events active a es in
        Shows b.use_utc b.trade_log
        × (b.trade_log.log_items ≡ a.trade_log.log_items ++ kept_live active es)
  unfolding handle_events handle_event toggle_tz toggle_panel re_render
  handle_events-Shows active [] a h = (h, sym (append-nil _))
  handle_events-Shows active (tz_toggled ∷ es) a h =
      handle_events-Shows active es (toggle_tz a)
        (filter-item_lines (not a.use_utc) a.trade_log.log_items)
  handle_events-Shows active (panel_toggled id ∷ es) a h =
      handle_events-Shows active es (toggle_panel id a) h
  handle_events-Shows active (price_came tick ∷ es) a h =
      handle_events-Shows active es (handle_event active a (price_came tick)) h
  handle_events-Shows active (trade_came x ∷ es) a h =
      let (kept, items) = append_trade-Shows active a.use_utc x a.trade_log h in
      let (shows, more) =
        handle_events-Shows active es (handle_event active a (trade_came x)) kept in
      (
        shows,
        more
            ∙ ap (λ l. l ++ kept_live active es) items
            ∙ kept_one active x es a.trade_log.log_items,
      )

-- However the keys and the items come: the trade log keeps the newest hundred items of its history,
-- and after them the live items that are not of another mode in production, in their order; and the
-- lines of items written to the widget since it was last cleared are those of the kept ones, in
-- order, each in the zone that the screen is in.
pub handle_events_show :
    {W : Type 0} ⦃fl : Float W⦄ (active : String) (hidden : List String)
    (read : Result (String × Database W)) (es : List (ScreenEvent W))
    → let a = handle_events active (mount active hidden read) es in
      (a.trade_log.log_items ≡ history read ++ kept_live active es)
      × (filter is_item a.trade_log.written_lines ≡ map (item_line a.use_utc) a.trade_log.log_items)
unfolding mount
handle_events_show active hidden read es =
    let (starts, first) = load_history-Shows false read in
    let (shows, items) = handle_events-Shows active es (mount active hidden read) starts in
    (items ∙ ap (λ l. l ++ kept_live active es) first, shows)
