-- ===== src/Executor/Quote.antt =====
-- `_quote_balance_key` of executor.py, and `kraken_asset` of reconcile.py: Kraken's code for the
-- quote and for the base of a pair such as BTC/USD.
use Prim.Native.Char.{Char, code}
use Prim.Native.Nat.{◌-◌}
use cryptotrader.Prelude.{
  ℕ, zero, suc, String, Bool, nat_beq, if◌then◌else◌, Option, none, some, [], ◌∷◌, string_eq, ◌≡◌,
  refl,
}
use cryptotrader.Prelude.Dict.{Dict, get_or}

abbrev pub is_slash : Char → Bool
is_slash c = nat_beq (code c) b'/'

-- The text behind the last slash, if there is a slash.
abbrev pub or_else {ℓ} : {A : Type ℓ} → Option A → Option A → Option A
or_else (some a) b = some a
or_else none b = b

unfoldable pub after_last_slash : String → Option String
after_last_slash String.[] = none
after_last_slash (String.◌∷◌ c s) =
    or_else (after_last_slash s) (if is_slash c then some s else none)

-- The text before the first slash, or all of it: `pair.split("/")[0]`.
unfoldable pub before_slash : String → String
before_slash String.[] = String.[]
before_slash (String.◌∷◌ c s) = if is_slash c then String.[] else String.◌∷◌ c (before_slash s)

abbrev pub count_chars : String → ℕ
count_chars String.[] = 0
count_chars (String.◌∷◌ c s) = suc (count_chars s)

abbrev pub drop_chars : ℕ → String → String
drop_chars zero s = s
drop_chars (suc n) String.[] = String.[]
drop_chars (suc n) (String.◌∷◌ c s) = drop_chars n s

-- `pair[-3:]`
abbrev pub last_three : String → String
last_three s = drop_chars (count_chars s - 3) s

-- `_KRAKEN_QUOTE_KEYS`
abbrev pub kraken_quote_keys : Dict String String
kraken_quote_keys =
    ("USD", "ZUSD")
    ∷ ("EUR", "ZEUR")
    ∷ ("GBP", "ZGBP")
    ∷ ("CAD", "ZCAD")
    ∷ ("JPY", "ZJPY")
    ∷ ("CHF", "ZCHF")
    ∷ ("AUD", "ZAUD")
    ∷ []

abbrev pub quote_of : String → String
quote_of pair = elim (after_last_slash pair) [ none ↦ last_three pair | some q ↦ q ]

unfoldable pub quote_balance_key : String → String
quote_balance_key pair = get_or (quote_of pair) (quote_of pair) kraken_quote_keys

-- `KRAKEN_ASSET_CODES`
abbrev pub kraken_asset_codes : Dict String String
kraken_asset_codes =
    ("BTC", "XXBT")
    ∷ ("XBT", "XXBT")
    ∷ ("ETH", "XETH")
    ∷ ("SOL", "SOL")
    ∷ ("DOGE", "XXDG")
    ∷ ("XLM", "XXLM")
    ∷ []

unfoldable pub kraken_asset : String → String
kraken_asset pair = get_or (before_slash pair) (before_slash pair) kraken_asset_codes

dollars : quote_balance_key "BTC/USD" ≡ "ZUSD"
unfolding quote_balance_key after_last_slash
dollars = refl

unslashed : quote_balance_key "BTCEUR" ≡ "ZEUR"
unfolding quote_balance_key after_last_slash
unslashed = refl

unknown_quote : quote_balance_key "ETH/BTC" ≡ "BTC"
unfolding quote_balance_key after_last_slash
unknown_quote = refl

bitcoin : kraken_asset "BTC/USD" ≡ "XXBT"
unfolding kraken_asset before_slash
bitcoin = refl
