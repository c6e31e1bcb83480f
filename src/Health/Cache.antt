-- ===== src/Health/Cache.antt =====
-- What a request of /health reports, and how old it is.
use cryptotrader.Prelude.{
  ℕ, true, false, ◌≡◌, refl, sym, subst, ap, if◌then◌else◌, ◌∙◌, ◌⊎◌, inl, inr, ◌↔◌, arith,
  Bool-cases, none, some, List, [], ◌∷◌, string_eq,
}
use mathlib.Core.List.{Mem, mem-cons_of_mem, mem-cons_self}
use cryptotrader.Float.{Float}
use cryptotrader.Health.{
  Checks, Health, Visit, HealthResponse, cache_is_stale, probe, renew, checks_for, all_ok, respond,
  handle_health, handle_all,
}

abbrev pub IsWell : Checks → Type 0
IsWell c = (c.database.status ≡ "ok") × (c.kraken_api.status ≡ "ok")

all_ok_iff : (c : Checks) → (all_ok c ≡ true) ↔ IsWell c
all_ok_iff c =
    ground
      (arith, string_eq.beq_iff c.database.status "ok", string_eq.beq_iff c.kraken_api.status "ok")

module _ {W : Type 0} ⦃fl : Float W⦄ where
  -- The cache is empty, or it is what a visit of those seen found.
  abbrev pub HasSource : List (Visit W) → Health W → Type 0
  HasSource seen h =
      (h.cached_result ≡ none)
      ⊎ ((u : Visit W) × Mem u seen
          × (h.cached_result ≡ some (probe u))
          × (h.cached_at ≡ u.checked_at))

  -- The checks of a response are of its own visit, or of one whose checks are not stale at it.
  abbrev pub IsRecent : List (Visit W) → Visit W → Checks → Type 0
  IsRecent seen v c =
      (u : Visit W) × Mem u (v ∷ seen)
      × (c ≡ probe u)
      × ((u ≡ v) ⊎ (cache_is_stale v.asked_at u.checked_at ≡ false))

  abbrev pub AreRecent : List (Visit W) → List (Visit W) → List (HealthResponse W) → Type 0
  AreRecent seen [] rs = rs ≡ []
  AreRecent seen (v ∷ vs) [] = ⊥
  AreRecent seen (v ∷ vs) (r ∷ rs) =
      IsRecent seen v r.checks × ((r.status ≡ 200) ↔ IsWell r.checks) × AreRecent (v ∷ seen) vs rs

  status_lem :
      (trunc : W → ℕ) (v : Visit W) (h : Health W) (c : Checks)
      → ((respond trunc v h c).status ≡ 200) ↔ IsWell c
  status_lem trunc v h c = ground (arith, all_ok_iff c)

  renew-IsRecent :
      (seen : List (Visit W)) (v : Visit W) (h : Health W)
      → IsRecent seen v (renew v h).0 × HasSource (v ∷ seen) (renew v h).1
  renew-IsRecent seen v h = ((v, mem-cons_self, refl, inl refl), inr (v, mem-cons_self, refl, refl))

  abbrev Serves : List (Visit W) → Visit W → Checks × Health W → Type 0
  Serves seen v p = IsRecent seen v p.0 × HasSource (v ∷ seen) p.1

  cached-Serves :
      (seen : List (Visit W)) (v u : Visit W) (h : Health W)
      → Mem u seen
      → h.cached_result ≡ some (probe u)
      → h.cached_at ≡ u.checked_at
      → Serves seen v (checks_for v h (some (probe u)))
  cached-Serves seen v u h m e at = elim (Bool-cases (cache_is_stale v.asked_at h.cached_at)) [
    | inl old ↦
        subst (λ b. Serves seen v (if b then renew v h else (probe u, h))) (sym old)
          (renew-IsRecent seen v h)
    | inr fresh ↦
        subst (λ b. Serves seen v (if b then renew v h else (probe u, h))) (sym fresh)
          (
            (u, mem-cons_of_mem v m, refl, inr (ap (cache_is_stale v.asked_at) (sym at) ∙ fresh)),
            inr (u, mem-cons_of_mem v m, e, at),
          )
  ]

  checks_for-Serves :
      (seen : List (Visit W)) (v : Visit W) (h : Health W)
      → HasSource seen h
      → Serves seen v (checks_for v h h.cached_result)
  checks_for-Serves seen v h (inl e) =
      subst (λ o. Serves seen v (checks_for v h o)) (sym e) (renew-IsRecent seen v h)
  checks_for-Serves seen v h (inr (u, m, e, at)) =
      subst (λ o. Serves seen v (checks_for v h o)) (sym e) (cached-Serves seen v u h m e at)

  visits-AreRecent :
      (trunc : W → ℕ) (seen : List (Visit W)) (h : Health W) (vs : List (Visit W))
      → HasSource seen h
      → AreRecent seen vs (handle_all trunc h vs)
  unfolding handle_all handle_health
  visits-AreRecent trunc seen h [] source = refl
  visits-AreRecent trunc seen h (v ∷ vs) source =
      let (recent, kept) = checks_for-Serves seen v h source in
      let served = checks_for v h h.cached_result in
      (
        recent,
        status_lem trunc v served.1 served.0,
        visits-AreRecent trunc (v ∷ seen) served.1 vs kept,
      )

-- From an empty cache, each request of a sequence gets one response: it reports what the probes found
-- on its own visit, or on an earlier one whose clock after them it does not find ten seconds old; its
-- status is 200 exactly if both checks that it reports are ok.
pub handle_all-AreRecent :
    {W : Type 0} ⦃fl : Float W⦄ (trunc : W → ℕ) (h : Health W) (vs : List (Visit W))
    → h.cached_result ≡ none
    → AreRecent [] vs (handle_all trunc h vs)
handle_all-AreRecent trunc h vs e = visits-AreRecent trunc [] h vs (inl e)
