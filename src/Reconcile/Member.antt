-- ===== src/Reconcile/Member.antt =====
-- What `in` says of the lists and sets that cryptotrader/reconcile.py builds.
use cryptotrader.Prelude.{
  String, ◌≡◌, refl, ap, ◌∙◌, Bool, ◌==◌, string_eq, List, [], ◌∷◌, ◌++◌, filter, arith, ◌||◌, ◌&&◌,
}
use cryptotrader.Prelude.Dict.{Dict, contains, keys}
use cryptotrader.Reconcile.{member, set_of, place_before, sorted, text_before}

member-place_before :
    (a b : String) (xs : List String)
    → member a (place_before text_before b xs) ≡ (b == a || member a xs)
unfolding place_before
member-place_before a b [] = refl
member-place_before a b (x ∷ xs) = ground (arith, member-place_before a b xs)

pub member-sorted : (a : String) (xs : List String) → member a (sorted text_before xs) ≡ member a xs
unfolding sorted
member-sorted a [] = refl
member-sorted a (x ∷ xs) =
    member-place_before a x (sorted text_before xs) ∙ ap (λ b. x == a || b) (member-sorted a xs)

pub member-set_of : (a : String) (xs : List String) → member a (set_of xs) ≡ member a xs
unfolding set_of
member-set_of a [] = refl
member-set_of a (x ∷ xs) = ground (arith, member-set_of a xs, string_eq.beq_iff x a)

pub member-append :
    (a : String) (xs ys : List String) → member a (xs ++ ys) ≡ (member a xs || member a ys)
member-append a [] ys = refl
member-append a (x ∷ xs) ys = ground (arith, member-append a xs ys)

pub member-filter :
    (a : String) (p : String → Bool) (xs : List String)
    → member a (filter p xs) ≡ (member a xs && p a)
member-filter a p [] = refl
member-filter a p (x ∷ xs) = ground (arith, member-filter a p xs, string_eq.beq_iff x a)

pub member-keys : {V : Type 0} (a : String) (d : Dict String V) → member a (keys d) ≡ contains a d
member-keys a [] = refl
member-keys a ((k, v) ∷ d) = ground (arith, member-keys a d)
