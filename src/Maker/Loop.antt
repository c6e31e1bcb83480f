-- ===== src/Maker/Loop.antt =====
-- cryptotrader/maker.py: the loop over the resting entries, for any body that resolves an entry by
-- taking it out of the book.
use cryptotrader.Prelude.{
  Eq, filter, String, Bool, true, false, ◌≡◌, refl, ap, ◌∙◌, sym, subst, arith, if◌then◌else◌, ◌&&◌,
  ◌||◌, ◌==◌, string_eq, pair_eq, Option, none, some, List, [], ◌∷◌,
}
use cryptotrader.Prelude.Dict.{Dict, lookup, erase, IsDict, erase-IsDict, lookup-erase}
use cryptotrader.Models.{Trade}
use cryptotrader.Desk.{Desk, RestingEntry}
use cryptotrader.Maker.{contains, keys, at_key, each_key}

module _ {K : Type 0} ⦃q : Eq K⦄ where
  abbrev pub elem : K → List K → Bool
  elem j [] = false
  elem j (k ∷ ks) = k == j || elem j ks

  pub elem-filter : (p : K → Bool) (j : K) (ks : List K) → elem j (filter p ks) ≡ (p j && elem j ks)
  elem-filter p j [] = ground arith
  elem-filter p j (k ∷ ks) = ground (arith, q.beq_iff k j, elem-filter p j ks)

  pub elem-keys : {V : Type 0} (j : K) (d : Dict K V) → elem j (keys d) ≡ contains j d
  elem-keys j [] = refl
  elem-keys j ((k, v) ∷ d) = ground (arith, q.beq_iff k j, elem-keys j d)

module _ (W C : Type 0) where
  abbrev pub Body : Type 0
  Body = String × String → RestingEntry W C → Desk W C → List (Trade W) × Desk W C

  abbrev pub Book : Type 0
  Book = Dict (String × String) (RestingEntry W C)

module _ {W C : Type 0} where
  -- What is left of an entry that the loop visits if `visited`, and resolves if `res`.
  abbrev pub left :
      (RestingEntry W C → Bool) → Bool → Option (RestingEntry W C) → Option (RestingEntry W C)
  left res visited none = none
  left res visited (some e) = if visited && res e then none else some e

  -- The body takes the entry out exactly where `res` holds.
  abbrev pub Resolves : (RestingEntry W C → Bool) → Body W C → Type 0
  Resolves res body =
      (k : String × String) (e : RestingEntry W C) (d : Desk W C)
      → (body k e d).1.resting ≡ (if res e then erase k d.resting else d.resting)

  resolved-IsDict :
      (b : Bool) (k : String × String) (book : Book W C)
      → IsDict book
      → IsDict (if b then erase k book else book)
  resolved-IsDict false k book v = v
  resolved-IsDict true k book v = erase-IsDict k book v

  left-absent :
      (res : RestingEntry W C → Bool) (b : Bool) (o : Option (RestingEntry W C))
      → (b ≡ true → o ≡ none)
      → o ≡ left res b o
  left-absent res b none h = refl
  left-absent res false (some x) h = refl
  left-absent res true (some x) h = let e = h refl in cc

  left-present :
      (res : RestingEntry W C → Bool) (b : Bool) (x : RestingEntry W C)
      (o : Option (RestingEntry W C))
      → (b ≡ true → o ≡ some x)
      → (if res x then (if b then none else o) else o) ≡ left res b o
  left-present res b x none h = ground arith
  left-present res b x (some y) h = ground arith

  lookup-if :
      (b : Bool) (j : String × String) (x y : Book W C)
      → lookup j (if b then x else y) ≡ (if b then lookup j x else lookup j y)
  lookup-if true j x y = refl
  lookup-if false j x y = refl

  same_lookup :
      (j k : String × String) (book : Book W C) {o : Option (RestingEntry W C)}
      → lookup k book ≡ o
      → (k == j) ≡ true
      → lookup j book ≡ o
  same_lookup j k book e same = ap (λ i. lookup i book) (sym ((pair_eq.beq_iff k j).0 same)) ∙ e

  module _ (res : RestingEntry W C → Bool) (body : Body W C) (h : Resolves res body) where
    pub at_key-IsDict :
        (k : String × String) (d : Desk W C) (found : Option (RestingEntry W C))
        → IsDict d.resting
        → IsDict (at_key body k d found).1.resting
    at_key-IsDict k d none v = v
    at_key-IsDict k d (some e) v =
        subst IsDict (sym (h k e d)) (resolved-IsDict (res e) k d.resting v)

    at_key-lookup :
        (j k : String × String) (d : Desk W C) (found : Option (RestingEntry W C))
        → lookup k d.resting ≡ found
        → IsDict d.resting
        → lookup j (at_key body k d found).1.resting ≡ left res (k == j) (lookup j d.resting)
    at_key-lookup j k d none e v =
        left-absent res (k == j) (lookup j d.resting) (same_lookup j k d.resting e)
    at_key-lookup j k d (some x) e v =
        ap (lookup j) (h k x d)
        ∙ lookup-if (res x) j (erase k d.resting) d.resting
        ∙ ap (λ o. if res x then o else lookup j d.resting) (lookup-erase j k d.resting v)
        ∙ left-present res (k == j) x (lookup j d.resting) (same_lookup j k d.resting e)

    pub each_key-IsDict :
        (ks : List (String × String)) (d : Desk W C)
        → IsDict d.resting
        → IsDict (each_key body ks d).1.resting
    unfolding each_key
    each_key-IsDict [] d v = v
    each_key-IsDict (k ∷ ks) d v = each_key-IsDict ks _ (at_key-IsDict k d (lookup k d.resting) v)

    left-left :
        (a b : Bool) (o : Option (RestingEntry W C))
        → left res b (left res a o) ≡ left res (a || b) o
    left-left a b none = refl
    left-left a b (some x) = ground arith

    pub each_key-lookup :
        (j : String × String) (ks : List (String × String)) (d : Desk W C)
        → IsDict d.resting
        → lookup j (each_key body ks d).1.resting ≡ left res (elem j ks) (lookup j d.resting)
    unfolding each_key
    each_key-lookup j [] d v = left-absent res false (lookup j d.resting) λ e. cc
    each_key-lookup j (k ∷ ks) d v =
        each_key-lookup j ks _ (at_key-IsDict k d (lookup k d.resting) v)
        ∙ ap (left res (elem j ks)) (at_key-lookup j k d (lookup k d.resting) refl v)
        ∙ left-left (k == j) (elem j ks) (lookup j d.resting)
