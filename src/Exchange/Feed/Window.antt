-- ===== src/Exchange/Feed/Window.antt =====
-- The queue of ticks as a sliding window over the stream of all ticks that were read.
use Prim.Native.Nat.{◌+◌, ◌-◌}
use cryptotrader.Prelude.{
  inl, inr, Bool-cases, ℕ, zero, suc, ◌≤◌, ◌<◌, ◌≡◌, refl, ap, ◌∙◌, sym, true, false, List, [], ◌∷◌,
  ◌++◌, length, take_last, drop, length-append, length-drop, Result, ok, raise, arith,
}
use mathlib.Core.List.{append-nil, append_assoc}
use cryptotrader.Models.{PriceTick}
use cryptotrader.Desk.{Queue, is_full}
use cryptotrader.Exchange.Feed.{
  evict_oldest, put_newest, Item, Feed, read_item, publish, publish_all,
}

abbrev or_skip : {A : Type 0} → Result A → List A → List A
or_skip (raise e) xs = xs
or_skip (ok a) xs = a ∷ xs

-- The ticks of the items that can be read.
abbrev pub readable : {W : Type 0} → List (Item W) → List (PriceTick W)
readable [] = []
readable (i ∷ is) = or_skip (read_item i) (readable is)

-- A queue holds no more than its size, where it has one.
abbrev pub IsBounded : {A : Type 0} → Queue A → Type 0
IsBounded q = 0 < q.maxsize → length q.items ≤ q.maxsize

module _ {A : Type 0} where
  drop_at : (k j : ℕ) (xs : List A) → k ≡ j → drop k xs ≡ drop j xs
  drop_at k j xs e = ap (λ (n : ℕ). drop n xs) e

  take_last_short : (n : ℕ) (xs : List A) → length xs ≤ n → take_last n xs ≡ xs
  take_last_short zero xs h = refl
  take_last_short (suc n) xs h = drop_at (length xs - suc n) 0 xs (omega arith)

  take_last_bounded : (n : ℕ) (xs : List A) → (0 < n → length xs ≤ n) → take_last n xs ≡ xs
  take_last_bounded zero xs h = refl
  take_last_bounded (suc n) xs h = take_last_short (suc n) xs (h (omega arith))

  put_newest-room :
      (q : Queue A) (a : A)
      → is_full q ≡ false
      → put_newest q a ≡ record q { items = q.items ++ a ∷ [] }
  unfolding put_newest
  put_newest-room q a h = ground arith

  put_newest-full :
      (q : Queue A) (a : A)
      → is_full q ≡ true
      → is_full (evict_oldest q) ≡ false
      → put_newest q a ≡ record q { items = drop 1 q.items ++ a ∷ [] }
  unfolding put_newest
  put_newest-full q a h k = ground arith

  put_newest_cases :
      (m : ℕ) (xs : List A) (a : A)
      → IsBounded (record { maxsize = m; items = xs })
      → (put_newest (record { maxsize = m; items = xs }) a).items ≡ take_last m (xs ++ a ∷ [])
  unfolding put_newest
  put_newest_cases zero xs a h = refl
  put_newest_cases (suc n) [] a h = ground arith
  put_newest_cases (suc n) (x ∷ xs) a h =
      let q : Queue A = record { maxsize = suc n; items = x ∷ xs } in
      elim (Bool-cases (is_full q)) [
        | inl full ↦
            ap (λ r. r.items) (put_newest-full q a full (ground (arith, h (omega arith))))
            ∙ drop_at 1 _ (x ∷ xs ++ a ∷ [])
                (ground (arith, h (omega arith), length-append xs (a ∷ [])))
        | inr room ↦
            ap (λ r. r.items) (put_newest-room q a room)
            ∙ sym (
                take_last_short (suc n) (x ∷ xs ++ a ∷ [])
                  (ground (arith, length-append xs (a ∷ []))))
      ]

  put_newest-items :
      (q : Queue A) (a : A)
      → IsBounded q
      → (put_newest q a).items ≡ take_last q.maxsize (q.items ++ a ∷ [])
  put_newest-items q a h = put_newest_cases q.maxsize q.items a h

  put_newest-IsBounded : (q : Queue A) (a : A) → IsBounded q → IsBounded (put_newest q a)
  unfolding put_newest
  put_newest-IsBounded q a h = ground (
    arith,
    length-append q.items (a ∷ []),
    length-append (drop 1 q.items) (a ∷ []),
    length-drop 1 q.items,
  )

  drop-drop_append :
      (k j : ℕ) (xs ys : List A)
      → k ≤ length xs
      → drop j (drop k xs ++ ys) ≡ drop (k + j) (xs ++ ys)
  drop-drop_append zero j xs ys h = ap (λ (n : ℕ). drop n (xs ++ ys)) (omega arith)
  drop-drop_append (suc k) j [] ys h = absurd (omega arith)
  drop-drop_append (suc k) j (x ∷ xs) ys h =
      drop-drop_append k j xs ys (omega arith)
      ∙ drop_at (suc (k + j)) _ (x ∷ xs ++ ys) (omega arith)

  take_last-take_last :
      (n : ℕ) (xs ys : List A) → take_last n (take_last n xs ++ ys) ≡ take_last n (xs ++ ys)
  take_last-take_last zero xs ys = refl
  take_last-take_last (suc n) xs ys =
      drop-drop_append (length xs - suc n) _ xs ys (omega arith)
      ∙ ap (λ (k : ℕ). drop k (xs ++ ys))
          (omega (
            arith,
            length-append xs ys,
            length-append (drop (length xs - suc n) xs) ys,
            length-drop (length xs - suc n) xs,
          ))

  put_newest-maxsize : (q : Queue A) (a : A) → (put_newest q a).maxsize ≡ q.maxsize
  unfolding put_newest
  put_newest-maxsize q a = ground arith

  -- A window that has slid over one item, and then over more.
  put_newest-window :
      (q : Queue A) (a : A) (more : List A)
      → IsBounded q
      → take_last (put_newest q a).maxsize ((put_newest q a).items ++ more)
        ≡ take_last q.maxsize (q.items ++ a ∷ more)
  put_newest-window q a more h =
      rw (put_newest-maxsize q a, put_newest-items q a h)
        (take_last-take_last q.maxsize (q.items ++ a ∷ []) more
          ∙ ap (take_last q.maxsize) (append_assoc q.items (a ∷ []) more))

module _ {W : Type 0} where
  -- After a message the queue holds the newest of all ticks that were put and read, in their order:
  -- as many as it has room for, and all of them where it has no limit.
  pub publish_all-window :
      (items : List (Item W)) (f : Feed W)
      → IsBounded f.queue
      → IsBounded (publish_all items f).queue
        × ((publish_all items f).queue.items
            ≡ take_last f.queue.maxsize (f.queue.items ++ readable items))
  unfolding publish_all
  publish_all-window [] f h =
      (h, sym (rw append-nil (take_last_bounded f.queue.maxsize f.queue.items h)))
  publish_all-window (i ∷ is) f h = after_item (publish_all-window is) (read_item i)
    where
      after_item :
          ((g : Feed W)
            → IsBounded g.queue
            → IsBounded (publish_all is g).queue
              × ((publish_all is g).queue.items
                  ≡ take_last g.queue.maxsize (g.queue.items ++ readable is)))
          → (r : Result (PriceTick W))
          → IsBounded (publish_all is (publish r i.loop_time f)).queue
            × ((publish_all is (publish r i.loop_time f)).queue.items
                ≡ take_last f.queue.maxsize (f.queue.items ++ or_skip r (readable is)))
      after_item later (raise e) = later f h
      after_item later (ok t) =
          let f' = publish (ok t) i.loop_time f in
          let rest = later f' (put_newest-IsBounded f.queue t h) in
          (rest.0, rest.1 ∙ put_newest-window f.queue t (readable is) h)
