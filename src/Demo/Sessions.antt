-- ===== src/Demo/Sessions.antt =====
-- The reviews of the demo and the visitors that see them.
use pr_review_bot.Prelude.{
  ℕ, zero, suc, ◌-◌, ◌<◌, ◌≡◌, refl, ap, ◌∙◌, String, false, Option, some, List, [], ◌∷◌, ◌++◌,
  arith, length, length-append, select, take, str_eq, eq_iff,
}
use pr_review_bot.Demo.{
  Context, DemoReview, DemoStore, drop, trim, tag, new_review, record_review_demo, is_visible,
  reversed, dashboard_reviews,
}

reversed-append {ℓ} : {A : Type ℓ} (xs : List A) (x : A) → reversed (xs ++ x ∷ []) ≡ x ∷ reversed xs
reversed-append [] x = refl
reversed-append (y ∷ xs) x = ap (λ l. l ++ y ∷ []) (reversed-append xs x)

-- Below the cap nothing is dropped from the reviews.
record_review_demo-reviews :
    (current : Option String) (repo : String) (pr : ℕ) (p m : String) (now : ℕ) (s : DemoStore)
    → length s.reviews < 200
    → (record_review_demo current repo pr p m now s).reviews
      ≡ s.reviews ++ new_review current repo pr p m now s ∷ []
unfolding record_review_demo trim
record_review_demo-reviews current repo pr p m now s h =
    let r = new_review current repo pr p m now s in
    ap (λ n. drop n (s.reviews ++ r ∷ [])) (none_over r)
  where
    none_over : (r : DemoReview) → length (s.reviews ++ r ∷ []) - 200 ≡ zero
    none_over r = omega (arith, length-append s.reviews (r ∷ []), h)

module _ (s : DemoStore) (c : Context) (a b repo p m : String) (pr now limit : ℕ) where
  -- A review that is recorded while a ticket of visitor `a` is processed leads the list that `a` sees,
  -- and leaves the list of another visitor `b` as it was, below the cap of the reviews.
  pub record_review_demo_lem :
      (current : Option String)
      → s.processing ≡ some c
      → c.session ≡ some a
      → str_eq a b ≡ false
      → length s.reviews < 200
      → (dashboard_reviews (some a) (suc limit) (record_review_demo current repo pr p m now s)
          ≡ new_review current repo pr p m now s ∷ dashboard_reviews (some a) limit s)
        × (dashboard_reviews (some b) limit (record_review_demo current repo pr p m now s)
            ≡ dashboard_reviews (some b) limit s)
  unfolding dashboard_reviews
  record_review_demo_lem current hp hs hab hn =
      let r = new_review current repo pr p m now s in
      let tagged : r.session ≡ some a = ap (λ o. tag o current) hp ∙ hs in
      let listed : reversed (record_review_demo current repo pr p m now s).reviews
          ≡ r ∷ reversed s.reviews =
        ap reversed (record_review_demo-reviews current repo pr p m now s hn)
        ∙ reversed-append s.reviews r in
      (
        ap (λ l. take (suc limit) (select (is_visible (some a)) l)) listed
            ∙ ap (take (suc limit)) (shown r tagged),
        ap (λ l. take limit (select (is_visible (some b)) l)) listed
            ∙ ap (take limit) (hidden r tagged),
      )
    where
      shown :
          (r : DemoReview)
          → r.session ≡ some a
          → select (is_visible (some a)) (r ∷ reversed s.reviews)
            ≡ r ∷ select (is_visible (some a)) (reversed s.reviews)
      shown r e = rw (e, (eq_iff a a).1 refl) refl

      hidden :
          (r : DemoReview)
          → r.session ≡ some a
          → select (is_visible (some b)) (r ∷ reversed s.reviews)
            ≡ select (is_visible (some b)) (reversed s.reviews)
      hidden r e = rw (e, hab) refl
