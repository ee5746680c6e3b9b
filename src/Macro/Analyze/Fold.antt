-- ===== src/Macro/Analyze/Fold.antt =====
-- The loops of the analysis: an invariant over the entries that have been seen.
use rtfm.Common.{
  ◌≡◌, refl, sym, ap, subst, ◌∙◌, inl, inr, List, [], ◌∷◌, ◌++◌, append_assoc, append-nil, Outcome,
  ok, ◌>>=◌, >>=-eq-ok, ok-injective, In,
}
use rtfm.Macro.Analyze.{fold}

module _ {A S : Type 0} (f : A → S → Outcome S) where
  -- What each round carries from the entries seen before to those with its own, the loop carries
  -- to all entries.
  pub fold_seen :
      (P : List A → S → Type 0)
      → ((seen : List A) (x : A) (s s' : S) → P seen s → f x s ≡ ok s' → P (seen ++ x ∷ []) s')
      → (seen xs : List A) (s s' : S) → P seen s
      → fold f xs s ≡ ok s'
      → P (seen ++ xs) s'
  fold_seen P step seen [] s s' p h =
      subst (λ l. P l s') (sym (append-nil seen)) (subst (P seen) (ok-injective h) p)
  fold_seen P step seen (x ∷ xs) s s' p h =
      let (t, e, h') = >>=-eq-ok (f x s) (λ s'. fold f xs s') h in
      subst (λ l. P l s') (append_assoc seen (x ∷ []) xs)
        (fold_seen P step (seen ++ x ∷ []) xs t s' (step seen x s t p e) h')

  -- A loop whose rounds all return, under an invariant, returns.
  pub fold_total :
      (P : S → Type 0) (xs : List A)
      → ((x : A) (s : S) → In x xs → P s → (s' : S) × (f x s ≡ ok s') × P s')
      → (s : S) → P s
      → (s' : S) × (fold f xs s ≡ ok s') × P s'
  fold_total P [] step s p = (s, refl, p)
  fold_total P (x ∷ xs) step s p =
      let (t, e, q) = step x s (inl refl) p in
      let (s', e', q') = fold_total P xs (λ y u i. step y u (inr i)) t q in
      (s', ap (λ o. o >>= λ s'. fold f xs s') e ∙ e', q')
