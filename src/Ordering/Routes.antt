-- ===== src/Ordering/Routes.antt =====
-- The order of routes: `compareRouteSortKeys`.
use maglev.Prelude.{
  true, false, Text, text_eq, eq_refl, ◌==◌, if◌then◌else◌, ◌≡◌, ◌↔◌, refl, sym, subst, Bool-cases,
  inl, inr, ◌∙◌,
}
use maglev.Ordering.{
  Result, less, equal, greater, or_else, compare_texts, natural_compare, RouteSortKey, sort_name,
  compare_route_sort_keys,
}
use maglev.Ordering.Natural.{
  flip, flip-or_else, or_else-equal, compare_texts-flip, compare_texts_self, compare_texts-equal,
  natural_compare_laws,
}

-- the test for equal agency IDs does not change the order that the texts alone give
then_by-both :
    (p q s t : Text)
    → (if p == q then compare_texts s t else compare_texts p q)
      ≡ or_else (compare_texts p q) (compare_texts s t)
then_by-both p q s t = elim (Bool-cases (p == q)) [
  | inl e ↦ rw (e, (text_eq.beq_iff p q).0 e, compare_texts_self q) refl
  | inr e ↦ rw e (
      apart (compare_texts p q) (λ h.
        cc (sym e, subst (λ (x : Text). (p == x) ≡ true) (compare_texts-equal p q h) (eq_refl p))))
]
  where
    apart : (r : Result) → (r ≡ equal → true ≡ false) → r ≡ or_else r (compare_texts s t)
    apart less h = refl
    apart equal h = absurd (cc (h refl))
    apart greater h = refl

by_all_three :
    (a b : RouteSortKey)
    → compare_route_sort_keys a b
      ≡ or_else
          (natural_compare (sort_name a) (sort_name b))
          (or_else (compare_texts a.agency_id b.agency_id) (compare_texts a.id b.id))
unfolding compare_route_sort_keys
by_all_three a b = rw (then_by-both a.agency_id b.agency_id a.id b.id) refl

-- The comparison of two routes turns around with its arguments, and it is 0 exactly for routes of
-- the same sort name, agency and ID; so routes with different agencies or IDs never tie.
pub compare_route_sort_keys_laws :
    (a b : RouteSortKey)
    → (compare_route_sort_keys b a ≡ flip (compare_route_sort_keys a b))
      × ((compare_route_sort_keys a b ≡ equal)
          ↔ ((sort_name a ≡ sort_name b) × (a.agency_id ≡ b.agency_id) × (a.id ≡ b.id)))
compare_route_sort_keys_laws a b = (turned, (all_same, compared_equal))
  where
    turned : compare_route_sort_keys b a ≡ flip (compare_route_sort_keys a b)
    turned =
        rw
          (
            by_all_three a b,
            by_all_three b a,
            (natural_compare_laws (sort_name a) (sort_name b)).0,
            compare_texts-flip a.agency_id b.agency_id,
            compare_texts-flip a.id b.id,
            flip-or_else (natural_compare (sort_name a) (sort_name b))
                (or_else (compare_texts a.agency_id b.agency_id) (compare_texts a.id b.id)),
            flip-or_else (compare_texts a.agency_id b.agency_id) (compare_texts a.id b.id),
          )
          refl

    all_same :
        compare_route_sort_keys a b ≡ equal
        → (sort_name a ≡ sort_name b) × (a.agency_id ≡ b.agency_id) × (a.id ≡ b.id)
    all_same h =
        let outer =
          or_else-equal (natural_compare (sort_name a) (sort_name b)) _
            (sym (by_all_three a b) ∙ h) in
        let inner =
          or_else-equal (compare_texts a.agency_id b.agency_id) (compare_texts a.id b.id) outer.1 in
        (
          (natural_compare_laws (sort_name a) (sort_name b)).1.0 outer.0,
          compare_texts-equal a.agency_id b.agency_id inner.0,
          compare_texts-equal a.id b.id inner.1,
        )

    compared_equal :
        (sort_name a ≡ sort_name b) × (a.agency_id ≡ b.agency_id) × (a.id ≡ b.id)
        → compare_route_sort_keys a b ≡ equal
    compared_equal (n, g, i) =
        rw
          (
            by_all_three a b,
            (natural_compare_laws (sort_name a) (sort_name b)).1.1 n,
            g,
            i,
            compare_texts_self b.agency_id,
            compare_texts_self b.id,
          )
          refl
