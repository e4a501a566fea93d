-- ===== src/Paging/Pages.antt =====
-- Reading a list page by page.
use maglev.Prelude.{
  ℕ, zero, suc, ◌+◌, ◌≤◌, ◌<◌, true, false, Option, some, none, ◌>>=◌, ap, List, [], ◌++◌, length,
  take, drop, take-append-drop, drop-drop, drop_all, ltb, leb, leb→le, if◌then◌else◌, ◌≡◌, refl,
  sym, arith, Bool-cases, inl, inr,
}
use maglev.Paging.{paginate_slice}

module _ {ℓ} {A : Type ℓ} (items : List A) (limit : ℕ) where
  -- the pages of a client that asks for the next one while the answer says that there is more,
  -- joined; `none` if the client would ask for more pages than the first argument
  unfoldable pub pages : ℕ → ℕ → Option (List A)
  pages zero offset = none
  pages (suc fuel) offset =
      let rest = pages fuel (offset + limit) in
      if (paginate_slice items offset (some limit)).1
      then (rest >>= λ later. some ((paginate_slice items offset (some limit)).0 ++ later))
      else some (paginate_slice items offset (some limit)).0

  paged_past :
      (offset : ℕ)
      → leb (length items) offset ≡ true
      → paginate_slice items offset (some limit) ≡ ([], false)
  unfolding paginate_slice
  paged_past offset e = rw e refl

  paged_full :
      (offset : ℕ)
      → leb (length items) offset ≡ false
      → ltb (offset + limit) (length items) ≡ true
      → paginate_slice items offset (some limit) ≡ (take limit (drop offset items), true)
  unfolding paginate_slice
  paged_full offset e f = rw (e, f) refl

  paged_last :
      (offset : ℕ)
      → leb (length items) offset ≡ false
      → ltb (offset + limit) (length items) ≡ false
      → paginate_slice items offset (some limit) ≡ (drop offset items, false)
  unfolding paginate_slice
  paged_last offset e f = rw (e, f) refl

  pages_from :
      (fuel offset : ℕ)
      → 0 < limit
      → offset ≤ length items
      → length items < offset + fuel
      → pages fuel offset ≡ some (drop offset items)
  unfolding pages
  pages_from zero offset pos within enough = absurd (omega arith)
  pages_from (suc fuel) offset pos within enough = elim (Bool-cases (leb (length items) offset)) [
    | inl e ↦
        rw (paged_past offset e)
          (ap some (sym (drop_all offset items (leb→le (length items) offset e))))
    | inr e ↦ elim (Bool-cases (ltb (offset + limit) (length items))) [
      | inl f ↦
          rw
            (
              paged_full offset e f,
              pages_from fuel (offset + limit) pos (ground (arith, f)) (omega arith),
              sym (drop-drop limit offset items),
            )
            (ap some (take-append-drop limit (drop offset items)))
      | inr f ↦ rw (paged_last offset e f) refl
    ]
  ]

  -- A client that pages through a list, with any limit of at least one, gets every item once, in
  -- order, and is told that there is no more after at most one page more than the list has items.
  pub pages_complete : 0 < limit → pages (suc (length items)) 0 ≡ some items
  pages_complete pos = pages_from (suc (length items)) 0 pos (omega arith) (omega arith)
