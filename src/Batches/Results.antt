-- ===== src/Batches/Results.antt =====
-- What the batched query returns, and how large its batches are.
use maglev.Prelude.{
  subst, ℕ, zero, suc, ◌+◌, ◌-◌, ◌≤◌, ◌<◌, min, max, Option, some, List, [], ◌∷◌, ◌++◌, length,
  length-take, length-drop, take, drop, take-append-drop, take-min, drop-drop, drop_all, ltb,
  ltb→lt, ltb→le, Bool-cases, ◌≡◌, refl, sym, ap, ◌∙◌, inl, inr, arith,
}
use mathlib.Core.List.{append-nil, append_assoc}
use maglev.Batches.{done, batch_loop, query_in_batches_reserving}

-- A relation between IDs and rows that holds of a concatenation where it holds of the parts.
pub record IsAdditive {A B : Type 0} (Rows : List A → List B → Type 0) : Type 0 where
  pub of_nil : Rows [] []
  pub of_append :
      (xs xs' : List A) (ys ys' : List B) → Rows xs ys → Rows xs' ys' → Rows (xs ++ xs') (ys ++ ys')

-- The query answers rightly, where the number of the IDs is at least 1 and at most `size`.
abbrev pub Answers :
    {A B : Type 0} → ℕ → (List A → Option (List B)) → (List A → List B → Type 0) → Type 0
Answers {A} {B} size query Rows =
    (xs : List A)
    → 1 ≤ length xs
    → length xs ≤ size
    → (ys : List B) × (query xs ≡ some ys) × Rows xs ys

-- the batch that starts at `start`
slice-take :
    {A : Type 0} (size start : ℕ) (ids : List A)
    → start < length ids
    → take (min (start + size) (length ids) - start) (drop start ids) ≡ take size (drop start ids)
slice-take size start ids h =
    let same : min (start + size) (length ids) - start ≡ min size (length (drop start ids)) =
      omega (arith, length-drop start ids) in
    rw same (take-min size (drop start ids))

module _ {A B : Type 0} (query : List A → Option (List B)) (Rows : List A → List B → Type 0)
    (additive : IsAdditive Rows) (size : ℕ) (positive : 1 ≤ size)
    (answers : Answers size query Rows) where
  batch_answer :
      (ids : List A) (start : ℕ)
      → start < length ids
      → (ys : List B) × (query (take (min (start + size) (length ids) - start) (drop start ids))
          ≡ some ys)
        × Rows (take size (drop start ids)) ys
  batch_answer ids start h =
      let (ys, e, r) =
        answers (take size (drop start ids))
          (omega (arith, length-take size (drop start ids), length-drop start ids))
          (omega (arith, length-take size (drop start ids))) in
      (ys, ap query (slice-take size start ids h) ∙ e, r)

  rest_of :
      (ids : List A) (start : ℕ) (ys zs : List B)
      → Rows (take size (drop start ids)) ys
      → Rows (drop (start + size) ids) zs
      → Rows (drop start ids) (ys ++ zs)
  rest_of ids start ys zs r q =
      subst (λ (xs : List A). Rows xs (ys ++ zs))
        (ap (λ (d : List A). take size (drop start ids) ++ d) (sym (drop-drop size start ids))
          ∙ take-append-drop size (drop start ids))
        (additive.of_append (take size (drop start ids)) (drop (start + size) ids) ys zs r q)

  batch_loop_lem :
      (fuel : ℕ) (ids : List A) (start : ℕ) (results : List B)
      → length ids - start < fuel
      → (ys : List B) × (batch_loop fuel query size ids start results ≡ done (results ++ ys))
        × Rows (drop start ids) ys
  unfolding batch_loop
  batch_loop_lem zero ids start results h = absurd (omega arith)
  batch_loop_lem (suc fuel) ids start results h = elim (Bool-cases (ltb start (length ids))) [
    | inr e ↦ ([], rw (e, append-nil), rw (drop_all start ids (ltb→le _ _ e)) additive.of_nil)
    | inl e ↦
        let within : start < length ids = ltb→lt _ _ e in
        let (ys, answer, r) = batch_answer ids start within in
        let (zs, rest, q) = batch_loop_lem fuel ids (start + size) (results ++ ys) (omega arith) in
        (
          ys ++ zs,
          rw (e, answer) (rest ∙ ap done (append_assoc results ys zs)),
          rest_of ids start ys zs r q,
        )
  ]

-- Where a query answers rightly for every list of at least one and at most max 1 (900 - reserved)
-- IDs, the batched query ends with the right answer for all the IDs. Nothing is asked of the query
-- for a longer list: no batch is longer than that.
pub query_in_batches_reserving_lem :
    {A B : Type 0} (ids : List A) (reserved : ℕ) (query : List A → Option (List B))
    (Rows : List A → List B → Type 0)
    → IsAdditive Rows
    → Answers (max 1 (900 - reserved)) query Rows
    → (ys : List B) × (query_in_batches_reserving ids reserved query ≡ done ys) × Rows ids ys
unfolding query_in_batches_reserving
query_in_batches_reserving_lem [] reserved query Rows additive h = ([], refl, additive.of_nil)
query_in_batches_reserving_lem (i ∷ ids) reserved query Rows additive h =
    batch_loop_lem query Rows additive (max 1 (900 - reserved)) (omega arith) h
      (suc (length (i ∷ ids))) (i ∷ ids) 0 [] (omega arith)
