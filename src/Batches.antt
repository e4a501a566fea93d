-- ===== src/Batches.antt =====
-- internal/utils/batches.go: a query over many IDs in batches. An error result of the query is
-- `none`; the context is not modelled, and the query is an argument, as in the source.
pub mod Results
use maglev.Prelude.{
  ℕ, zero, suc, ◌+◌, ◌-◌, ◌≤◌, ◌<◌, min, max, Option, none, some, List, [], ◌∷◌, ◌++◌, length,
  length-take, length-drop, take, drop, ltb, if◌then◌else◌, Bool-cases, ◌≡◌, refl, sym, ap, ◌∙◌,
  inl, inr, arith,
}
use mathlib.Core.List.{append-nil, append_assoc}

-- `IDsPerBatchedQuery`
abbrev pub ids_per_batched_query : ℕ
ids_per_batched_query = 900

-- `batchSize`: a negative difference gives 1 too
abbrev pub batch_size : ℕ → ℕ
batch_size reserved = max 1 (ids_per_batched_query - reserved)

-- what a run of the loop ends with
pub data Outcome (B : Type 0) : Type 0 where
  done : List B → Outcome B
  failed : Outcome B
  out_of_fuel : Outcome B

module _ {A B : Type 0} where
  -- `for start < len(ids)`: `results` holds the batches so far
  unfoldable pub batch_loop : ℕ → (List A → Option (List B)) → ℕ → List A → ℕ → List B → Outcome B
  batch_loop zero query size ids start results = out_of_fuel
  batch_loop (suc fuel) query size ids start results =
      let end = min (start + size) (length ids) in
      let step =
        λ (batch : List B). batch_loop fuel query size ids (start + size) (results ++ batch) in
      if ltb start (length ids)
      then elim (query (take (end - start) (drop start ids))) [
        | none ↦ failed
        | some batch ↦ step batch
      ]
      else done results

  -- `QueryInBatchesReserving`; the fuel is one round for each ID and one for the last test
  unfoldable pub query_in_batches_reserving : List A → ℕ → (List A → Option (List B)) → Outcome B
  unfolding batch_loop
  query_in_batches_reserving [] reserved query = done []
  query_in_batches_reserving (i ∷ ids) reserved query =
      batch_loop (suc (length (i ∷ ids))) query (batch_size reserved) (i ∷ ids) 0 []

  -- `QueryInBatches`
  unfoldable pub query_in_batches : List A → (List A → Option (List B)) → Outcome B
  unfolding query_in_batches_reserving
  query_in_batches ids query = query_in_batches_reserving ids 0 query
