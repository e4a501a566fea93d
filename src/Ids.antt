-- ===== src/Ids.antt =====
-- internal/utils/api.go: the combined IDs `{agency_id}_{code_id}` of the API, formed and split.
use Prim.Native.Nat.{ℕ}
use maglev.Prelude.{
  Bool, true, false, Option, none, some, [], ◌∷◌, ◌++◌, Text, is_empty, eqb, if◌then◌else◌, ◌>>=◌,
  ◌||◌, ◌≡◌, refl, arith, subst, Bool-cases, Option-cases, inl, inr,
}

-- `_`
abbrev pub underscore : ℕ
underscore = b'_'

-- `strings.SplitN(s, "_", 2)`, where it has two parts
unfoldable pub split_id : Text → Option (Text × Text)
split_id [] = none
split_id (c ∷ s) =
    let rest = split_id s in
    if eqb c underscore then some ([], s) else rest >>= λ (p : Text × Text). some (c ∷ p.0, p.1)

-- `ExtractAgencyIDAndCodeID`, `ExtractAgencyID` and `ExtractCodeID`; `none` is their error
unfoldable pub extract_agency_id_and_code_id : Text → Option (Text × Text)
extract_agency_id_and_code_id s = split_id s

unfoldable pub extract_agency_id : Text → Option Text
extract_agency_id s = split_id s >>= λ p. some p.0

unfoldable pub extract_code_id : Text → Option Text
extract_code_id s = split_id s >>= λ p. some p.1

-- `FormCombinedID`
unfoldable pub form_combined_id : Text → Text → Text
form_combined_id agency code =
    if is_empty code || is_empty agency then [] else agency ++ (underscore ∷ code)

-- no character of the text is `_`
unfoldable pub has_underscore : Text → Bool
has_underscore [] = false
has_underscore (c ∷ s) = eqb c underscore || has_underscore s

split_joined :
    (agency code : Text)
    → has_underscore agency ≡ false
    → split_id (agency ++ (underscore ∷ code)) ≡ some (agency, code)
unfolding split_id has_underscore
split_joined [] code h = refl
split_joined (c ∷ s) code h = ground (arith, split_joined s code)

abbrev Joins : Text → Text × Text → Type 0
Joins s p = (p.0 ++ (underscore ∷ p.1) ≡ s) × (has_underscore p.0 ≡ false)

joined_split : (s : Text) (p : Text × Text) → split_id s ≡ some p → Joins s p
unfolding split_id has_underscore
joined_split [] p h = absurd (cc h)
joined_split (c ∷ s) p h = elim (Bool-cases (eqb c underscore)) [
  | inl e ↦ subst (Joins (c ∷ s)) (at_once e) (ground arith)
  | inr e ↦ elim (Option-cases (split_id s)) [
    | inl n ↦ absurd (ground arith)
    | inr (q, f) ↦ subst (Joins (c ∷ s)) (later e q f) (ground (arith, joined_split s q f))
  ]
]
  where
    at_once : eqb c underscore ≡ true → ([], s) ≡ p
    at_once e = ground arith

    later : eqb c underscore ≡ false → (q : Text × Text) → split_id s ≡ some q → (c ∷ q.0, q.1) ≡ p
    later e q f = ground arith

-- An agency ID without `_` and a code ID, neither of them "", come back from their combined ID.
pub extract-form :
    (agency code : Text)
    → has_underscore agency ≡ false
    → is_empty agency ≡ false
    → is_empty code ≡ false
    → (extract_agency_id_and_code_id (form_combined_id agency code) ≡ some (agency, code))
      × (extract_agency_id (form_combined_id agency code) ≡ some agency)
      × (extract_code_id (form_combined_id agency code) ≡ some code)
unfolding extract_agency_id_and_code_id extract_agency_id extract_code_id form_combined_id
extract-form agency code h a c = ground (arith, split_joined agency code)

-- Whatever text the parts are extracted from, the agency ID has no `_`; and if neither part is "",
-- they form that text again.
form-extract :
    (s agency code : Text)
    → extract_agency_id_and_code_id s ≡ some (agency, code)
    → is_empty agency ≡ false
    → is_empty code ≡ false
    → (has_underscore agency ≡ false) × (form_combined_id agency code ≡ s)
unfolding extract_agency_id_and_code_id form_combined_id
form-extract s agency code h a c = ground (arith, joined_split s (agency, code))
