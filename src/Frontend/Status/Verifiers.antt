-- ===== src/Frontend/Status/Verifiers.antt =====
-- The verifiers that a status lists, and the counts beside them.
use blindference.Prelude.{
  ℕ, suc, ◌+◌, ◌≤◌, String, ◌≡◌, ◌⊎◌, inl, inr, refl, ap, Bool, true, false, Option, none, some,
  List, [], ◌∷◌, ◌++◌, map, length, filter_by, any_of, or_default, str_eq, eq_iff, Bool-cases,
  arith,
}
use blindference.Frontend.Status.Types.{
  BackendInferenceRequest, BackendTextInferenceStatus, TextVerdict, Verdict, Verifier, VerdictWord,
  Stage,
}
use blindference.Frontend.Status.Request.{map_request_to_status, verifier_row}
use blindference.Frontend.Status.Text.{
  map_text_status_to_demo_status, quorum_addresses, text_verifier, backfill, is_false,
}
use blindference.Frontend.Status.Job.{job_verifier}

abbrev pub addresses : List Verifier → List String
addresses = map (λ v. v.address)

verifier_row_address :
    (verdicts : List Verdict) (address : String) → (verifier_row verdicts address).address ≡ address
unfolding verifier_row
verifier_row_address verdicts address = ground arith

verifier_rows_addresses :
    (verdicts : List Verdict) (names : List String)
    → addresses (map (verifier_row verdicts) names) ≡ names
verifier_rows_addresses verdicts [] = refl
verifier_rows_addresses verdicts (a ∷ names) =
    rw (verifier_row_address verdicts a, verifier_rows_addresses verdicts names)

-- A risk status lists the quorum's verifiers, each once and in the quorum's order.
pub map_request_addresses :
    (parse_date : String → Option ℕ) (request : BackendInferenceRequest) (quote : Option String)
    → addresses (map_request_to_status parse_date request quote).quorum.verifiers
      ≡ request.verifier_addresses
unfolding map_request_to_status
map_request_addresses parse_date request quote =
    verifier_rows_addresses request.verifier_verdicts request.verifier_addresses

-- The verifier of that address is in the list.
abbrev pub Lists : String → List Verifier → Type 0
Lists address [] = ⊥
Lists address (v ∷ vs) = (v.address ≡ address) ⊎ Lists address vs

Lists-append_left : (a : String) (xs ys : List Verifier) → Lists a xs → Lists a (xs ++ ys)
Lists-append_left a [] ys h = elim h [ ]
Lists-append_left a (x ∷ xs) ys (inl h) = inl h
Lists-append_left a (x ∷ xs) ys (inr h) = inr (Lists-append_left a xs ys h)

Lists-append_right : (a : String) (xs ys : List Verifier) → Lists a ys → Lists a (xs ++ ys)
Lists-append_right a [] ys h = h
Lists-append_right a (x ∷ xs) ys h = inr (Lists-append_right a xs ys h)

any_of-Lists :
    (a : String) (seen : List Verifier)
    → any_of (λ v. str_eq v.address a) seen ≡ true
    → Lists a seen
any_of-Lists a [] h = cc
any_of-Lists a (v ∷ seen) h = elim (Bool-cases (str_eq v.address a)) [
  | inl same ↦ inl ((eq_iff v.address a).0 same)
  | inr other ↦ inr (any_of-Lists a seen (ground arith))
]

abbrev pub Among : String → List String → Type 0
Among a [] = ⊥
Among a (name ∷ names) = (name ≡ a) ⊎ Among a names

backfill_step :
    (seen : List Verifier) (name : String) (names : List String)
    → (backfill seen (name ∷ names)
        ≡ record { address = name; verdict = none; confidence = 0 } ∷ backfill seen names)
      ⊎ (Lists name seen × (backfill seen (name ∷ names) ≡ backfill seen names))
unfolding backfill
backfill_step seen name names = elim (Bool-cases (any_of (λ v. str_eq v.address name) seen)) [
  | inl known ↦ inr (any_of-Lists name seen known, rw known)
  | inr fresh ↦ inl (rw fresh)
]

-- Every address that the loop goes through is seen already, or pushed.
backfill-Lists :
    (a : String) (seen : List Verifier) (names : List String)
    → Among a names
    → Lists a seen ⊎ Lists a (backfill seen names)
backfill-Lists a seen [] h = elim h [ ]
backfill-Lists a seen (name ∷ names) (inl e) = elim (backfill_step seen name names) [
  | inl pushed ↦ inr (rw pushed (inl e))
  | inr (known, _) ↦ inl (rw e at known)
]
backfill-Lists a seen (name ∷ names) (inr h) = elim (backfill_step seen name names) [
  | inl pushed ↦ elim (backfill-Lists a seen names h) [
    | inl known ↦ inl known
    | inr later ↦ inr (rw pushed (inr later))
  ]
  | inr (_, same) ↦ rw same (backfill-Lists a seen names h)
]

-- A text status lists every verifier of the quorum, whether or not it has given a verdict.
pub map_text_status-Lists :
    (request_id : String) (request : BackendTextInferenceStatus) (a : String)
    → Among a (quorum_addresses request.quorum)
    → Lists a (map_text_status_to_demo_status request_id request).quorum.verifiers
unfolding map_text_status_to_demo_status
map_text_status-Lists request_id request a h =
    let verdicts = map text_verifier (or_default request.verifier_verdicts []) in
    let rest = backfill verdicts (quorum_addresses request.quorum) in
    elim (backfill-Lists a verdicts (quorum_addresses request.quorum) h) [
      | inl known ↦ Lists-append_left a verdicts rest known
      | inr pushed ↦ Lists-append_right a verdicts rest pushed
    ]

abbrev is_word : VerdictWord → Option VerdictWord → Bool
is_word VerdictWord.confirm (some VerdictWord.confirm) = true
is_word VerdictWord.reject (some VerdictWord.reject) = true
is_word _ _ = false

-- How many of the verifiers show that word.
abbrev pub showing : VerdictWord → List Verifier → ℕ
showing word verifiers = length (filter_by (λ v. is_word word v.verdict) verifiers)

abbrev rejecting : List TextVerdict → ℕ
rejecting verdicts = length (filter_by (λ v. is_false v.accepted) verdicts)

showing-append :
    (word : VerdictWord) (xs ys : List Verifier)
    → showing word (xs ++ ys) ≡ showing word xs + showing word ys
showing-append word [] ys = omega arith
showing-append word (x ∷ xs) ys = ground (arith, showing-append word xs ys)

showing-backfill :
    (word : VerdictWord) (seen : List Verifier) (names : List String)
    → showing word (backfill seen names) ≡ 0
unfolding backfill
showing-backfill word seen [] = refl
showing-backfill VerdictWord.confirm seen (name ∷ names) =
    ground (arith, showing-backfill VerdictWord.confirm seen names)
showing-backfill VerdictWord.reject seen (name ∷ names) =
    ground (arith, showing-backfill VerdictWord.reject seen names)

showing-le-rejecting :
    (verdicts : List TextVerdict)
    → showing VerdictWord.reject (map text_verifier verdicts) ≤ rejecting verdicts
unfolding text_verifier
showing-le-rejecting [] = omega arith
showing-le-rejecting (v ∷ verdicts) = ground (arith, showing-le-rejecting verdicts)

showing-job :
    (names : List String)
    → showing VerdictWord.confirm (map (job_verifier Stage.accepted) names) ≡ length names
unfolding job_verifier
showing-job [] = refl
showing-job (name ∷ names) = ap suc (showing-job names)
