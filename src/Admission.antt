-- ===== src/Admission.antt =====
-- mvp/internal/admission/admission.go: the pipeline of admission webhooks. `post n url request` is
-- what the webhook at `url` answers to the n-th request of a review, and `uid n` is the id that
-- `randID` draws for it. The texts of the error messages are left out.
pub mod Sound
pub mod Stored
use kubernetes_style_orchest.Prelude.{
  ℕ, suc, String, ◌==◌, string_eq, Bool, true, false, ◌||◌, ◌&&◌, Option, none, some, List, [], ◌∷◌,
  any, if◌then◌else◌,
}
use kubernetes_style_orchest.Api.{
  AdmissionWebhook, AdmissionReviewRequest, AdmissionReviewResponse, webhook_type_mutating,
  webhook_type_validating,
}
use kubernetes_style_orchest.Sql.{M, Result, ok, err, Error, ◌>>=◌, pure, attempt}
use kubernetes_style_orchest.Store.Scaling.{list_webhooks}

-- How the HTTP request to a webhook ends.
pub data Answer : Type 0 where
  unreachable bad_status undecodable : Answer
  reviewed : AdmissionReviewResponse → Answer

-- What `call` returns: an error, or the patch and the message of a denial.
pub data Called : Type 0 where
  fails : Called
  replies : String → String → Called

-- Why a review is rejected.
pub data Cause : Type 0 where
  no_list : Error → Cause
  webhook_failed : String → Cause
  webhook_denied : String → String → Cause

-- How one webhook leaves the review: the object with which it goes on, or a rejection.
pub data Step : Type 0 where
  goes_on : String → Step
  stops : Cause → Step

-- How a loop over the webhooks ends, with the number of requests made so far.
pub data Progress : Type 0 where
  done : ℕ → String → Progress
  stopped : String → Cause → Progress

-- What `Review` returns.
pub record Reviewed : Type 0 where
  pub object : String
  pub error : Option Cause

unfoldable pub matches_resource : List String → String → Bool
matches_resource list res = any (λ x. x == "*" || x == res) list

unfoldable pub nz : String → String → String
nz v d = if v == "" then d else v

unfoldable pub called_of : Answer → Called
unfolding nz
called_of unreachable = fails
called_of bad_status = fails
called_of undecodable = fails
called_of (reviewed resp) =
    if resp.allowed then replies resp.patch "" else replies "" (nz resp.message "denied")

-- An error of the call: ignored, or a rejection.
unfoldable pub on_failure : AdmissionWebhook → String → Step
on_failure h current =
    if h.failure_policy == "Ignore" then goes_on current else stops (webhook_failed h.metadata.name)

unfoldable pub mutating_step : AdmissionWebhook → String → Called → Step
unfolding on_failure
mutating_step h current fails = on_failure h current
mutating_step h current (replies mutated deny) =
    if deny == ""
    then goes_on (if mutated == "" then current else mutated)
    else stops (webhook_denied h.metadata.name deny)

unfoldable pub validating_step : AdmissionWebhook → String → Called → Step
unfolding on_failure
validating_step h current fails = on_failure h current
validating_step h current (replies mutated deny) =
    if deny == "" then goes_on current else stops (webhook_denied h.metadata.name deny)

-- The webhooks that the loop of a type does not skip.
unfoldable pub applies : String → String → AdmissionWebhook → Bool
unfolding matches_resource
applies type resource h = h.type == type && matches_resource h.resources resource

module _ (post : ℕ → String → AdmissionReviewRequest → Answer) (uid : ℕ → String)
    (resource kind operation name namespace : String) where
  unfoldable pub request : ℕ → String → AdmissionReviewRequest
  request n object = record {
    uid = uid n;
    kind = kind;
    resource = resource;
    namespace = namespace;
    name = name;
    operation = operation;
    object = object;
  }

  unfoldable pub call : ℕ → AdmissionWebhook → String → Called
  unfolding called_of request
  call n h object = called_of (post n h.url (request n object))

  -- The first loop of `Review`.
  unfoldable pub run_mutating : ℕ → List AdmissionWebhook → String → Progress
  unfolding applies mutating_step call
  run_mutating n [] current = done n current
  run_mutating n (h ∷ hooks) current = elim (applies webhook_type_mutating resource h) [
    | false ↦ run_mutating n hooks current
    | true ↦ elim (mutating_step h current (call n h current)) [
      | goes_on object ↦ run_mutating (suc n) hooks object
      | stops cause ↦ stopped current cause
    ]
  ]

  -- The second loop of `Review`.
  unfoldable pub run_validating : ℕ → List AdmissionWebhook → String → Progress
  unfolding applies validating_step call
  run_validating n [] current = done n current
  run_validating n (h ∷ hooks) current = elim (applies webhook_type_validating resource h) [
    | false ↦ run_validating n hooks current
    | true ↦ elim (validating_step h current (call n h current)) [
      | goes_on object ↦ run_validating (suc n) hooks object
      | stops cause ↦ stopped current cause
    ]
  ]

  unfoldable pub reviewed_of : Progress → Reviewed
  reviewed_of (done n current) = record { object = current; error = none }
  reviewed_of (stopped current cause) = record { object = current; error = some cause }

  -- The second loop after the first.
  unfoldable pub validate_after : List AdmissionWebhook → Progress → Reviewed
  unfolding run_validating reviewed_of
  validate_after hooks (done n current) = reviewed_of (run_validating n hooks current)
  validate_after hooks (stopped current cause) = reviewed_of (stopped current cause)

  unfoldable pub review_with : String → Result (List AdmissionWebhook) → Reviewed
  unfolding run_mutating validate_after
  review_with object (err e) = record { object = object; error = some (no_list e) }
  review_with object (ok hooks) = validate_after hooks (run_mutating 0 hooks object)

  unfoldable pub review : String → M Reviewed
  unfolding review_with
  review object = do hooks ← attempt list_webhooks; pure (review_with object hooks)
