-- ===== src/Admission/Sound.antt =====
-- mvp/internal/admission/admission.go: what an admitted object has passed.
use kubernetes_style_orchest.Prelude.{
  ℕ, suc, String, ◌==◌, string_eq, ==_iff, true, false, none, List, [], ◌∷◌, Bool-cases, ◌≡◌, ◌≢◌,
  refl, ◌∙◌, inl, inr, ◌⊎◌, arith, Member, every_cons,
}
use kubernetes_style_orchest.Api.{
  AdmissionWebhook, AdmissionReviewRequest, AdmissionReviewResponse, webhook_type_mutating,
  webhook_type_validating,
}
use kubernetes_style_orchest.Sql.{ok}
use kubernetes_style_orchest.Admission.{
  Answer, unreachable, bad_status, undecodable, reviewed, Called, called_of, Step, goes_on, stops,
  Progress, done, stopped, mutating_step, validating_step, applies, request, call, run_mutating,
  run_validating, review_with, nz,
}

Step-cases : (s : Step) → ((o : String) × (s ≡ goes_on o)) ⊎ ((c : _) × (s ≡ stops c))
Step-cases (goes_on o) = inl (o, refl)
Step-cases (stops c) = inr (c, refl)

Progress-cases :
    (p : Progress)
    → ((k : ℕ) × (o : String) × (p ≡ done k o)) ⊎ ((o : String) × (c : _) × (p ≡ stopped o c))
Progress-cases (done k o) = inl (k, o, refl)
Progress-cases (stopped o c) = inr (o, c, refl)

nz-filled : (m : String) → (nz m "denied" == "") ≡ false
unfolding nz
nz-filled m = elim (Bool-cases (m == "")) [ inl e ↦ rw (e, nz) refl | inr e ↦ rw (e, nz) e ]

-- The webhook answered, and its answer allows the object.
abbrev IsAllowed : Answer → Type 0
IsAllowed a = (resp : AdmissionReviewResponse) × (a ≡ reviewed resp) × (resp.allowed ≡ true)

mutating_step-IsAllowed :
    (a : Answer) (h : AdmissionWebhook) (o p : String)
    → mutating_step h o (called_of a) ≡ goes_on p
    → h.failure_policy ≢ "Ignore"
    → IsAllowed a
unfolding mutating_step called_of
mutating_step-IsAllowed unreachable h o p e strict =
    absurd (ground (arith, strict, ==_iff h.failure_policy "Ignore"))
mutating_step-IsAllowed bad_status h o p e strict =
    absurd (ground (arith, strict, ==_iff h.failure_policy "Ignore"))
mutating_step-IsAllowed undecodable h o p e strict =
    absurd (ground (arith, strict, ==_iff h.failure_policy "Ignore"))
mutating_step-IsAllowed (reviewed resp) h o p e strict =
    (resp, refl, ground (arith, nz-filled resp.message))

validating_step-same :
    (c : Called) (h : AdmissionWebhook) (o p : String) → validating_step h o c ≡ goes_on p → p ≡ o
unfolding validating_step
validating_step-same c h o p e = ground arith

validating_step-IsAllowed :
    (a : Answer) (h : AdmissionWebhook) (o p : String)
    → validating_step h o (called_of a) ≡ goes_on p
    → h.failure_policy ≢ "Ignore"
    → IsAllowed a
unfolding validating_step called_of
validating_step-IsAllowed unreachable h o p e strict =
    absurd (ground (arith, strict, ==_iff h.failure_policy "Ignore"))
validating_step-IsAllowed bad_status h o p e strict =
    absurd (ground (arith, strict, ==_iff h.failure_policy "Ignore"))
validating_step-IsAllowed undecodable h o p e strict =
    absurd (ground (arith, strict, ==_iff h.failure_policy "Ignore"))
validating_step-IsAllowed (reviewed resp) h o p e strict =
    (resp, refl, ground (arith, nz-filled resp.message))

module _ (post : ℕ → String → AdmissionReviewRequest → Answer) (uid : ℕ → String)
    (resource kind operation name namespace : String) where
  -- The webhook allowed the object in some request of the review.
  abbrev pub Allowed : AdmissionWebhook → String → Type 0
  Allowed h object =
      (n : ℕ) × IsAllowed
        (post n h.url (request post uid resource kind operation name namespace n object))

  -- A webhook of the type that handles the resource and whose failures are not ignored.
  abbrev pub Strict : String → AdmissionWebhook → Type 0
  Strict type h = (applies type resource h ≡ true) × (h.failure_policy ≢ "Ignore")

  run_validating-cons :
      (n : ℕ) (h : AdmissionWebhook) (hooks : List AdmissionWebhook) (o : String) (k : ℕ)
      (p : String)
      → run_validating post uid resource kind operation name namespace n (h ∷ hooks) o ≡ done k p
      → ((applies webhook_type_validating resource h ≡ false)
          × (run_validating post uid resource kind operation name namespace n hooks o ≡ done k p))
        ⊎ ((q : String) × (validating_step h o
                (call post uid resource kind operation name namespace n h o)
              ≡ goes_on q)
            × (run_validating post uid resource kind operation name namespace (suc n) hooks q
                ≡ done k p))
  unfolding run_validating
  run_validating-cons n h hooks o k p e =
      elim (Bool-cases (applies webhook_type_validating resource h)) [
        | inl on ↦
            elim (Step-cases
              (validating_step h o (call post uid resource kind operation name namespace n h o))) [
                | inl (q, f) ↦ inr (q, f, (rw (on, f, run_validating) at e))
                | inr (c, f) ↦ cc (rw (on, f, run_validating) at e)
              ]
        | inr off ↦ inl (off, (rw (off, run_validating) at e))
      ]

  run_validating-Allowed :
      (n : ℕ) (hooks : List AdmissionWebhook) (o : String) (k : ℕ) (p : String)
      → run_validating post uid resource kind operation name namespace n hooks o ≡ done k p
      → (p ≡ o)
        × ((h : AdmissionWebhook) → Member h hooks → Strict webhook_type_validating h → Allowed h p)
  unfolding run_validating call
  run_validating-Allowed n [] o k p e = (cc e, λ h m. elim m [ ])
  run_validating-Allowed n (h ∷ hooks) o k p e = elim (run_validating-cons n h hooks o k p e) [
    | inl (off, f) ↦
        let rest = run_validating-Allowed n hooks o k p f in
        (rest.0, every_cons _ h hooks (λ strict. cc (off, strict.0)) rest.1)
    | inr (q, step, f) ↦
        let rest = run_validating-Allowed (suc n) hooks q k p f in
        let same =
          rest.0
          ∙ validating_step-same (call post uid resource kind operation name namespace n h o) h o q
              step in
        (
          same,
          every_cons _ h hooks
              (λ strict. rw same (n, validating_step-IsAllowed _ h o q step strict.1)) rest.1,
        )
  ]

  run_mutating-cons :
      (n : ℕ) (h : AdmissionWebhook) (hooks : List AdmissionWebhook) (o : String) (k : ℕ)
      (p : String)
      → run_mutating post uid resource kind operation name namespace n (h ∷ hooks) o ≡ done k p
      → ((applies webhook_type_mutating resource h ≡ false)
          × (run_mutating post uid resource kind operation name namespace n hooks o ≡ done k p))
        ⊎ ((q : String) × (mutating_step h o
                (call post uid resource kind operation name namespace n h o)
              ≡ goes_on q)
            × (run_mutating post uid resource kind operation name namespace (suc n) hooks q
                ≡ done k p))
  unfolding run_mutating
  run_mutating-cons n h hooks o k p e =
      elim (Bool-cases (applies webhook_type_mutating resource h)) [
        | inl on ↦
            elim (Step-cases
              (mutating_step h o (call post uid resource kind operation name namespace n h o))) [
                | inl (q, f) ↦ inr (q, f, (rw (on, f, run_mutating) at e))
                | inr (c, f) ↦ cc (rw (on, f, run_mutating) at e)
              ]
        | inr off ↦ inl (off, (rw (off, run_mutating) at e))
      ]

  run_mutating-Allowed :
      (n : ℕ) (hooks : List AdmissionWebhook) (o : String) (k : ℕ) (p : String)
      → run_mutating post uid resource kind operation name namespace n hooks o ≡ done k p
      → (h : AdmissionWebhook) → Member h hooks
      → Strict webhook_type_mutating h
      → (seen : String) × Allowed h seen
  unfolding run_mutating call
  run_mutating-Allowed n [] o k p e = λ h m. elim m [ ]
  run_mutating-Allowed n (h ∷ hooks) o k p e = elim (run_mutating-cons n h hooks o k p e) [
    | inl (off, f) ↦
        every_cons _ h hooks (λ strict. cc (off, strict.0)) (run_mutating-Allowed n hooks o k p f)
    | inr (q, step, f) ↦
        every_cons _ h hooks (λ strict. (o, (n, mutating_step-IsAllowed _ h o q step strict.1)))
          (run_mutating-Allowed (suc n) hooks q k p f)
  ]

  -- If a review of the listed webhooks reports no error, every strict mutating webhook allowed some
  -- object, and every strict validating webhook allowed the very object that the review returns.
  pub review_with-Allowed :
      (object : String) (hooks : List AdmissionWebhook)
      → (review_with post uid resource kind operation name namespace object (ok hooks)).error ≡ none
      → (h : AdmissionWebhook) → Member h hooks
      → (Strict webhook_type_mutating h → (seen : String) × Allowed h seen)
        × (Strict webhook_type_validating h
            → Allowed h
                (review_with post uid resource kind operation name namespace object
                  (ok hooks)).object)
  unfolding review_with
  review_with-Allowed object hooks e h m =
      elim (Progress-cases
        (run_mutating post uid resource kind operation name namespace 0 hooks object)) [
          | inr (o, c, f) ↦ cc (rw f at e)
          | inl (n, o, f) ↦
              elim (Progress-cases
                (run_validating post uid resource kind operation name namespace n hooks o)) [
                  | inr (p, c, g) ↦ cc (rw (f, g) at e)
                  | inl (k, p, g) ↦ (
                    run_mutating-Allowed 0 hooks object n o f h m,
                    rw (f, g) ((run_validating-Allowed n hooks o k p g).1 h m),
                  )
                ]
        ]
