-- ===== src/Investigations/Forward.antt =====
-- Transitions go forward only.
use odis.Investigations.{
  InvestigationEvent, Register, status_rank, level, is_about, get_latest_for_recommendation,
  stage_transition, record_transition, save, finish_transition, check_transition, add_outbox,
  value_error, transition_rejected,
}
use odis.Prelude.Count.{count, count-append}
use odis.Prelude.Result.{Result, ok, err, >>=-eq-ok, ok-injective, guarded, ◌>>◌, ◌>>=◌}
use odis.Prelude.{
  ℕ, ◌≤◌, ◌<◌, String, ◌≡◌, refl, Bool, false, some, List, [], ◌∷◌, ◌++◌, arith, All, sym, ap, ◌∙◌,
  inl, inr, true, suc, ◌==◌, leb, if◌then◌else◌, any,
}
use odis.Prelude.Text.{eq_refl, eq-cases}

module _ (id_before : String → String → Bool) where
  -- Every transition of the register happened before the moment.
  abbrev pub Past : ℕ → List InvestigationEvent → Type 0
  Past at es = All (λ (f : InvestigationEvent). f.occurred_at < at) es

  latest-appended :
      (e : InvestigationEvent) (es : List InvestigationEvent)
      → Past e.occurred_at es
      → get_latest_for_recommendation id_before e.recommendation_id (es ++ (e ∷ [])) ≡ some e
  unfolding get_latest_for_recommendation
  latest-appended e [] b = rw (eq_refl e.recommendation_id) refl
  latest-appended e (f ∷ fs) b = rw (latest-appended e fs b.1) (ground (arith, b.0))

  latest-unrelated :
      (r : String) (e : InvestigationEvent) (es : List InvestigationEvent)
      → is_about r e ≡ false
      → get_latest_for_recommendation id_before r (es ++ (e ∷ []))
        ≡ get_latest_for_recommendation id_before r es
  unfolding get_latest_for_recommendation
  latest-unrelated r e [] h = rw h refl
  latest-unrelated r e (f ∷ fs) h = rw (latest-unrelated r e fs h) refl

  -- A recommendation has no more transitions than its latest status has steps behind it.
  abbrev pub IsForward : List InvestigationEvent → Type 0
  IsForward es =
      (r : String) → count (is_about r) es ≤ level (get_latest_for_recommendation id_before r es)

  staged :
      (bus : Bool) (e : InvestigationEvent) (register register' : Register)
      → stage_transition id_before bus e register ≡ ok register'
      → (level (get_latest_for_recommendation id_before e.recommendation_id register.transitions)
          ≤ status_rank e.status)
        × (register'.transitions ≡ register.transitions ++ (e ∷ []))
  unfolding stage_transition
  staged bus e register register' h =
      let blocked = leb (suc (status_rank e.status)) (
        level (get_latest_for_recommendation id_before e.recommendation_id register.transitions)) in
      let (low, h1) =
        guarded blocked transition_rejected
          (check_transition e
            >> (save id_before e register >>= λ g. ok (add_outbox id_before bus e g)))
          h in
      let (_, _, h2) =
        >>=-eq-ok (check_transition e)
          (λ _. save id_before e register >>= λ g. ok (add_outbox id_before bus e g)) h1 in
      let (g, h3, h4) =
        >>=-eq-ok (save id_before e register) (λ g. ok (add_outbox id_before bus e g)) h2 in
      (
        ground (arith, low),
        sym (ap (λ (g : Register). g.transitions) (ok-injective h4))
            ∙ outboxed bus g
            ∙ saved g (any (λ (f : InvestigationEvent). f.id == e.id) register.transitions) h3,
      )
    where
      outboxed :
          (b : Bool) (g : Register) → (add_outbox id_before b e g).transitions ≡ g.transitions
      outboxed true g = refl
      outboxed false g = refl

      saved :
          (g : Register) (b : Bool)
          → (if b
              then err value_error
              else ok (record {
                transitions = register.transitions ++ (e ∷ []);
                outbox = register.outbox;
              }))
            ≡ ok g
          → g.transitions ≡ register.transitions ++ (e ∷ [])
      saved g true q = cc
      saved g false q = sym (ap (λ (x : Register). x.transitions) (ok-injective q))

  -- Of a register whose transitions all lie in the past: a transition that is recorded has a status
  -- beyond the latest one of its recommendation and becomes that recommendation's latest; the latest
  -- of another recommendation stays; and no recommendation has more transitions than its latest
  -- status has steps behind it, if that held before.
  pub record_transition-IsForward :
      (bus : Bool) (dispatched : Result (Unit {0})) (e e' : InvestigationEvent)
      (register register' : Register)
      → Past e.occurred_at register.transitions
      → IsForward register.transitions
      → record_transition id_before bus dispatched e register ≡ (register', ok e')
      → (other : String) → is_about other e ≡ false
      → (level (get_latest_for_recommendation id_before e.recommendation_id register.transitions)
          ≤ status_rank e.status)
        × (get_latest_for_recommendation id_before e.recommendation_id register'.transitions
            ≡ some e)
        × (get_latest_for_recommendation id_before other register'.transitions
            ≡ get_latest_for_recommendation id_before other register.transitions)
        × IsForward register'.transitions
  unfolding record_transition
  record_transition-IsForward bus dispatched e e' register register' past forward h other apart =
      let (low, grown) = staged bus e register register' (committed _ h) in
      let latest = latest-appended e register.transitions past in
      rw grown (
        low,
        latest,
        latest-unrelated other e register.transitions apart,
        λ r. elim (eq-cases e.recommendation_id r) [
          | inl (same, path) ↦ grind (
            arith,
            forward r,
            count-append (is_about r) register.transitions (e ∷ []),
            low,
            same,
            ap
                (λ (x : String).
                  level
                    (get_latest_for_recommendation id_before x (register.transitions ++ (e ∷ []))))
                (sym path),
            latest,
            ap
                (λ (x : String).
                  level (get_latest_for_recommendation id_before x register.transitions))
                path,
          )
          | inr different ↦ rw (latest-unrelated r e register.transitions different) (
              grind (
                arith,
                forward r,
                different,
                count-append (is_about r) register.transitions (e ∷ []),
              ))
        ],
      )
    where
      committed :
          (m : Result Register)
          → finish_transition id_before bus dispatched e register m ≡ (register', ok e')
          → m ≡ ok register'
      committed (err raised) q = cc
      committed (ok g) q = ap ok (ap (λ (p : Register × Result InvestigationEvent). p.0) q)
