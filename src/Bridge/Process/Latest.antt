-- ===== src/Bridge/Process/Latest.antt =====
-- Which row `get` and `get_latest_for_asset` read behind an insertion.
use odis.Bridge.Lifecycle.{AiFaultEvidence}
use odis.Bridge.Service.{get_evidence, get_latest_for_asset}
use odis.Prelude.{
  ℕ, ◌<◌, String, ◌≡◌, refl, Bool, true, false, none, some, List, [], ◌∷◌, ◌++◌, arith, ◌==◌, All,
}
use odis.Prelude.Text.{eq_refl}

pub get_evidence-append :
    (e : AiFaultEvidence) (es : List AiFaultEvidence)
    → get_evidence e.id es ≡ none
    → get_evidence e.id (es ++ (e ∷ [])) ≡ some e
unfolding get_evidence
get_evidence-append e [] h = rw (eq_refl e.id) refl
get_evidence-append e (f ∷ fs) h = ground (arith, get_evidence-append e fs)

module _ (id_before : String → String → Bool) where
  pub latest-other :
      (asset : String) (e : AiFaultEvidence) (es : List AiFaultEvidence)
      → (e.asset_id == asset) ≡ false
      → get_latest_for_asset id_before asset (es ++ (e ∷ []))
        ≡ get_latest_for_asset id_before asset es
  unfolding get_latest_for_asset
  latest-other asset e [] h = rw h refl
  latest-other asset e (f ∷ fs) h = rw (latest-other asset e fs h) refl

  -- Every row of the asset was observed before the moment.
  abbrev pub Before : String → ℕ → List AiFaultEvidence → Type 0
  Before asset at es =
      All (λ (f : AiFaultEvidence). (f.asset_id == asset) ≡ true → f.observed_at < at) es

  pub latest-newest :
      (asset : String) (e : AiFaultEvidence) (es : List AiFaultEvidence)
      → (e.asset_id == asset) ≡ true
      → Before asset e.observed_at es
      → get_latest_for_asset id_before asset (es ++ (e ∷ [])) ≡ some e
  unfolding get_latest_for_asset
  latest-newest asset e [] h b = rw h refl
  latest-newest asset e (f ∷ fs) h b =
      let rest = latest-newest asset e fs h b.1 in rw rest (ground (arith, b.0))
