-- ===== src/Trust/Evaluate/Profiles.antt =====
-- The profiles that evaluations leave, and when remediation is prepared.
use c_e.Common.{
  ℕ, ◌≤◌, Bool, true, String, List, [], ◌∷◌, some, ◌≡◌, ◌≢◌, refl, arith, none-ne-some, length,
  filter, inl, inr,
}
use c_e.Common.Dict.{Dict, lookup, lookup-insert-same, lookup-insert-other, Holds, insert-Holds}
use c_e.Common.Float.{Float, IsOrdered, ◌≼◌}
use c_e.Trust.Scorer.{response_eligibility_for}
use c_e.Trust.Scorer.Evidence.{is_strong, score_evidences-strong, score_evidences_lem}
use c_e.Trust.Scorer.Levels.{eligible_needs_evidence}
use c_e.Trust.Evaluate.{
  Profile, Body, Message, prepare_issue_sot, Evaluated, internal_evaluate, rescored, retained,
  is_actionable, envelope_of,
}

pub record Request (F : Type 0) : Type 0 where
  pub edge_enabled : Bool
  pub created : F
  pub now : F
  pub saved : F
  pub body : Body F

module _ {F : Type 0} ⦃o : Float F⦄ where
  unfoldable pub handle :
      Dict (Profile F) → Request F → Evaluated F × List (Message F) × Dict (Profile F)
  unfolding internal_evaluate
  handle profiles q = internal_evaluate profiles q.edge_enabled q.created q.now q.saved q.body

  -- The profiles after a sequence of requests.
  unfoldable pub profiles_after : Dict (Profile F) → List (Request F) → Dict (Profile F)
  profiles_after profiles [] = profiles
  profiles_after profiles (q ∷ qs) = profiles_after (handle profiles q).2 qs

  abbrev InRange : Dict (Profile F) → Type 0
  InRange = Holds (λ _ p. (o.lit 0 ≼ p.score) × (p.score ≼ o.lit 100_000_000))

  rescored_bounds :
      (laws : IsOrdered F) (profiles : Dict (Profile F)) (q : Request F)
      → let score = (rescored profiles q.edge_enabled q.created q.now q.body).0 in
        (o.lit 0 ≼ score) × (score ≼ o.lit 100_000_000)
  unfolding rescored
  rescored_bounds laws profiles q =
      let (above, below, _, _) = score_evidences_lem laws q.now _ _ _ in (above, below)

  rescored-strong :
      (profiles : Dict (Profile F)) (q : Request F)
      → (rescored profiles q.edge_enabled q.created q.now q.body).2
        ≡ length (filter is_strong (retained q.edge_enabled q.body.evidences))
  unfolding rescored
  rescored-strong profiles q = score_evidences-strong q.now _ _ _

  actionable-strong :
      (b : Body F) (score : F) (count sources strong : ℕ)
      → is_actionable (response_eligibility_for (envelope_of b score count sources strong)) ≡ true
      → 2 ≤ strong
  unfolding envelope_of
  actionable-strong b score count sources strong h =
      let (_, needs) =
        eligible_needs_evidence (envelope_of b score count sources strong) (λ e. ground arith) in
      elim needs [ inl two ↦ two | inr (down, _) ↦ absurd (ground arith) ]

  handle-InRange :
      (laws : IsOrdered F) (profiles : Dict (Profile F)) (q : Request F)
      → InRange profiles
      → InRange (handle profiles q).2
  unfolding handle
  handle-InRange laws profiles q h =
      insert-Holds (λ _ p. (o.lit 0 ≼ p.score) × (p.score ≼ o.lit 100_000_000)) q.body.entity_id _
        profiles (rescored_bounds laws profiles q) h

  profiles_after-InRange :
      (laws : IsOrdered F) (profiles : Dict (Profile F)) (qs : List (Request F))
      → InRange profiles
      → InRange (profiles_after profiles qs)
  unfolding profiles_after
  profiles_after-InRange laws profiles [] h = h
  profiles_after-InRange laws profiles (q ∷ qs) h =
      profiles_after-InRange laws (handle profiles q).2 qs (handle-InRange laws profiles q h)

  -- Given the order laws of floats: after any sequence of evaluations from an empty store, the
  -- trust score of each profile lies from 0 to 100.
  pub profiles_in_range :
      (laws : IsOrdered F) (qs : List (Request F)) (entity : String) (p : Profile F)
      → lookup entity (profiles_after [] qs) ≡ some p
      → (o.lit 0 ≼ p.score) × (p.score ≼ o.lit 100_000_000)
  profiles_in_range laws qs = profiles_after-InRange laws [] qs (λ k p e. absurd (none-ne-some e))

  -- An evaluation stores the score, the threat level and the eligibility that it replies with under
  -- its entity, and leaves every other profile as it is.
  evaluation_saved :
      (profiles : Dict (Profile F)) (q : Request F) (other : String)
      → other ≢ q.body.entity_id
      → let (reply, _, stored) = handle profiles q in
        ((p : Profile F) × (lookup q.body.entity_id stored ≡ some p)
          × (p.score ≡ reply.score_after)
          × (p.threat_level ≡ reply.threat_level)
          × (p.response_eligibility ≡ reply.response_eligibility))
        × (lookup other stored ≡ lookup other profiles)
  unfolding handle
  evaluation_saved profiles q other apart = (
    (_, lookup-insert-same q.body.entity_id _ profiles, refl, refl, refl),
    lookup-insert-other q.body.entity_id other _ profiles apart,
  )

  -- The engine asks for a prepared observation token only if the new score is below 55 and at least
  -- two of the evidences kept are strong.
  pub remediation_needs_two_strong :
      (profiles : Dict (Profile F)) (q : Request F) (entity : String) (score : F)
      (reasons : List String)
      → (first : Message F)
      → (handle profiles q).1 ≡ first ∷ prepare_issue_sot entity score reasons ∷ []
      → (entity ≡ q.body.entity_id)
        × (score ≡ (handle profiles q).0.score_after)
        × (o.lt score (o.lit 55_000_000) ≡ true)
        × (2 ≤ length (filter is_strong (retained q.edge_enabled q.body.evidences)))
  unfolding handle
  remediation_needs_two_strong profiles q entity score reasons first h =
      let (score', sources, strong) = rescored profiles q.edge_enabled q.created q.now q.body in
      ground (
        arith,
        rescored-strong profiles q,
        actionable-strong q.body (rescored profiles q.edge_enabled q.created q.now q.body).0
            (length (retained q.edge_enabled q.body.evidences))
            (rescored profiles q.edge_enabled q.created q.now q.body).1
            (rescored profiles q.edge_enabled q.created q.now q.body).2,
      )
