-- ===== src/Trust/Scorer/Evidence.antt =====
-- The evidence score.
use c_e.Common.{ℕ, ◌≤◌, ◌+◌, Bool, String, List, [], ◌∷◌, ◌≡◌, refl, arith, length, filter, map}
use c_e.Common.Dict.{get_or}
use c_e.Common.Float.{Float, IsOrdered, ◌≼◌, clamp_bounds}
use c_e.Core.Contracts.{SecurityEvidence}
use c_e.Trust.Scorer.{distinct, criticality_amplifier, impact_of, weigh_evidences, score_evidences}

length-distinct-le : (xs : List String) → length (distinct xs) ≤ length xs
length-distinct-le [] = omega arith
length-distinct-le (x ∷ xs) = ground (arith, length-distinct-le xs)

length-map : {A B : Type 0} (f : A → B) (xs : List A) → length (map f xs) ≡ length xs
length-map f [] = refl
length-map f (x ∷ xs) = omega (arith, length-map f xs)

module _ {F : Type 0} ⦃o : Float F⦄ where
  -- The evidence counts as strong from severity 0.6 on.
  abbrev pub is_strong : SecurityEvidence F → Bool
  is_strong e = o.le (o.lit 600_000) e.severity

  weigh-count :
      (now amplifier score : F) (n : ℕ) (es : List (SecurityEvidence F))
      → (weigh_evidences now amplifier (score, n) es).1 ≡ n + length (filter is_strong es)
  unfolding weigh_evidences
  weigh-count now amplifier score n [] = omega arith
  weigh-count now amplifier score n (e ∷ es) = ground (
    arith,
    weigh-count now amplifier (o.sub score (impact_of now amplifier e)) (n + 1) es,
    weigh-count now amplifier (o.add score (o.mul (impact_of now amplifier e) (o.lit 200_000))) n
        es,
  )

  pub score_evidences-strong :
      (now base : F) (es : List (SecurityEvidence F)) (criticality : String)
      → (score_evidences now base es criticality).2 ≡ length (filter is_strong es)
  unfolding score_evidences
  score_evidences-strong now base es criticality = omega (
    arith,
    weigh-count now (get_or criticality (o.lit 1_000_000) criticality_amplifier) base 0 es,
  )

  -- Given the order laws of floats: the score lies from 0 to 100 whatever the evidences are, also
  -- with a NaN among them; the strong signals are the evidences of severity 0.6 or more, and
  -- there are no more sources than evidences.
  pub score_evidences_lem :
      (laws : IsOrdered F) (now base : F) (es : List (SecurityEvidence F)) (criticality : String)
      → let (score, sources, strong) = score_evidences now base es criticality in
        (o.lit 0 ≼ score)
        × (score ≼ o.lit 100_000_000)
        × (strong ≡ length (filter is_strong es))
        × (sources ≤ length es)
  unfolding score_evidences
  score_evidences_lem laws now base es criticality =
      let amplifier : F = get_or criticality (o.lit 1_000_000) criticality_amplifier in
      let (above, below) =
        clamp_bounds laws (o.lit 0) (o.lit 100_000_000)
          (o.round 2 (weigh_evidences now amplifier (base, 0) es).0)
          (laws.lit_mono 0 100_000_000 (omega arith)) in
      (
        above,
        below,
        score_evidences-strong now base es criticality,
        omega (
          arith,
          length-distinct-le (map (λ e. e.source) es),
          length-map (λ (e : SecurityEvidence F). e.source) es,
        ),
      )
