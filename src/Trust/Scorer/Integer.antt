-- ===== src/Trust/Scorer/Integer.antt =====
-- The integer score: bounds, order of the factors, and the decision.
use mathlib.Core.Logic.{∥∥₁_elim}
use mathlib.Core.List.{Perm, Permᴰ}
use c_e.Common.{ℕ, ◌≤◌, String, List, ◌≡◌, refl, ap, ◌∙◌, arith}
use c_e.Common.Int.{ℤ, pos, ◌+ℤ◌, ◌≤ℤ◌, int_laws}
use c_e.Trust.Scorer.{
  TrustDecision, positive, negative, add_factors, compute_score, make_decision, max_ℤ, min_ℤ,
}

add_comm_pairs : (s a b c d : ℤ) → s +ℤ a +ℤ b +ℤ c +ℤ d ≡ s +ℤ c +ℤ d +ℤ a +ℤ b
add_comm_pairs s a b c d = omega int_laws

add_factors-perm :
    (score : ℤ) {xs ys : List String} → Permᴰ xs ys → add_factors score xs ≡ add_factors score ys
unfolding add_factors
add_factors-perm score Permᴰ.nil = refl
add_factors-perm score (Permᴰ.cons {a} {b} {l₁} {l₂} e d) =
    add_factors-perm (score +ℤ positive a +ℤ negative a) d
    ∙ ap (λ x. add_factors (score +ℤ positive x +ℤ negative x) l₂) e
add_factors-perm score (Permᴰ.swap {a} {b} {a'} {b'} {l} e f) =
    ap (λ x. add_factors x l)
      (add_comm_pairs score (positive a) (negative a) (positive b) (negative b))
    ∙ ap (λ x. add_factors (score +ℤ positive x +ℤ negative x +ℤ positive a +ℤ negative a) l) f
    ∙ ap (λ x. add_factors (score +ℤ positive a' +ℤ negative a' +ℤ positive x +ℤ negative x) l) e
add_factors-perm score (Permᴰ.trans d₁ d₂) = add_factors-perm score d₁ ∙ add_factors-perm score d₂

ℤ-set : IsSet ℤ
ℤ-set = hlevel

-- The integer score does not depend on the order of the factors: it is the same for any
-- permutation of them.
pub compute_score-perm :
    (base : ℤ) (xs ys : List String) → Perm xs ys → compute_score base xs ≡ compute_score base ys
unfolding compute_score
compute_score-perm base xs ys p =
    ∥∥₁_elim p (ℤ-set _ _)
      (λ d. ap (λ score. max_ℤ (pos 0) (min_ℤ (pos 100) score)) (add_factors-perm base d))

-- The place of a decision, from the most to the least permissive.
abbrev severity : TrustDecision → ℕ
severity TrustDecision.allow = 0
severity TrustDecision.monitor = 1
severity TrustDecision.restricted = 2
severity TrustDecision.deny = 3
severity TrustDecision.revoke = 4

compute_score_bounds :
    (base : ℤ) (xs : List String)
    → (pos 0 ≤ℤ compute_score base xs) × (compute_score base xs ≤ℤ pos 100)
unfolding compute_score
compute_score_bounds base xs = ground arith

-- The decision is never stricter for a higher score.
make_decision-antitone :
    (a b : ℤ) → a ≤ℤ b → severity (make_decision b) ≤ severity (make_decision a)
unfolding make_decision
make_decision-antitone a b h = ground arith
