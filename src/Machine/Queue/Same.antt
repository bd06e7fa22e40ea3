-- ===== src/Machine/Queue/Same.antt =====
-- Records that have the same values for their keys, in whatever order.
use c_e.Common.{
  true, false, String, List, [], ◌∷◌, ◌++◌, map, ◌≡◌, refl, sym, ◌∙◌, inl, inr, arith, length, any,
  Bool-cases,
}
use c_e.Common.Dict.{Dict, lookup, lookup-insert}
use c_e.Machine.Queue.{Codec, is_sent, waiting, has_id, mark}

-- Two dicts with the same value for each key, in whatever order.
abbrev pub Same : {V : Type 0} → Dict V → Dict V → Type 0
Same d e = (k : String) → lookup k d ≡ lookup k e

abbrev pub AllSame : {V : Type 0} → List (Dict V) → List (Dict V) → Type 0
AllSame [] [] = Unit
AllSame (d ∷ ds) (e ∷ es) = Same d e × AllSame ds es
AllSame _ _ = ⊥

module _ {V : Type 0} where
  AllSame-refl : (ds : List (Dict V)) → AllSame ds ds
  AllSame-refl [] = tt
  AllSame-refl (d ∷ ds) = (λ k. refl, AllSame-refl ds)

  pub AllSame-sym : (ds es : List (Dict V)) → AllSame ds es → AllSame es ds
  AllSame-sym [] [] h = tt
  AllSame-sym [] (e ∷ es) h = absurd h
  AllSame-sym (d ∷ ds) [] h = absurd h
  AllSame-sym (d ∷ ds) (e ∷ es) (h, hs) = (λ k. sym (h k), AllSame-sym ds es hs)

  pub AllSame-trans : (ds es fs : List (Dict V)) → AllSame ds es → AllSame es fs → AllSame ds fs
  AllSame-trans [] [] fs h g = g
  AllSame-trans [] (e ∷ es) fs h g = absurd h
  AllSame-trans (d ∷ ds) [] fs h g = absurd h
  AllSame-trans (d ∷ ds) (e ∷ es) [] h g = absurd g
  AllSame-trans (d ∷ ds) (e ∷ es) (f ∷ fs) (h, hs) (g, gs) =
      (λ k. h k ∙ g k, AllSame-trans ds es fs hs gs)

  pub AllSame-append :
      (ds es : List (Dict V)) (x : Dict V) → AllSame ds es → AllSame (ds ++ x ∷ []) (es ++ x ∷ [])
  AllSame-append [] [] x h = (λ k. refl, tt)
  AllSame-append [] (e ∷ es) x h = absurd h
  AllSame-append (d ∷ ds) [] x h = absurd h
  AllSame-append (d ∷ ds) (e ∷ es) x (h, hs) = (h, AllSame-append ds es x hs)

  pub AllSame-length : (ds es : List (Dict V)) → AllSame ds es → length ds ≡ length es
  AllSame-length [] [] h = refl
  AllSame-length [] (e ∷ es) h = absurd h
  AllSame-length (d ∷ ds) [] h = absurd h
  AllSame-length (d ∷ ds) (e ∷ es) (h, hs) = omega (arith, AllSame-length ds es hs)

module _ {J : Type 0} (c : Codec J) where
  has_id-Same : (id : String) (d e : Dict J) → Same d e → has_id c id d ≡ has_id c id e
  has_id-Same id d e h = ground (arith, h "record_id")

  mark-Same : (id : String) (d e : Dict J) → Same d e → Same (mark c id d) (mark c id e)
  mark-Same id d e h k = ground (
    arith,
    h k,
    has_id-Same id d e h,
    lookup-insert "sent" k (c.boolean true) d,
    lookup-insert "sent" k (c.boolean true) e,
  )

  pub marks-AllSame :
      (id : String) (ds es : List (Dict J))
      → AllSame ds es
      → AllSame (map (mark c id) ds) (map (mark c id) es)
  marks-AllSame id [] [] h = tt
  marks-AllSame id [] (e ∷ es) h = absurd h
  marks-AllSame id (d ∷ ds) [] h = absurd h
  marks-AllSame id (d ∷ ds) (e ∷ es) (h, hs) = (mark-Same id d e h, marks-AllSame id ds es hs)

  pub no_marks :
      (id : String) (ds : List (Dict J)) → any (has_id c id) ds ≡ false → map (mark c id) ds ≡ ds
  no_marks id [] h = refl
  no_marks id (d ∷ ds) h = ground (arith, no_marks id ds)

  pub waiting-AllSame :
      (ds es : List (Dict J)) → AllSame ds es → AllSame (waiting c ds) (waiting c es)
  waiting-AllSame [] [] h = tt
  waiting-AllSame [] (e ∷ es) h = absurd h
  waiting-AllSame (d ∷ ds) [] h = absurd h
  waiting-AllSame (d ∷ ds) (e ∷ es) (h, hs) =
      let rest = waiting-AllSame ds es hs in
      elim (Bool-cases (is_sent c d)) [
        | inl sent ↦ ground (arith, h "sent")
        | inr unsent ↦ ground (arith, h "sent")
      ]
