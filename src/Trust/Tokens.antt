-- ===== src/Trust/Tokens.antt =====
-- The `/trust/sot` endpoints of services/cortex-trust-engine/cortex_trust_engine/main.py and their
-- store of tokens. The id and the times that a new token draws are arguments, and the values of the
-- body are of the types they are read at.
use c_e.Common.{
  Bool, true, false, ◌||◌, String, List, [], ◌∷◌, Option, none, some, ◌≡◌, ◌≢◌, sym, ◌∙◌, ◌⊎◌,
  arith, if◌then◌else◌, str_eq, str_eq_iff, Option-cases, inl, inr,
}
use c_e.Common.Int.{ℤ, pos}
use c_e.Common.Dict.{Dict, lookup, insert, lookup-insert, lookup-insert-same, lookup-insert-other}
use c_e.Common.Float.{Float, IsOrdered, ◌≼◌}
use c_e.Core.Sot.{SotRecord, SotImpact, issue_sot, evaluate_sot_impact}
use c_e.Core.Sot.Lifecycle.{Update, update, updates, clock, ended_for_good}

pub data TokenReply (F : Type 0) : Type 0 where
  -- 403, the error value "sot_not_found", and the two kinds of answer
  internal_api_auth_required : TokenReply F
  sot_not_found : String → TokenReply F
  record_of : SotRecord F → TokenReply F
  impact_is : SotImpact F → TokenReply F

pub record IssueBody : Type 0 where
  pub entity_id : String
  pub entity_type : Option String
  pub reasons : Option (List String)
  pub observation_level : Option String
  pub restrictions : Option (List String)
  pub ttl_seconds : Option ℤ
  pub renewable : Bool
  pub score : String

-- The stripped token of the environment, and the header of the request.
pub record ApiCaller : Type 0 where
  pub expected : String
  pub header : String

abbrev pub may_call : ApiCaller → Bool
may_call c = str_eq c.expected "" || str_eq c.header c.expected

abbrev absent {ℓ} : {A : Type ℓ} → Option A → A → A
absent none default = default
absent (some a) default = a

-- What a new token draws: its id, its time, and the clock that sets its end.
pub record Drawn (F : Type 0) : Type 0 where
  pub token_id : String
  pub issued_at : F
  pub now : F

module _ {F : Type 0} ⦃o : Float F⦄ where
  pub issued : Drawn F → IssueBody → SotRecord F
  unfolding issue_sot
  issued draw b =
      issue_sot draw.token_id draw.issued_at draw.now b.entity_id (absent b.entity_type "machine")
        (absent b.reasons []) (absent b.observation_level "deep")
        (some (
          absent b.restrictions
            ("no_new_secrets" ∷ "no_crown_jewel_access" ∷ "limited_egress" ∷ [])))
        (absent b.ttl_seconds (pos 1800)) b.renewable
        (some (("issued_by", "trust-engine") ∷ ("score", b.score) ∷ []))

  unfoldable pub issue_sot_endpoint :
      Dict (SotRecord F) → ApiCaller → Drawn F → IssueBody → TokenReply F × Dict (SotRecord F)
  issue_sot_endpoint records c draw b =
      if may_call c
      then (record_of (issued draw b), insert (issued draw b).token_id (issued draw b) records)
      else (internal_api_auth_required, records)

  -- The two endpoints that change a stored token.
  unfoldable pub update_endpoint :
      Dict (SotRecord F) → ApiCaller → String → Update F → TokenReply F × Dict (SotRecord F)
  update_endpoint records c token u =
      if may_call c
      then elim (lookup token records) [
        | none ↦ (sot_not_found token, records)
        | some s ↦ (record_of (update u s), insert token (update u s) records)
      ]
      else (internal_api_auth_required, records)

  unfoldable pub impact_endpoint : Dict (SotRecord F) → ApiCaller → String → F → TokenReply F
  impact_endpoint records c token now =
      if may_call c
      then elim (lookup token records) [
        | none ↦ sot_not_found token
        | some s ↦ impact_is (evaluate_sot_impact now s)
      ]
      else internal_api_auth_required

pub data TokenCall (F : Type 0) : Type 0 where
  issue : ApiCaller → Drawn F → IssueBody → TokenCall F
  change : ApiCaller → String → Update F → TokenCall F

-- No call draws the id for a new token.
abbrev pub Undrawn : {F : Type 0} → String → List (TokenCall F) → Type 0
Undrawn token [] = Unit
Undrawn token (issue c draw b ∷ xs) = (draw.token_id ≢ token) × Undrawn token xs
Undrawn token (change c t u ∷ xs) = Undrawn token xs

module _ {F : Type 0} ⦃o : Float F⦄ where
  unfoldable pub records_after : List (TokenCall F) → Dict (SotRecord F) → Dict (SotRecord F)
  records_after [] records = records
  records_after (issue c draw b ∷ xs) records =
      records_after xs (issue_sot_endpoint records c draw b).1
  records_after (change c t u ∷ xs) records = records_after xs (update_endpoint records c t u).1

  issue_keeps :
      (records : Dict (SotRecord F)) (c : ApiCaller) (draw : Drawn F) (b : IssueBody)
      (token : String)
      → draw.token_id ≢ token
      → lookup token (issue_sot_endpoint records c draw b).1 ≡ lookup token records
  unfolding issue_sot_endpoint issued issue_sot
  issue_keeps records c draw b token apart = ground (
    arith,
    lookup-insert-other (issued draw b).token_id token (issued draw b) records (λ e. apart (sym e)),
  )

  change_keeps :
      (records : Dict (SotRecord F)) (c : ApiCaller) (t : String) (u : Update F) (token : String)
      → (s : SotRecord F) → lookup token records ≡ some s
      → (lookup token (update_endpoint records c t u).1 ≡ some s)
        ⊎ (lookup token (update_endpoint records c t u).1 ≡ some (update u s))
  unfolding update_endpoint
  change_keeps records c t u token s found = elim (Option-cases (lookup t records)) [
    | inl e ↦ inl (ground arith)
    | inr (r, e) ↦ ground (arith, lookup-insert t token (update u r) records, str_eq_iff t token)
  ]

  update_stored :
      (records : Dict (SotRecord F)) (c : ApiCaller) (t : String) (u : Update F) (s : SotRecord F)
      → may_call c ≡ true
      → lookup t records ≡ some s
      → lookup t (update_endpoint records c t u).1 ≡ some (update u s)
  unfolding update_endpoint
  update_stored records c t u s may found =
      ground (arith, lookup-insert-same t (update u s) records)

  stays_updated :
      (xs : List (TokenCall F)) (records : Dict (SotRecord F)) (token : String) (s : SotRecord F)
      → Undrawn token xs
      → lookup token records ≡ some s
      → (us : List (Update F)) × (lookup token (records_after xs records) ≡ some (updates us s))
  unfolding records_after updates
  stays_updated [] records token s free found = ([], found)
  stays_updated (issue c draw b ∷ xs) records token s (apart, free) found =
      stays_updated xs (issue_sot_endpoint records c draw b).1 token s free
        (issue_keeps records c draw b token apart ∙ found)
  stays_updated (change c t u ∷ xs) records token s free found =
      elim (change_keeps records c t u token s found) [
        | inl same ↦ stays_updated xs (update_endpoint records c t u).1 token s free same
        | inr changed ↦
            let (us, left) =
              stays_updated xs (update_endpoint records c t u).1 token (update u s) free changed in
            (u ∷ us, left)
      ]

  -- Given the order laws of floats: once the endpoints expire or revoke a stored token for an
  -- authorized caller, the impact endpoint reports it to an authorized caller as inactive and not
  -- ready for escalation at every time from then on, whatever calls follow, as long as none draws
  -- the same id for a new token. The token's own expiry time must be no NaN.
  pub ended_token_stays_ended :
      (laws : IsOrdered F) (records : Dict (SotRecord F)) (c d : ApiCaller) (token : String)
      → (u : Update F) (s : SotRecord F) (xs : List (TokenCall F)) (later : F) → may_call c ≡ true
      → may_call d ≡ true
      → lookup token records ≡ some s
      → s.expires_at ≼ s.expires_at
      → clock laws u ≼ later
      → Undrawn token xs
      → (impact : SotImpact F) × (impact_endpoint
            (records_after (change c token u ∷ xs) records)
            d
            token
            later
          ≡ impact_is impact)
        × (impact.active ≡ false)
        × (impact.escalation_ready ≡ false)
  unfolding records_after impact_endpoint
  ended_token_stays_ended laws records c d token u s xs later may may' found num past free =
      let changed : lookup token (update_endpoint records c token u).1 ≡ some (update u s) =
        update_stored records c token u s may found in
      let (us, left) =
        stays_updated xs (update_endpoint records c token u).1 token (update u s) free changed in
      let (inactive, calm, _) = ended_for_good laws u us s later num past in
      (evaluate_sot_impact later (updates us (update u s)), ground arith, inactive, calm)
