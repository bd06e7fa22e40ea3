-- ===== src/Machine/Examples.antt =====
-- Promotion rounds and updates on concrete inputs.
use c_e.Common.{◌≤◌, true, false, String, List, [], ◌∷◌, ◌≡◌, refl}
use c_e.Common.{length, none, some, arith}
use c_e.Common.Dict.{Dict}
use c_e.Machine.Queue.{
  Bytes, overlay, waiting, encrypt, decrypt, read_all, pending, depth, append, mask_loop, mark_sent,
  lines_after, xor_bytes, mask, read_lines, rewrite,
}
use c_e.Machine.Queue.Mask.{OnOneLine, decrypt-encrypt}
use c_e.Machine.Queue.Same.{AllSame}
use c_e.Machine.Queue.Runs.{Call, appended, sent, replay, run, AllFit, run_refines}
use c_e.Machine.Queue.Sample.{
  Value, entry, codec, IsEntry, codec-IsSha256, codec-IsBase64, codec-IsJson,
}
use c_e.Common.Float.{Micro, micro_float}
use c_e.Machine.Promotion.{Round}
use c_e.Machine.Guard.{LocalUpdate, Context, evaluate_update, seen_after, replay_refused}

abbrev clean : Round Micro
clean = record {
  metrics =
      ("shadow_vs_champion_delta", micro_float.lit 50_000)
      ∷ ("baseline_stability_score", micro_float.lit 900_000)
      ∷ [];
  signed_approval = true;
  poisoning_suspected = false;
  drift_hard = false;
}

abbrev unsigned : Round Micro
unsigned = record clean { signed_approval = false }

abbrev update : String → LocalUpdate Micro
update nonce = record {
  model_id = "m-1";
  machine_id = "host-1";
  tenant_id = "t-1";
  feature_schema_hash = "f";
  metrics = [];
  delta = ("w", micro_float.lit 1_000_000) ∷ [];
  dataset_fingerprint = "d";
  signed_by = "host-1";
  suspicion_score = micro_float.lit 100_000;
  replay_nonce = nonce;
}

abbrev calm : Context Micro
calm = record {
  machine_compromised = false;
  labels_inconsistent = false;
  corroborated = true;
  reference_degradation = micro_float.lit 10_000;
}

-- A norm for one weight.
abbrev first_weight : List Micro → Micro
first_weight [] = micro_float.lit 0
first_weight (x ∷ _) = x

replay_refused_example :
    let decision =
      (evaluate_update first_weight
        (seen_after first_weight [] ((update "n-1", calm) ∷ (update "n-2", calm) ∷ []))
        (update "n-1")
        calm).0 in
    (decision.accepted ≡ false) × (decision.quarantined ≡ true)
replay_refused_example =
    replay_refused first_weight [] (update "n-1") calm ((update "n-2", calm) ∷ []) (update "n-1")
      calm refl

abbrev queue_calls : List (Call Value)
queue_calls = appended "r-1" [] ∷ appended "r-2" [] ∷ sent "r-1" ∷ []

-- "secret"
abbrev secret : Bytes
secret = 115 ∷ 101 ∷ 99 ∷ 114 ∷ 101 ∷ 116 ∷ []

queue_fits : AllFit codec IsEntry queue_calls
unfolding overlay
queue_fits = ((true, false, refl), ((false, false, refl), tt))

left_pending : waiting codec (replay codec queue_calls []) ≡ entry false false ∷ []
unfolding replay overlay
left_pending = refl

pending_in_file :
    pending codec secret (run codec secret queue_calls none).1 ≡ some (entry false false ∷ [])
unfolding pending run read_all mark_sent append encrypt mask mask_loop read_lines lines_after
    xor_bytes overlay decrypt rewrite
pending_in_file = refl

decrypt-encrypt_example :
    (token : Bytes) × (encrypt codec secret (1 ∷ 200 ∷ []) ≡ some token)
    × (decrypt codec secret token ≡ some (1 ∷ 200 ∷ []))
    × OnOneLine token
    × (2 ≤ length token)
decrypt-encrypt_example =
    decrypt-encrypt codec codec-IsSha256 codec-IsBase64 secret (1 ∷ 200 ∷ [])
      (omega arith, (omega arith, tt)) (omega arith)

run_refines_example :
    ((run codec secret queue_calls none).0 ≡ true)
    × (es : List (Dict Value)) × (read_all codec secret (run codec secret queue_calls none).1
        ≡ some es)
    × AllSame es (replay codec queue_calls [])
    × (ps : List (Dict Value)) × (pending codec secret (run codec secret queue_calls none).1
        ≡ some ps)
    × AllSame ps (waiting codec (replay codec queue_calls []))
    × (depth codec secret (run codec secret queue_calls none).1
        ≡ some (length (waiting codec (replay codec queue_calls []))))
run_refines_example =
    run_refines codec IsEntry codec-IsSha256 codec-IsBase64 codec-IsJson secret queue_calls
      queue_fits
