-- ===== src/Machine/Queue/Runs.antt =====
-- Any sequence of calls on the queue file, against the list of records that it stands for.
use c_e.Common.{
  Bool, true, false, ◌&&◌, ◌∙◌, String, List, [], ◌∷◌, ◌++◌, map, Option, none, some, ◌≡◌, refl, ap,
  arith, length,
}
use c_e.Common.Dict.{Dict}
use c_e.Machine.Queue.{
  Bytes, File, Codec, and_then, waiting, stored, mark, read_all, pending, depth, append, mark_sent,
}
use c_e.Machine.Queue.Mask.{IsSha256, IsBase64}
use c_e.Machine.Queue.Same.{AllSame, waiting-AllSame, AllSame-length}
use c_e.Machine.Queue.Log.{IsJson, Stores, read_back, append-Stores, mark_sent-Stores, Stores-nil}

pub data Call (J : Type 0) : Type 0 where
  -- A record with the id that is drawn for it, and the id of a record that was sent.
  appended : String → Dict J → Call J
  sent : String → Call J

abbrev returned {ℓ} : {A : Type ℓ} → Option A → Bool
returned none = false
returned (some _) = true

module _ {J : Type 0} (c : Codec J) where
  -- What the calls mean: the list of the records, each replaced where it is marked.
  unfoldable pub replay : List (Call J) → List (Dict J) → List (Dict J)
  replay [] log = log
  replay (appended uuid d ∷ calls) log = replay calls (log ++ stored c uuid d ∷ [])
  replay (sent id ∷ calls) log = replay calls (map (mark c id) log)

  -- The same calls on the file, and whether every one returned.
  unfoldable pub run : Bytes → List (Call J) → File → Bool × File
  run secret [] file = (true, file)
  run secret (appended uuid d ∷ calls) file =
      let rest = run secret calls (append c secret uuid d file).1 in
      (returned (append c secret uuid d file).0 && rest.0, rest.1)
  run secret (sent id ∷ calls) file =
      let rest = run secret calls (mark_sent c secret id file).1 in
      ((mark_sent c secret id file).0 && rest.0, rest.1)

  -- Every record that the calls append fits, as it is stored.
  abbrev pub AllFit : (Dict J → Type 0) → List (Call J) → Type 0
  AllFit Fits [] = Unit
  AllFit Fits (appended uuid d ∷ calls) = Fits (stored c uuid d) × AllFit Fits calls
  AllFit Fits (sent id ∷ calls) = AllFit Fits calls

module _ {J : Type 0} (c : Codec J) (Fits : Dict J → Type 0) (digest : IsSha256 c)
    (base64 : IsBase64 c) (json : IsJson c Fits) (secret : Bytes) where
  run-Stores :
      (calls : List (Call J)) (log : List (Dict J)) (file : File)
      → AllFit c Fits calls
      → Stores c Fits digest base64 json secret log file
      → ((run c secret calls file).0 ≡ true)
        × Stores c Fits digest base64 json secret (replay c calls log) (run c secret calls file).1
  unfolding run replay
  run-Stores [] log file fit held = (refl, held)
  run-Stores (appended uuid d ∷ calls) log file (fit, fits) held =
      let (made, held') = append-Stores c Fits digest base64 json secret log file uuid d held fit in
      let (rest, held'') =
        run-Stores calls (log ++ stored c uuid d ∷ []) (append c secret uuid d file).1 fits held' in
      (ground arith, held'')
  run-Stores (sent id ∷ calls) log file fits held =
      let (made, held') = mark_sent-Stores c Fits digest base64 json secret log file id held in
      let (rest, held'') =
        run-Stores calls (map (mark c id) log) (mark_sent c secret id file).1 fits held' in
      (ground arith, held'')

  -- Given that SHA-256 digests are 32 bytes, that base64 encodes to one line, decodes what it
  -- encodes and shortens nothing, and that JSON reads back the values of the records of a set that
  -- no mark leaves, in at most 128 GiB each: every sequence of `append` and `mark_sent` calls on a
  -- new queue whose stored records are in the set returns without an exception; `read_all` then
  -- gives, in order and value for value, the records that were appended, each with `sent` set once
  -- its id was marked after it; `pending` gives those of them that are not sent, and `depth` counts
  -- these.
  pub run_refines :
      (calls : List (Call J))
      → AllFit c Fits calls
      → ((run c secret calls none).0 ≡ true)
        × (es : List (Dict J)) × (read_all c secret (run c secret calls none).1 ≡ some es)
        × AllSame es (replay c calls [])
        × (ps : List (Dict J)) × (pending c secret (run c secret calls none).1 ≡ some ps)
        × AllSame ps (waiting c (replay c calls []))
        × (depth c secret (run c secret calls none).1
            ≡ some (length (waiting c (replay c calls []))))
  unfolding pending depth
  run_refines calls fits =
      let (ok, held) =
        run-Stores calls [] none fits (Stores-nil c Fits digest base64 json secret) in
      let file = (run c secret calls none).1 in
      let (es, read, _, same) =
        read_back c Fits digest base64 json secret (replay c calls []) file held in
      let waits = waiting-AllSame c es (replay c calls []) same in
      (
        ok,
        es,
        read,
        same,
        waiting c es,
        ap (λ r. and_then r (λ xs. some (waiting c xs))) read,
        waits,
        ap (λ r. and_then (and_then r (λ xs. some (waiting c xs))) (λ xs. some (length xs))) read
            ∙ ap some (AllSame-length (waiting c es) (waiting c (replay c calls [])) waits),
      )
