-- ===== src/Machine/Queue/Log.antt =====
-- The queue file as a list of records.
use c_e.Common.{
  ◌≤◌, ◌<◌, true, false, String, List, [], ◌∷◌, ◌++◌, map, none, some, ◌≡◌, refl, sym, ap, ◌∙◌, inl,
  inr, arith, length, any, All, Bool-cases, subst,
}
use mathlib.Core.List.{append_assoc}
use c_e.Common.Dict.{Dict, insert}
use c_e.Machine.Queue.{
  Bytes, File, Codec, content_of, stored, has_id, mark, encrypt, decrypt, read_lines, read_all,
  append, rewrite, mark_sent, split_lines, lines_after,
}
use c_e.Machine.Queue.Mask.{IsBytes, OnOneLine, longest, IsSha256, IsBase64, decrypt-encrypt}
use c_e.Machine.Queue.Lines.{split_lines-cons}
use c_e.Machine.Queue.Same.{
  Same, AllSame, AllSame-sym, AllSame-trans, AllSame-append, marks-AllSame, no_marks,
}

-- What JSON gives for the records of a set, which a mark does not leave: a payload of at most 128
-- GiB, never empty, that is read back as a record of the set with the same values.
pub record IsJson {J : Type 0} (c : Codec J) (Fits : Dict J → Type 0) : Type 0 where
  pub dumps-IsBytes : (d : Dict J) → Fits d → IsBytes (c.dumps d)
  pub length-dumps :
      (d : Dict J) → Fits d → (0 < length (c.dumps d)) × (length (c.dumps d) ≤ longest)
  pub loads-dumps :
      (d : Dict J) → Fits d → (e : Dict J) × (c.loads (c.dumps d) ≡ some e) × Fits e × Same e d
  pub mark-Fits : (d : Dict J) → Fits d → Fits (insert "sent" (c.boolean true) d)

module _ {J : Type 0} (c : Codec J) (Fits : Dict J → Type 0) (digest : IsSha256 c)
    (base64 : IsBase64 c) (json : IsJson c Fits) (secret : Bytes) where
  open json use {dumps-IsBytes, length-dumps, loads-dumps, mark-Fits}

  entry_token :
      (d : Dict J)
      → Fits d
      → (token : Bytes) × (encrypt c secret (c.dumps d) ≡ some token)
        × (decrypt c secret token ≡ some (c.dumps d))
        × OnOneLine token
        × (0 < length token)
  entry_token d fits =
      let (long, short) = length-dumps d fits in
      let (token, made, back, line, grows) =
        decrypt-encrypt c digest base64 secret (c.dumps d) (dumps-IsBytes d fits) short in
      (token, made, back, line, omega arith)

  -- One line of the file is one record.
  read_lines-cons :
      (d : Dict J) (rest : List Bytes) (token : Bytes) (es : List (Dict J))
      → Fits d
      → decrypt c secret token ≡ some (c.dumps d)
      → 0 < length token
      → read_lines c secret rest ≡ some es
      → (e : Dict J) × (read_lines c secret (token ∷ rest) ≡ some (e ∷ es)) × Fits e × Same e d
  unfolding read_lines
  read_lines-cons d rest [] es fits back long read = absurd (omega arith)
  read_lines-cons d rest (x ∷ xs) es fits back long read =
      let (e, loaded, fits', same) = loads-dumps d fits in (e, ground arith, fits', same)

  nothing_read : read_lines c secret (split_lines []) ≡ some []
  unfolding read_lines lines_after
  nothing_read = refl

  rewrite-nil : rewrite c secret [] ≡ (true, [])
  unfolding rewrite
  rewrite-nil = refl

  rewrite-cons :
      (d : Dict J) (ds : List (Dict J)) (token : Bytes)
      → encrypt c secret (c.dumps d) ≡ some token
      → rewrite c secret (d ∷ ds) ≡ ((rewrite c secret ds).0, token ++ 10 ∷ (rewrite c secret ds).1)
  unfolding rewrite
  rewrite-cons d ds token made = ground arith

  -- A list of records that fit is written whole, and is read back in its order.
  written :
      (ds : List (Dict J))
      → All Fits ds
      → ((rewrite c secret ds).0 ≡ true)
        × (es : List (Dict J)) × (read_lines c secret (split_lines (rewrite c secret ds).1)
            ≡ some es)
        × All Fits es
        × AllSame es ds
  written [] fits = rw rewrite-nil (refl, [], nothing_read, tt, tt)
  written (d ∷ ds) (fits, all_fit) =
      let (done, es, read, es_fit, es_same) = written ds all_fit in
      let (token, made, back, line, long) = entry_token d fits in
      let (e, read', fits', same) =
        read_lines-cons d (split_lines (rewrite c secret ds).1) token es fits back long read in
      rw (rewrite-cons d ds token made, split_lines-cons token (rewrite c secret ds).1 line)
        (done, e ∷ es, read', (fits', es_fit), (same, es_same))

  rewrite-append :
      (ds : List (Dict J)) (d : Dict J) (token : Bytes)
      → All Fits ds
      → encrypt c secret (c.dumps d) ≡ some token
      → (rewrite c secret (ds ++ d ∷ [])).1 ≡ (rewrite c secret ds).1 ++ (token ++ 10 ∷ [])
  rewrite-append [] d token fits made = rw (rewrite-cons d [] token made, rewrite-nil) refl
  rewrite-append (x ∷ ds) d token (fit, fits) made =
      let (t, made', _, _, _) = entry_token x fit in
      rw
        (
          rewrite-cons x (ds ++ d ∷ []) t made',
          rewrite-cons x ds t made',
          rewrite-append ds d token fits made,
        )
        (sym (append_assoc t (10 ∷ (rewrite c secret ds).1) (token ++ 10 ∷ [])))

  -- The file holds the log: it is what `_rewrite` makes of records with the log's values.
  abbrev pub Stores : List (Dict J) → File → Type 0
  Stores log file =
      (ds : List (Dict J)) × All Fits ds
      × AllSame ds log
      × (content_of file ≡ (rewrite c secret ds).1)

  pub Stores-nil : Stores [] none
  Stores-nil = ([], tt, tt, rw rewrite-nil refl)

  read_content :
      (file : File) → read_all c secret file ≡ read_lines c secret (split_lines (content_of file))
  unfolding read_all
  read_content none = sym nothing_read
  read_content (some content) = refl

  pub read_back :
      (log : List (Dict J)) (file : File)
      → Stores log file
      → (es : List (Dict J)) × (read_all c secret file ≡ some es) × All Fits es × AllSame es log
  read_back log file (ds, fits, same, content) =
      let (done, es, read, es_fit, es_same) = written ds fits in
      (es, read_content file ∙ rw content read, es_fit, AllSame-trans es ds log es_same same)

  append-Fits : (ds : List (Dict J)) (d : Dict J) → All Fits ds → Fits d → All Fits (ds ++ d ∷ [])
  append-Fits [] d h k = (k, tt)
  append-Fits (x ∷ ds) d (h, hs) k = (h, append-Fits ds d hs k)

  marks-Fits : (id : String) (ds : List (Dict J)) → All Fits ds → All Fits (map (mark c id) ds)
  marks-Fits id [] h = tt
  marks-Fits id (d ∷ ds) (h, hs) = elim (Bool-cases (has_id c id d)) [
    | inl e ↦ ground (arith, mark-Fits d h, marks-Fits id ds hs)
    | inr e ↦ ground (arith, marks-Fits id ds hs)
  ]

  append_made :
      (d : Dict J) (file : File) (uuid : String) (token : Bytes)
      → encrypt c secret (c.dumps (stored c uuid d)) ≡ some token
      → append c secret uuid d file
        ≡ (some (stored c uuid d), some (content_of file ++ token ++ 10 ∷ []))
  unfolding append
  append_made d file uuid token made = ground arith

  mark_found :
      (id : String) (file : File) (es : List (Dict J))
      → read_all c secret file ≡ some es
      → any (has_id c id) es ≡ true
      → mark_sent c secret id file ≡ (
        (rewrite c secret (map (mark c id) es)).0,
        some (rewrite c secret (map (mark c id) es)).1,
      )
  unfolding mark_sent
  mark_found id file es read found = ground arith

  mark_absent :
      (id : String) (file : File) (es : List (Dict J))
      → read_all c secret file ≡ some es
      → any (has_id c id) es ≡ false
      → mark_sent c secret id file ≡ (true, file)
  unfolding mark_sent
  mark_absent id file es read absent = ground arith

  pub append-Stores :
      (log : List (Dict J)) (file : File) (uuid : String) (d : Dict J)
      → Stores log file
      → Fits (stored c uuid d)
      → ((append c secret uuid d file).0 ≡ some (stored c uuid d))
        × Stores (log ++ stored c uuid d ∷ []) (append c secret uuid d file).1
  append-Stores log file uuid d (ds, fits, same, content) fit =
      let (token, made, _, _, _) = entry_token (stored c uuid d) fit in
      rw (append_made d file uuid token made) (
        refl,
        (
          ds ++ stored c uuid d ∷ [],
          append-Fits ds (stored c uuid d) fits fit,
          AllSame-append ds log (stored c uuid d) same,
          append_assoc (content_of file) token (10 ∷ [])
              ∙ ap (λ b. b ++ (token ++ 10 ∷ [])) content
              ∙ sym (rewrite-append ds (stored c uuid d) token fits made),
        ),
      )

  pub mark_sent-Stores :
      (log : List (Dict J)) (file : File) (id : String)
      → Stores log file
      → ((mark_sent c secret id file).0 ≡ true)
        × Stores (map (mark c id) log) (mark_sent c secret id file).1
  mark_sent-Stores log file id held =
      let (es, read, es_fit, es_same) = read_back log file held in
      let (done, _, _, _, _) = written (map (mark c id) es) (marks-Fits id es es_fit) in
      let same = marks-AllSame c id es log es_same in
      let (ds, fits, ds_same, content) = held in
      elim (Bool-cases (any (has_id c id) es)) [
        | inl found ↦
            rw (mark_found id file es read found)
              (done, (map (mark c id) es, marks-Fits id es es_fit, same, refl))
        | inr absent ↦ rw (mark_absent id file es read absent) (
          refl,
          (
            ds,
            fits,
            AllSame-trans ds log (map (mark c id) log) ds_same (
                AllSame-trans log es (map (mark c id) log) (AllSame-sym es log es_same)
                  (subst (λ xs. AllSame xs (map (mark c id) log)) (no_marks c id es absent) same)),
            content,
          ),
        )
      ]
