-- ===== src/Machine/Queue.antt =====
-- services/python/cortex-sentinel-machine/app/transport/queue.py: the queue file on which a machine
-- keeps the records that it has to send. Digests, base64 and JSON are the libraries' and are
-- arguments here. A file is the bytes in it, or `none` where it does not exist.
pub mod Mask
pub mod Lines
pub mod Same
pub mod Log
pub mod Runs
pub mod Sample
use Prim.Native.Nat.{bit_xor}
use c_e.Common.{
  ℕ, zero, suc, ◌/◌, ◌%◌, ◌^◌, Bool, true, false, not, String, List, [], ◌∷◌, ◌++◌, Option, none,
  some, if◌then◌else◌, ltb, ◌==◌, length, take, filter, any, map,
}
use c_e.Common.Dict.{Dict, lookup, insert}

abbrev pub Bytes : Type 0
Bytes = List ℕ

abbrev pub File : Type 0
File = Option Bytes

-- What the queue uses of `hashlib`, `base64` and `json`, and of the JSON values in a record. A
-- `none` is an exception.
pub record Codec (J : Type 0) : Type 0 where
  pub sha256 : Bytes → Bytes
  pub urlsafe_b64encode : Bytes → Bytes
  pub urlsafe_b64decode : Bytes → Option Bytes
  -- `json.dumps(record, sort_keys=True).encode("utf-8")` and `json.loads(payload)`
  pub dumps : Dict J → Bytes
  pub loads : Bytes → Option (Dict J)
  pub text : String → J
  pub boolean : Bool → J
  -- `value == text`, and whether a value counts as true
  pub is_text : J → String → Bool
  pub truthy : J → Bool

abbrev pub and_then {ℓ} : {A B : Type ℓ} → Option A → (A → Option B) → Option B
and_then none f = none
and_then (some a) f = f a

-- `counter.to_bytes(4, "big")`
abbrev pub big_endian : ℕ → Bytes
big_endian n = (n / 2 ^ 24) ∷ (n / 2 ^ 16 % 256) ∷ (n / 2 ^ 8 % 256) ∷ (n % 256) ∷ []

abbrev pub counter_bytes : ℕ → Option Bytes
counter_bytes n = if ltb n (2 ^ 32) then some (big_endian n) else none

-- `bytes(left ^ right for left, right in zip(payload, mask))`
unfoldable pub xor_bytes : Bytes → Bytes → Bytes
xor_bytes (x ∷ xs) (y ∷ ys) = bit_xor x y ∷ xor_bytes xs ys
xor_bytes _ _ = []

abbrev extend : ℕ → List Bytes → List Bytes
extend x [] = (x ∷ []) ∷ []
extend x (line ∷ lines) = (x ∷ line) ∷ lines

-- `splitlines()`: a line ends at a line feed, a carriage return, or the two in a row. The flag says
-- that the byte before was a carriage return.
unfoldable pub lines_after : Bool → Bytes → List Bytes
lines_after returned [] = []
lines_after returned (x ∷ xs) =
    let rest = lines_after (x == 13) xs in
    if x == 10
    then if returned then rest else [] ∷ rest
    else if x == 13
    then [] ∷ rest
    else extend x rest

abbrev pub split_lines : Bytes → List Bytes
split_lines = lines_after false

-- `{**base, **record}`
unfoldable pub overlay {ℓ} : {V : Type ℓ} → Dict V → Dict V → Dict V
overlay base [] = base
overlay base ((k, v) ∷ entry) = overlay (insert k v base) entry

abbrev pub content_of : File → Bytes
content_of none = []
content_of (some content) = content

module _ {J : Type 0} (c : Codec J) where
  -- `record.get("sent", False)`
  abbrev pub is_sent : Dict J → Bool
  is_sent entry = elim (lookup "sent" entry) [ none ↦ false | some v ↦ c.truthy v ]

  abbrev pub waiting : List (Dict J) → List (Dict J)
  waiting = filter (λ entry. not (is_sent entry))

  abbrev pub stored : String → Dict J → Dict J
  stored uuid entry = overlay (("record_id", c.text uuid) ∷ ("sent", c.boolean false) ∷ []) entry

  -- `record.get("record_id") == record_id`
  abbrev pub has_id : String → Dict J → Bool
  has_id id entry = elim (lookup "record_id" entry) [ none ↦ false | some v ↦ c.is_text v id ]

  -- `record["sent"] = True` in each record of the id
  abbrev pub mark : String → Dict J → Dict J
  mark id entry = if has_id id entry then insert "sent" (c.boolean true) entry else entry

  -- The loop of `_mask`: the chunks so far are joined, and an int too big for four bytes raises.
  unfoldable pub mask_loop : Bytes → ℕ → ℕ → ℕ → Bytes → Option Bytes
  mask_loop seed n zero counter joined = if ltb (length joined) n then none else some joined
  mask_loop seed n (suc fuel) counter joined =
      if ltb (length joined) n
      then elim (counter_bytes counter) [
        | none ↦ none
        | some count ↦ mask_loop seed n fuel (suc counter) (joined ++ c.sha256 (seed ++ count))
      ]
      else some joined

  module _ (secret : Bytes) where
    unfoldable pub mask : ℕ → Option Bytes
    mask n = and_then (mask_loop (c.sha256 secret) n n 0 []) (λ joined. some (take n joined))

    unfoldable pub encrypt : Bytes → Option Bytes
    encrypt payload =
        and_then (mask (length payload)) (λ m. some (c.urlsafe_b64encode (xor_bytes payload m)))

    unfoldable pub decrypt : Bytes → Option Bytes
    decrypt token =
        and_then (c.urlsafe_b64decode token)
          (λ ciphertext. and_then (mask (length ciphertext)) (λ m. some (xor_bytes ciphertext m)))

    -- The loop of `read_all` over the lines of the file.
    unfoldable pub read_lines : List Bytes → Option (List (Dict J))
    read_lines [] = some []
    read_lines ([] ∷ lines) = read_lines lines
    read_lines ((x ∷ line) ∷ lines) =
        let rest = read_lines lines in
        and_then (and_then (decrypt (x ∷ line)) c.loads)
          (λ entry. and_then rest (λ entries. some (entry ∷ entries)))

    unfoldable pub read_all : File → Option (List (Dict J))
    read_all none = some []
    read_all (some content) = read_lines (split_lines content)

    unfoldable pub pending : File → Option (List (Dict J))
    pending file = and_then (read_all file) (λ entries. some (waiting entries))

    unfoldable pub depth : File → Option ℕ
    depth file = and_then (pending file) (λ entries. some (length entries))

    -- The record as stored, or an exception, and the file that is left.
    unfoldable pub append : String → Dict J → File → Option (Dict J) × File
    append uuid entry file = elim (encrypt (c.dumps (stored uuid entry))) [
      | none ↦ (none, file)
      | some token ↦ (some (stored uuid entry), some (content_of file ++ token ++ 10 ∷ []))
    ]

    -- The bytes that `_rewrite` has written when it ends, and whether it wrote every record.
    unfoldable pub rewrite : List (Dict J) → Bool × Bytes
    rewrite [] = (true, [])
    rewrite (entry ∷ entries) =
        let rest = rewrite entries in
        elim (encrypt (c.dumps entry)) [
          | none ↦ (false, [])
          | some token ↦ (rest.0, token ++ 10 ∷ rest.1)
        ]

    -- Whether it returned, and the file that is left.
    unfoldable pub mark_sent : String → File → Bool × File
    mark_sent id file = elim (read_all file) [
      | none ↦ (false, file)
      | some entries ↦
          (if any (has_id id) entries
            then ((rewrite (map (mark id) entries)).0, some (rewrite (map (mark id) entries)).1)
            else (true, file))
    ]
