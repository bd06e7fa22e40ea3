-- ===== src/Machine/Queue/Mask.antt =====
-- The mask of the queue's cipher.
use Prim.Native.Nat.{bit_xor}
use c_e.Common.{
  if◌then◌else◌, ==_iff, ℕ, zero, suc, ◌+◌, ◌*◌, ◌^◌, ◌≤◌, ◌<◌, Bool, true, false, [], ◌∷◌, ◌++◌,
  some, ◌≡◌, refl, arith, ◌&&◌, ◌==◌, length, length-append, take, All, ltb, Bool-cases, inl, inr,
  ltb→lt,
}
use c_e.Machine.Queue.{
  Bytes, Codec, counter_bytes, big_endian, xor_bytes, mask_loop, mask, encrypt, decrypt,
}

-- For how many numbers under the bound a test fails.
failures : (ℕ → Bool) → ℕ → ℕ
failures test zero = 0
failures test (suc bound) = (if test bound then 0 else 1) + failures test bound

no_failures : (test : ℕ → Bool) (bound n : ℕ) → n < bound → failures test bound ≡ 0 → test n ≡ true
unfolding failures
no_failures test zero n small none_fail = absurd (omega arith)
no_failures test (suc bound) n small none_fail = ground (arith, no_failures test bound n)

-- Masking twice by one byte gives the first byte back, and masking once gives a byte.
abbrev masks_back : ℕ → ℕ → Bool
masks_back byte m = bit_xor (bit_xor byte m) m == byte && ltb (bit_xor byte m) 256

no_byte_fails : failures (λ byte. failures (masks_back byte) 256 == 0) 256 ≡ 0
unfolding failures
no_byte_fails = refl

byte-masks_back : (byte m : ℕ) → byte < 256 → m < 256 → masks_back byte m ≡ true
byte-masks_back byte m hx hm = no_failures (masks_back byte) 256 m hm (
    (==_iff (failures (masks_back byte) 256) 0).0
      (no_failures (λ x. failures (masks_back x) 256 == 0) 256 byte hx no_byte_fails))

abbrev pub IsBytes : Bytes → Type 0
IsBytes = All (λ x. x < 256)

-- A mask that is as long as the bytes changes no length, and is undone by itself.
xor_bytes_back :
    (xs ms : Bytes)
    → IsBytes xs
    → IsBytes ms
    → length ms ≡ length xs
    → (xor_bytes (xor_bytes xs ms) ms ≡ xs)
      × IsBytes (xor_bytes xs ms)
      × (length (xor_bytes xs ms) ≡ length xs)
unfolding xor_bytes
xor_bytes_back [] ms hx hm e = (refl, tt, refl)
xor_bytes_back (x ∷ xs) [] hx hm e = absurd (omega arith)
xor_bytes_back (x ∷ xs) (m ∷ ms) (hx, hxs) (hm, hms) e =
    let (back, bytes, same) = xor_bytes_back xs ms hxs hms (omega arith) in
    ground (arith, byte-masks_back x m hx hm)

length-take : (n : ℕ) (xs : Bytes) → n ≤ length xs → length (take n xs) ≡ n
length-take zero xs h = refl
length-take (suc n) [] h = absurd (omega arith)
length-take (suc n) (x ∷ xs) h = omega (arith, length-take n xs (omega arith))

take-IsBytes : (n : ℕ) (xs : Bytes) → IsBytes xs → IsBytes (take n xs)
take-IsBytes zero xs h = tt
take-IsBytes (suc n) [] h = tt
take-IsBytes (suc n) (x ∷ xs) (h, hs) = (h, take-IsBytes n xs hs)

append-IsBytes : (xs ys : Bytes) → IsBytes xs → IsBytes ys → IsBytes (xs ++ ys)
append-IsBytes [] ys h k = k
append-IsBytes (x ∷ xs) ys (h, hs) k = (h, append-IsBytes xs ys hs k)

-- What SHA-256 gives: 32 bytes.
pub record IsSha256 {J : Type 0} (c : Codec J) : Type 0 where
  pub length-sha256 : (xs : Bytes) → length (c.sha256 xs) ≡ 32
  pub sha256-IsBytes : (xs : Bytes) → IsBytes (c.sha256 xs)

-- The longest payload for which the counter fits in four bytes.
abbrev pub longest : ℕ
longest = 2 ^ 37

counter_fits : (n : ℕ) → n < 2 ^ 32 → (b : Bytes) × (counter_bytes n ≡ some b)
counter_fits n h = (big_endian n, ground arith)

module _ {J : Type 0} (c : Codec J) (digest : IsSha256 c) where
  open digest use {length-sha256, sha256-IsBytes}

  mask_loop_ends :
      (seed : Bytes) (n fuel counter : ℕ) (joined : Bytes)
      → n ≤ longest
      → length joined ≡ 32 * counter
      → n ≤ length joined + 32 * fuel
      → IsBytes joined
      → (m : Bytes) × (mask_loop c seed n fuel counter joined ≡ some m) × (n ≤ length m) × IsBytes m
  unfolding mask_loop
  mask_loop_ends seed n zero counter joined small size enough bytes =
      (joined, ground arith, omega arith, bytes)
  mask_loop_ends seed n (suc fuel) counter joined small size enough bytes =
      elim (Bool-cases (ltb (length joined) n)) [
        | inr e ↦ (joined, ground arith, ground arith, bytes)
        | inl e ↦
            let lt = ltb→lt _ _ e in
            let (b, counted) = counter_fits counter (omega arith) in
            let d = c.sha256 (seed ++ b) in
            let (m, eq, long, all_bytes) =
              mask_loop_ends seed n fuel (suc counter) (joined ++ d) small
                (omega (arith, length-append joined d, length-sha256 (seed ++ b)))
                (omega (arith, length-append joined d, length-sha256 (seed ++ b)))
                (append-IsBytes joined d bytes (sha256-IsBytes (seed ++ b))) in
            (m, ground arith, long, all_bytes)
      ]

  -- A payload of at most 128 GiB has a mask, and the mask is as long as the payload.
  mask_lem :
      (secret : Bytes) (n : ℕ)
      → n ≤ longest
      → (m : Bytes) × (mask c secret n ≡ some m) × (length m ≡ n) × IsBytes m
  unfolding mask
  mask_lem secret n small =
      let (m, eq, long, bytes) =
        mask_loop_ends (c.sha256 secret) n n 0 [] small (omega arith) (omega arith) tt in
      (take n m, ground arith, length-take n m long, take-IsBytes n m bytes)

-- What URL-safe base64 gives: a text on one line that decodes to the bytes.
abbrev pub OnOneLine : Bytes → Type 0
OnOneLine = All (λ x. ((x == 10) ≡ false) × ((x == 13) ≡ false))

pub record IsBase64 {J : Type 0} (c : Codec J) : Type 0 where
  pub decode-encode :
      (xs : Bytes) → IsBytes xs → c.urlsafe_b64decode (c.urlsafe_b64encode xs) ≡ some xs
  pub encode-OnOneLine : (xs : Bytes) → IsBytes xs → OnOneLine (c.urlsafe_b64encode xs)
  pub length-encode : (xs : Bytes) → length xs ≤ length (c.urlsafe_b64encode xs)

module _ {J : Type 0} (c : Codec J) (digest : IsSha256 c) (base64 : IsBase64 c) where
  open base64 use {decode-encode, encode-OnOneLine, length-encode}

  -- Given that SHA-256 digests are 32 bytes and that base64 encodes to one line, decodes what it encodes, and shortens nothing:
  -- every payload of at most 128 GiB is encrypted, without an exception, to a token on one line
  -- that decrypts under the same secret to the payload and is at least as long as it.
  pub decrypt-encrypt :
      (secret payload : Bytes)
      → IsBytes payload
      → length payload ≤ longest
      → (token : Bytes) × (encrypt c secret payload ≡ some token)
        × (decrypt c secret token ≡ some payload)
        × OnOneLine token
        × (length payload ≤ length token)
  unfolding encrypt decrypt
  decrypt-encrypt secret payload bytes small =
      let (m, masked, same, mask_bytes) = mask_lem c digest secret (length payload) small in
      let (back, cipher_bytes, long) = xor_bytes_back payload m bytes mask_bytes same in
      let cipher = xor_bytes payload m in
      (
        c.urlsafe_b64encode cipher,
        ground arith,
        rw (decode-encode cipher cipher_bytes, long, masked, back) refl,
        encode-OnOneLine cipher cipher_bytes,
        omega (arith, length-encode cipher),
      )
