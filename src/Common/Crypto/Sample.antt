-- ===== src/Common/Crypto/Sample.antt =====
-- Two keys, a hash that sums its input, signatures that repeat the key and the hash, and real
-- hexadecimal digits: instances that meet the laws of `Digest` and `Ed25519`, for the tests.
use decentralized_hive_mind.Prelude.{
  ℕ, zero, suc, ◌+◌, ◌-◌, ◌*◌, ◌/◌, ◌%◌, ◌<◌, ◌≡◌, refl, Bool, true, false, Option, none, some, [],
  ◌∷◌, Text, Bytes, len, length, replicate, ltb, leb, ◌&&◌, ◌==◌, if◌then◌else◌, ◌>>=◌, arith,
}
use decentralized_hive_mind.Common.Crypto.{IsBytes, Digest, Ed25519}

abbrev pub sum_bytes : Bytes → ℕ
sum_bytes [] = 0
sum_bytes (b ∷ bs) = (b + 3 * sum_bytes bs + 1) % 256

abbrev pub digit : ℕ → ℕ
digit d = if ltb d 10 then b'0' + d else b'a' + (d - 10)

abbrev pub undigit : ℕ → Option ℕ
undigit c =
    if leb b'0' c && leb c b'9'
    then some (c - b'0')
    else if leb b'a' c && leb c b'f'
    then some (c - b'a' + 10)
    else none

abbrev pub encode : Bytes → Text
encode [] = []
encode (b ∷ bs) = digit (b / 16) ∷ digit (b % 16) ∷ encode bs

abbrev pub decode : Text → Option Bytes
decode [] = some []
decode (c ∷ []) = none
decode (c ∷ d ∷ s) = do
  hi ← undigit c
  lo ← undigit d
  rest ← decode s
  some ((hi * 16 + lo) ∷ rest)

undigit-digit : (d : ℕ) → d < 16 → undigit (digit d) ≡ some d
undigit-digit d h = ground arith

pub decode-encode : (b : Bytes) → IsBytes b → decode (encode b) ≡ some b
decode-encode [] h = refl
decode-encode (b ∷ bs) h =
    ground (arith, undigit-digit (b / 16), undigit-digit (b % 16), decode-encode bs h.1)

pub len-encode : (b : Bytes) → IsBytes b → len (encode b) ≡ 2 * length b
unfolding len
len-encode [] h = refl
len-encode (b ∷ bs) h = ground (arith, len-encode bs h.1)

abbrev pub mark : Bool → ℕ
mark true = 1
mark false = 0

pub IsBytes-replicate : (n b : ℕ) → b < 256 → IsBytes (replicate n b)
IsBytes-replicate zero b h = tt
IsBytes-replicate (suc n) b h = (h, IsBytes-replicate n b h)

-- The key that a keypair or a verifying key repeats.
abbrev pub unmark : Bytes → Option Bool
unmark [] = none
unmark (b ∷ _) = some (b == 1)

abbrev pub sign : Bool → Bytes → Bytes
sign k m = mark k ∷ sum_bytes m ∷ replicate 62 0

abbrev pub verify : Bytes → Bytes → Bytes → Bool
verify (k ∷ _) m (a ∷ h ∷ _) = (k == a) && (h == sum_bytes m)
verify _ _ _ = false

abbrev pub keypair : Bool → Bytes
keypair k = replicate 64 (mark k)

abbrev pub public_key : Bool → Bytes
public_key k = replicate 32 (mark k)

pub unmark-keypair : (k : Bool) → unmark (keypair k) ≡ some k
unmark-keypair true = refl
unmark-keypair false = refl

mark_lt : (k : Bool) → mark k < 256
mark_lt k = ground arith

pub keypair-IsBytes : (k : Bool) → IsBytes (keypair k)
keypair-IsBytes k = IsBytes-replicate 64 (mark k) (mark_lt k)

pub public_key-IsBytes : (k : Bool) → IsBytes (public_key k)
public_key-IsBytes k = IsBytes-replicate 32 (mark k) (mark_lt k)

sum_bytes_lt : (m : Bytes) → sum_bytes m < 256
sum_bytes_lt [] = omega arith
sum_bytes_lt (b ∷ bs) = omega arith

pub sign_bytes : (k : Bool) (m : Bytes) → IsBytes (sign k m)
sign_bytes k m = (mark_lt k, (sum_bytes_lt m, IsBytes-replicate 62 0 (omega arith)))

pub length-keypair : (k : Bool) → length (keypair k) ≡ 64
length-keypair k = refl

pub length-public_key : (k : Bool) → length (public_key k) ≡ 32
length-public_key k = refl

pub length-sign : (k : Bool) (m : Bytes) → length (sign k m) ≡ 64
length-sign k m = refl

abbrev pub is_point : Bytes → Bool
is_point pk = length pk == 32

pub public_key_point : (k : Bool) → is_point (public_key k) ≡ true
public_key_point k = refl

pub verify-sign : (k : Bool) (m : Bytes) → verify (public_key k) m (sign k m) ≡ true
verify-sign k m = ground arith

instance abbrev pub sample_digest : Digest
sample_digest = record {
  sha256 = λ m. sum_bytes m ∷ [];
  hex_encode = encode;
  hex_decode = decode;
  decode-encode = decode-encode;
  len-hex_encode = len-encode;
}

instance abbrev pub sample : Ed25519 Bool
sample = record {
  from_keypair_bytes = unmark;
  to_keypair_bytes = keypair;
  verifying_key = public_key;
  is_point = is_point;
  sign = sign;
  verify = verify;
  keypair_bytes = keypair-IsBytes;
  length-keypair_bytes = length-keypair;
  from-to_keypair_bytes = unmark-keypair;
  verifying_key_bytes = public_key-IsBytes;
  length-verifying_key = length-public_key;
  verifying_key_point = public_key_point;
  signature_bytes = sign_bytes;
  length-sign = length-sign;
  verify-sign = verify-sign;
}
