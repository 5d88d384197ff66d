-- ===== src/Types/Widths.antt =====
-- The width of addresses and hashes, and their texts read back (types/eth.go).
use signers.Base.{
  ℕ, zero, suc, ◌+◌, ◌-◌, ◌*◌, ◌/◌, ◌%◌, ◌≤◌, ◌<◌, ◌≡◌, refl, ap, ◌∙◌, false, List, [], ◌∷◌, some,
  length, replicate, ltb, All, arith, Bool-cases, inl, inr, length-append,
}
use signers.Base.Text.{Text, digit, text_eq}
use signers.Base.Exec.{ok}
use signers.Types.{
  strip_0x, take, new_padded, new_address, new_hash, hex, digit_value, decode_hex, encode_hex,
  from_hex, padded_bytes, unmarshal_address, unmarshal_hash, unmarshal_hex_data,
}

length-take {ℓ} : {A : Type ℓ} (n : ℕ) (xs : List A) → n ≤ length xs → length (take n xs) ≡ n
length-take zero xs h = refl
length-take (suc n) [] h = absurd (omega arith)
length-take (suc n) (x ∷ xs) h = ap suc (length-take n xs (omega arith))

length-replicate {ℓ} : {A : Type ℓ} (n : ℕ) (a : A) → length (replicate n a) ≡ n
length-replicate zero a = refl
length-replicate (suc n) a = ap suc (length-replicate n a)

length-new_padded : (width : ℕ) (text : Text) → length (new_padded width text) ≡ width
unfolding new_padded
length-new_padded width text =
    let s = strip_0x text in
    elim (Bool-cases (ltb width (length s))) [
      | inl long ↦ rw long (length-take width s (ground arith))
      | inr short ↦ rw short (
          length-append (replicate (width - length s) 48) s
          ∙ omega
              (arith, length-replicate {A = ℕ} (width - length s) 48, below width (length s) short))
    ]
  where
    below : (m n : ℕ) → ltb m n ≡ false → n ≤ m
    below m n h = ground arith

-- Whatever the text, NewAddress gives 40 characters and NewHash 64.
pub length-new_address_hash :
    (text : Text) → (length (new_address text) ≡ 40) × (length (new_hash text) ≡ 64)
unfolding new_address new_hash
length-new_address_hash text = (length-new_padded 40 text, length-new_padded 64 text)

digit_value-digit : (d : ℕ) → d < 16 → digit_value (digit 97 d) ≡ some d
unfolding digit_value digit
digit_value-digit d small = ground arith

join : (b : ℕ) → 16 * (b / 16) + b % 16 ≡ b
join b = omega arith

decode_hex-encode_hex :
    (bytes : List ℕ) → All (λ b. b < 256) bytes → decode_hex (encode_hex bytes) ≡ ok bytes
unfolding decode_hex encode_hex
decode_hex-encode_hex [] small = refl
decode_hex-encode_hex (b ∷ bytes) (small, others) =
    rw
      (
        digit_value-digit (b / 16) (omega arith),
        digit_value-digit (b % 16) (omega arith),
        decode_hex-encode_hex bytes others,
      )
      (ap (λ c. ok (c ∷ bytes)) (join b))

strip_0x-encode_hex :
    (bytes : List ℕ) → All (λ b. b < 256) bytes → strip_0x (encode_hex bytes) ≡ encode_hex bytes
unfolding strip_0x encode_hex text_eq digit
strip_0x-encode_hex [] small = refl
strip_0x-encode_hex (b ∷ bytes) (small, others) = ground arith

from_hex-hex :
    (bytes : List ℕ) → All (λ b. b < 256) bytes → from_hex (hex (encode_hex bytes)) ≡ ok bytes
unfolding from_hex hex strip_0x text_eq
from_hex-hex bytes small = decode_hex-encode_hex bytes small

length-encode_hex : (bytes : List ℕ) → length (encode_hex bytes) ≡ length bytes + length bytes
unfolding encode_hex
length-encode_hex [] = refl
length-encode_hex (b ∷ bytes) = omega (arith, length-encode_hex bytes)

new_padded-exact :
    (width : ℕ) (s : Text) → length s ≡ width → strip_0x s ≡ s → new_padded width s ≡ s
unfolding new_padded
new_padded-exact width s exact plain =
    let fits : ltb width (length s) ≡ false = ground arith in
    let none_missing : width - length s ≡ 0 = omega arith in rw (plain, fits, none_missing) refl

unmarshal_padded :
    (width : ℕ) (bytes : List ℕ)
    → All (λ b. b < 256) bytes
    → length bytes + length bytes ≡ width
    → padded_bytes width (from_hex (hex (encode_hex bytes))) ≡ ok (encode_hex bytes)
unmarshal_padded width bytes small exact = rw (from_hex-hex bytes small) (
    ap ok (
      new_padded-exact width (encode_hex bytes) (length-encode_hex bytes ∙ exact)
        (strip_0x-encode_hex bytes small)))

-- UnmarshalJSON reads back what MarshalJSON writes: for an address of 20 bytes, a hash of 32 bytes
-- and data of any length, the text with its prefix "0x" gives the same digits again.
pub unmarshal-hex :
    (address hash data' : List ℕ)
    → All (λ b. b < 256) address
    → All (λ b. b < 256) hash
    → All (λ b. b < 256) data'
    → length address ≡ 20
    → length hash ≡ 32
    → (unmarshal_address (hex (encode_hex address)) ≡ ok (encode_hex address))
      × (unmarshal_hash (hex (encode_hex hash)) ≡ ok (encode_hex hash))
      × (unmarshal_hex_data (hex (encode_hex data')) ≡ ok (encode_hex data'))
unfolding unmarshal_address unmarshal_hash unmarshal_hex_data
unmarshal-hex address hash data' small small' small'' exact exact' = (
  unmarshal_padded 40 address small (omega arith),
  unmarshal_padded 64 hash small' (omega arith),
  rw (from_hex-hex data' small'') refl,
)
