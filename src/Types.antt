-- ===== src/Types.antt =====
-- types/eth.go: addresses, hashes and hexadecimal data, as texts of hexadecimal digits.
pub mod Widths
pub mod HexNumber
pub mod Tests
use signers.Base.{
  ℕ, zero, suc, ◌+◌, ◌-◌, ◌*◌, ◌/◌, ◌%◌, Bool, true, false, ◌&&◌, List, [], ◌∷◌, ◌++◌, Option, none,
  some, length, replicate, ltb, leb, if◌then◌else◌, ◌||◌, ◌==◌,
}
use signers.Base.Text.{Text, codes, digit, text_eq}
use signers.Base.Exec.{Result, ok, err, failed}

-- `s[2:]` after a prefix "0x".
unfoldable pub strip_0x : Text → Text
strip_0x (a ∷ b ∷ s) = if text_eq (a ∷ b ∷ []) (codes "0x") then s else a ∷ b ∷ s
strip_0x (a ∷ []) = a ∷ []
strip_0x [] = []

-- `s[:n]`, for n at most the length.
abbrev pub take {ℓ} : {A : Type ℓ} → ℕ → List A → List A
take zero xs = []
take (suc n) [] = []
take (suc n) (x ∷ xs) = x ∷ take n xs

-- What NewAddress (40) and NewHash (64) have in common; "%040v" pads with zeros on the left. The
-- text is ASCII: for other texts the padding counts characters, and not bytes.
unfoldable pub new_padded : ℕ → Text → Text
unfolding strip_0x
new_padded width text =
    let s = strip_0x text in
    if ltb width (length s) then take width s else replicate (width - length s) 48 ++ s

unfoldable pub new_address : Text → Text
unfolding new_padded
new_address = new_padded 40

unfoldable pub new_hash : Text → Text
unfolding new_padded
new_hash = new_padded 64

-- String and Hex of an Address, a Hash and a HexData, and the text that MarshalJSON writes.
unfoldable pub hex : Text → Text
hex s = codes "0x" ++ s

unfoldable pub is_empty_address : Text → Bool
is_empty_address s = text_eq s [] || text_eq s (replicate 40 48)

unfoldable pub is_empty_hash : Text → Bool
is_empty_hash s = text_eq s [] || text_eq s (replicate 64 48)

-- encoding/hex: the value of a digit in either case.
unfoldable pub digit_value : ℕ → Option ℕ
digit_value c =
    if leb 48 c && leb c 57
    then some (c - 48)
    else if leb 97 c && leb c 102
    then some (c - 87)
    else if leb 65 c && leb c 70
    then some (c - 55)
    else none

abbrev with_byte : Option ℕ → Option ℕ → Result (List ℕ) → Result (List ℕ)
with_byte (some high) (some low) (ok bytes) = ok ((16 * high + low) ∷ bytes)
with_byte (some high) (some low) (err e) = err e
with_byte none low bytes = err failed
with_byte (some high) none bytes = err failed

-- hex.DecodeString: pairs of digits; an odd length is an error.
unfoldable pub decode_hex : Text → Result (List ℕ)
unfolding digit_value
decode_hex [] = ok []
decode_hex (a ∷ []) = err failed
decode_hex (a ∷ b ∷ s) = let rest = decode_hex s in with_byte (digit_value a) (digit_value b) rest

-- hex.EncodeToString
unfoldable pub encode_hex : List ℕ → Text
unfolding digit
encode_hex [] = []
encode_hex (b ∷ bytes) = digit 97 (b / 16) ∷ digit 97 (b % 16) ∷ encode_hex bytes

unfoldable pub from_hex : Text → Result (List ℕ)
unfolding decode_hex strip_0x
from_hex text = decode_hex (strip_0x text)

abbrev padded_bytes : ℕ → Result (List ℕ) → Result Text
padded_bytes width (ok bytes) = ok (new_padded width (encode_hex bytes))
padded_bytes width (err e) = err e

-- UnmarshalJSON, after json.Unmarshal of the text.
unfoldable pub unmarshal_address : Text → Result Text
unfolding from_hex
unmarshal_address text = padded_bytes 40 (from_hex text)

unfoldable pub unmarshal_hash : Text → Result Text
unfolding from_hex
unmarshal_hash text = padded_bytes 64 (from_hex text)

unfoldable pub new_hex_data : Text → Text
unfolding strip_0x
new_hex_data = strip_0x

abbrev plain_bytes : Result (List ℕ) → Result Text
plain_bytes (ok bytes) = ok (encode_hex bytes)
plain_bytes (err e) = err e

unfoldable pub unmarshal_hex_data : Text → Result Text
unfolding from_hex
unmarshal_hex_data text = plain_bytes (from_hex text)

abbrev prefix_byte : Option ℕ → Option ℕ → List ℕ → List ℕ
prefix_byte (some high) (some low) bytes = (16 * high + low) ∷ bytes
prefix_byte none low bytes = []
prefix_byte (some high) none bytes = []

-- AsBytes: the error of hex.DecodeString is dropped, and what it had decoded before is returned.
unfoldable pub as_bytes : Text → List ℕ
unfolding digit_value
as_bytes [] = []
as_bytes (a ∷ []) = []
as_bytes (a ∷ b ∷ s) = let rest = as_bytes s in prefix_byte (digit_value a) (digit_value b) rest

unfoldable pub is_empty_data : Text → Bool
unfolding as_bytes
is_empty_data s = length (as_bytes s) == 0
