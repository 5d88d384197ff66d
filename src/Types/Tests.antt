-- ===== src/Types/Tests.antt =====
-- Runs of the model of types/eth.go.
use signers.Base.{ℕ, zero, suc, ◌<◌, ◌^◌, ◌-◌, All, ◌≡◌, refl, List, [], ◌∷◌, replicate, arith}
use signers.Base.Text.{codes}
use signers.Base.Exec.{ok, err, failed}
use signers.Types.{hex, encode_hex, unmarshal_address, unmarshal_hash, unmarshal_hex_data}
use signers.Types.HexNumber.{marshal_number, unmarshal_number}
use signers.Types.HexNumber.RoundTrip.{unmarshal-marshal}
use signers.Types.HexNumber.Exact.{exact, if_fits, unmarshal_number-exact}
use signers.Types.Widths.{unmarshal-hex}

abbrev twenty : List ℕ
twenty = replicate 20 17

abbrev thirty_two : List ℕ
thirty_two = replicate 32 0

small_bytes : (n b : ℕ) → b < 256 → All (λ x. x < 256) (replicate n b)
small_bytes zero b small = tt
small_bytes (suc n) b small = (small, small_bytes n b small)

unmarshal-hex_example :
    (unmarshal_address (hex (encode_hex twenty)) ≡ ok (encode_hex twenty))
    × (unmarshal_hash (hex (encode_hex thirty_two)) ≡ ok (encode_hex thirty_two))
    × (unmarshal_hex_data (hex (encode_hex (255 ∷ []))) ≡ ok (encode_hex (255 ∷ [])))
unmarshal-hex_example =
    unmarshal-hex twenty thirty_two (255 ∷ []) (small_bytes 20 17 (omega arith))
      (small_bytes 32 0 (omega arith)) (omega arith, tt) refl refl

unmarshal-marshal_example : unmarshal_number (marshal_number 21000) ≡ ok 21000
unmarshal-marshal_example = unmarshal-marshal 21000 (omega arith)

-- The prefixes, the underscores, the largest number and the next one.
numbers_read :
    (unmarshal_number (codes "0x12_34") ≡ ok 4660)
    × (unmarshal_number (codes "017") ≡ ok 15)
    × (unmarshal_number (codes "0B11") ≡ ok 3)
    × (unmarshal_number (codes "1__0") ≡ err failed)
    × (unmarshal_number (codes "0x") ≡ err failed)
    × (unmarshal_number (codes "18446744073709551615") ≡ ok (2 ^ 64 - 1))
    × (unmarshal_number (codes "18446744073709551616") ≡ err failed)
    × (unmarshal_number (codes "-1") ≡ err failed)
unfolding unmarshal_number
numbers_read = (refl, refl, refl, refl, refl, refl, refl, refl)

-- 16^16 is one more than a uint64 holds.
unmarshal_number-exact_example :
    unmarshal_number (codes "0x10000000000000000")
    ≡ if_fits (λ v. v) (exact (codes "10000000000000000") 0)
unmarshal_number-exact_example = unmarshal_number-exact 49 (codes "0000000000000000") (
  refl,
  (
    refl,
    (
      refl,
      (
        refl,
        (
          refl,
          (
            refl,
            (
              refl,
              (refl, (refl, (refl, (refl, (refl, (refl, (refl, (refl, (refl, (refl, tt)))))))))),
            ),
          ),
        ),
      ),
    ),
  ),
)
