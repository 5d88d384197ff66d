-- ===== src/Redt/Create/Order.antt =====
-- The order of the validator set that getValSet loads (redt/redt.go).
use mathlib.Core.List.{Perm}
use mathlib.Core.List.Perm
use mathlib.Core.Path.{subst}
use signers.Base.{◌≡◌, refl, ap, List, [], ◌∷◌, map, All}
use signers.Base.Text.{Text}
use signers.Base.Sort.{
  sort_strings, IsSorted, sort_strings-IsSorted, sort_strings-perm, All-sort_strings,
}
use signers.Base.Exec.{ok, returned}
use signers.Redt.Types.{Address, value, Geth}
use signers.Redt.Node.{Node, to_block_num_arg}
use signers.Base.Int.{negsuc}
use signers.Redt.Create.{sorted_val_set, get_val_set}

-- The checksummed text of an address reads back as that address.
abbrev pub RoundTrips : Geth → Type 0
RoundTrips g = (a : Address) → g.hex_to_address (g.address_hex a) ≡ a

module _ (g : Geth) (reads : RoundTrips g) where
  abbrev Canonical : Text → Type 0
  Canonical t = g.address_hex (g.hex_to_address t) ≡ t

  Canonical-All : (addrs : List Address) → All Canonical (map g.address_hex addrs)
  Canonical-All [] = tt
  Canonical-All (a ∷ addrs) = (ap g.address_hex (reads a), Canonical-All addrs)

  back_and_forth :
      (ts : List Text) → All Canonical ts → map g.address_hex (map g.hex_to_address ts) ≡ ts
  back_and_forth [] h = refl
  back_and_forth (t ∷ ts) h = cc (h.0, back_and_forth ts h.1)

  forth_and_back : (addrs : List Address) → map g.hex_to_address (map g.address_hex addrs) ≡ addrs
  forth_and_back [] = refl
  forth_and_back (a ∷ addrs) = cc (reads a, forth_and_back addrs)

  sorted_val_set-IsSorted :
      (vals : List Text) → IsSorted (map g.address_hex (sorted_val_set g vals))
  unfolding sorted_val_set
  sorted_val_set-IsSorted vals =
      let texts = map g.address_hex (map g.hex_to_address vals) in
      rw
        (back_and_forth (sort_strings texts)
          (All-sort_strings Canonical texts (Canonical-All (map g.hex_to_address vals))))
        (sort_strings-IsSorted texts)

  sorted_val_set-perm :
      (vals : List Text) → Perm (sorted_val_set g vals) (map g.hex_to_address vals)
  unfolding sorted_val_set
  sorted_val_set-perm vals =
      let addrs = map g.hex_to_address vals in
      subst (λ l. Perm (sorted_val_set g vals) l) (forth_and_back addrs)
        (Perm.map g.hex_to_address (sort_strings-perm (map g.address_hex addrs)))

  -- Where the node answers with a list of addresses, getValSet returns the same addresses, each as
  -- often, arranged so that their checksummed texts ascend in the order of their bytes.
  pub get_val_set-order :
      (s : Node g) (vals : List Text)
      → g.get_validators s.calls (to_block_num_arg (negsuc 0)) ≡ value vals
      → (addrs : List Address) × ((get_val_set g s).0 ≡ returned (ok addrs))
        × IsSorted (map g.address_hex addrs)
        × Perm addrs (map g.hex_to_address vals)
  unfolding get_val_set
  get_val_set-order s vals answered =
      (sorted_val_set g vals, rw answered, sorted_val_set-IsSorted vals, sorted_val_set-perm vals)
