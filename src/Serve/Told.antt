-- ===== src/Serve/Told.antt =====
-- The text of a page of `signers serve` (serve/index.go, redt/redt.go), said of the chain alone.
use mathlib.Core.Path.{ap₂}
use signers.Base.{
  ℕ, ◌+◌, ◌-◌, ◌%◌, ◌^◌, ◌≡◌, refl, Bool, true, false, List, [], ◌∷◌, ◌++◌, map, ◌==◌,
  if◌then◌else◌, contains,
}
use signers.Base.Int.{ℤ, pos, int64}
use signers.Base.Text.{Text, codes, decimal, text_eq}
use signers.Redt.Types.{Address, Geth}
use signers.Redt.Node.{Node}
use signers.Redt.Report.{print_int, badge, report_row}
use signers.Redt.Monitor.Steady.{Story, Steady}
use signers.Redt.Monitor.Notified.{tally}
use signers.Serve.Page.{
  signer_row, table_html, cell_text, row_text, rows_text, field_text, part_text, parts_text,
}
use signers.Serve.Pages.{entry, turn_after, after_blocks, report_of}
use signers.Serve.Windows.{page_of, pages_of}

-- A count with its mark: in a badge where it went up with this block, else red where it is 0.
unfoldable pub count_html : ℕ → Bool → Text
count_html n current =
    if current
    then codes "<span class='w3-badge'>" ++ (print_int n ++ codes "</span>")
    else if n == 0
    then codes "<span class='w3-badge w3-red'>" ++ (print_int n ++ codes "</span>")
    else print_int n

module _ (g : Geth) (story : Story) (show_time : ℤ → Text) (s : Node g) where
  open story use {chain, author, signers}

  -- The line of a validator on the page of block n, the last of the counted blocks `ns`: its
  -- proposals, marked if it is the author; its signatures, marked if it signed; and its name.
  unfoldable pub row_html : List ℕ → ℕ → Address → Text
  unfolding count_html
  row_html ns n v =
      let info = entry g story s v in
      let a = info.address in
      let proposals = (s.as_proposer a + tally (λ i. author i ∷ []) a ns) % 2 ^ 64 in
      let signatures = (s.as_signer a + tally signers a ns) % 2 ^ 64 in
      codes "\n                <tr>\n                    <td>"
      ++ (count_html proposals (text_eq (g.address_hex (author n)) (g.address_hex a))
          ++ (codes "</td>\n                    <td>"
              ++ (count_html signatures (contains a (signers n))
                  ++ (codes "</td>\n                    <td>"
                      ++ (info.operator
                          ++ codes "</td>\n                </tr>\n                ")))))

  unfoldable pub rows_html : List ℕ → ℕ → List Address → Text
  unfolding row_html
  rows_html ns n [] = []
  rows_html ns n (v ∷ vs) = row_html ns n v ++ rows_html ns n vs

  -- The page of block n, when the block shown before it has the time `latest`.
  unfoldable pub page_html : List ℕ → ℕ → ℕ → Text
  unfolding rows_html
  page_html ns latest n =
      codes "\n<div class=\"w3-container\">\n    <div>\n        <p>Block: "
      ++ (decimal n
          ++ (codes " ("
              ++ (decimal (((chain n).time + 2 ^ 64 - latest) % 2 ^ 64)
                  ++ (codes " sec) "
                      ++ (show_time (int64 (pos (chain n).time))
                          ++ (codes "</p>\n        <p>GasLimit: "
                              ++ (decimal (chain n).gas_limit
                                  ++ (codes " GasUsed: "
                                      ++ (decimal (chain n).gas_used
                                          ++ ((codes
                                                  "</p>\n    </div>\n    <div class=\"w3-responsive w3-card-4\">\n"
                                                ++ codes
                                                    "        <table class=\"w3-table w3-striped w3-bordered\">\n"
                                                ++ codes
                                                    "            <thead>\n                <tr class=\"w3-theme\">\n"
                                                ++ codes "                    <th>Author</th>\n"
                                                ++ codes "                    <th>Signer</th>\n"
                                                ++ codes
                                                    "                    <th>Name</th>\n                </tr>\n"
                                                ++ codes
                                                    "            </thead>\n            <tbody>\n                ")
                                              ++ (rows_html ns n s.val_set
                                                  ++ ((codes
                                                          "\n            </tbody>\n        </table>\n    </div>\n    <div>\n"
                                                        ++ codes "        <p>Next: ")
                                                      ++ ((entry g story s (
                                                            turn_after (author n)
                                                            s.val_set)).operator
                                                          ++ codes
                                                            "</p>\n    </div>\n</div>\n")))))))))))))

  -- The pages of the blocks `ns`, of which `before` were counted already.
  abbrev pub told : List ℕ → ℕ → List ℕ → List Text
  told before latest [] = []
  told before latest (n ∷ ns) =
      page_html (before ++ n ∷ []) latest n ∷ told (before ++ n ∷ []) (chain n).time ns

  badge-html : (n : ℕ) (current : Bool) → badge n current ≡ count_html n current
  unfolding badge count_html
  badge-html n true = refl
  badge-html n false = refl

  -- A line with these counts.
  abbrev line_html : Text → Text → Text → Text
  line_html proposals signatures operator =
      codes "\n                <tr>\n                    <td>"
      ++ (proposals
          ++ (codes "</td>\n                    <td>"
              ++ (signatures
                  ++ (codes "</td>\n                    <td>"
                      ++ (operator ++ codes "</td>\n                </tr>\n                ")))))

  row-html :
      (ns : List ℕ) (n : ℕ) (v : Address)
      → row_text signer_row
          (report_row g (author n) (signers n) (after_blocks g story s ns) (entry g story s v))
        ≡ row_html ns n v
  unfolding row_text cell_text signer_row report_row row_html
  row-html ns n v =
      let info = entry g story s v in
      let a = info.address in
      ap₂ (λ x y. line_html x y info.operator)
        (badge-html ((s.as_proposer a + tally (λ i. author i ∷ []) a ns) % 2 ^ 64)
          (text_eq (g.address_hex (author n)) (g.address_hex a)))
        (badge-html ((s.as_signer a + tally signers a ns) % 2 ^ 64) (contains a (signers n)))

  rows-html :
      (ns : List ℕ) (n : ℕ) (vs : List Address)
      → rows_text signer_row (
          map
            (λ v.
              report_row g (author n) (signers n) (after_blocks g story s ns) (entry g story s v))
            vs)
        ≡ rows_html ns n vs
  unfolding rows_text rows_html
  rows-html ns n [] = refl
  rows-html ns n (v ∷ vs) = ap₂ (λ x y. x ++ y) (row-html ns n v) (rows-html ns n vs)

  module _ (steady : Steady g story) where
    page-html :
        (ns : List ℕ) (latest n : ℕ)
        → page_of g story steady show_time s (report_of g story s ns latest n)
          ≡ page_html ns latest n
    unfolding parts_text part_text field_text table_html page_html
    page-html ns latest n = rw (rows-html ns n s.val_set, steady.world.numbered n) refl

    pub pages-told :
        (before : List ℕ) (latest : ℕ) (ns : List ℕ)
        → pages_of g story steady show_time s before latest ns ≡ told before latest ns
    pages-told before latest [] = refl
    pages-told before latest (n ∷ ns) =
        ap₂ (λ x xs. x ∷ xs) (page-html (before ++ n ∷ []) latest n)
          (pages-told (before ++ n ∷ []) (chain n).time ns)
