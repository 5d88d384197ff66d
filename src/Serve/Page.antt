-- ===== src/Serve/Page.antt =====
-- serve/index.go: the page that opens the WebSocket, the template of the table of validators, and its
-- execution by text/template.
use signers.Base.{List, [], ◌∷◌, ◌++◌, if◌then◌else◌}
use signers.Base.Int.{ℤ}
use signers.Base.Text.{Text, codes, text_eq, decimal}
use signers.Base.Exec.{Result, ok, err, failed}
use signers.Redt.Report.{Row, Report}

-- The keys of the data and of a row that the template names.
pub data Field : Type 0 where
  number : Field
  elapsed : Field
  timestamp : Field
  gas_limit : Field
  gas_used : Field
  next_proposer_operator : Field

pub data RowField : Type 0 where
  author_count : RowField
  signer_count : RowField
  operator : RowField

-- A text, or a field in double braces.
pub data Piece (F : Type 0) : Type 0 where
  text : Text → Piece F
  field : F → Piece F

-- `range` over the rows is the only control action of the template.
pub data Part : Type 0 where
  piece : Piece Field → Part
  range_signers : List (Piece RowField) → Part

pub index_html : Text
index_html =
    codes "\n<!DOCTYPE html>\n<html>\n\n<head>\n"
    ++ codes "    <title>Alastria RedT Validator activity</title>\n"
    ++ codes "    <meta charset=\"UTF-8\">\n"
    ++ codes "    <meta name=\"viewport\" content=\"width=device-width, initial-scale=1\">\n"
    ++ codes "    <link rel=\"stylesheet\" href=\"https://www.w3schools.com/w3css/4/w3.css\">\n"
    ++ codes
        "    <link rel=\"stylesheet\" href=\"https://www.w3schools.com/lib/w3-theme-teal.css\">\n"
    ++ codes
        "    <link rel=\"stylesheet\" href=\"https://cdnjs.cloudflare.com/ajax/libs/font-awesome/4.3.0/css/font-awesome.min.css\">\n"
    ++ codes "</head>\n\n<body>\n\n    <header class=\"w3-container w3-theme\">\n"
    ++ codes "        <h3>Alastria RedT Validators</h3>\n    </header>\n\n"
    ++ codes "    <p id=\"mytable\"></p>\n\n    <script>\n"
    ++ codes "      var loc = window.location;\n      var uri = 'ws:';\n  \n"
    ++ codes "      if (loc.protocol === 'https:') {\n        uri = 'wss:';\n"
    ++ codes "      }\n      uri += '//' + loc.host;\n"
    ++ codes "      uri += loc.pathname + 'ws';\n  \n"
    ++ codes "      ws = new WebSocket(uri)\n  \n      ws.onopen = function() {\n"
    ++ codes "        console.log('Connected')\n      }\n  \n"
    ++ codes "      ws.onmessage = function(evt) {\n"
    ++ codes "        var tt = document.getElementById('mytable')\n"
    ++ codes "        tt.innerHTML = evt.data\n      }\n\n"
    ++ codes "      ws.onclose = function(evt) {\n        location.reload()\n"
    ++ codes "      }\n\n      ws.onerror = function(evt) {\n"
    ++ codes "        location.reload()\n      }\n\n    </script>\n\n</body>\n"
    ++ codes "</html>\n"

unfoldable pub signer_row : List (Piece RowField)
signer_row =
    (text (codes "\n                <tr>\n                    <td>"))
    ∷ (field RowField.author_count)
    ∷ (text (codes "</td>\n                    <td>"))
    ∷ (field RowField.signer_count)
    ∷ (text (codes "</td>\n                    <td>"))
    ∷ (field RowField.operator)
    ∷ (text (codes "</td>\n                </tr>\n                "))
    ∷ []

unfoldable pub table_html : List Part
table_html =
    piece (text (codes "\n<div class=\"w3-container\">\n    <div>\n        <p>Block: "))
    ∷ piece (field Field.number)
    ∷ piece (text (codes " ("))
    ∷ piece (field Field.elapsed)
    ∷ piece (text (codes " sec) "))
    ∷ piece (field Field.timestamp)
    ∷ piece (text (codes "</p>\n        <p>GasLimit: "))
    ∷ piece (field Field.gas_limit)
    ∷ piece (text (codes " GasUsed: "))
    ∷ piece (field Field.gas_used)
    ∷ piece (
        text (
          codes "</p>\n    </div>\n    <div class=\"w3-responsive w3-card-4\">\n"
          ++ codes "        <table class=\"w3-table w3-striped w3-bordered\">\n"
          ++ codes "            <thead>\n                <tr class=\"w3-theme\">\n"
          ++ codes "                    <th>Author</th>\n"
          ++ codes "                    <th>Signer</th>\n"
          ++ codes "                    <th>Name</th>\n                </tr>\n"
          ++ codes "            </thead>\n            <tbody>\n                "))
    ∷ range_signers signer_row
    ∷ piece (
        text (
          codes "\n            </tbody>\n        </table>\n    </div>\n    <div>\n"
          ++ codes "        <p>Next: "))
    ∷ piece (field Field.next_proposer_operator)
    ∷ piece (text (codes "</p>\n    </div>\n</div>\n"))
    ∷ []

unfoldable pub cell_text : RowField → Row → Text
cell_text RowField.author_count row = row.author_count
cell_text RowField.signer_count row = row.signer_count
cell_text RowField.operator row = row.operator

unfoldable pub row_text : List (Piece RowField) → Row → Text
unfolding cell_text
row_text [] row = []
row_text (text t ∷ pieces) row = t ++ row_text pieces row
row_text (field f ∷ pieces) row = cell_text f row ++ row_text pieces row

unfoldable pub rows_text : List (Piece RowField) → List Row → Text
unfolding row_text
rows_text pieces [] = []
rows_text pieces (row ∷ rows) = row_text pieces row ++ rows_text pieces rows

-- The print of a time depends on the local time zone.
module _ (show_time : ℤ → Text) where
  unfoldable pub field_text : Field → Report → Text
  field_text Field.number r = decimal r.number
  field_text Field.elapsed r = decimal r.elapsed
  field_text Field.timestamp r = show_time r.timestamp
  field_text Field.gas_limit r = decimal r.gas_limit
  field_text Field.gas_used r = decimal r.gas_used
  field_text Field.next_proposer_operator r = r.next_proposer_operator

  unfoldable pub part_text : Part → Report → Text
  unfolding field_text rows_text
  part_text (piece (text t)) r = t
  part_text (piece (field f)) r = field_text f r
  part_text (range_signers pieces) r = rows_text pieces r.signers

  unfoldable pub parts_text : List Part → Report → Text
  unfolding part_text
  parts_text [] r = []
  parts_text (part ∷ parts) r = part_text part r ++ parts_text parts r

  -- ExecuteTemplate: the only template that was parsed is table.html.
  unfoldable pub execute_template : Text → Report → Result Text
  unfolding parts_text text_eq
  execute_template name r =
      if text_eq name (codes "table.html") then ok (parts_text table_html r) else err failed
