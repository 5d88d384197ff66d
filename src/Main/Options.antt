-- ===== src/Main/Options.antt =====
-- main.go: the options of the commands.
use signers.Base.{Bool, List}
use signers.Base.Int.{ℤ}
use signers.Base.Text.{Text}

-- The value of an option.
pub data Value : Type 0 where
  text : Text → Value
  number : ℤ → Value
  switch : Bool → Value

pub record Flag : Type 0 where
  pub name : Text
  pub aliases : List Text
  pub default : Value
  pub usage : Text
