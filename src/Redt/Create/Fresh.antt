-- ===== src/Redt/Create/Fresh.antt =====
-- The cache and the calls of a node that NewRedTNode (redt/redt.go) has made.
use mathlib.Core.Path.{subst}
use signers.Base.{ℕ, ◌≡◌, refl, sym, Bool, true, false, List, Option, none}
use signers.Base.Exec.{Result, ok, err, Outcome, returned, exited, panicked, blocked}
use signers.Redt.Types.{Address, Header, ValInfo, Geth}
use signers.Base.Int.{ℤ}
use signers.Redt.Node.Chain.{Coherent}
use signers.Redt.Node.{Node}
use signers.Redt.Create.{
  call_get_validators, get_val_set, load_enodes, enodes, blank, with_validators, with_val_set,
  new_redt_node,
}

module _ (g : Geth) where
  -- Nothing is cached yet, and one call was made.
  abbrev pub Unused : Node g → Type 0
  Unused n = (n.header_cache ≡ g.cache_new) × (n.calls ≡ 1)

  abbrev MadeUnused : Outcome (Result (Node g)) → Type 0
  MadeUnused (returned (ok n)) = Unused n
  MadeUnused (returned (err e)) = Unit {0}
  MadeUnused exited = Unit {0}
  MadeUnused panicked = Unit {0}
  MadeUnused blocked = Unit {0}

  with_validators-Unused :
      (s : Node g) (o : Outcome (Address → Option ValInfo))
      → Unused s
      → MadeUnused (with_validators g s o)
  unfolding with_validators
  with_validators-Unused s (returned m) unused = unused
  with_validators-Unused s exited unused = tt
  with_validators-Unused s panicked unused = tt
  with_validators-Unused s blocked unused = tt

  with_val_set-Unused :
      (o : Outcome (Result (List Address))) (s : Node g)
      → Unused s
      → MadeUnused (with_val_set g o s)
  unfolding with_val_set
  with_val_set-Unused (returned (ok vals)) s unused =
      with_validators-Unused (record s { val_set = vals }) (load_enodes g enodes (λ a. none)) unused
  with_val_set-Unused (returned (err e)) s unused = tt
  with_val_set-Unused exited s unused = tt
  with_val_set-Unused panicked s unused = tt
  with_val_set-Unused blocked s unused = tt

  made_unused : (dialed : Bool) → MadeUnused (new_redt_node g dialed)
  unfolding new_redt_node get_val_set call_get_validators
  made_unused false = tt
  made_unused true = let (o, s) = get_val_set g (blank g) in with_val_set-Unused o s (refl, refl)

  pub new_redt_node-Unused :
      (dialed : Bool) (n : Node g) → new_redt_node g dialed ≡ returned (ok n) → Unused n
  new_redt_node-Unused dialed n made = subst MadeUnused made (made_unused dialed)

-- A new cache has no entry.
abbrev pub StartsEmpty : Geth → Type 0
StartsEmpty g = (i : ℤ) → (g.cache_get g.cache_new i).0 ≡ none

pub new_node-Coherent :
    (g : Geth) (chain : ℕ → Header)
    → StartsEmpty g
    → (n : Node g) → new_redt_node g true ≡ returned (ok n)
    → Coherent g chain n.header_cache
new_node-Coherent g chain empty n made =
    subst (Coherent g chain) (sym (new_redt_node-Unused g true n made).0)
      λ k h hit. let none_there = empty k in absurd (cc)
