-- ===== src/Redt/Peers.antt =====
-- redt/redt.go: what the node says of itself and of its peers.
use signers.Base.{◌+◌, Bool, List, [], ◌∷◌, ◌++◌}
use signers.Base.Text.{Text, codes}
use signers.Base.Exec.{
  Result, ok, err, not_found, failed, Outcome, returned, exited, panicked, blocked, Exec, modify,
  or_exit, ◌>>=◌, ◌>>◌,
}
use signers.Redt.Types.{Reply, value, null, Geth}
use signers.Redt.Node.{Node}
use signers.Redt.Create.{new_redt_node}

-- An answer that is null is an error.
found : {A : Type 0} → Reply A → Result A
found (value a) = ok a
found null = err not_found
found Reply.failed = err failed
found (Reply.partial a) = err failed

module _ (g : Geth) where
  open g use {NodeInfo, PeerInfo, get_node_info, get_peers, indent_node_info, indent_peers}

  unfoldable pub node_info : Exec (Node g) (Result NodeInfo)
  unfolding found
  node_info s = (returned (found (get_node_info s.calls)), record s { calls = s.calls + 1 })

  unfoldable pub peers : Exec (Node g) (Result (List PeerInfo))
  unfolding found
  peers s = (returned (found (get_peers s.calls)), record s { calls = s.calls + 1 })

  -- fmt.Printf
  abbrev print_text : Text → Exec (Node g) (Unit {0})
  print_text t = modify (λ s. record s { printed = s.printed ++ t ∷ [] })

  unfoldable pub display_my_info : Exec (Node g) (Unit {0})
  unfolding node_info
  display_my_info = do
    reply ← node_info
    info ← or_exit reply
    print_text (codes "About my node:\n")
    out ← or_exit (indent_node_info info)
    print_text (out ++ codes "\n\n")

  unfoldable pub display_peers : Exec (Node g) (Unit {0})
  unfolding peers
  display_peers = do
    reply ← peers
    list ← or_exit reply
    print_text (codes "About my peers:\n")
    out ← or_exit (indent_peers list)
    print_text (out ++ codes "\n\n")

  display_of : Outcome (Result (Node g)) → Outcome (Unit {0})
  unfolding display_peers
  display_of (returned (ok n)) = (display_peers n).0
  display_of (returned (err e)) = exited
  display_of exited = exited
  display_of panicked = panicked
  display_of blocked = blocked

  -- The function DisplayPeersInfo: `dialed` is whether rpc.Dial succeeded.
  unfoldable pub display_peers_info : Bool → Outcome (Unit {0})
  unfolding new_redt_node display_of
  display_peers_info dialed = display_of (new_redt_node g dialed)
