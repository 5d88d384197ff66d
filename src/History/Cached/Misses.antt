-- ===== src/History/Cached/Misses.antt =====
-- SignerDataForBlockNumberCached (history/history.go): without a connection.
use signers.Base.{◌≡◌, none, arith}
use signers.Base.Int.{ℤ}
use signers.Base.Text.{Text}
use signers.Base.Exec.{
  Result, ok, err, not_initialised, Outcome, returned, exited, panicked, blocked,
}
use signers.Redt.Types.{Geth}
use signers.History.Sqlite.{Sqlite}
use signers.History.Store.{open_blockchain}
use signers.History.Cached.{
  Blockchain, opened_result, open_history, signer_data_for_block_number_cached,
}

module _ (g : Geth) (q : Sqlite) where
  not_connected :
      (o : Outcome (Result (Unit {0}))) (d : q.Db) (b : Blockchain g.Cache q.Db)
      → opened_result g q (o, d) ≡ returned (ok b)
      → b.rt ≡ none
  unfolding opened_result
  not_connected (returned (ok u)) d b h = ground arith
  not_connected (returned (err e)) d b h = cc
  not_connected exited d b h = cc
  not_connected panicked d b h = cc
  not_connected blocked d b h = cc

  -- A Blockchain that Open returns has no connection to a node, so the lookup answers every block
  -- number with the error "not initialised", and changes nothing.
  pub cached_after_open :
      (name : Text) (d : q.Db) (b : Blockchain g.Cache q.Db)
      → open_history g q name d ≡ returned (ok b)
      → (number : ℤ)
      → signer_data_for_block_number_cached g q number b ≡ (returned (err not_initialised), b)
  unfolding open_history signer_data_for_block_number_cached
  cached_after_open name d b opened number =
      rw (not_connected (open_blockchain q name d).0 (open_blockchain q name d).1 b opened)
