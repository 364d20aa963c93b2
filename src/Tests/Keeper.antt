-- ===== src/Tests/Keeper.antt =====
-- The keeper's book beside a state of the escrow.
use stellar_dex_agg.Prelude.{◌≡◌, arith, none, some, pos, checked_mul}
use stellar_dex_agg.Keeper.Tracks.{Tracks, replay}
use stellar_dex_agg.Keeper.Replay.{book_follows_escrow}
use stellar_dex_agg.Keeper.Limit.{required_min_out, keeper_minimum_agrees}
use stellar_dex_agg.Escrow
use stellar_dex_agg.Tests.Orders.{chain, client, deployed, two_orders, chain_tokens, laws, reached}

book_follows_escrow_example :
    Tracks
      (replay two_orders.storage.events)
      two_orders.storage.orders
      two_orders.storage.dca_orders
book_follows_escrow_example =
    book_follows_escrow chain client 20 chain_tokens laws 0 deployed.world reached

keeper_minimum_agrees_example :
    required_min_out (pos 5_000_000) (pos 20_000_000)
    ≡ elim (checked_mul (pos 5_000_000) (pos 20_000_000)) [
      | none ↦ none
      | some _ ↦ some (Escrow.Limit.required_min_out (pos 5_000_000) (pos 20_000_000))
    ]
keeper_minimum_agrees_example =
    keeper_minimum_agrees (pos 5_000_000) (pos 20_000_000) (omega arith) (omega arith)
