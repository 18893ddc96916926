-- ===== src/Examples/Sequence.antt =====
-- A purchase, and then a batch of the closer that ends the open lot.
use spaceempire_back.Prelude.{◌≡◌, none}
use spaceempire_back.Prelude.Int.{pos}
use spaceempire_back.Auction.Closer.{tick}
use spaceempire_back.Auction.Escrow.{all_goods}
use spaceempire_back.Economy.{Steps, purchase, closing, nothing, then}
use spaceempire_back.Economy.Totals.{all_goods-Steps}
use spaceempire_back.Examples.World.{mine, world, bought}
use spaceempire_back.Examples.Deals.{buys}

a_busy_minute : Steps world (tick 2000 bought)
a_busy_minute = then (then nothing (purchase none 7 10 mine 1 (pos 5) buys)) (closing 2000)

all_goods-Steps_example : all_goods 1 (tick 2000 bought) ≡ all_goods 1 world
all_goods-Steps_example = all_goods-Steps 1 a_busy_minute
