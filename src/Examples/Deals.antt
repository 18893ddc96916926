-- ===== src/Examples/Deals.antt =====
-- Five units of ore, bought from the mine and sold to it.
use spaceempire_back.Prelude.{◌+◌, ◌*◌, ◌≡◌, ◌≤◌, ◌≢◌, ◌&&◌, ◌==◌, refl, ℕ, false, none, arith}
use spaceempire_back.Prelude.Int.{pos, max_i64, wrap_i64, neg_i64}
use spaceempire_back.Domain.{EntityRef, ref_eq, kind_code}
use spaceempire_back.Store.Tables.{key_eq}
use spaceempire_back.Store.Tx.{done, run_tx}
use spaceempire_back.CargoRepo
use spaceempire_back.CargoRepo.Weights.{held}
use spaceempire_back.PlayersRepo
use spaceempire_back.MarketRepo
use spaceempire_back.Pricing
use spaceempire_back.Trade
use spaceempire_back.Trade.{Receipt, unit_price, buy, sell}
use spaceempire_back.Trade.Deals.{DealOnly, wallet, shelf}
use spaceempire_back.Trade.Checks.{CanBuy, CanSell}
use spaceempire_back.Trade.Buying.{buy-CanBuy, buy_exact}
use spaceempire_back.Trade.Selling.{sell-CanSell, sell_exact}
use spaceempire_back.Examples.World.{mine, hauler, world, bought, sold}

abbrev receipt : Receipt
receipt = record { new_cash = 9750; new_stock = 25; unit_price = 50; total_amount = pos 250 }

pub buys : buy none 7 10 mine 1 (pos 5) world ≡ (done receipt, bought)
unfolding buy run_tx ref_eq key_eq kind_code Trade.buy_in Trade.settle_buy CargoRepo.goods_type
    CargoRepo.find_goods_type CargoRepo.capacity CargoRepo.used_space CargoRepo.used_by
    CargoRepo.add neg_i64 Trade.authorize_docked MarketRepo.load_ship_dock CargoRepo.find_ship
    Trade.check_docked MarketRepo.is_station_kind MarketRepo.get_market_entry MarketRepo.find_entry
    PlayersRepo.adjust_cash PlayersRepo.update_cash MarketRepo.adjust_stock MarketRepo.shift_stock
    MarketRepo.update_stock Trade.award_trade_reputation Trade.trade_delta Trade.unit_price
    Pricing.price_for wrap_i64
buys = refl

abbrev proceeds : Receipt
proceeds = record { new_cash = 10200; new_stock = 35; unit_price = 40; total_amount = pos 200 }

sells : sell none 7 10 mine 1 (pos 5) world ≡ (done proceeds, sold)
unfolding sell run_tx ref_eq key_eq kind_code Trade.sell_in Trade.settle_sell CargoRepo.subtract
    Trade.authorize_docked MarketRepo.load_ship_dock CargoRepo.find_ship Trade.check_docked
    MarketRepo.is_station_kind MarketRepo.get_market_entry MarketRepo.find_entry
    PlayersRepo.adjust_cash PlayersRepo.update_cash MarketRepo.adjust_stock MarketRepo.shift_stock
    MarketRepo.update_stock Trade.award_trade_reputation Trade.trade_delta Trade.unit_price
    Pricing.price_for wrap_i64
sells = refl

buy-CanBuy_example :
    (c : CanBuy 7 10 mine 1 5 world) × (50
      ≡ unit_price none mine.kind 1 c.column c.entry.stock c.entry.max_stock)
buy-CanBuy_example = buy-CanBuy none 7 10 mine 1 (pos 5) world buys

price_fits : 50 * 5 ≤ max_i64
price_fits = omega arith

buy_exact_example :
    (wallet 7 bought.players + 50 * 5 ≡ wallet 7 world.players)
    × ((p : ℕ) → p ≢ 7 → wallet p bought.players ≡ wallet p world.players)
    × (shelf mine 1 bought.station_goods + 5 ≡ shelf mine 1 world.station_goods)
    × ((o : EntityRef) (h : ℕ)
        → (ref_eq mine o && 1 == h) ≡ false
        → shelf o h bought.station_goods ≡ shelf o h world.station_goods)
    × (held hauler 1 bought.cargo ≡ held hauler 1 world.cargo + 5)
    × ((o : EntityRef) (h : ℕ)
        → (ref_eq hauler o && 1 == h) ≡ false
        → held o h bought.cargo ≡ held o h world.cargo)
    × DealOnly world bought
buy_exact_example = buy_exact none 7 10 mine 1 (pos 5) world buys price_fits

sell-CanSell_example :
    (c : CanSell 7 10 mine 1 5 world) × (40
      ≡ unit_price none mine.kind 1 c.column c.entry.stock c.entry.max_stock)
sell-CanSell_example = sell-CanSell none 7 10 mine 1 (pos 5) world sells

proceeds_fit : 40 * 5 ≤ max_i64
proceeds_fit = omega arith

sell_exact_example :
    (wallet 7 sold.players ≡ wallet 7 world.players + 40 * 5)
    × ((p : ℕ) → p ≢ 7 → wallet p sold.players ≡ wallet p world.players)
    × (shelf mine 1 sold.station_goods ≡ shelf mine 1 world.station_goods + 5)
    × ((o : EntityRef) (h : ℕ)
        → (ref_eq mine o && 1 == h) ≡ false
        → shelf o h sold.station_goods ≡ shelf o h world.station_goods)
    × (held hauler 1 sold.cargo + 5 ≡ held hauler 1 world.cargo)
    × ((o : EntityRef) (h : ℕ)
        → (ref_eq hauler o && 1 == h) ≡ false
        → held o h sold.cargo ≡ held o h world.cargo)
    × DealOnly world sold
sell_exact_example = sell_exact none 7 10 mine 1 (pos 5) world sells proceeds_fit
