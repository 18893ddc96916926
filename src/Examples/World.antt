-- ===== src/Examples/World.antt =====
-- A station, the ships docked to it, their owners, and a lot that has a leader.
use spaceempire_back.Prelude.{ℕ, none, some, [], ◌∷◌, true, false}
use spaceempire_back.Domain.{ship, station, EntityRef}
use spaceempire_back.Store.Tables.{
  GoodsType, Ship, Station, CargoRow, MarketEntry, Player, Lot, active, closed, Db,
}
use spaceempire_back.CargoRepo.{cargo_key}
use spaceempire_back.AuctionRepo.{lot_row}

abbrev pub mine : EntityRef
mine = record { kind = station; id = 3 }

abbrev pub hauler : EntityRef
hauler = record { kind = ship; id = 10 }

abbrev pub courier : EntityRef
courier = record { kind = ship; id = 12 }

abbrev pub ore : GoodsType
ore = record { id = 1; name = "ore"; space = 2 }

abbrev pub vessel_of : ℕ → ℕ → Ship
vessel_of id owner = record {
  id = id;
  player_id = owner;
  sector_id = 1;
  docked = some mine;
  cargobay = 100;
}

abbrev factory : Station
factory = record {
  id = 3;
  station_type = 1;
  owner_id = some 8;
  built = true;
  in_progress = false;
  next_cycle_at = none;
  cargobay = 1000;
}

abbrev pub row_of : EntityRef → ℕ → ℕ → CargoRow
row_of owner depositor q = record { key = cargo_key owner 1 depositor; quantity = q }

abbrev pub shelf_of : ℕ → MarketEntry
shelf_of stock = record {
  owner = mine;
  goods_type = 1;
  buy_price = some 40;
  sell_price = some 50;
  stock = stock;
  max_stock = 100;
}

abbrev pub player_of : ℕ → ℕ → Player
player_of id cash = record { id = id; cash = cash; war_rate = 0; trade_rate = 0 }

abbrev pub ore_lot : Lot
ore_lot = record {
  id = 5;
  seller_id = 8;
  goods_type = 1;
  quantity = 4;
  source = record { kind = ship; id = 11 };
  start_price = 100;
  current_price = 120;
  current_bidder_id = some 9;
  ends_at = 1000;
  status = active;
  created_at = 10;
}

abbrev pub world : Db
world = record {
  goods_types = ore ∷ [];
  ships = vessel_of 10 7 ∷ vessel_of 11 8 ∷ vessel_of 12 9 ∷ [];
  stations = factory ∷ [];
  trade_stations = [];
  cargo = row_of hauler 0 20 ∷ row_of mine 8 3 ∷ [];
  station_goods = shelf_of 30 ∷ [];
  players = player_of 7 10000 ∷ player_of 8 0 ∷ player_of 9 500 ∷ [];
  auction_lots = ore_lot ∷ [];
  auction_bids = [];
  next_lot_id = 6;
  insurance_policies = [];
  next_policy_id = 1;
  shipyards = [];
  rents = [];
  next_rent_id = 1;
}

-- What the operations of the other files leave behind.
abbrev pub unloaded : Db
unloaded = record world { cargo = row_of hauler 0 15 ∷ row_of mine 8 3 ∷ row_of mine 7 5 ∷ [] }

abbrev pub bought : Db
bought = record world {
  cargo = row_of hauler 0 25 ∷ row_of mine 8 3 ∷ [];
  station_goods = shelf_of 25 ∷ [];
  players = player_of 7 9750 ∷ player_of 8 0 ∷ player_of 9 500 ∷ [];
}

abbrev pub sold : Db
sold = record world {
  cargo = row_of hauler 0 15 ∷ row_of mine 8 3 ∷ [];
  station_goods = shelf_of 35 ∷ [];
  players = player_of 7 10200 ∷ player_of 8 0 ∷ player_of 9 500 ∷ [];
}

abbrev pub outbid : Db
outbid = record world {
  players = player_of 7 9850 ∷ player_of 8 0 ∷ player_of 9 620 ∷ [];
  auction_lots = record ore_lot { current_price = 150; current_bidder_id = some 7 } ∷ [];
  auction_bids = (record { lot_id = 5; bidder_id = 7; amount = 150 }) ∷ [];
}

abbrev pub delivered : Db
delivered = record world {
  cargo = row_of hauler 0 20 ∷ row_of mine 8 3 ∷ row_of courier 0 4 ∷ [];
  players = player_of 7 10000 ∷ player_of 8 120 ∷ player_of 9 500 ∷ [];
  auction_lots = record ore_lot { status = closed } ∷ [];
}

abbrev pub second_lot : Lot
second_lot = record {
  id = 6;
  seller_id = 7;
  goods_type = 1;
  quantity = 6;
  source = hauler;
  start_price = 30;
  current_price = 30;
  current_bidder_id = none;
  ends_at = 3600000000500;
  status = active;
  created_at = 501;
}

abbrev pub offered : Db
offered = record world {
  cargo = row_of hauler 0 14 ∷ row_of mine 8 3 ∷ [];
  auction_lots = lot_row second_lot ∷ ore_lot ∷ [];
  next_lot_id = 7;
}
