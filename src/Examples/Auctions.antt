-- ===== src/Examples/Auctions.antt =====
-- A higher bid on the open lot, its delivery to its leader, and a second lot.
use spaceempire_back.Prelude.{ℕ, ◌+◌, ◌≡◌, ◌⊎◌, ◌∷◌, refl, true, false, some}
use spaceempire_back.Prelude.Int.{pos}
use spaceempire_back.Domain.{ref_eq, kind_code}
use spaceempire_back.Store.Tables.{Lot, Status, key_eq}
use spaceempire_back.Store.Tx.{done, run_tx}
use spaceempire_back.CargoRepo
use spaceempire_back.CargoRepo.{cargo_key}
use spaceempire_back.CargoRepo.Weights.{deposit}
use spaceempire_back.PlayersRepo
use spaceempire_back.AuctionRepo
use spaceempire_back.AuctionRepo.{find_lot, is_active, new_lot}
use spaceempire_back.AuctionRepo.Effects.{led, with_status}
use spaceempire_back.Auction
use spaceempire_back.Auction.{BidResult, CreateParams, lot_params, bid, close, create}
use spaceempire_back.Auction.Escrow.{all_cash, all_goods}
use spaceempire_back.Auction.Bids.{CanBid, bid_leads, bid-conserves}
use spaceempire_back.Auction.Endings.{close_ends, close-conserves, close_twice}
use spaceempire_back.Auction.Closer.{tick, tick-conserves}
use spaceempire_back.AuctionRepo.{lot_row}
use spaceempire_back.Auction.Listing.{IsListable, MayList, create_lists}
use spaceempire_back.Examples.World.{hauler, world, outbid, delivered, offered, second_lot}

abbrev accepted : BidResult
accepted = record { new_price = 150; new_leader = true }

bids : bid 500 7 10 5 (pos 150) world ≡ (done accepted, outbid)
unfolding bid run_tx Auction.bid_in Auction.require_docked AuctionRepo.load_ship_dock
    CargoRepo.find_ship Auction.check_docked AuctionRepo.lock_lot find_lot Auction.settle_bid
    PlayersRepo.adjust_cash PlayersRepo.update_cash Auction.refund_leader AuctionRepo.update_bid
    PlayersRepo.find_player AuctionRepo.insert_bid AuctionRepo.set_bid
bids = refl

closes : close 5 world ≡ (done tt, delivered)
unfolding close run_tx ref_eq key_eq kind_code Auction.close_in AuctionRepo.lock_lot find_lot
    Auction.deliver_to_buyer CargoRepo.goods_type CargoRepo.find_goods_type
    AuctionRepo.find_delivery_ship CargoRepo.used_by CargoRepo.add Auction.pay_seller
    PlayersRepo.adjust_cash PlayersRepo.update_cash AuctionRepo.set_status
    AuctionRepo.set_lot_status
closes = refl

abbrev offer : CreateParams
offer = record {
  seller = 7;
  source = hauler;
  goods_type = 1;
  quantity = pos 6;
  start_price = pos 30;
  duration = pos 3600000000000;
}

creates : create 500 501 offer world ≡ (done second_lot, offered)
unfolding create run_tx ref_eq key_eq kind_code Auction.create_in Auction.require_docked
    AuctionRepo.load_ship_dock CargoRepo.find_ship Auction.check_docked Auction.debit_seller
    CargoRepo.subtract AuctionRepo.create_lot PlayersRepo.find_player CargoRepo.find_goods_type
creates = refl

bid_leads_example :
    (c : CanBid 500 7 10 5 150 world) × (find_lot 5 outbid.auction_lots ≡ some (led c.lot 150 7))
    × (accepted.new_price ≡ 150)
bid_leads_example = bid_leads 500 7 10 5 (pos 150) world bids

bid-conserves_example :
    (all_cash outbid ≡ all_cash world) × ((g : ℕ) → all_goods g outbid ≡ all_goods g world)
bid-conserves_example = bid-conserves 500 7 10 5 (pos 150) world bids

close_ends_example :
    (l : Lot) × (find_lot 5 world.auction_lots ≡ some l)
    × (((is_active l.status ≡ true)
          × (s : Status) × (is_active s ≡ false)
          × (find_lot 5 delivered.auction_lots ≡ some (with_status l s)))
        ⊎ ((is_active l.status ≡ false) × (delivered ≡ world)))
close_ends_example = close_ends 5 world closes

close-conserves_example :
    (all_cash delivered ≡ all_cash world) × ((g : ℕ) → all_goods g delivered ≡ all_goods g world)
close-conserves_example = close-conserves 5 world closes

close_twice_example : close 5 delivered ≡ (done tt, delivered)
close_twice_example = close_twice 5 world closes

create_lists_example :
    IsListable offer
    × MayList hauler.kind 10 7 world
    × (second_lot ≡ new_lot 6 501 (lot_params 500 offer))
    × (offered.auction_lots ≡ lot_row second_lot ∷ world.auction_lots)
    × (deposit (cargo_key hauler 1 0) offered.cargo + 6
        ≡ deposit (cargo_key hauler 1 0) world.cargo)
create_lists_example = create_lists 500 501 offer world creates

tick-conserves_example :
    (all_cash (tick 2000 world) ≡ all_cash world)
    × ((g : ℕ) → all_goods g (tick 2000 world) ≡ all_goods g world)
tick-conserves_example = tick-conserves 2000 world
