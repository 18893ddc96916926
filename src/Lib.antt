-- ===== src/Lib.antt =====
-- The core of the space empire backend: goods, money, markets, auctions, production, insurance
-- and rent, the map of sectors with its routes, and the standings between players.
--
-- The program is a game server. Its economy stands on Postgres tables that several services
-- change, each operation in one transaction. A service checks who acts and what is there, then
-- calls repositories, which run one SQL statement each. The cargo service moves goods between the
-- holds of ships and stations; the trade service sells a docked player goods from the shelf of a
-- station and buys them; the auction service keeps goods and bids of open lots apart from holds
-- and wallets until a lot closes; the production service runs the cycles of stations on their
-- shelves; the insurance service sells cover for ships; the rent service bills the owners of
-- stations and takes a station from one who does not pay. Beside the database the server keeps the
-- gates between sectors with a router over them, and a map of declared relations, which decides
-- who may attack whom.
--
-- The modules, and the code that each is about:
--   Prelude        lists, Boolean tests, int64 arithmetic with its wrap-around
--   Domain         internal/domain/ids.go: EntityKind, EntityRef
--   Store          Tables: the rows, with one record Db for the database; Tx: a step of a
--                  transaction, and TxManager.Do as run_tx (internal/pkg/database/tx_manager.go);
--                  Reads and Update: lemmas and a type that the repositories share
--   CargoRepo      internal/persistence/cargo/repo.go: goods_type, ship_dock, list_by_owner,
--                  quantity, has_others_goods, used_space, capacity, add, subtract
--   PlayersRepo    internal/persistence/players/repo.go: get_cash, adjust_cash, add_reputation
--   MarketRepo     internal/persistence/trade/repo.go: load_ship_dock, list_market,
--                  production_ref_maxes, get_market_entry, adjust_stock
--   AuctionRepo    internal/persistence/auction/repo.go: create_lot, lock_lot, list_active,
--                  list_due, update_bid, insert_bid, find_delivery_ship, set_status
--   Cargo          internal/cargo/service.go: inventory, consume, consume_in, fits_in,
--                  available_in, refund_in, add, move, move_by_player
--   Pricing        internal/trade/pricing.go: price_for, price_tier, dynamic_unit_price
--   Trade          internal/trade/service.go: market, market_docked, buy, sell
--   Raid           internal/trade/service.go: rob, the hack of a station
--   Auction        internal/economy/auction/service.go: create, bid, close, active_lots, due_lots
--                  Auction.Closer is internal/economy/auction/closer.go: tick
--   StationsRepo   internal/persistence/stations/repo.go: update_production, claim_unowned,
--                  clear_owner, player_owned
--   Production     internal/economy/production/service.go: tick, finish_cycle, maybe_start_cycle;
--                  Index and Shelves are about the tests of inputs and room, Rows about the row of
--                  a station, Settling and Cycle about the end of a cycle, Turns and Ticks about
--                  memory and table
--   InsuranceRepo  internal/persistence/insurance/repo.go: expire_active_for_ship, create_policy,
--                  active_for_ship, claim, ship_ownership; Coverage is about its unique index
--   Insurance      internal/economy/insurance/service.go: new_config, buy, on_kill; Terms is about
--                  what is sold and what lapses, Purchases and Unique about purchases, Payout
--                  about kills
--   RentsRepo      internal/persistence/rents/repo.go: ensure, due, mark_paid, mark_unpaid,
--                  delete_rent
--   Rent           internal/economy/rent/service.go: new_config, reconcile, process_due, claim;
--                  internal/economy/rent/closer.go: tick. Billing and Passes are about one charge
--                  and a whole pass, Ensuring and Reconciling about new owners, Claiming and
--                  Answers about a claim
--   World          Topology: internal/world/topology.go, the gates and the index of neighbours;
--                  Router: internal/world/router.go, hops, next_sector, gate_side_pos. Its
--                  children follow the search: Walks, Scan (a round), Loop (all rounds and the
--                  fuel), Shortest (the finished search), Cache, Routes (one lookup), History
--                  (lookups and destroyed gates in any order), Sides
--   Relations      internal/social/relations and internal/domain/relation.go: get, set, precount,
--                  with the table of declarations; Text, Standing, Table, Loading and Cache are
--                  about the status text, the resolution, one pair in table and map, what a
--                  reload reads, and the two together
--   Economy        the operations of the cargo, trade and auction services but the hack, as
--                  a step relation on the database, in any order
--   Examples       one small world in which the theorems are applied
-- A definition has the name of the function it models; the part of a function that runs inside
-- the transaction has the suffix _in, and the writes that follow the last check begin with
-- settle.
--
-- How the code is represented:
--   * A step of a transaction takes a Db and ends as ok, fail or aborted. fail is a Go error: a
--     caller may go on from the state reached. aborted is a statement that Postgres refused,
--     after which every statement of the transaction and its commit are refused. run_tx keeps the
--     new Db of ok and the old one otherwise.
--   * A table is a list of rows. Every UPDATE here names one row by its key and changes the first
--     one that has it. A violated CHECK or foreign key, and a value past BIGINT, is aborted.
--   * A column with a CHECK against negative values is a natural number, a BIGINT of a request is
--     an integer of either sign. Products and sums that Go makes on int64 wrap at 64 bits, in
--     wrap_i64 and neg_i64.
--   * Volumes are whole cubic metres. Every space and cargobay of the catalogue is one, and a
--     float64 holds whole numbers below 2 ^ 53 exactly, so comparisons of volumes are exact.
--   * Errors of a service and of a repository with the same name and meaning share a constructor.
--   * The clocks of the service and of the database, and the shares that a hack takes, are
--     arguments.
--   * The end of a lot and of a production cycle is cut to whole microseconds in its row, as a
--     TIMESTAMPTZ keeps it, while Go answers and remembers nanoseconds. The moments of insurance
--     and rent are kept as they are given: their clock readings stand for whole microseconds.
--   * Whether a commit succeeds is an argument of the production tick, whose memory it may leave
--     behind. A commit that fails leaves the database as it was.
--   * Where a comment or a specification says otherwise than the code, the code is modelled: goods
--     that cannot be delivered go back to the source of their lot and the buyer is refunded
--     (docs/specs/auction.md lets them be lost), plants without an owner run with missing inputs
--     and cycles move shelves (docs/specs/production.md asks for all inputs and names cargo).
--   * A Go map is a list of entries without a repeated key. The order in which range visits a map
--     is an argument that may permute the keys, and may differ from search to search.
--   * The failure of a statement that relations run is an argument (Reply).
-- Two loops need fuel, all others are over a list. A search of the router takes one more round
-- than twice the number of gates: it queues a sector once, and only its source and the ends of
-- gates. The walk back over the parents takes as many steps as the distance says.
--
-- Not modelled: races between transactions (row locks and conditional UPDATEs guard against
-- them) and two calls of Set for one pair of a relation at a time; the locks of the router;
-- failures of the connection and, but for production, of a commit; cancelled
-- contexts; the tickers that call the
-- auction closer, the billing of rent and the production tick; the production forecast, combat, the sector
-- simulation, behaviour of ships that no player steers, quests, clans, bounties, authentication
-- and the HTTP layer.
pub mod Prelude
pub mod Domain
pub mod Store
pub mod CargoRepo
pub mod Cargo
pub mod PlayersRepo
pub mod MarketRepo
pub mod Pricing
pub mod Trade
pub mod Raid
pub mod AuctionRepo
pub mod Auction
pub mod StationsRepo
pub mod Production
pub mod InsuranceRepo
pub mod Insurance
pub mod RentsRepo
pub mod Rent
pub mod World
pub mod Relations
pub mod Economy
pub mod Examples
