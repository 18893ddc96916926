-- ===== src/Examples/Policies.antt =====
-- A docked ship is insured, and is destroyed.
use spaceempire_back.Prelude.{◌≡◌, refl, [], ◌∷◌}
use spaceempire_back.Prelude.Int.{pos, wrap_i64, neg_i64}
use spaceempire_back.Store.Tables.{Db}
use spaceempire_back.Store.Tx.{done, run_tx}
use spaceempire_back.CargoRepo.{find_ship}
use spaceempire_back.PlayersRepo.{adjust_cash, update_cash, find_player}
use spaceempire_back.InsuranceRepo.{
  ship_ownership, expire_active_for_ship, expire_rows, create_policy, is_covered, active_for_ship,
  active_policy, claim, claim_rows,
}
use spaceempire_back.InsuranceRepo.Coverage.{OneActive}
use spaceempire_back.Insurance.{
  Config, buy, buy_checked, buy_in, check_owner, policy_for, capped_days, on_kill, on_kill_in,
  pay_out,
}
use spaceempire_back.Insurance.Unique.{
  Bought, buy_insures, start, further, bought, killed, OneActive-Steps,
}
use spaceempire_back.Examples.World.{world, player_of}

abbrev terms : Config
terms = record { coverage_multiplier = 10; max_duration_days = 90 }

abbrev insured : Db
insured = (buy terms 7 10 (pos 100) (pos 400) 50 world).1

abbrev lost : Db
lost = (on_kill 10 60 insured).1

bought_policy : buy terms 7 10 (pos 100) (pos 400) 50 world ≡ (done 1, insured)
unfolding buy run_tx buy_checked ship_ownership find_ship check_owner buy_in expire_active_for_ship
    adjust_cash update_cash neg_i64 create_policy policy_for wrap_i64 is_covered expire_rows
    find_player
bought_policy = refl

-- 100 credits were paid for a cover of 1000.
wallets : lost.players ≡ player_of 7 10900 ∷ player_of 8 0 ∷ player_of 9 500 ∷ []
unfolding buy run_tx buy_checked ship_ownership find_ship check_owner buy_in expire_active_for_ship
    adjust_cash update_cash neg_i64 create_policy policy_for wrap_i64 is_covered expire_rows
    find_player capped_days on_kill on_kill_in active_for_ship pay_out active_policy claim
    claim_rows
wallets = refl

buy_insures_example : Bought terms 7 10 (pos 100) (pos 400) 50 world insured
buy_insures_example = buy_insures terms 7 10 (pos 100) (pos 400) 50 world bought_policy

OneActive-Steps_example : OneActive lost.insurance_policies
OneActive-Steps_example =
    OneActive-Steps tt
      (further (further start (bought terms 7 10 (pos 100) (pos 400) 50)) (killed 10 60))
