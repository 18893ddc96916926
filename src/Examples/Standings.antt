-- ===== src/Examples/Standings.antt =====
-- Two clans at war, and a table of declarations with a text that is not known.
use spaceempire_back.Prelude.{ℕ, ◌≡◌, ◌≢◌, ◌↔◌, refl, Bool, some, [], ◌∷◌}
use spaceempire_back.Domain.{EntityRef, player, ref_eq, kind_code}
use spaceempire_back.Relations.{
  Relation, friend, neutral, hostile, at_war, StatusRow, Member, SocialDb, Service, accepted,
  refused, clan_ref, relation_text, parse_status, set, get, precount, clan_ref_of,
}
use spaceempire_back.Relations
use spaceempire_back.Relations.Standing.{standing}
use spaceempire_back.Relations.Table.{stored}
use spaceempire_back.Relations.Text.{parse_status-relation_text}
use spaceempire_back.Relations.Loading.{Keyed, member_of}
use spaceempire_back.Relations.Cache.{Steps, done, further, set_step, get-Steps}

abbrev pilot : ℕ → EntityRef
pilot i = record { kind = player; id = i }

abbrev social : SocialDb
social = record {
  relations =
      record { from = clan_ref 5; to = clan_ref 6; status = "at_war" }
      ∷ record { from = pilot 1; to = pilot 3; status = "wary" }
      ∷ [];
  clan_members =
      record { player_id = 1; clan_id = 5 }
      ∷ record { player_id = 2; clan_id = 6 }
      ∷ record { player_id = 3; clan_id = 5 }
      ∷ [];
}

abbrev unprimed : Service
unprimed = record { declared = []; player_clan = [] }

abbrev primed : Service
primed = (precount accepted accepted social unprimed).1

-- Pilot 1 declares friendship with pilot 2, and a second statement is refused.
abbrev first : Bool × SocialDb × Service
first = set accepted (pilot 1) (pilot 2) friend social primed

abbrev last : Bool × SocialDb × Service
last = set refused (pilot 1) (pilot 4) hostile first.1 first.2

history : Steps social primed social.clan_members last.1 last.2 social.clan_members
history =
    further (further done (set_step accepted (pilot 1) (pilot 2) friend))
      (set_step refused (pilot 1) (pilot 4) hostile)

social-Keyed : Keyed social.relations
unfolding ref_eq kind_code
social-Keyed = ((refl, tt), (tt, tt))

get-Steps_example :
    (get (pilot 1) (pilot 2) last.2
      ≡ standing
          (λ x y. stored x y last.1.relations)
          (member_of social.clan_members)
          (pilot 1)
          (pilot 2))
    × (get (pilot 2) (pilot 1) last.2 ≡ get (pilot 1) (pilot 2) last.2)
get-Steps_example =
    get-Steps social unprimed social-Keyed last.1 last.2 social.clan_members history (pilot 1)
      (pilot 2)

standings :
    (get (pilot 1) (pilot 2) last.2 ≡ at_war)
    × (get (pilot 1) (pilot 3) last.2 ≡ friend)
    × (get (pilot 2) (pilot 4) last.2 ≡ neutral)
unfolding get ref_eq kind_code Relations.same_clan clan_ref_of set precount
    Relations.load_memberships Relations.conclude Relations.consider Relations.between_clans
    Relations.declared_between Relations.worse Relations.declared_status Relations.declare
    Relations.undeclare Relations.declare_all Relations.load_rows Relations.delete_relation
    Relations.delete_rows parse_status relation_text Relations.upsert Relations.upsert_rows
standings = (refl, refl, refl)

parse_status-relation_text_example :
    (parse_status "at_war" ≡ some at_war) ↔ (("at_war" ≡ relation_text at_war) × (at_war ≢ neutral))
parse_status-relation_text_example = parse_status-relation_text "at_war" at_war
