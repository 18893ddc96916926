-- ===== src/Relations/Cache.antt =====
-- internal/social/relations/service.go: the map of the service and the table, under declarations,
-- reloads and changes of the clans in any order.
use spaceempire_back.Prelude.{ℕ, lookup, ◌≡◌, ◌≢◌, sym, ◌∙◌, List, [], arith}
use spaceempire_back.Domain.{EntityRef}
use spaceempire_back.Relations.{
  Relation, friend, neutral, hostile, at_war, Member, SocialDb, Service, Reply, accepted, refused,
  undeclare, declare, declared_status, precount, set, get, upsert, delete_relation,
}
use spaceempire_back.Relations.Table.{
  stored, stored-ne-neutral, stored-upsert, stored-delete, declared-undeclare, declared-declare,
}
use spaceempire_back.Relations.Loading.{
  Keyed, Keyed-upsert, Keyed-delete, declared-load, clan_in, member_of, read_members,
  lookup-load_memberships, clan_ref_of-member_of,
}
use spaceempire_back.Relations.Standing.{standing, get-standing, get_sym}

-- The map agrees with the table on every pair, and that of the clans with the members last seen.
pub record InSync (db : SocialDb) (s : Service) (seen : List Member) : Type 0 where
  pub clans : (p : ℕ) → lookup p s.player_clan ≡ clan_in p seen
  pub keyed : Keyed db.relations
  pub agrees : (a b : EntityRef) → declared_status a b s.declared ≡ stored a b db.relations

precount-InSync :
    (db : SocialDb) (s : Service)
    → Keyed db.relations
    → InSync db (precount accepted accepted db s).1 db.clan_members
unfolding precount declared_status
precount-InSync db s h = record {
  clans = λ p. ground (arith, lookup-load_memberships p db.clan_members []);
  keyed = h;
  agrees = λ a b. ground (arith, declared-load a b db.relations [] h);
}

module _ (db : SocialDb) (s : Service) (seen : List Member) (h : InSync db s seen) where
  upsert-InSync :
      (a b : EntityRef) (v : Relation)
      → v ≢ neutral
      → InSync (upsert a b v db) (record s { declared = declare a b v s.declared }) seen
  unfolding upsert
  upsert-InSync a b v n = record {
    clans = h.clans;
    keyed = Keyed-upsert a b v db.relations h.keyed;
    agrees = λ c d. ground (
      arith,
      declared-declare a b c d v s.declared,
      stored-upsert a b c d v db.relations n,
      h.agrees c d,
    );
  }

  delete-InSync :
      (a b : EntityRef)
      → InSync (delete_relation a b db) (record s { declared = undeclare a b s.declared }) seen
  unfolding delete_relation
  delete-InSync a b = record {
    clans = h.clans;
    keyed = Keyed-delete a b db.relations h.keyed;
    agrees = λ c d. ground (
      arith,
      declared-undeclare a b c d s.declared,
      stored-delete a b c d db.relations,
      h.agrees c d,
    );
  }

  set-InSync :
      (reply : Reply) (a b : EntityRef) (v : Relation)
      → InSync (set reply a b v db s).1 (set reply a b v db s).2 seen
  unfolding set
  set-InSync refused a b v = h
  set-InSync accepted a b neutral = delete-InSync a b
  set-InSync accepted a b friend = upsert-InSync a b friend (λ e. cc)
  set-InSync accepted a b hostile = upsert-InSync a b hostile (λ e. cc)
  set-InSync accepted a b at_war = upsert-InSync a b at_war (λ e. cc)

  reload-InSync :
      (first second : Reply)
      → InSync db (precount first second db s).1 (read_members first second db seen)
  unfolding precount
  reload-InSync refused _ = h
  reload-InSync accepted refused = h
  reload-InSync accepted accepted = precount-InSync db s h.keyed

-- A declaration, a reload, or a change of the clans by another service, which the map of the clans
-- does not see before the next reload. The last index is the table of members at the last reload.
pub data Step (db : SocialDb) (s : Service) (seen : List Member)
    : SocialDb → Service → List Member → Type 0 where
  set_step :
      (reply : Reply) (a b : EntityRef) (v : Relation)
      → Step db s seen (set reply a b v db s).1 (set reply a b v db s).2 seen
  precount_step :
      (first second : Reply)
      → Step db s seen db (precount first second db s).1 (read_members first second db seen)
  clans_step :
      (members : List Member) → Step db s seen (record db { clan_members = members }) s seen

pub data Steps (db : SocialDb) (s : Service) (seen : List Member)
    : SocialDb → Service → List Member → Type 0 where
  done : Steps db s seen db s seen
  further :
      {db' db'' : SocialDb} {s' s'' : Service} {seen' seen'' : List Member}
      → Steps db s seen db' s' seen'
      → Step db' s' seen' db'' s'' seen''
      → Steps db s seen db'' s'' seen''

Step-InSync :
    {db : SocialDb} {s : Service} {seen : List Member} {db' : SocialDb} {s' : Service}
    {seen' : List Member}
    → Step db s seen db' s' seen'
    → InSync db s seen
    → InSync db' s' seen'
Step-InSync {db} {s} {seen} (set_step reply a b v) h = set-InSync db s seen h reply a b v
Step-InSync {db} {s} {seen} (precount_step first second) h = reload-InSync db s seen h first second
Step-InSync (clans_step members) h = record { clans = h.clans; keyed = h.keyed; agrees = h.agrees }

Steps-InSync :
    {db : SocialDb} {s : Service} {seen : List Member}
    → InSync db s seen
    → {db' : SocialDb} {s' : Service} {seen' : List Member} → Steps db s seen db' s' seen'
    → InSync db' s' seen'
Steps-InSync h done = h
Steps-InSync h (further before last) = Step-InSync last (Steps-InSync h before)

-- From a table with its primary key and a service that has read it once, whatever is declared,
-- reloaded or refused, and however the clans change, Get answers what the table says at that
-- moment, with the clan of a player by the table of members at the last reload, and answers the
-- same from both sides.
pub get-Steps :
    (db : SocialDb) (s : Service)
    → Keyed db.relations
    → (db' : SocialDb) (s' : Service) (seen : List Member)
    → Steps db (precount accepted accepted db s).1 db.clan_members db' s' seen
    → (a b : EntityRef)
    → (get a b s' ≡ standing (λ x y. stored x y db'.relations) (member_of seen) a b)
      × (get b a s' ≡ get a b s')
get-Steps db s keyed db' s' seen steps a b =
    let h = Steps-InSync (precount-InSync db s keyed) steps in
    (
      get-standing s' (λ x y e. stored-ne-neutral x y db'.relations (sym (h.agrees x y) ∙ e)) a b
          ∙ (λ i.
              standing (λ x y. h.agrees x y i) (λ x. clan_ref_of-member_of s' seen h.clans x i) a
                b),
      get_sym s' b a,
    )
