-- ===== src/Publisher/Stages.antt =====
-- How the events of the demo of hm6/producer/main.py change the stock, one after the other.
use service_oriented_archite.Base.{
  ℕ, String, ◌≡◌, ◌≢◌, refl, ◌∙◌, false, Option, some, List, [], ◌∷◌, string_eq, pair_eq, ◌==◌,
}
use service_oriented_archite.Base.Int.{ℤ, ◌+ℤ◌, ◌-ℤ◌}
use service_oriented_archite.Cassandra.Tables.{Db}
use service_oriented_archite.Cassandra.Client.{is_event_processed}
use service_oriented_archite.Handlers.Sound.{stock, same_key}
use service_oriented_archite.Handlers.Effects.{Change}
use service_oriented_archite.Consumer.World.{World}
use service_oriented_archite.Publisher.Demo.{Draw}
use service_oriented_archite.Publisher.Consumed.{Marks, OneZone, TwoZones}

-- Ids that are not empty, not marked, and all different.
abbrev pub AllOther : String → List String → Type 0
AllOther id [] = Unit
AllOther id (other ∷ rest) = (other ≢ id) × AllOther id rest

abbrev pub NewIds : List String → Db → Type 0
NewIds [] db = Unit
NewIds (id ∷ rest) db =
    ((id == "") ≡ false) × (is_event_processed id db ≡ false) × AllOther id rest × NewIds rest db

NewIds-marked :
    {id : String} (w w' : World) (ids : List String)
    → Marks id w w'
    → AllOther id ids
    → NewIds ids w.db
    → NewIds ids w'.db
NewIds-marked w w' [] m others h = tt
NewIds-marked w w' (i ∷ ids) m (differ, others) (has_id, unseen, apart, h) =
    (has_id, m.others i differ ∙ unseen, apart, NewIds-marked w w' ids m others h)

-- What the two zones of the demo hold, beside the zones and the letters as they were at first.
pub record Stage (first : World) (a r b br : ℤ) (at bt : Option ℕ) (ids : List String) (w : World)
    : Type 0 where
  pub available : (stock w.db "SKU-001" "ZONE-A").available ≡ a
  pub reserved : (stock w.db "SKU-001" "ZONE-A").reserved ≡ r
  pub target_available : (stock w.db "SKU-001" "ZONE-B").available ≡ b
  pub target_reserved : (stock w.db "SKU-001" "ZONE-B").reserved ≡ br
  pub stamped : (stock w.db "SKU-001" "ZONE-A").last_ts ≡ at
  pub target_stamped : (stock w.db "SKU-001" "ZONE-B").last_ts ≡ bt
  pub elsewhere :
      (p z : String)
      → same_key (p, z) ("SKU-001", "ZONE-A") ≡ false
      → same_key (p, z) ("SKU-001", "ZONE-B") ≡ false
      → stock w.db p z ≡ stock first.db p z
  pub letters : w.letters ≡ first.letters
  pub new_ids : NewIds ids w.db

zones_differ : same_key ("SKU-001", "ZONE-B") ("SKU-001", "ZONE-A") ≡ false
unfolding string_eq pair_eq
zones_differ = refl

module _ (first : World) (a r b br : ℤ) (at bt : Option ℕ) (d : Draw) (ids : List String)
    (w : World) (stage : Stage first a r b br at bt (d.event_id ∷ ids) w) (w' : World)
    (marks : Marks d.event_id w w') where
  ids_left : NewIds ids w'.db
  ids_left = NewIds-marked w w' ids marks stage.new_ids.2 stage.new_ids.3

  pub one_zone-Stage :
      (change : Change) (q a' r' : ℤ) (t : ℕ)
      → (stock w'.db "SKU-001" "ZONE-A").available ≡ a'
      → (stock w'.db "SKU-001" "ZONE-A").reserved ≡ r'
      → OneZone change "SKU-001" "ZONE-A" q t w.db w'.db
      → Stage first a' r' b br (some t) bt ids w'
  one_zone-Stage change q a' r' t ea er h =
      let same = h.elsewhere "SKU-001" "ZONE-B" zones_differ in
      record {
        available = ea;
        reserved = er;
        target_available = rw same stage.target_available;
        target_reserved = rw same stage.target_reserved;
        stamped = h.stamped;
        target_stamped = rw same stage.target_stamped;
        elsewhere = λ p z not_a not_b. h.elsewhere p z not_a ∙ stage.elsewhere p z not_a not_b;
        letters = marks.letters ∙ stage.letters;
        new_ids = ids_left;
      }

  pub two_zones-Stage :
      (q : ℤ) (t : ℕ)
      → TwoZones "SKU-001" "ZONE-A" "ZONE-B" q t w.db w'.db
      → Stage first (a -ℤ q) r (b +ℤ q) br (some t) (stock w'.db "SKU-001" "ZONE-B").last_ts ids w'
  two_zones-Stage q t h = record {
    available = rw (h.taken, stage.available) refl;
    reserved = h.reserved "ZONE-A" ∙ stage.reserved;
    target_available = rw (h.added, stage.target_available) refl;
    target_reserved = h.reserved "ZONE-B" ∙ stage.target_reserved;
    stamped = h.stamped;
    target_stamped = refl;
    elsewhere = λ p z not_a not_b. h.elsewhere p z not_a not_b ∙ stage.elsewhere p z not_a not_b;
    letters = marks.letters ∙ stage.letters;
    new_ids = ids_left;
  }
