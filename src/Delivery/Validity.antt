-- ===== src/Delivery/Validity.antt =====
-- What holds of every delivery, of the index by run and of the event buffer, and how each move keeps it.
use a2a_broker.Prelude.{
  ◌≡◌, ◌≢◌, refl, ◌∙◌, String, none, some, arith, eq_iff, Option-cases, inl, inr, Bool-cases, true,
  ◌==◌, eq_refl,
}
use a2a_broker.Prelude.Dict
use a2a_broker.EventBuffer.Announce
use a2a_broker.EventBuffer.Order.{IsOrdered}
use a2a_broker.Delivery.Types.{DeliveryState}
use a2a_broker.Delivery.Manager.{Manager, existing_id}
use a2a_broker.Delivery.Moves.{Names, IsConsistent, Update, Emits}

abbrev pub IsStored : String → DeliveryState → Type 0
IsStored k d = (d.delivery_id ≡ k) × IsConsistent d

abbrev pub IsAnnounced : Manager → Type 0
IsAnnounced m = Announce.IsAnnounced (λ e. e.id) (λ e. e.delivery_id) Names m.deliveries m.buffer

-- A run that the index knows has a delivery, under an id that is not empty.
pub record Delivers (m : Manager) (r k : String) : Type 0 where
  pub named : k ≢ ""
  pub delivery : DeliveryState
  pub held : Dict.get m.deliveries k ≡ some delivery
  pub same_run : delivery.run_id ≡ r

pub record IsValid (m : Manager) : Type 0 where
  pub unique : Dict.IsUnique m.deliveries
  pub at_key : Dict.Holds IsStored m.deliveries
  pub indexed : Dict.Holds (λ k d. Dict.get m.run_index d.run_id ≡ some k) m.deliveries
  pub points : Dict.Holds (λ r k. Delivers m r k) m.run_index
  pub ordered : IsOrdered (λ e. e.id) m.buffer
  pub announced : IsAnnounced m

pub existing-known :
    (m : Manager) (r k : String)
    → existing_id m r ≡ some k
    → (Dict.get m.run_index r ≡ some k) × (k ≢ "")
unfolding existing_id
existing-known m r k e = ground (arith, eq_iff k "")

pub existing-unknown :
    (m : Manager) (r : String) → IsValid m → existing_id m r ≡ none → Dict.get m.run_index r ≡ none
unfolding existing_id
existing-unknown m r v e = elim (Option-cases (Dict.get m.run_index r)) [
  | inl missing ↦ missing
  | inr (k, found) ↦ absurd (ground (arith, found, eq_iff k "", (v.points r k found).named))
]

-- Another state of a delivery, with the same run, leaves the index right.
replaced-Delivers :
    (m m' : Manager) (k : String) (d d' : DeliveryState)
    → Dict.get m.deliveries k ≡ some d
    → d'.run_id ≡ d.run_id
    → m'.deliveries ≡ Dict.set m.deliveries k d'
    → (r j : String) → Delivers m r j
    → Delivers m' r j
replaced-Delivers m m' k d d' found same written r j at = elim (Bool-cases (k == j)) [
  | inl here ↦
      let at_j : k ≡ j = (eq_iff k j).0 here in
      let is : d ≡ at.delivery = cc (at.held) in
      record {
        named = at.named;
        delivery = d';
        held = rw written (Dict.get-set_same m.deliveries k j d' here);
        same_run = same ∙ rw is at.same_run;
      }
  | inr other ↦ record {
    named = at.named;
    delivery = at.delivery;
    held = rw written (Dict.get-set_other m.deliveries k j d' other ∙ at.held);
    same_run = at.same_run;
  }
]

pub suppress-IsValid :
    (m : Manager) (k : String) (d : DeliveryState)
    → Dict.get m.deliveries k ≡ some d
    → IsValid m
    → IsValid (record m {
      deliveries = Dict.set m.deliveries k (record d { duplicate_suppressed = true });
    })
suppress-IsValid m k d found v =
    let (named, c) = v.at_key k d found in
    let d' : DeliveryState = record d { duplicate_suppressed = true } in
    record {
      unique = Dict.set-IsUnique m.deliveries k d' v.unique;
      at_key = Dict.Holds-set IsStored m.deliveries k d' v.at_key (
        named,
        record {
          started = c.started;
          arrived = c.arrived;
          coded = c.coded;
          acknowledges = c.acknowledges;
          timed = c.timed;
          tried = c.tried;
          bounded = c.bounded;
        },
      );
      indexed = Dict.Holds-set _ m.deliveries k d' v.indexed (v.indexed k d found);
      points = λ r j at.
          replaced-Delivers m (record m { deliveries = Dict.set m.deliveries k d' }) k d d' found
            refl refl r j (v.points r j at);
      ordered = v.ordered;
      announced =
          Announce.IsAnnounced-set (λ e. e.id) (λ e. e.delivery_id) Names k d d' m.deliveries
            m.buffer found (λ e names. names) v.announced;
    }

pub advance-IsValid :
    (m m' : Manager) (k : String) (d d' : DeliveryState)
    → Dict.get m.deliveries k ≡ some d
    → Update d d'
    → m'.deliveries ≡ Dict.set m.deliveries k d'
    → m'.run_index ≡ m.run_index
    → Emits k d' m m'
    → IsValid m
    → IsValid m'
advance-IsValid m m' k d d' found u written same emits v =
    let (named, c) = v.at_key k d found in
    record {
      unique = rw written (Dict.set-IsUnique m.deliveries k d' v.unique);
      at_key =
          rw written
            (Dict.Holds-set IsStored m.deliveries k d' v.at_key (u.same_id ∙ named, u.keeps c));
      indexed =
          rw (written, same)
            (Dict.Holds-set _ m.deliveries k d' v.indexed (rw u.same_run (v.indexed k d found)));
      points = λ r j at.
          replaced-Delivers m m' k d d' found u.same_run written r j (v.points r j (rw⁻¹ same at));
      ordered =
          Announce.Emits-IsOrdered (λ e. e.id) (λ e. e.delivery_id) Names k d' m.buffer m'.buffer
            emits v.ordered;
      announced = rw written (
          Announce.Emits-IsAnnounced (λ e. e.id) (λ e. e.delivery_id) Names k d' m.deliveries
            m.buffer m'.buffer emits v.announced);
    }

module _ (m m' : Manager) (run id : String) (d : DeliveryState)
    (unknown : Dict.get m.run_index run ≡ none) (unused : Dict.get m.deliveries id ≡ none)
    (named : id ≢ "") (same_run : d.run_id ≡ run)
    (written : m'.deliveries ≡ Dict.set m.deliveries id d)
    (indexed : m'.run_index ≡ Dict.set m.run_index run id) (v : IsValid m) where
  pub enter-indexed : Dict.Holds (λ j e. Dict.get m'.run_index e.run_id ≡ some j) m'.deliveries
  enter-indexed =
      rw (written, indexed)
        (Dict.Holds-set _ m.deliveries id d
          (λ j e held.
            let old : Dict.get m.run_index e.run_id ≡ some j = v.indexed j e held in
            let apart : run ≢ e.run_id = λ same. absurd (cc (same, old, unknown)) in
            rw (Dict.get-set m.run_index run e.run_id id)
              (ground (arith, eq_iff run e.run_id, apart, old)))
          (rw same_run (Dict.get-set_same m.run_index run run id (eq_refl run))))

  pub enter-points : Dict.Holds (λ r k. Delivers m' r k) m'.run_index
  enter-points = rw indexed (
      Dict.Holds-set _ m.run_index run id
        (λ r k at.
          let old : Delivers m r k = v.points r k at in
          let apart : id ≢ k = λ same. absurd (cc (same, old.held, unused)) in
          record {
            named = old.named;
            delivery = old.delivery;
            held =
                rw (written, Dict.get-set m.deliveries id k d)
                  (ground (arith, eq_iff id k, apart, old.held));
            same_run = old.same_run;
          })
        (record {
          named = named;
          delivery = d;
          held = rw written (Dict.get-set_same m.deliveries id id d (eq_refl id));
          same_run = same_run;
        }))
