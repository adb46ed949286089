-- ===== src/Models/Subscription.antt =====
-- Subscriptions (events-processor/models/subscriptions.go).
use lago_paiement_engine.Prelude.{Option, String}
use lago_paiement_engine.Utils.Time.{Time}

pub record Subscription : Type 0 where
  pub id : String
  pub external_id : String
  pub plan_id : String
  pub created_at : Time
  pub updated_at : Time
  pub started_at : Option Time
  pub terminated_at : Option Time
