-- ===== src/Home/Catalog.antt =====
-- The catalogue of the key figures: dashboard/src/lib/dashboard/kpi-catalog.ts.
use influence_platform.Prelude.{ℕ, List, [], ◌∷◌, Option, some}
use influence_platform.Js.Text.{Text, codes}

pub data Direction : Type 0 where
  higher_is_better lower_is_better : Direction

pub record KpiDefinition : Type 0 where
  pub id : Text
  pub label : Text
  pub warning_threshold : Option ℕ
  pub critical_threshold : Option ℕ
  pub direction : Direction

unfoldable pub dashboard_kpi_catalog : List KpiDefinition
dashboard_kpi_catalog =
    record {
      id = codes "publish_success_rate";
      label = codes "Publish Success";
      warning_threshold = some 90;
      critical_threshold = some 80;
      direction = higher_is_better;
    }
    ∷ record {
      id = codes "queue_pressure";
      label = codes "Queue Pressure";
      warning_threshold = some 25;
      critical_threshold = some 50;
      direction = lower_is_better;
    }
    ∷ record {
      id = codes "account_readiness";
      label = codes "Account Readiness";
      warning_threshold = some 70;
      critical_threshold = some 50;
      direction = higher_is_better;
    }
    ∷ record {
      id = codes "retry_risk";
      label = codes "Retrying Risk";
      warning_threshold = some 10;
      critical_threshold = some 20;
      direction = lower_is_better;
    }
    ∷ []
