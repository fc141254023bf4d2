-- ===== src/Server/Probes.antt =====
-- `healthyProbe` and `readyProbe` of internal/server/server.go, and the gauge that they set.
use alertsnitch.Base.{◌≡◌, ◌↔◌, refl, Bool, true, Option, none, some, arith}
use alertsnitch.Alert.{Health}
use alertsnitch.Server.{World, status_ok, check_null, ready_probe, healthy_probe}

-- What a check says; a backend without checks counts as ready and healthy.
abbrev pub is_ready : Option Health → Bool
is_ready none = true
is_ready (some h) = h.ready

abbrev pub is_healthy : Option Health → Bool
is_healthy none = true
is_healthy (some h) = h.healthy

-- The readiness probe answers 200 exactly when the backend is ready and healthy, the liveness probe
-- exactly when it is ready, and each sets the gauge to whether the backend is ready.
pub probes_iff :
    {B : Type 0} (check : Option Health) (w : World B)
    → (((ready_probe check w).0 ≡ status_ok)
        ↔ ((is_ready check ≡ true) × (is_healthy check ≡ true)))
      × (((healthy_probe check w).0 ≡ status_ok) ↔ (is_ready check ≡ true))
      × ((ready_probe check w).1.metrics.database_up ≡ is_ready check)
      × ((healthy_probe check w).1.metrics.database_up ≡ is_ready check)
unfolding ready_probe healthy_probe
probes_iff none w = ((λ h. (refl, refl), λ h. refl), (λ h. refl, λ h. refl), refl, refl)
probes_iff (some h) w = (ground arith, ground arith, ground arith, ground arith)

-- A server with the null backend answers both probes with 200.
null_probes :
    {B : Type 0} (w : World B)
    → ((ready_probe (some check_null) w).0 ≡ status_ok)
      × ((healthy_probe (some check_null) w).0 ≡ status_ok)
unfolding check_null
null_probes w =
    let (ready, healthy, _, _) = probes_iff (some check_null) w in
    (ready.1 (refl, refl), healthy.1 refl)
