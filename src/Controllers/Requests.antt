-- ===== src/Controllers/Requests.antt =====
-- The results of the reconciliations of pkg/controllers, and the errors of the API server that they
-- tell apart.
use karpenter_provider_huawe.Base.{ℕ, Bool, true, false, Error, wrapped, conflict}

-- reconcile.Result; the time is in seconds.
pub record Request : Type 0 where
  pub requeue : Bool
  pub requeue_after : ℕ

abbrev pub no_request : Request
no_request = record { requeue = false; requeue_after = 0 }

abbrev pub requeued : Request
requeued = record { requeue = true; requeue_after = 0 }

abbrev pub after_seconds : ℕ → Request
after_seconds n = record { requeue = false; requeue_after = n }

-- errors.IsConflict, through what %w wraps
unfoldable pub is_conflict : Error → Bool
is_conflict conflict = true
is_conflict (wrapped msg e) = is_conflict e
is_conflict _ = false
