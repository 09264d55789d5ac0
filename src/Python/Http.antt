-- ===== src/Python/Http.antt =====
-- What an endpoint of FastAPI answers: for hm5/aggregation/app/routes.py and hm5/producer/app/routes.py.
use service_oriented_archite.Base.{ℕ, String}

-- A body with status 200, or an HTTPException with its status and its detail.
pub data Response (A : Type 0) : Type 0 where
  body : A → Response A
  http_exception : ℕ → String → Response A
