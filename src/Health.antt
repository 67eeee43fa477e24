-- ===== src/Health.antt =====
-- The readiness check of src/api/routes/health.py. What the clients of Redis, of the database and of
-- the broker do is an argument: an answer, a timeout, or an exception with its text. The clock and
-- the duration of each check are left out.
use abrio.Prelude.{Option, none, some, Bool, true, false, Text, codes, ◌++◌}

pub data Status : Type 0 where
  status_ok status_error : Status

-- What a client does.
pub data Attempt : Type 0 where
  answers timeout : Attempt
  raises : Text → Attempt

pub record ServiceStatus : Type 0 where
  pub status : Status
  pub error : Option Text

abbrev up : ServiceStatus
up = record { status = status_ok; error = none }

abbrev down : Text → ServiceStatus
down error = record { status = status_error; error = some error }

-- `_check_redis`; an address without a host and port raises like the client.
unfoldable pub check_redis : Bool → Text → Attempt → ServiceStatus
check_redis false redis_url a =
    down (codes "Redis connection failed: " ++ codes "Redis URL cannot be parsed: " ++ redis_url)
check_redis true redis_url answers = up
check_redis true redis_url timeout = down (codes "Redis connection timeout after 1s")
check_redis true redis_url (raises e) = down (codes "Redis connection failed: " ++ e)

-- `_check_db`; an exception that is no `SQLAlchemyError` passes through it and is left out.
unfoldable pub check_db : Option Text → ServiceStatus
check_db none = up
check_db (some e) = down (codes "Database connection failed: " ++ e)

-- `_check_rabbitmq`
unfoldable pub check_rabbitmq : Option Text → ServiceStatus
check_rabbitmq none = up
check_rabbitmq (some e) = down (codes "RabbitMQ connection failed: " ++ e)

pub record HealthReadyResponse : Type 0 where
  pub status : Status
  pub redis : ServiceStatus
  pub database : ServiceStatus
  pub rabbitmq : ServiceStatus

unfoldable pub health_check_ready :
    Bool → Text → Attempt → Option Text → Option Text → HealthReadyResponse
unfolding check_redis check_db check_rabbitmq
health_check_ready parses redis_url redis database rabbitmq = record {
  status = (check_db database).status;
  redis = check_redis parses redis_url redis;
  database = check_db database;
  rabbitmq = check_rabbitmq rabbitmq;
}
