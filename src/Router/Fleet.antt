-- ===== src/Router/Fleet.antt =====
-- The health of the shards in src/services/RouterService.ts. A poll of a shard answers whether its response was
-- ok, with its size and its connections (0 where they are missing), or throws. The utilization
-- `used / maximum` is kept as its two numbers; it is compared as an exact fraction. The fields of
-- `ShardHealth` that are constants, and the status `degraded`, which nothing sets, are left out.
pub mod Laws
pub mod Choice
use Prim.Native.String.{String}
use workersql.Base.{
  ℕ, zero, suc, ◌+◌, ◌*◌, ◌-◌, ◌<◌, ◌≤◌, ◌≡◌, refl, ap, ◌∙◌, ◌⊎◌, inl, inr, Bool, true, false, ◌&&◌,
  List, [], ◌∷◌, ◌++◌ as ◌+++◌, Option, none, some, arith, ◌==◌, if◌then◌else◌, ltb, filter,
  includes, string_eq, Bool-cases,
}
use workersql.Dict
use workersql.Dict.{Dict}
use workersql.Errors.{no_healthy_shards, shard_not_found, Result, ok, err}
use workersql.Router.Hash.{shard_name}

pub data Status : Type 0 where
  healthy unhealthy : Status

abbrev pub is_healthy : Status → Bool
is_healthy healthy = true
is_healthy unhealthy = false

pub record ShardHealth : Type 0 where
  pub shard_id : String
  pub status : Status
  pub capacity_used_bytes : ℕ
  pub capacity_max_bytes : ℕ
  pub utilization : ℕ × ℕ
  pub active_connections : ℕ
  pub last_health_check : ℕ

pub record ShardHealthResponse : Type 0 where
  pub ok_status : Bool
  pub size_bytes : ℕ
  pub connections : ℕ

-- Whether a utilization is below another one; with a maximum of 0 it is infinite or no number.
abbrev pub is_below : ℕ × ℕ → ℕ × ℕ → Bool
is_below (a, zero) _ = false
is_below (a, suc m) (b, zero) = ltb 0 b
is_below (a, suc m) (b, suc n) = ltb (a * suc n) (b * suc m)

-- The parsed setting `MAX_SHARD_SIZE_GB`, with 0 for a text that is no number.
unfoldable pub capacity_max : ℕ → ℕ
capacity_max max_shard_size_gb = max_shard_size_gb * 1073741824

names_below : ℕ → List String
names_below zero = []
names_below (suc n) = names_below n +++ (shard_name n ∷ [])

-- `parseInt(MAX_SHARD_SIZE_GB) || 4` shards: the same setting is read as their number.
unfoldable pub get_available_shards : ℕ → List String
unfolding names_below
get_available_shards zero = names_below 4
get_available_shards (suc n) = names_below (suc n)

unfoldable pub polled : ℕ → Option ShardHealthResponse → String → ℕ → ShardHealth
unfolding capacity_max
polled max_shard_size_gb none shard_id now = record {
  shard_id = shard_id;
  status = unhealthy;
  capacity_used_bytes = 0;
  capacity_max_bytes = capacity_max max_shard_size_gb;
  utilization = (1, 1);
  active_connections = 0;
  last_health_check = now;
}
polled max_shard_size_gb (some response) shard_id now = record {
  shard_id = shard_id;
  status = if response.ok_status then healthy else unhealthy;
  capacity_used_bytes = response.size_bytes;
  capacity_max_bytes = capacity_max max_shard_size_gb;
  utilization = (response.size_bytes, capacity_max max_shard_size_gb);
  active_connections = response.connections;
  last_health_check = now;
}

pub record Fleet : Type 0 where
  pub shard_health : Dict String ShardHealth
  pub last_health_check : ℕ

module _ (max_shard_size_gb : ℕ) (poll : String → Option ShardHealthResponse) (now : ℕ) where
  unfoldable pub poll_each : Dict String ShardHealth → List String → Dict String ShardHealth
  unfolding polled
  poll_each m [] = m
  poll_each m (s ∷ ss) = poll_each (Dict.put m s (polled max_shard_size_gb (poll s) s now)) ss

  unfoldable pub refresh_shard_health : Fleet → Fleet
  unfolding poll_each get_available_shards
  refresh_shard_health f = record {
    shard_health = poll_each f.shard_health (get_available_shards max_shard_size_gb);
    last_health_check = now;
  }

  -- `health?.status === 'healthy' && health.capacityUtilization < 0.8`
  unfoldable pub has_room : Dict String ShardHealth → String → Bool
  has_room m shard_id = elim (Dict.get m shard_id) [
    | none ↦ false
    | some health ↦ is_healthy health.status && is_below health.utilization (4, 5)
  ]

  abbrev pub utilization_of : Option ShardHealth → ℕ × ℕ
  utilization_of none = (1, 1)
  utilization_of (some health) = health.utilization

  -- The loop for the lowest utilization, from the best shard so far.
  unfoldable pub lowest : Dict String ShardHealth → String → List String → String
  lowest m best [] = best
  lowest m best (s ∷ ss) =
      if is_below (utilization_of (Dict.get m s)) (utilization_of (Dict.get m best))
      then lowest m s ss
      else lowest m best ss

  unfoldable pub find_optimal_shard : Fleet → Result String × Fleet
  unfolding refresh_shard_health get_available_shards has_room lowest
  find_optimal_shard f =
      let g = refresh_shard_health f in
      elim (filter (has_room g.shard_health) (get_available_shards max_shard_size_gb)) [
        | [] ↦ (err no_healthy_shards, g)
        | s ∷ ss ↦ (ok (lowest g.shard_health s (s ∷ ss)), g)
      ]

  abbrev health_or_error : Option ShardHealth → Result ShardHealth
  health_or_error none = err shard_not_found
  health_or_error (some health) = ok health

  unfoldable pub get_shard_health : Fleet → String → Result ShardHealth × Fleet
  unfolding refresh_shard_health
  get_shard_health f shard_id =
      let g = if ltb 30000 (now - f.last_health_check) then refresh_shard_health f else f in
      (health_or_error (Dict.get g.shard_health shard_id), g)
