-- ===== src/Limiter.antt =====
-- internal/gateway/ratelimit/limiter.go: token buckets keyed by API key. `float64` is a parameter:
-- a type with the operations that are used. A call reads the clock up to three times; the mutex
-- makes it one step.
pub mod Bounds
use ai_model_gateway.Base.{
  ℕ, ◌+◌, ◌*◌, ◌%◌, ◌^◌, String, Bool, true, false, not, Option, none, some, [], Time, Duration,
  since, minute, ltb, leb, ◌==◌, length, if◌then◌else◌, Map, get, put, keep_if, ℤ,
}

pub record Floats : Type 1 where
  pub Float : Type 0
  pub of_int : ℤ → Float
  pub seconds : Duration → Float
  pub one : Float
  pub plus : Float → Float → Float
  pub minus : Float → Float → Float
  pub times : Float → Float → Float
  pub lt : Float → Float → Bool

abbrev pub stale_bucket_ttl : Duration
stale_bucket_ttl = 5 * minute

abbrev pub default_max_buckets : ℕ
default_max_buckets = 65_536

abbrev pub cleanup_interval : ℕ
cleanup_interval = 256

-- the readings of the clock in a call: at the periodic clean-up, at the clean-up for room, and for
-- the bucket
pub record Readings : Type 0 where
  pub periodic : Time
  pub for_room : Time
  pub now : Time

module _ (floats : Floats) where
  open floats use {Float, of_int, seconds, one, plus, minus, times, lt}

  pub record Bucket : Type 0 where
    pub tokens : Float
    pub last_check : Time

  pub record Limiter : Type 0 where
    pub buckets : Map Bucket
    pub rps : Float
    pub burst : ℤ
    pub max_buckets : ℕ
    pub call_count : ℕ

  unfoldable pub new_limiter : Float → ℤ → Limiter
  new_limiter rps burst = record {
    buckets = [];
    rps = rps;
    burst = burst;
    max_buckets = default_max_buckets;
    call_count = 0;
  }

  -- `!b.lastCheck.Before(time.Now().Add(-staleBucketTTL))`
  abbrev pub is_recent : Time → String → Bucket → Bool
  is_recent now key b = leb now (b.last_check + stale_bucket_ttl)

  -- cleanupStaleBucketsLocked
  unfoldable pub cleanup_stale_buckets : Time → Limiter → Limiter
  unfolding keep_if
  cleanup_stale_buckets now l = record l { buckets = keep_if (is_recent now) l.buckets }

  -- the counter is a uint64
  unfoldable pub count_call : Time → Limiter → Limiter
  unfolding cleanup_stale_buckets
  count_call now l =
      let counted : Limiter = record l { call_count = (l.call_count + 1) % 2 ^ 64 } in
      if counted.call_count % cleanup_interval == 0
      then cleanup_stale_buckets now counted
      else counted

  abbrev pub new_bucket : Limiter → Bucket
  new_bucket l = record { tokens = of_int l.burst; last_check = 0 }

  abbrev pub room_for : Limiter → Limiter × Option Bucket
  room_for l = if leb l.max_buckets (length l.buckets) then (l, none) else (l, some (new_bucket l))

  -- the limiter with room for the key, and its bucket; none where the key is rejected. A new
  -- bucket enters the map with its first tokens
  unfoldable pub find_bucket : Time → String → Limiter → Limiter × Option Bucket
  unfolding cleanup_stale_buckets get
  find_bucket now key l = elim (get l.buckets key) [
    | some b ↦ (l, some b)
    | none ↦
        if leb l.max_buckets (length l.buckets)
        then room_for (cleanup_stale_buckets now l)
        else (l, some (new_bucket l))
  ]

  unfoldable pub refilled : Time → Limiter → Bucket → Float
  refilled now l b =
      let sum : Float = plus b.tokens (times (seconds (since now b.last_check)) l.rps) in
      if lt (of_int l.burst) sum then of_int l.burst else sum

  unfoldable pub take_token : Time → String → Limiter → Bucket → Limiter × Bool
  unfolding refilled put
  take_token now key l b =
      let tokens : Float = refilled now l b in
      let left : Float = if lt tokens one then tokens else minus tokens one in
      (
        record l { buckets = put l.buckets key (record { tokens = left; last_check = now }) },
        not (lt tokens one),
      )

  abbrev pub serve : Readings → String → Limiter × Option Bucket → Limiter × Bool
  serve t key (l, none) = (l, false)
  serve t key (l, some b) = take_token t.now key l b

  -- Allow
  unfoldable pub allow : Readings → String → Limiter → Limiter × Bool
  unfolding count_call find_bucket take_token
  allow t key l = serve t key (find_bucket t.for_room key (count_call t.periodic l))
