-- ===== src/Limiter/Bounds.antt =====
-- How much a limiter keeps: the number of buckets and the tokens in them.
use ai_model_gateway.Base.{
  ap, ◌∙◌, ◌⊎◌, ◌==◌, ◌%◌, ◌^◌, since, length-put_old, ◌+◌, ◌≤◌, ◌<◌, ◌≡◌, arith, String, false,
  Option, none, some, ℤ, Time, leb, length, if◌then◌else◌, if_intro, get, get-put, get-keep_if,
  keep_value, length-put-le, length-keep_if-le, Option-cases, inl, inr, not_leb,
}
use ai_model_gateway.Limiter.{
  Floats, Limiter, Bucket, Readings, new_limiter, cleanup_stale_buckets, count_call, find_bucket,
  is_recent, room_for, serve, refilled, take_token, allow,
}

module _ (floats : Floats) where
  open floats use {Float, of_int, seconds, one, plus, minus, times, lt}

  -- what is needed of the order: a number is not below itself, and taking one away does not pass a
  -- bound
  pub record Laws : Type 0 where
    pub lt_irrefl : (b : ℤ) → lt (of_int b) (of_int b) ≡ false
    pub minus_one :
        (b : ℤ) (x : Float) → lt (of_int b) x ≡ false → lt (of_int b) (minus x one) ≡ false

  -- no more buckets than the limit, and no bucket above the burst
  pub record IsBounded (l : Limiter floats) : Type 0 where
    pub room : length l.buckets ≤ l.max_buckets
    pub level :
        (key : String) (b : Bucket floats)
        → get l.buckets key ≡ some b
        → lt (of_int l.burst) b.tokens ≡ false

  abbrev SameLimits : Limiter floats → Limiter floats → Type 0
  SameLimits l l' = (l'.max_buckets ≡ l.max_buckets) × (l'.burst ≡ l.burst)

  pub new_limiter-IsBounded : (rps : Float) (burst : ℤ) → IsBounded (new_limiter floats rps burst)
  unfolding new_limiter get
  new_limiter-IsBounded rps burst = record { room = omega arith; level = λ key b h. cc h }

  cleanup-IsBounded :
      (now : Time) (l : Limiter floats)
      → IsBounded l
      → IsBounded (cleanup_stale_buckets floats now l)
  unfolding cleanup_stale_buckets
  cleanup-IsBounded now l v = record {
    room = omega (arith, length-keep_if-le (is_recent floats now) l.buckets, v.room);
    level = λ key b h. ground (
      arith,
      get-keep_if (is_recent floats now) l.buckets key,
      v.level key b,
      Option-cases (get l.buckets key),
    );
  }

  count_call-IsBounded :
      (now : Time) (l : Limiter floats) → IsBounded l → IsBounded (count_call floats now l)
  unfolding count_call
  count_call-IsBounded now l v =
      let counted : Limiter floats = record l { call_count = (l.call_count + 1) % 2 ^ 64 } in
      let still : IsBounded counted = record { room = v.room; level = v.level } in
      if_intro IsBounded (counted.call_count % 256 == 0) (λ _. cleanup-IsBounded now counted still)
        (λ _. still)

  -- a bucket in hand: one of the map, or a new one for which there is room
  abbrev InHand : String → Limiter floats × Option (Bucket floats) → Type 0
  InHand key (l, none) = IsBounded l
  InHand key (l, some b) =
      IsBounded l
      × ((get l.buckets key ≡ some b)
          ⊎ ((length l.buckets < l.max_buckets) × (get l.buckets key ≡ none)))

  room_for-InHand :
      (key : String) (l : Limiter floats)
      → IsBounded l
      → get l.buckets key ≡ none
      → InHand key (room_for floats l)
  room_for-InHand key l v h =
      if_intro (InHand key) (leb l.max_buckets (length l.buckets)) (λ _. v)
        (λ e. (v, inr (not_leb l.max_buckets (length l.buckets) e, h)))

  find_bucket-InHand :
      (now : Time) (key : String) (l : Limiter floats)
      → IsBounded l
      → InHand key (find_bucket floats now key l)
  unfolding find_bucket cleanup_stale_buckets
  find_bucket-InHand now key l v = elim (Option-cases (get l.buckets key)) [
    | inr (b, found) ↦ rw (find_bucket, found) (v, inl found)
    | inl new ↦
        rw (find_bucket, new)
          (if_intro (InHand key) (leb l.max_buckets (length l.buckets))
            (λ _.
              room_for-InHand key (cleanup_stale_buckets floats now l) (cleanup-IsBounded now l v) (
                get-keep_if (is_recent floats now) l.buckets key
                ∙ ap (keep_value (is_recent floats now) key) new))
            (λ e. (v, inr (not_leb l.max_buckets (length l.buckets) e, new))))
  ]

  module _ (laws : Laws) where
    refilled-level :
        (now : Time) (l : Limiter floats) (b : Bucket floats)
        → lt (of_int l.burst) (refilled floats now l b) ≡ false
    unfolding refilled
    refilled-level now l b =
        let sum : Float = plus b.tokens (times (seconds (since now b.last_check)) l.rps) in
        if_intro (λ x. lt (of_int l.burst) x ≡ false) (lt (of_int l.burst) sum)
          (λ _. laws.lt_irrefl l.burst) (λ e. e)

    take_token-IsBounded :
        (now : Time) (key : String) (l : Limiter floats) (b : Bucket floats)
        → InHand key (l, some b)
        → IsBounded (take_token floats now key l b).0
    unfolding take_token
    take_token-IsBounded now key l b (v, at) =
        let tokens : Float = refilled floats now l b in
        let left : Float = if lt tokens one then tokens else minus tokens one in
        let low : lt (of_int l.burst) left ≡ false =
          if_intro (λ x. lt (of_int l.burst) x ≡ false) (lt tokens one)
            (λ _. refilled-level now l b)
            (λ _. laws.minus_one l.burst tokens (refilled-level now l b)) in
        let kept : Bucket floats = record { tokens = left; last_check = now } in
        record {
          room = elim at [
            | inl old ↦ omega (arith, length-put_old l.buckets key b kept old, v.room)
            | inr new ↦ omega (arith, length-put-le l.buckets key kept, new.0)
          ];
          level = λ j c h. ground (arith, get-put l.buckets key j kept, v.level j c, low);
        }

    serve-IsBounded :
        (t : Readings) (key : String) (p : Limiter floats × Option (Bucket floats))
        → InHand key p
        → IsBounded (serve floats t key p).0
    serve-IsBounded t key (l, none) h = h
    serve-IsBounded t key (l, some b) h = take_token-IsBounded t.now key l b h

    -- Whatever keys ask, and whatever the clock shows, a limiter that keeps no more buckets than
    -- its limit, none of them above the burst, is such a limiter after Allow.
    pub allow-IsBounded :
        (t : Readings) (key : String) (l : Limiter floats)
        → IsBounded l
        → IsBounded (allow floats t key l).0
    unfolding allow
    allow-IsBounded t key l v =
        serve-IsBounded t key (find_bucket floats t.for_room key (count_call floats t.periodic l)) (
          find_bucket-InHand t.for_room key (count_call floats t.periodic l)
            (count_call-IsBounded t.periodic l v))
