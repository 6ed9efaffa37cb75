-- ===== src/Queue/Waiting.antt =====
-- The requests that wait, and the counters that count them.
use ai_model_gateway.Base.{
  ℕ, ◌+◌, ◌≡◌, ◌∙◌, ap, Bool, true, false, List, [], ◌∷◌, ◌++◌, arith, if◌then◌else◌, count_if,
  count_if-append,
}
use ai_model_gateway.Queue.{
  Priority, high, medium, low, other, PendingRequest, Queue, count_waiting, uncount_waiting,
}

abbrev pub is_high : PendingRequest → Bool
is_high r = elim r.priority [ high ↦ true | medium ↦ false | low ↦ false | other ↦ false ]

abbrev pub is_medium : PendingRequest → Bool
is_medium r = elim r.priority [ high ↦ false | medium ↦ true | low ↦ false | other ↦ false ]

abbrev pub is_low : PendingRequest → Bool
is_low r = elim r.priority [ high ↦ false | medium ↦ false | low ↦ true | other ↦ false ]

-- a request whose priority has no channel of its own, which waits among those of medium priority
abbrev pub is_other : PendingRequest → Bool
is_other r = elim r.priority [ high ↦ false | medium ↦ false | low ↦ false | other ↦ true ]

-- the requests that wait: to be put into a channel, in one, or picked and not yet counted off
abbrev pub waiting : (PendingRequest → Bool) → Queue → ℕ
waiting f q =
    count_if f q.senders
    + count_if f q.high_ch
    + count_if f q.med_ch
    + count_if f q.low_ch
    + count_if f q.holding

pub record Tally (high_waiting med_waiting low_waiting highs mediums lows : ℕ) : Type 0 where
  pub high_tally : high_waiting ≡ highs
  pub med_tally : med_waiting ≡ mediums
  pub low_tally : low_waiting ≡ lows

-- the medium counter also holds the `lost` requests of an unknown priority that were ever counted
abbrev pub IsTallied : ℕ → Queue → Type 0
IsTallied lost q =
    Tally q.high_waiting q.med_waiting q.low_waiting (waiting is_high q)
      (waiting is_medium q + lost) (waiting is_low q)

abbrev pub one_if : Bool → ℕ
one_if b = if b then 1 else 0

pub count_if-taken :
    (f : PendingRequest → Bool) (l xs ys : List PendingRequest) (r : PendingRequest)
    → l ≡ xs ++ r ∷ ys
    → count_if f l ≡ count_if f (xs ++ ys) + one_if (f r)
count_if-taken f l xs ys r e =
    ap (count_if f) e ∙ ground (arith, count_if-append f xs (r ∷ ys), count_if-append f xs ys)

pub count_if-cons :
    (f : PendingRequest → Bool) (r : PendingRequest) (l : List PendingRequest)
    → count_if f (r ∷ l) ≡ count_if f l + one_if (f r)
count_if-cons f r l = ground arith

pub count_if-snoc :
    (f : PendingRequest → Bool) (r : PendingRequest) (l : List PendingRequest)
    → count_if f (l ++ r ∷ []) ≡ count_if f l + one_if (f r)
count_if-snoc f r l = ground (arith, count_if-append f l (r ∷ []))

-- Counting a request and adding it, and taking one away and counting it off, keep the tally.
pub Tally-count_waiting :
    (p : Priority) (r : PendingRequest) (q : Queue) (h m l h' m' l' : ℕ)
    → r.priority ≡ p
    → h' ≡ h + one_if (is_high r)
    → m' ≡ m + one_if (is_medium r) + one_if (is_other r)
    → l' ≡ l + one_if (is_low r)
    → Tally q.high_waiting q.med_waiting q.low_waiting h m l
    → Tally
        (count_waiting p q).high_waiting
        (count_waiting p q).med_waiting
        (count_waiting p q).low_waiting
        h'
        m'
        l'
unfolding count_waiting
Tally-count_waiting high r q h m l h' m' l' e eh em el t = record {
  high_tally = ground (arith, t.high_tally);
  med_tally = ground (arith, t.med_tally);
  low_tally = ground (arith, t.low_tally);
}
Tally-count_waiting medium r q h m l h' m' l' e eh em el t = record {
  high_tally = ground (arith, t.high_tally);
  med_tally = ground (arith, t.med_tally);
  low_tally = ground (arith, t.low_tally);
}
Tally-count_waiting low r q h m l h' m' l' e eh em el t = record {
  high_tally = ground (arith, t.high_tally);
  med_tally = ground (arith, t.med_tally);
  low_tally = ground (arith, t.low_tally);
}
Tally-count_waiting other r q h m l h' m' l' e eh em el t = record {
  high_tally = ground (arith, t.high_tally);
  med_tally = ground (arith, t.med_tally);
  low_tally = ground (arith, t.low_tally);
}

pub Tally-uncount_waiting :
    (p : Priority) (r : PendingRequest) (q : Queue) (h m l h' m' l' : ℕ)
    → r.priority ≡ p
    → h ≡ h' + one_if (is_high r)
    → m ≡ m' + one_if (is_medium r)
    → l ≡ l' + one_if (is_low r)
    → Tally q.high_waiting q.med_waiting q.low_waiting h m l
    → Tally
        (uncount_waiting p q).high_waiting
        (uncount_waiting p q).med_waiting
        (uncount_waiting p q).low_waiting
        h'
        m'
        l'
unfolding uncount_waiting
Tally-uncount_waiting high r q h m l h' m' l' e eh em el t = record {
  high_tally = ground (arith, t.high_tally);
  med_tally = ground (arith, t.med_tally);
  low_tally = ground (arith, t.low_tally);
}
Tally-uncount_waiting medium r q h m l h' m' l' e eh em el t = record {
  high_tally = ground (arith, t.high_tally);
  med_tally = ground (arith, t.med_tally);
  low_tally = ground (arith, t.low_tally);
}
Tally-uncount_waiting low r q h m l h' m' l' e eh em el t = record {
  high_tally = ground (arith, t.high_tally);
  med_tally = ground (arith, t.med_tally);
  low_tally = ground (arith, t.low_tally);
}
Tally-uncount_waiting other r q h m l h' m' l' e eh em el t = record {
  high_tally = ground (arith, t.high_tally);
  med_tally = ground (arith, t.med_tally);
  low_tally = ground (arith, t.low_tally);
}
