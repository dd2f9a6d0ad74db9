-- ===== src/RateLimit/Eviction.antt =====
-- The eviction of services/auth_rate_limit.rs: which entry a full table gives up for a new key.
use mathlib.Core.Option.{some-injective}
use teatro.Prelude.{
  ℕ, min, ◌≤◌, ◌<◌, ◌≡◌, refl, subst, inl, inr, true, false, none, some, [], ◌∷◌, arith, retain,
  length, All, All-mono, All-both, All-retain, All-retain_test, retain-eq-nil, Bool-cases, nat_eq,
  list_eq, if◌then◌else◌,
}
use teatro.Prelude.Text.{Text}
use teatro.Table.{lookup, Unique}
use teatro.Table.Laws.{Unique-All}
use teatro.RateLimit.{
  RateLimitEntry, Entries, older, oldest, oldest_of, is_unlocked, oldest_unlocked_key, min_lock,
}

oldest_All {κ} :
    (P : Text × RateLimitEntry → Type κ) (best : Text × RateLimitEntry) (rest : Entries)
    → P best
    → All P rest
    → P (oldest best rest)
unfolding oldest
oldest_All P best [] h hs = h
oldest_All P best (x ∷ rest) h hs = elim (Bool-cases (older best x)) [
  | inl e ↦ rw e (oldest_All P best rest h hs.1)
  | inr e ↦ rw e (oldest_All P x rest hs.0 hs.1)
]

older_pick :
    (best x : Text × RateLimitEntry)
    → ((if older best x then best else x).1.last_seen_at ≤ best.1.last_seen_at)
      × ((if older best x then best else x).1.last_seen_at ≤ x.1.last_seen_at)
unfolding older
older_pick best x = ground arith

-- No entry was seen before the chosen one.
oldest-le :
    (best : Text × RateLimitEntry) (rest : Entries)
    → ((oldest best rest).1.last_seen_at ≤ best.1.last_seen_at)
      × All (λ x. (oldest best rest).1.last_seen_at ≤ x.1.last_seen_at) rest
unfolding oldest
oldest-le best [] = (omega arith, tt)
oldest-le best (x ∷ rest) =
    let y : Text × RateLimitEntry = if older best x then best else x in
    (
      omega (arith, older_pick best x, (oldest-le y rest).0),
      (omega (arith, older_pick best x, (oldest-le y rest).0), (oldest-le y rest).1),
    )

-- The victim for which a new key takes the room: an entry that is not locked, and of those one
-- that was seen the longest ago.
pub record IsVictim (now : ℕ) (entries : Entries) (k : Text) : Type 0 where
  pub entry : RateLimitEntry
  pub found : lookup k entries ≡ some entry
  pub unlocked : is_unlocked now entry ≡ true
  pub first :
      All (λ x. entry.last_seen_at ≤ x.1.last_seen_at) (retain (λ x. is_unlocked now x.1) entries)

abbrev Held : ℕ → Entries → Text × RateLimitEntry → Type 0
Held now entries x = (lookup x.0 entries ≡ some x.1) × (is_unlocked now x.1 ≡ true)

unlocked-Held :
    (now : ℕ) (entries : Entries)
    → Unique entries
    → All (Held now entries) (retain (λ x. is_unlocked now x.1) entries)
unlocked-Held now entries u =
    All-both (λ x. lookup x.0 entries ≡ some x.1) (λ x. is_unlocked now x.1 ≡ true) _
      (All-retain (λ x. lookup x.0 entries ≡ some x.1) (λ x. is_unlocked now x.1) entries
        (Unique-All entries u))
      (All-retain_test (λ x. is_unlocked now x.1) entries)

oldest_of-IsVictim :
    (now : ℕ) (entries : Entries) (k : Text) (l : Entries)
    → l ≡ retain (λ x. is_unlocked now x.1) entries
    → All (Held now entries) l
    → oldest_of l ≡ some k
    → IsVictim now entries k
unfolding oldest_of
oldest_of-IsVictim now entries k [] e u h = cc
oldest_of-IsVictim now entries k (x ∷ l) e u h =
    let victim : Text × RateLimitEntry = oldest x l in
    let held : Held now entries victim = oldest_All (Held now entries) x l u.0 u.1 in
    subst (IsVictim now entries) (some-injective _ _ h) (record {
      entry = victim.1;
      found = held.0;
      unlocked = held.1;
      first = subst (All (λ y. victim.1.last_seen_at ≤ y.1.last_seen_at)) e (oldest-le x l);
    })

pub oldest_unlocked_key-some :
    (now : ℕ) (entries : Entries) (k : Text)
    → Unique entries
    → oldest_unlocked_key now entries ≡ some k
    → IsVictim now entries k
unfolding oldest_unlocked_key
oldest_unlocked_key-some now entries k u h =
    oldest_of-IsVictim now entries k _ refl (unlocked-Held now entries u) h

abbrev pub Locked : ℕ → Text × RateLimitEntry → Type 0
Locked now x = (t : ℕ) × (x.1.locked_until ≡ some t) × (now < t)

is_unlocked-false :
    (now : ℕ) (x : Text × RateLimitEntry) → is_unlocked now x.1 ≡ false → Locked now x
unfolding is_unlocked
is_unlocked-false now x h = ground arith

oldest_of-none : (l : Entries) → oldest_of l ≡ none → l ≡ []
unfolding oldest_of
oldest_of-none [] h = refl
oldest_of-none (x ∷ l) h = cc

pub oldest_unlocked_key-none :
    (now : ℕ) (entries : Entries)
    → oldest_unlocked_key now entries ≡ none
    → All (Locked now) entries
unfolding oldest_unlocked_key
oldest_unlocked_key-none now entries h =
    All-mono (λ x. is_unlocked now x.1 ≡ false) (Locked now) (is_unlocked-false now) entries
      (retain-eq-nil (λ x. is_unlocked now x.1) entries (oldest_of-none _ h))

min_lock-some :
    (now best : ℕ) (entries : Entries)
    → now < best
    → All (Locked now) entries
    → (t : ℕ) × (min_lock (some best) entries ≡ some t) × (now < t)
unfolding min_lock
min_lock-some now best [] h hs = (best, refl, h)
min_lock-some now best ((k, e) ∷ rest) h ((u, eq, lt), hs) =
    rw eq (min_lock-some now (min best u) rest (omega arith) hs)

pub min_lock_total :
    (now : ℕ) (entries : Entries)
    → 0 < length entries
    → All (Locked now) entries
    → (t : ℕ) × (min_lock none entries ≡ some t) × (now < t)
unfolding min_lock
min_lock_total now [] h hs = elim h [ ]
min_lock_total now ((k, e) ∷ rest) h ((u, eq, lt), hs) = rw eq (min_lock-some now u rest lt hs)
