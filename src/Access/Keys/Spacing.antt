-- ===== src/Access/Keys/Spacing.antt =====
-- How often the keys are fetched.
use mobux.Access.Keys.{
  Jwt, KeyCache, KeyAnswer, lookup, may_refetch, store_fetched, refetch, key_for,
  min_refetch_interval,
}
use mobux.Prelude.Result.{Result, ok, err}
use mobux.Prelude.{
  ℕ, ◌+◌, ◌-◌, ◌≤◌, true, false, List, [], ◌∷◌, Option, none, some, ◌≡◌, refl, arith, leb→le, inl,
  inr, Bool-cases, Option-cases, if◌then◌else◌, ◌⊎◌, sym, subst,
}
use mobux.Utf8.{Text}

module _ (jwt : Jwt) where
  -- One call of `key_for`: the id, the time, what was seen without the lock, and what the server would
  -- send.
  pub record Call : Type 0 where
    pub kid : Text
    pub now : ℕ
    pub seen : KeyCache jwt
    pub reply : Result (List jwt.Value) Text

  -- The times at which the calls ask the server, in the order in which they have the lock.
  unfoldable pub fetch_times : List Call → KeyCache jwt → List ℕ
  fetch_times [] cache = []
  fetch_times (c ∷ calls) cache =
      let answer = key_for jwt c.kid c.now c.seen c.reply cache in
      let rest = fetch_times calls answer.cache in if answer.fetched then c.now ∷ rest else rest

  -- Each is at least the interval after the one before.
  abbrev pub Spaced : Option ℕ → List ℕ → Type 0
  Spaced before [] = Unit
  Spaced none (t ∷ ts) = Spaced (some t) ts
  Spaced (some before) (t ∷ ts) = (before + min_refetch_interval ≤ t) × Spaced (some t) ts

  store_fetched-time :
      (kid : Text) (now : ℕ) (reply : Result (List jwt.Value) Text) (cache : KeyCache jwt)
      → ((store_fetched jwt kid now reply cache).fetched ≡ true)
        × ((store_fetched jwt kid now reply cache).cache.last_fetch ≡ some now)
  unfolding store_fetched
  store_fetched-time kid now (ok values) cache = (refl, refl)
  store_fetched-time kid now (err e) cache = (refl, refl)

  abbrev Quiet : KeyCache jwt → KeyAnswer jwt → Type 0
  Quiet cache answer = (answer.fetched ≡ false) × (answer.cache.last_fetch ≡ cache.last_fetch)

  abbrev Asks : ℕ → KeyCache jwt → KeyAnswer jwt → Type 0
  Asks now cache answer =
      (answer.fetched ≡ true)
      × (answer.cache.last_fetch ≡ some now)
      × (may_refetch jwt cache.last_fetch now ≡ true)

  refetch-cases :
      (kid : Text) (now : ℕ) (reply : Result (List jwt.Value) Text) (cache : KeyCache jwt)
      → Quiet cache (refetch jwt kid now reply cache)
        ⊎ Asks now cache (refetch jwt kid now reply cache)
  unfolding refetch
  refetch-cases kid now reply cache = elim (Option-cases (lookup jwt kid cache.keys)) [
    | inr (key, d) ↦ inl (rw (d, refetch) (refl, refl))
    | inl d ↦ elim (Bool-cases (may_refetch jwt cache.last_fetch now)) [
      | inr m ↦
          let quiet : Quiet cache (refetch jwt kid now reply cache) =
            rw (d, refetch) (rw m (refl, refl)) in
          inl quiet
      | inl m ↦
          let step : refetch jwt kid now reply cache ≡ store_fetched jwt kid now reply cache =
            rw (d, refetch) (rw m refl) in
          let (fetched, time) = store_fetched-time kid now reply cache in
          inr (subst (Asks now cache) (sym step) (fetched, time, m))
    ]
  ]

  -- A call asks nothing and keeps the time of the last fetch, or is the fetch and comes late enough.
  key_for-cases :
      (c : Call) (cache : KeyCache jwt)
      → Quiet cache (key_for jwt c.kid c.now c.seen c.reply cache)
        ⊎ Asks c.now cache (key_for jwt c.kid c.now c.seen c.reply cache)
  unfolding key_for
  key_for-cases c cache = elim (Option-cases (lookup jwt c.kid c.seen.keys)) [
    | inr (key, e) ↦ inl (rw (e, key_for) (refl, refl))
    | inl e ↦
        let step : key_for jwt c.kid c.now c.seen c.reply cache
            ≡ refetch jwt c.kid c.now c.reply cache =
          rw (e, key_for) refl in
        subst (λ a. Quiet cache a ⊎ Asks c.now cache a) (sym step)
          (refetch-cases c.kid c.now c.reply cache)
  ]

  late_enough :
      (before : Option ℕ) (now : ℕ) (rest : List ℕ)
      → may_refetch jwt before now ≡ true
      → Spaced (some now) rest
      → Spaced before (now ∷ rest)
  unfolding may_refetch
  late_enough none now rest m h = h
  late_enough (some at) now rest m h = (ground (arith, leb→le min_refetch_interval (now - at) m), h)

  -- Whatever the calls, the server is asked again no sooner than the interval after the last time.
  pub fetch_times-Spaced :
      (calls : List Call) (cache : KeyCache jwt) → Spaced cache.last_fetch (fetch_times calls cache)
  unfolding fetch_times
  fetch_times-Spaced [] cache = elim cache.last_fetch as (λ b. Spaced b []) [
    | none ↦ tt
    | some _ ↦ tt
  ]
  fetch_times-Spaced (c ∷ calls) cache =
      let answer = key_for jwt c.kid c.now c.seen c.reply cache in
      let rest : Spaced answer.cache.last_fetch (fetch_times calls answer.cache) =
        fetch_times-Spaced calls answer.cache in
      elim (key_for-cases c cache) [
        | inl (quiet, kept) ↦
            rw quiet (subst (λ b. Spaced b (fetch_times calls answer.cache)) kept rest)
        | inr (asked, time, late) ↦ rw asked (
            late_enough cache.last_fetch c.now (fetch_times calls answer.cache) late
              (subst (λ b. Spaced b (fetch_times calls answer.cache)) time rest))
      ]
