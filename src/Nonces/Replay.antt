-- ===== src/Nonces/Replay.antt =====
-- A nonce that was accepted is refused until the window has passed.
use novapanda.Base.{
  ℕ, ◌+◌, ◌≤◌, ◌≡◌, refl, Bool, true, false, ◌&&◌, ◌||◌, List, [], ◌∷◌, ◌++◌, leb, arith,
  Bool-cases, inl, inr, eq_refl,
}
use novapanda.Base.Seq.{All}
use novapanda.Nonces.{
  Seen, is_of, known, prune, check_in_memory, check_in_database, Kind, in_memory, in_database,
  nonce_check_and_add, serve,
}

-- The store has the nonce of `q`, seen at its time or later.
unfoldable since : Seen → List Seen → Bool
since q [] = false
since q (s ∷ ss) = (is_of s q && leb q.seen_at s.seen_at) || since q ss

since-prune :
    (window now : ℕ) (q : Seen) (ss : List Seen)
    → now ≤ q.seen_at + window
    → since q ss ≡ true
    → since q (prune window now ss) ≡ true
unfolding since prune
since-prune window now q [] le h = h
since-prune window now q (s ∷ ss) le h = ground (arith, since-prune window now q ss le)

since-append : (q : Seen) (ss ts : List Seen) → since q ss ≡ true → since q (ss ++ ts) ≡ true
unfolding since
since-append q [] ts h = absurd (ground arith)
since-append q (s ∷ ss) ts h = ground (arith, since-append q ss ts)

since-last : (q : Seen) (ss : List Seen) → since q (ss ++ q ∷ []) ≡ true
unfolding since
since-last q [] = ground (arith, eq_refl q.agent_id, eq_refl q.nonce)
since-last q (s ∷ ss) = ground (arith, since-last q ss)

known-since :
    (q : Seen) (ss : List Seen) (later : ℕ)
    → since q ss ≡ true
    → known (record q { seen_at = later }) ss ≡ true
unfolding since known
known-since q [] later h = h
known-since q (s ∷ ss) later h = ground (arith, known-since q ss later)

module _ (window : ℕ) (q : Seen) where
  since-check :
      (kind : Kind) (d : Seen) (ss : List Seen)
      → d.seen_at ≤ q.seen_at + window
      → since q ss ≡ true
      → since q (nonce_check_and_add kind window d ss).1 ≡ true
  unfolding nonce_check_and_add check_in_memory check_in_database
  since-check in_memory d ss le h = elim (Bool-cases (known d ss)) [
    | inl old ↦ rw old h
    | inr new ↦ rw new (
        since-append q (prune window d.seen_at ss) (d ∷ [])
          (since-prune window d.seen_at q ss le h))
  ]
  since-check in_database d ss le h = elim (Bool-cases (known d (prune window d.seen_at ss))) [
    | inl old ↦ rw old (since-prune window d.seen_at q ss le h)
    | inr new ↦ rw new (
        since-append q (prune window d.seen_at ss) (d ∷ [])
          (since-prune window d.seen_at q ss le h))
  ]

  since-serve :
      (kind : Kind) (qs ss : List Seen)
      → All (λ d. d.seen_at ≤ q.seen_at + window) qs
      → since q ss ≡ true
      → since q (serve kind window qs ss) ≡ true
  unfolding serve
  since-serve kind [] ss le h = h
  since-serve kind (d ∷ qs) ss (le, les) h =
      since-serve kind qs (nonce_check_and_add kind window d ss).1 les (since-check kind d ss le h)

  accepted-since :
      (kind : Kind) (ss : List Seen)
      → (nonce_check_and_add kind window q ss).0 ≡ true
      → since q (nonce_check_and_add kind window q ss).1 ≡ true
  unfolding nonce_check_and_add check_in_memory check_in_database
  accepted-since in_memory ss h = elim (Bool-cases (known q ss)) [
    | inl old ↦ absurd (cc (rw old at h))
    | inr new ↦ rw new (since-last q (prune window q.seen_at ss))
  ]
  accepted-since in_database ss h = elim (Bool-cases (known q (prune window q.seen_at ss))) [
    | inl old ↦ absurd (cc (rw old at h))
    | inr new ↦ rw new (since-last q (prune window q.seen_at ss))
  ]

  refused-since :
      (kind : Kind) (later : ℕ) (ss : List Seen)
      → later ≤ q.seen_at + window
      → since q ss ≡ true
      → (nonce_check_and_add kind window (record q { seen_at = later }) ss).0 ≡ false
  unfolding nonce_check_and_add check_in_memory check_in_database
  refused-since in_memory later ss le h = rw (known-since q ss later h) refl
  refused-since in_database later ss le h =
      rw (known-since q (prune window later ss) later (since-prune window later q ss le h)) refl

  -- Once a nonce of an agent was accepted, it is refused at every later call, whatever calls for this
  -- and other nonces come between, as long as no call is made later than the window allows. This holds
  -- of both stores.
  pub replay-is_refused :
      (kind : Kind) (ss qs : List Seen) (later : ℕ)
      → (nonce_check_and_add kind window q ss).0 ≡ true
      → All (λ d. d.seen_at ≤ q.seen_at + window) qs
      → later ≤ q.seen_at + window
      → (nonce_check_and_add kind window
          (record q { seen_at = later })
          (serve kind window qs (nonce_check_and_add kind window q ss).1)).0
        ≡ false
  replay-is_refused kind ss qs later accepted between le = refused-since kind later _ le (
      since-serve kind qs (nonce_check_and_add kind window q ss).1 between
        (accepted-since kind ss accepted))
