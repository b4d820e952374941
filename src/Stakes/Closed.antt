-- ===== src/Stakes/Closed.antt =====
-- A stake that was released or slashed is never locked again.
use novapanda.Base.{
  String, ◌≡◌, refl, Bool, true, false, Option, none, some, List, [], ◌∷◌, ◌==◌, if◌then◌else◌,
  arith, eq_iff, Bool-cases, Option-cases, inl, inr, ◌⊎◌,
}
use novapanda.Base.Dict.{get, get-put}
use novapanda.Base.Seq.{All}
use novapanda.Stakes.{
  StakeCall, lock, release, slash, serve_stake, serve_stakes, Stake, locked, released, is_locked,
  Stakes, persist, peek, load_stake, lock_stake, release_found, release_stake, slash_stake_record,
  validate_stake_lock,
}

peek-persist :
    (k : String) (d : Stake) (s : Stakes)
    → peek k (persist d s) ≡ (if d.stake_id == k then some d else peek k s)
unfolding peek persist
peek-persist k d s = elim (Option-cases s.store) [
  | inl e ↦ ground (arith, e, get-put s.cache d.stake_id k d)
  | inr (t, e) ↦ ground (arith, e, get-put s.cache d.stake_id k d, get-put t d.stake_id k d)
]

peek-load_stake : (j k : String) (s : Stakes) → peek k (load_stake j s).1 ≡ peek k s
unfolding peek load_stake
peek-load_stake j k s = elim (Option-cases s.store) [
  | inl e ↦ ground (arith, e)
  | inr (t, e) ↦ elim (Option-cases (get t j)) [
    | inl absent ↦ ground (arith, e, absent)
    | inr (d, there) ↦ ground (arith, e, there, get-put s.cache j k d, eq_iff j k)
  ]
]

found-load_stake : (j : String) (s : Stakes) → (load_stake j s).0 ≡ peek j s
unfolding peek load_stake
found-load_stake j s = ground arith

-- The stake is known and not locked.
abbrev pub IsClosed : String → Stakes → Type 0
IsClosed k s = (d : Stake) × (peek k s ≡ some d) × (is_locked d.status ≡ false)

IsClosed-persist :
    (k : String) (d : Stake) (s : Stakes)
    → is_locked d.status ≡ false
    → IsClosed k s
    → IsClosed k (persist d s)
IsClosed-persist k d s closed (x, there, c) = elim (Bool-cases (d.stake_id == k)) [
  | inl q ↦ (d, rw (peek-persist, q) refl, closed)
  | inr q ↦ (x, rw (peek-persist, q) there, c)
]

IsClosed-apart :
    (k : String) (d : Stake) (s : Stakes)
    → (d.stake_id == k) ≡ false
    → IsClosed k s
    → IsClosed k (persist d s)
IsClosed-apart k d s q (x, there, c) = (x, rw (peek-persist, q) there, c)

IsClosed-load : (j k : String) (s : Stakes) → IsClosed k s → IsClosed k (load_stake j s).1
IsClosed-load j k s (x, there, c) = (x, rw peek-load_stake there, c)

-- A lock does not draw the id.
abbrev pub Apart : String → StakeCall → Type 0
Apart k (lock d) = (d.stake_id == k) ≡ false
Apart k (release _) = Unit
Apart k (slash _ _ _) = Unit

Errors-cases : (xs : List String) → (xs ≡ []) ⊎ ((y : String) × (ys : List String) × (xs ≡ y ∷ ys))
Errors-cases [] = inl refl
Errors-cases (x ∷ xs) = inr (x, xs, refl)

module _ (version now k : String) where
  IsClosed-lock :
      (enabled : Bool) (d : Stake) (s : Stakes)
      → (d.stake_id == k) ≡ false
      → IsClosed k s
      → IsClosed k (lock_stake enabled version now d s).1
  unfolding lock_stake
  IsClosed-lock false d s apart h = h
  IsClosed-lock true d s apart h =
      let built = record d {
        stake_version = version;
        status = locked;
        locked_at = now;
        released_at = none;
        slashed_at = none;
        slash_reason = none;
        slashed_by = none;
      } in
      elim (Errors-cases (validate_stake_lock version built)) [
        | inl e ↦ rw (e, lock_stake) (IsClosed-apart k built s apart h)
        | inr (x, xs, e) ↦ rw (e, lock_stake) h
      ]

  IsClosed-release_found :
      (enabled : Bool) (found : Option Stake) (t : Stakes)
      → IsClosed k t
      → IsClosed k (release_found enabled version now found t).1
  unfolding release_found
  IsClosed-release_found enabled none t h = h
  IsClosed-release_found enabled (some d) t h = elim (Bool-cases (is_locked d.status)) [
    | inl free ↦
        rw (free, release_found)
          (IsClosed-persist k (record d { status = released; released_at = some now }) t refl h)
    | inr refused ↦ rw (refused, release_found) h
  ]

  IsClosed-release :
      (enabled : Bool) (j : String) (s : Stakes)
      → IsClosed k s
      → IsClosed k (release_stake enabled version now j s).1
  unfolding release_stake
  IsClosed-release false j s h = h
  IsClosed-release true j s h =
      IsClosed-release_found true (load_stake j s).0 (load_stake j s).1 (IsClosed-load j k s h)

  IsClosed-slash :
      (enabled : Bool) (d : Stake) (reason by : String) (s : Stakes)
      → IsClosed k s
      → IsClosed k (slash_stake_record enabled version now d reason by s).1
  unfolding slash_stake_record
  IsClosed-slash false d reason by s h = h
  IsClosed-slash true d reason by s h = elim (Errors-cases (validate_stake_lock version d)) [
    | inl e ↦
        rw (e, slash_stake_record)
          (IsClosed-persist k _ (load_stake d.stake_id s).1 refl (IsClosed-load d.stake_id k s h))
    | inr (x, xs, e) ↦ rw (e, slash_stake_record) h
  ]

  -- Whatever stakes are locked, released and slashed, in any order and whether stakes are enabled or not:
  -- a stake that was released or slashed is not locked again, as long as no new lock is given its id.
  pub ended_stake-stays :
      (enabled : Bool) (cs : List StakeCall) (s : Stakes)
      → All (λ c. Apart k c) cs
      → IsClosed k s
      → IsClosed k (serve_stakes enabled version now cs s)
  unfolding serve_stakes serve_stake
  ended_stake-stays enabled [] s apart h = h
  ended_stake-stays enabled (lock d ∷ cs) s (first, rest) h =
      ended_stake-stays enabled cs (lock_stake enabled version now d s).1 rest
        (IsClosed-lock enabled d s first h)
  ended_stake-stays enabled (release j ∷ cs) s (_, rest) h =
      ended_stake-stays enabled cs (release_stake enabled version now j s).1 rest
        (IsClosed-release enabled j s h)
  ended_stake-stays enabled (slash d reason by ∷ cs) s (_, rest) h =
      ended_stake-stays enabled cs (slash_stake_record enabled version now d reason by s).1 rest
        (IsClosed-slash enabled d reason by s h)
