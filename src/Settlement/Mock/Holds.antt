-- ===== src/Settlement/Mock/Holds.antt =====
-- What one hold of `MockSettlement` goes through.
use novapanda.Base.{
  ℕ, ◌≤◌, String, ◌≡◌, ◌≢◌, false, some, List, [], ◌∷◌, arith, eq_refl, ◌==◌, eq_iff,
}
use novapanda.Base.Int.{ℤ}
use novapanda.Base.Dict.{get, get-put}
use novapanda.Base.Exec.{◌>>=◌, ok, err}
use novapanda.Settlement.Contract.{
  SettlementError, Status, held, settled, refunded, Receipt, IsLawful,
}
use novapanda.Settlement.Mock.{
  Hold, MockSettlement, transition_hold, escrow_hold, mock_settlement, new_handle,
}

-- Moving a hold again to where it is succeeds with the same receipt and changes nothing.
pub transition_again :
    (h : String) (target : Status) (s s' : MockSettlement) (r : Receipt)
    → transition_hold h target s ≡ (ok r, s')
    → transition_hold h target s' ≡ (ok r, s')
unfolding transition_hold ◌>>=◌
transition_again h target s s' r e = grind (arith, get-put, eq_refl)

pub transition_failed :
    (h : String) (target : Status) (s s' : MockSettlement) (e : SettlementError)
    → transition_hold h target s ≡ (err e, s')
    → s' ≡ s
unfolding transition_hold ◌>>=◌
transition_failed h target s s' e p = ground arith

pub settle_excludes_refund :
    (h : String) (s s' t : MockSettlement) (r q : Receipt)
    → transition_hold h settled s ≡ (ok r, s')
    → transition_hold h refunded s' ≢ (ok q, t)
unfolding transition_hold ◌>>=◌
settle_excludes_refund h s s' t r q e p = grind (arith, get-put, eq_refl)

pub refund_excludes_settle :
    (h : String) (s s' t : MockSettlement) (r q : Receipt)
    → transition_hold h refunded s ≡ (ok r, s')
    → transition_hold h settled s' ≢ (ok q, t)
unfolding transition_hold ◌>>=◌
refund_excludes_settle h s s' t r q e p = grind (arith, get-put, eq_refl)

-- `MockSettlement` meets the contract of a settlement adapter: replays are without effect and give
-- the same receipt, failures are without effect, and no hold is both paid out and paid back.
pub mock_settlement-IsLawful : (uuid : ℕ → String) → IsLawful (mock_settlement uuid)
mock_settlement-IsLawful uuid = record {
  settle_again = λ h. transition_again h settled;
  refund_again = λ h. transition_again h refunded;
  settle_failed = λ h. transition_failed h settled;
  refund_failed = λ h. transition_failed h refunded;
  settled_not_refunded = settle_excludes_refund;
  refunded_not_settled = refund_excludes_settle;
}

-- A call that some client makes of the adapter.
pub data Request : Type 0 where
  escrow : String → ℤ → String → Request
  settle refund : String → Request

module _ (uuid : ℕ → String) where
  pub serve_one : Request → MockSettlement → MockSettlement
  serve_one (escrow x a c) s = (escrow_hold uuid x a c s).1
  serve_one (settle h) s = (transition_hold h settled s).1
  serve_one (refund h) s = (transition_hold h refunded s).1

  -- The calls one after the other; a client may go on after an error.
  pub serve : List Request → MockSettlement → MockSettlement
  serve [] s = s
  serve (r ∷ rs) s = serve rs (serve_one r s)

-- From the n-th on, `uuid4` gives no text that makes the handle.
abbrev pub NeverAgain : (ℕ → String) → String → ℕ → Type 0
NeverAgain uuid h n = (s : MockSettlement) → n ≤ s.drawn → (new_handle uuid s == h) ≡ false

drawn-serve_one :
    (uuid : ℕ → String) (r : Request) (s : MockSettlement) → s.drawn ≤ (serve_one uuid r s).drawn
unfolding serve_one escrow_hold transition_hold ◌>>=◌
drawn-serve_one uuid (escrow _ a _) s = ground arith
drawn-serve_one uuid (settle k) s = ground arith
drawn-serve_one uuid (refund k) s = ground arith

module _ (uuid : ℕ → String) (h : String) (x : Hold) (closed : x.status ≢ held) where
  serve_one-keeps :
      (r : Request) (s : MockSettlement)
      → NeverAgain uuid h s.drawn
      → get s.holds h ≡ some x
      → get (serve_one uuid r s).holds h ≡ some x
  unfolding serve_one escrow_hold transition_hold ◌>>=◌
  serve_one-keeps (escrow e a c) s fresh p =
      let opened : Hold = record { exchange_id = e; amount = a; currency = c; status = held } in
      ground (arith, fresh s (omega arith), get-put s.holds (new_handle uuid s) h opened)
  serve_one-keeps (settle k) s fresh p = grind (arith, get-put, eq_iff k h)
  serve_one-keeps (refund k) s fresh p = grind (arith, get-put, eq_iff k h)

  -- Whatever calls follow, a hold that is no longer held, so was paid out or paid back, stays as it is,
  -- provided that `uuid4` never gives its handle again.
  closed_hold_stays :
      (rs : List Request) (s : MockSettlement)
      → NeverAgain uuid h s.drawn
      → get s.holds h ≡ some x
      → get (serve uuid rs s).holds h ≡ some x
  unfolding serve
  closed_hold_stays [] s fresh p = p
  closed_hold_stays (r ∷ rs) s fresh p =
      closed_hold_stays rs (serve_one uuid r s)
        (λ t le. fresh t (omega (arith, drawn-serve_one uuid r s))) (serve_one-keeps r s fresh p)
