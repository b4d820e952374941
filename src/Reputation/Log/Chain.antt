-- ===== src/Reputation/Log/Chain.antt =====
-- The chain of hashes of the log, in `append` and `verify_chain` of its code.
use novapanda.Base.{ℕ, ◌+◌, String, ◌≡◌, refl, true, List, [], ◌∷◌, ◌++◌, Option, arith, eq_refl}
use novapanda.Base.Seq.{length}
use novapanda.Base.Exec.{ok}
use novapanda.Host.Params.{Host, Identity, Signs}
use novapanda.Host.Hashing.{>>=-ok}
use novapanda.Reputation.Log.{
  External, Fact, Entry, last_hash, seal, append, check_entry, chain_from, verify_chain,
}

module _ (h : Host) (node : Identity) (signs : Signs h node) where
  seal-checks :
      (i : ℕ) (f : Fact) (prev : String) (x : Option External) (e : Entry)
      → seal h node i f prev x ≡ ok e
      → check_entry h i prev e ≡ ok true
  unfolding seal check_entry
  seal-checks i f prev x e p = grind (arith, eq_refl, signs.accepted)

module _ (h : Host) where
  -- A chain is good when its first entry and the chain after it are.
  chain_from-cons :
      (i : ℕ) (prev : String) (e : Entry) (es : List Entry)
      → chain_from h i prev (e ∷ es) ≡ ok true
      → (check_entry h i prev e ≡ ok true) × (chain_from h (i + 1) e.entry_hash es ≡ ok true)
  unfolding chain_from
  chain_from-cons i prev e es c = ground arith

  cons-chain_from :
      (i : ℕ) (prev : String) (e : Entry) (es : List Entry)
      → check_entry h i prev e ≡ ok true
      → chain_from h (i + 1) e.entry_hash es ≡ ok true
      → chain_from h i prev (e ∷ es) ≡ ok true
  unfolding chain_from
  cons-chain_from i prev e es c d = ground arith

  -- A chain that goes on by a good entry is good.
  chain_from-append :
      (i n : ℕ) (prev : String) (es : List Entry) (e : Entry)
      → n ≡ i + length es
      → chain_from h i prev es ≡ ok true
      → check_entry h n (last_hash prev es) e ≡ ok true
      → chain_from h i prev (es ++ e ∷ []) ≡ ok true
  unfolding last_hash
  chain_from-append i n prev [] e q c d =
      let start : n ≡ i = omega arith in
      cons-chain_from i prev e [] (rw start at d) (unfold chain_from in refl)
  chain_from-append i n prev (x ∷ es) e q c d =
      let (good, rest) = chain_from-cons i prev x es c in
      cons-chain_from i prev x (es ++ e ∷ []) good
        (chain_from-append (i + 1) n x.entry_hash es e (omega arith) rest d)

append-ok :
    (h : Host) (node : Identity) (f : Fact) (x : Option External) (log log' : List Entry)
    → append h node f x log ≡ ok log'
    → (e : Entry) × (seal h node (length log) f (last_hash "GENESIS" log) x ≡ ok e)
      × (log' ≡ log ++ e ∷ [])
unfolding append
append-ok h node f x log log' p =
    let (e, sealed, is) =
      >>=-ok (seal h node (length log) f (last_hash "GENESIS" log) x) (λ e. ok (log ++ e ∷ [])) p in
    (e, sealed, cc)

-- Appending, of an own or of a mirrored outcome, keeps the whole ledger verifiable: if it verified
-- before and the append returned, it verifies after, the signatures of the node being accepted.
pub append-verify_chain :
    (h : Host) (node : Identity)
    → Signs h node
    → (f : Fact) (x : Option External) (log log' : List Entry) → append h node f x log ≡ ok log'
    → verify_chain h log ≡ ok true
    → verify_chain h log' ≡ ok true
unfolding verify_chain
append-verify_chain h node signs f x log log' p c =
    let (e, sealed, is) = append-ok h node f x log log' p in
    rw is (
      chain_from-append h 0 (length log) "GENESIS" log e (omega arith) c
        (seal-checks h node signs (length log) f (last_hash "GENESIS" log) x e sealed))
