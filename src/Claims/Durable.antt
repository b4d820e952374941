-- ===== src/Claims/Durable.antt =====
-- What `_persist` writes and `_load` reads.
use mathlib.Core.List.{append-nil}
use mathlib.Core.Option.{some-injective}
use novapanda.Base.{
  String, none, some, List, [], ◌∷◌, ◌++◌, ◌==◌, ◌≡◌, inl, inr, refl, sym, ap, ◌∙◌, arith,
  Bool-cases, Option-cases, eq_iff,
}
use novapanda.Base.Dict.{Dict, get, put, values, get-put}
use novapanda.Host.Params.{Host}
use novapanda.Claims.{
  Claim, Claims, ClaimCall, ClaimStep, asked, cleared, clear, take_step, persist, load_all,
  store_claim, serve_all,
}
use novapanda.Claims.Provenance.{by_id-store_claim}
use novapanda.Claims.Outcome.{Outcome, failed, issued, changed, serve-Outcome}

-- Each claim stands under its own id, once.
unfoldable pub IsKeyed : Dict Claim → Type 0
IsKeyed [] = Unit
IsKeyed ((k, c) ∷ d) = (c.claim_id ≡ k) × (get d k ≡ none) × IsKeyed d

keyed_id : (d : Dict Claim) (k : String) (c : Claim) → IsKeyed d → get d k ≡ some c → c.claim_id ≡ k
unfolding IsKeyed get
keyed_id [] k c h e = absurd (cc e)
keyed_id ((j, x) ∷ d) k c (own, once, rest) e = elim (Bool-cases (j == k)) [
  | inl q ↦
      let p : x ≡ c = some-injective x c (rw q at e) in
      ap (λ (y : Claim). y.claim_id) (sym p) ∙ own ∙ (eq_iff j k).0 q
  | inr q ↦ keyed_id d k c rest (rw q at e)
]

IsKeyed-put :
    (d : Dict Claim) (k : String) (c : Claim) → IsKeyed d → c.claim_id ≡ k → IsKeyed (put d k c)
unfolding IsKeyed get put
IsKeyed-put [] k c h e = (e, refl, tt)
IsKeyed-put ((j, x) ∷ d) k c (own, once, rest) e = elim (Bool-cases (j == k)) [
  | inl q ↦ rw q (e, rw (← (eq_iff j k).0 q) once, rest)
  | inr q ↦ rw q (
    own,
    get-put d k j c ∙ ground (arith, once, eq_iff j k, eq_iff k j),
    IsKeyed-put d k c rest e,
  )
]

put_new : (d : Dict Claim) (k : String) (c : Claim) → get d k ≡ none → put d k c ≡ d ++ (k, c) ∷ []
unfolding get put
put_new [] k c h = refl
put_new ((j, x) ∷ d) k c h = ground (arith, put_new d k c)

get-append_new : (d e : Dict Claim) (k : String) → get d k ≡ none → get (d ++ e) k ≡ get e k
unfolding get
get-append_new [] e k h = refl
get-append_new ((j, x) ∷ d) e k h = ground (arith, get-append_new d e k)

-- The two dictionaries have no key in common.
Apart : Dict Claim → Dict Claim → Type 0
Apart d [] = Unit
Apart d ((k, c) ∷ e) = (get d k ≡ none) × Apart d e

Apart-snoc :
    (d e : Dict Claim) (k : String) (c : Claim)
    → Apart d e
    → get e k ≡ none
    → Apart (d ++ (k, c) ∷ []) e
unfolding Apart get
Apart-snoc d [] k c h g = tt
Apart-snoc d ((j, x) ∷ e) k c (out, rest) g = (
  get-append_new d ((k, c) ∷ []) j out ∙ ground (arith, eq_iff j k, eq_iff k j),
  Apart-snoc d e k c rest (ground arith),
)

append_assoc : (d e f : Dict Claim) → (d ++ e) ++ f ≡ d ++ (e ++ f)
append_assoc [] e f = refl
append_assoc (x ∷ d) e f = ap (◌∷◌ x) (append_assoc d e f)

load_all-values : (e d : Dict Claim) → IsKeyed e → Apart d e → load_all (values e) d ≡ d ++ e
unfolding IsKeyed Apart load_all values
load_all-values [] d h a = sym (append-nil d)
load_all-values ((k, c) ∷ e) d (own, once, rest) (out, apart) =
    ap (load_all (values e)) (ap (λ z. put d z c) own ∙ put_new d k c out)
    ∙ load_all-values e (d ++ (k, c) ∷ []) rest (Apart-snoc d e k c apart once)
    ∙ append_assoc d ((k, c) ∷ []) e

Apart-nil : (e : Dict Claim) → Apart [] e
unfolding Apart get
Apart-nil [] = tt
Apart-nil ((k, c) ∷ e) = (refl, Apart-nil e)

-- The claims are keyed, and the file, where there is one, holds them all.
pub record IsSynced (s : Claims) : Type 0 where
  pub keyed : IsKeyed s.by_id
  pub written : (old : List Claim) → s.file ≡ some old → old ≡ values s.by_id

written_now :
    (k : String) (c : Claim) (s : Claims) (old : List Claim)
    → (store_claim k c s).file ≡ some old
    → old ≡ values (store_claim k c s).by_id
unfolding store_claim persist
written_now k c s old e = ground arith

IsSynced-store_claim :
    (k : String) (c : Claim) (s : Claims)
    → IsSynced s
    → c.claim_id ≡ k
    → IsSynced (store_claim k c s)
IsSynced-store_claim k c s h e = record {
  keyed = rw by_id-store_claim (IsKeyed-put s.by_id k c h.keyed e);
  written = λ old f. written_now k c s old f;
}

IsSynced-Outcome : {q : ClaimCall} {s t : Claims} → Outcome q s t → IsSynced s → IsSynced t
IsSynced-Outcome failed h = h
IsSynced-Outcome {s = s} (issued k c is same) h = IsSynced-store_claim k c s h same
IsSynced-Outcome {s = s} (changed k b c found live same) h =
    IsSynced-store_claim k c s h (same ∙ keyed_id s.by_id k b h.keyed found)

IsSynced-clear : (s : Claims) → IsSynced (clear s)
unfolding clear persist values IsKeyed
IsSynced-clear s = elim (Option-cases s.file) [
  | inl no_file ↦ rw no_file (record { keyed = tt; written = λ old e. absurd (cc (e, no_file)) })
  | inr (before, f) ↦ rw f (record { keyed = tt; written = λ old e. some-injective old [] (sym e) })
]

take_step-IsSynced :
    (h : Host) (strip : String → String) (q : ClaimStep) (s : Claims)
    → IsSynced s
    → IsSynced (take_step h strip q s)
unfolding take_step
take_step-IsSynced h strip (asked q) s synced = IsSynced-Outcome (serve-Outcome h strip q s) synced
take_step-IsSynced h strip cleared s synced = IsSynced-clear s

-- Whatever happens to a registry whose claims stand under their own ids and whose file holds them,
-- failing calls and `clear` included: where the registry has a file, loading it gives the claims of the
-- registry again.
pub serve_all-reloads :
    (h : Host) (strip : String → String) (qs : List ClaimStep) (s : Claims) (written : List Claim)
    → IsSynced s
    → (serve_all h strip qs s).file ≡ some written
    → load_all written [] ≡ (serve_all h strip qs s).by_id
unfolding serve_all
serve_all-reloads h strip [] s written synced e =
    ap (λ w. load_all w []) (synced.written written e)
    ∙ load_all-values s.by_id [] synced.keyed (Apart-nil s.by_id)
serve_all-reloads h strip (q ∷ qs) s written synced e =
    serve_all-reloads h strip qs (take_step h strip q s) written
      (take_step-IsSynced h strip q s synced) e
