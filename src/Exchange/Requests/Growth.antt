-- ===== src/Exchange/Requests/Growth.antt =====
-- Each method, raising or not, takes its exchange along the transition table.
use novapanda.Exchange.Requests.Grounds.{grounds}
use novapanda.Base.{ℕ, String, ◌≡◌, refl, Option, none, some, arith, true}
use novapanda.Base.Int.{ℤ}
use novapanda.Base.Exec.{modify}
use novapanda.Base.Exec.Keeps.{Keeps-bind, Keeps-gets, Keeps-raise_if}
use novapanda.Canonical.Value.{Json}
use novapanda.Exchange.Fields.{Exchange}
use novapanda.Exchange.Engine.{Env, update}
use novapanda.Exchange.Engine.Sound.{Rest, Grew-Side, Kept, plain}
use novapanda.Exchange.Engine.Growth.{
  keep_engine, Keeps-update, Keeps-assert, Keeps-transition, growth_rules,
}
use novapanda.Exchange.Methods.{escrow_body, deliver_body, accept_delivery}
use novapanda.Exchange.Deliverables.{by_ref, put_deliverable, store_to, store_deliverable}
use novapanda.Blobs.{BlobKind}
use novapanda.Exchange.Closing.{
  ingest_delivery_body, settle_now, ingest_confirmation_body, confirm_body, write_vdc, dispute_body,
  resolve_settle, resolve_reject, refund_to, resolved,
}
use novapanda.Exchange.Requests.{
  Method, contract, escrow, deliver, ingest_delivery, verify, ingest_confirmation, confirm, dispute,
  resolve_to_settle, resolve_to_reject, cancel, expire, perform,
}
use novapanda.Host.Params.{Identity}
use novapanda.StateMachine.{State}
use novapanda.Vdc.Document.{Vdc}
use novapanda.Exchange.Requests.Acks.{Keeps-contract}
use novapanda.Exchange.Requests.Verdict.{Keeps-verify}

module _ {S : Type 0} (env : Env S) (now : ℕ) {a : Exchange} {k : String} {rest : Rest} where
  Keeps-refund_to :
      (dst : State) → plain dst ≡ true → Kept {S = S} (grounds env) a k rest (refund_to env now dst)
  unfolding refund_to
  Keeps-refund_to dst easy = search (growth_rules, Keeps-transition env now dst easy) depth 9

  Keeps-settle_now : Kept {S = S} (grounds env) a k rest (settle_now env now)
  unfolding settle_now
  Keeps-settle_now = search growth_rules depth 9

  Keeps-put_deliverable :
      (kind : BlobKind) (d : Json)
      → Kept {S = S} (grounds env) a k rest (put_deliverable env kind d)
  unfolding put_deliverable
  Keeps-put_deliverable kind d = record {
    at = λ f h. keep_engine {f = f} (ground arith) (ground arith) (ground arith) h;
  }

  Keeps-store_to :
      (o : Option BlobKind) (d : Json) → Kept {S = S} (grounds env) a k rest (store_to env o d)
  Keeps-store_to none d = Keeps-update _ (λ x. ground arith)
  Keeps-store_to (some kind) d =
      Keeps-bind _ _ (Keeps-put_deliverable kind d)
        (λ ref. Keeps-update (by_ref env ref) (λ x. ground arith))

  Keeps-store_deliverable :
      (d : Json) → Kept {S = S} (grounds env) a k rest (store_deliverable env d)
  unfolding store_deliverable
  Keeps-store_deliverable d = Keeps-store_to env.blobs d

  Keeps-fill :
      (hash : String) (v : Vdc)
      → Kept {S = S}
          (grounds env)
          a
          k
          rest
          (update (λ ex. record ex { result_hash = some hash; vdc = some v }))
  Keeps-fill hash v = Keeps-update _ (λ x. ground arith)

  Keeps-accept_delivery :
      (d : Json) (hash : String) (v : Vdc)
      → Kept {S = S} (grounds env) a k rest (accept_delivery env now d hash v)
  unfolding accept_delivery
  Keeps-accept_delivery d hash v =
      search (growth_rules, Keeps-store_deliverable, Keeps-fill) depth 9

  Keeps-deliver :
      (i : Identity) (d : Json) (level id : String)
      → Kept {S = S} (grounds env) a k rest (deliver_body env now i d level id)
  unfolding deliver_body
  Keeps-deliver i d level id = search (growth_rules, Keeps-accept_delivery) depth 12

  Keeps-ingest_delivery :
      (v : Vdc) (d : Json) → Kept {S = S} (grounds env) a k rest (ingest_delivery_body env now v d)
  unfolding ingest_delivery_body
  Keeps-ingest_delivery v d = search (growth_rules, Keeps-accept_delivery) depth 16

  Keeps-set_handle :
      (h : String)
      → Kept {S = S} (grounds env) a k rest (update (λ x. record x { escrow_handle = some h }))
  Keeps-set_handle h = Keeps-update _ (λ x. ground arith)

  Keeps-escrow :
      (amount : ℤ) (currency : String)
      → Kept {S = S} (grounds env) a k rest (escrow_body env now amount currency)
  unfolding escrow_body
  Keeps-escrow amount currency = search (growth_rules, Keeps-set_handle) depth 12

  Keeps-set_vdc :
      (v : Vdc) → Kept {S = S} (grounds env) a k rest (update (λ x. record x { vdc = some v }))
  Keeps-set_vdc v = Keeps-update _ (λ x. ground arith)

  Keeps-ingest_confirmation :
      (v : Vdc) → Kept {S = S} (grounds env) a k rest (ingest_confirmation_body env now v)
  unfolding ingest_confirmation_body
  Keeps-ingest_confirmation v = search (growth_rules, Keeps-settle_now, Keeps-set_vdc) depth 14

  Keeps-write_vdc : (v : Vdc) → Kept {S = S} (grounds env) a k rest (write_vdc env now v)
  unfolding write_vdc modify
  Keeps-write_vdc v = record {
    at = λ f h. record {
      keyed = h.keyed;
      apart = h.apart;
      idem = h.idem;
      grew = Grew-Side h.grew (ground arith);
    };
  }

  Keeps-confirm : (i : Identity) → Kept {S = S} (grounds env) a k rest (confirm_body env now i)
  unfolding confirm_body
  Keeps-confirm i = search (growth_rules, Keeps-settle_now, Keeps-write_vdc) depth 12

  Keeps-dispute :
      (by reason : String) → Kept {S = S} (grounds env) a k rest (dispute_body env now by reason)
  unfolding dispute_body
  Keeps-dispute by reason = Keeps-bind _ _ (Keeps-assert _) (λ _.
      Keeps-bind _ _ (Keeps-gets _) (λ ex.
        Keeps-bind _ _ (Keeps-raise_if _ _)
          (λ _. Keeps-bind _ _ (Keeps-update _ (λ x. ground arith)) (λ _. search growth_rules))))

  Keeps-resolved :
      (outcome : String) (resolver remark : Option String)
      → Kept {S = S} (grounds env) a k rest (update (resolved env now outcome resolver remark))
  Keeps-resolved outcome resolver remark = Keeps-update _ (λ x. ground arith)

  Keeps-resolve_settle :
      (resolver remark : Option String)
      → Kept {S = S} (grounds env) a k rest (resolve_settle env now resolver remark)
  unfolding resolve_settle
  Keeps-resolve_settle resolver remark = search (growth_rules, Keeps-resolved) depth 14

  Keeps-resolve_reject :
      (resolver remark : Option String)
      → Kept {S = S} (grounds env) a k rest (resolve_reject env now resolver remark)
  unfolding resolve_reject
  Keeps-resolve_reject resolver remark = search (growth_rules, Keeps-resolved) depth 14

  pub Keeps-perform : (m : Method) → Kept {S = S} (grounds env) a k rest (perform env now m)
  unfolding perform
  Keeps-perform (contract party signature) = Keeps-contract env now party signature
  Keeps-perform (escrow amount currency) = Keeps-escrow amount currency
  Keeps-perform (deliver i d level id) = Keeps-deliver i d level id
  Keeps-perform (ingest_delivery v d) = Keeps-ingest_delivery v d
  Keeps-perform (verify rule) = Keeps-verify env now rule
  Keeps-perform (ingest_confirmation v) = Keeps-ingest_confirmation v
  Keeps-perform (confirm i) = Keeps-confirm i
  Keeps-perform (dispute by reason) = Keeps-dispute by reason
  Keeps-perform (resolve_to_settle resolver remark) = Keeps-resolve_settle resolver remark
  Keeps-perform (resolve_to_reject resolver remark) = Keeps-resolve_reject resolver remark
  Keeps-perform cancel = Keeps-refund_to _ refl
  Keeps-perform expire = Keeps-refund_to _ refl
