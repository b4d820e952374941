-- ===== src/Exchange/Terms.antt =====
-- novapanda/terms.py: the digest of the terms, and the bytes that each party acknowledges.
use novapanda.Base.{ℕ, String, Bool, Option, none, some, [], ◌∷◌}
use novapanda.Base.Int.{pos}
use novapanda.Base.Dict.{Dict}
use novapanda.Base.Exec.{Result, ok}
use novapanda.Canonical.Value.{Json, int, str, obj, Fields, done, field}
use novapanda.Exchange.Fields.{Exchange, Price}
use novapanda.Host.Params.{Host, Identity}
use novapanda.Host.Hashing.{CodeError, canonical_bytes, ◌>>=◌}

unfoldable pub timeout_fields : Dict ℕ → Fields
timeout_fields [] = done
timeout_fields ((k, n) ∷ d) = field k (int (pos n)) (timeout_fields d)

abbrev price_json : Price → Json
price_json p = obj (field "amount" (int p.amount) (field "currency" (str p.currency) done))

abbrev settlement_field : Option Json → Fields
settlement_field none = done
settlement_field (some v) = field "settlement" v done

unfoldable pub terms_fields : Exchange → Json
unfolding timeout_fields
terms_fields ex = obj (
    field "exchange_id" (str ex.exchange_id) (
      field "client" (str ex.client) (
        field "provider" (str ex.provider) (
          field "resource_type" (str ex.resource_type) (
            field "quantity" (int ex.quantity) (
              field "rule_id" (str ex.rule_id) (
                field "price" (price_json ex.price) (
                  field "timeouts" (obj (timeout_fields ex.timeouts)) (
                    field "nonce" (str ex.nonce) (
                      field "idempotency_key" (str ex.idempotency_key)
                        (settlement_field ex.settlement_terms)))))))))))

module _ (h : Host) where
  unfoldable pub terms_hash_from_exchange : Exchange → Result CodeError String
  terms_hash_from_exchange ex = do bytes ← canonical_bytes h (terms_fields ex); ok (h.sha256 bytes)

  unfoldable pub contract_ack_bytes : String → String → Result CodeError String
  contract_ack_bytes terms_hash exchange_id = canonical_bytes h (
      obj (
        field "action" (str "contract_ack")
          (field "exchange_id" (str exchange_id) (field "terms_hash" (str terms_hash) done))))

  unfoldable pub sign_contract_ack : Identity → String → String → Result CodeError String
  sign_contract_ack i terms_hash exchange_id = do
    bytes ← contract_ack_bytes terms_hash exchange_id
    ok (i.sign bytes)

  unfoldable pub verify_contract_ack : String → String → String → String → Result CodeError Bool
  verify_contract_ack agent signature terms_hash exchange_id = do
    bytes ← contract_ack_bytes terms_hash exchange_id
    ok (h.verify agent signature bytes)
