-- ===== src/Tests/Wallets.antt =====
-- The theorems on the wallets, at concrete inputs.
use novapanda.Base.{ℕ, String, true, none, some, List, [], ◌∷◌, ◌≡◌, refl, arith}
use novapanda.Base.Int.{pos, ◌+ℤ◌}
use novapanda.Base.Dict.{get, put}
use novapanda.Settlement.Contract.{IsLawful, held}
use novapanda.Wallet.Types.{evm_chain, AssetRef, TransferRequest}
use novapanda.Wallet.Ledger.{InMemoryChainAdapter, amount_at, set_amount, move_amount, transfer}
use novapanda.Wallet.Ledger.Sums.{IsSolvent, SameSum}
use novapanda.Wallet.Ledger.Balance.{
  WalletCall, transfer_call, paymaster_call, serve_all, serve_all-SameSum,
}
use novapanda.Wallet.Bridge.{
  Parties, WalletHold, BridgeConfig, on_ledger, address_of, new_bridge, prefix, without,
  ensure_account, seed_client, bind_parties, pay, escrow_bound, escrow, release,
}
use novapanda.Wallet.Bridge.Adapter.{wallet_settlement, wallet_settlement-IsLawful}
use novapanda.Wallet.Bridge.Payouts.{
  BridgeCall, seed_call, bind_call, escrow_call, serve_call, serve_calls, Paid, release-Paid,
}
use novapanda.Canonical.Text.{digit, decimal, int_text}

abbrev hash : String → String
hash s = s

abbrev usd : AssetRef
usd = record { chain = evm_chain 31337; symbol = "USD"; decimals = 2; token_address = none }

abbrev ledger : InMemoryChainAdapter
ledger = record {
  chain = evm_chain 31337;
  native_symbol = "USD";
  balances = (record { address = "a"; asset = "USD"; amount = pos 90000 }) ∷ [];
}

abbrev five_to_b : TransferRequest
five_to_b = record { asset = usd; to_address = "b"; amount = pos 5 }

abbrev transfers : List WalletCall
transfers =
    transfer_call "u" "a" five_to_b ∷ paymaster_call 2 "u" "a" (evm_chain 31337) five_to_b usd ∷ []

ledger-IsSolvent : IsSolvent ledger.balances
unfolding amount_at
ledger-IsSolvent = record { solvent = λ a q. ground arith }

serve_all-SameSum_example :
    ((q : String) → SameSum ledger.balances (serve_all hash transfers ledger).balances q)
    × IsSolvent (serve_all hash transfers ledger).balances
serve_all-SameSum_example =
    serve_all-SameSum hash transfers ledger (omega arith, (omega arith, tt)) ledger-IsSolvent

abbrev config : BridgeConfig
config = record {
  rail = "wallet-evm-memory";
  chain = evm_chain 31337;
  asset_symbol = "USD";
  asset_decimals = 2;
}

abbrev calls : List BridgeCall
calls = seed_call "c" (pos 10) ∷ bind_call "x" "c" "p" ∷ escrow_call "u" "v" "x" (pos 4) "USD" ∷ []

abbrev two : Parties
two = record { client = "c"; provider = "p" }

abbrev hold : WalletHold
hold = record {
  exchange_id = "x";
  amount = pos 4;
  currency = "USD";
  status = held;
  parties = some two;
}

hold_is_open :
    get (serve_calls hash config calls (new_bridge hash config)).holds "wallet-escrow-u" ≡ some hold
unfolding serve_calls serve_call seed_client bind_parties escrow escrow_bound ensure_account pay
    transfer move_amount set_amount amount_at get put without prefix digit decimal int_text ◌+ℤ◌
hold_is_open = refl

hold-on_ledger : on_ledger hold ≡ some two
unfolding on_ledger
hold-on_ledger = refl

release-Paid_example :
    Paid hash config true "wallet-escrow-u"
      (address_of hash config "p")
      hold
      (serve_calls hash config calls (new_bridge hash config))
      (release hash config "w" "wallet-escrow-u" true
        (serve_calls hash config calls (new_bridge hash config)))
release-Paid_example =
    release-Paid hash config calls "w" "wallet-escrow-u" hold two true hold_is_open refl
      hold-on_ledger

abbrev ids : ℕ → String
ids n = "u"

wallet_settlement-IsLawful_example : IsLawful (wallet_settlement hash config ids)
wallet_settlement-IsLawful_example = wallet_settlement-IsLawful hash config ids
