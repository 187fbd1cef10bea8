-- ===== src/Testnet/Page/Same.antt =====
-- pay-main.ts: only the end of a payment and a reset change whether an attempt is completed.
use x402_worker_template.Prelude.{ℕ, String, Option, none, some, List, ◌≡◌, refl, arith}
use x402_worker_template.Client.Web.{Answer}
use x402_worker_template.Testnet.Config.{PayPublicConfig}
use x402_worker_template.Testnet.Quote.{PaymentQuote, truthy}
use x402_worker_template.Testnet.Terms.{TermsLoadResult, load_and_validate_payment_terms}
use x402_worker_template.Testnet.Wallet.{ExecutionStage, WalletControllerState}
use x402_worker_template.Testnet.Page.{
  Deps, Call, requesting_accounts, switching_chain, asking_accounts, asking_chain, loading, paying,
  Page, ConfigAnswer, configured, threw, end_bootstrap,
}
use x402_worker_template.Testnet.Page.Actions.{
  load_with, sign_with, connect_wallet, click_switch_network, click_load_terms, review_payment,
  click_sign_and_submit, end_load_terms,
}
use x402_worker_template.Testnet.Page.Steps.{
  ProviderAnswer, returned, refused, refresh, answer_provider, provider_taken, answer_terms,
  terms_taken, report_stage, stage_taken, answer_config,
}

abbrev pub Same : Page → Page → Type 0
Same v w = w.state.payment_attempt_completed ≡ v.state.payment_attempt_completed

pub connect_wallet-Same : (w : Page) → Same w (connect_wallet w)
unfolding connect_wallet
connect_wallet-Same w = ground arith

pub click_switch_network-Same : (w : Page) → Same w (click_switch_network w)
unfolding click_switch_network
click_switch_network-Same w = ground arith

load_with-Same :
    (d : Deps) (id : String) (config : Option PayPublicConfig) (account : Option String)
    (chain_id : Option ℕ) (w : Page)
    → Same w (load_with d id config account chain_id w)
load_with-Same d id (some config) (some account) (some n) w = refl
load_with-Same d id (some config) (some account) none w = refl
load_with-Same d id (some config) none n w = refl
load_with-Same d id none account n w = refl

pub click_load_terms-Same : (d : Deps) (id : String) (w : Page) → Same w (click_load_terms d id w)
unfolding click_load_terms
click_load_terms-Same d id w =
    ground
      (arith, load_with-Same d id w.state.public_config (truthy w.state.account) w.state.chain_id w)

pub review_payment-Same : (w : Page) → Same w (review_payment w)
unfolding review_payment
review_payment-Same w = ground arith

sign_with-Same :
    (config : Option PayPublicConfig) (quote : Option PaymentQuote) (account : Option String)
    (chain_id : Option ℕ) (w : Page)
    → Same w (sign_with config quote account chain_id w)
sign_with-Same (some config) (some quote) (some account) (some n) w = refl
sign_with-Same (some config) (some quote) (some account) none w = refl
sign_with-Same (some config) (some quote) none n w = refl
sign_with-Same (some config) none account n w = refl
sign_with-Same none quote account n w = refl

pub click_sign_and_submit-Same : (w : Page) → Same w (click_sign_and_submit w)
unfolding click_sign_and_submit
click_sign_and_submit-Same w = ground (
  arith,
  sign_with-Same w.state.public_config w.state.quote (truthy w.state.account) w.state.chain_id w,
)

answer_provider-Same :
    (d : Deps) (c : Call) (rest : List Call) (a : ProviderAnswer) (w : Page)
    → Same w (answer_provider d c rest a w)
unfolding answer_provider refresh
answer_provider-Same d requesting_accounts rest (returned v) w = ground arith
answer_provider-Same d switching_chain rest (returned v) w = ground arith
answer_provider-Same d (asking_accounts action) rest (returned v) w = refl
answer_provider-Same d (asking_chain action) rest (returned v) w = refl
answer_provider-Same d requesting_accounts rest (refused error) w = refl
answer_provider-Same d switching_chain rest (refused error) w = refl
answer_provider-Same d (asking_accounts action) rest (refused error) w = refl
answer_provider-Same d (asking_chain action) rest (refused error) w = refl
answer_provider-Same d (loading l) rest a w = refl
answer_provider-Same d (paying p) rest a w = refl

pub provider_taken-Same :
    (d : Deps) (a : ProviderAnswer) (o : Option (Call × List Call)) (w : Page)
    → Same w (provider_taken d a o w)
provider_taken-Same d a none w = refl
provider_taken-Same d a (some (c, rest)) w = answer_provider-Same d c rest a w

end_load_terms-Same :
    (d : Deps) (r : Option TermsLoadResult) (s : WalletControllerState)
    → (end_load_terms d r s).payment_attempt_completed ≡ s.payment_attempt_completed
unfolding end_load_terms
end_load_terms-Same d none s = refl
end_load_terms-Same d (some (TermsLoadResult.bad reason)) s = refl
end_load_terms-Same d (some (TermsLoadResult.ok quote)) s = refl

pub terms_taken-Same :
    (d : Deps) (fetch : String → Answer) (o : Option (Call × List Call)) (w : Page)
    → Same w (terms_taken d fetch o w)
unfolding answer_terms
terms_taken-Same d fetch none w = refl
terms_taken-Same d fetch (some (loading o, rest)) w =
    end_load_terms-Same d (load_and_validate_payment_terms d.terms_page o fetch) w.state
terms_taken-Same d fetch (some (requesting_accounts, rest)) w = refl
terms_taken-Same d fetch (some (switching_chain, rest)) w = refl
terms_taken-Same d fetch (some (asking_accounts a, rest)) w = refl
terms_taken-Same d fetch (some (asking_chain a, rest)) w = refl
terms_taken-Same d fetch (some (paying p, rest)) w = refl

pub stage_taken-Same :
    (stage : ExecutionStage) (o : Option (Call × List Call)) (w : Page)
    → Same w (stage_taken stage o w)
unfolding report_stage
stage_taken-Same stage none w = refl
stage_taken-Same stage (some (paying p, rest)) w = refl
stage_taken-Same stage (some (requesting_accounts, rest)) w = refl
stage_taken-Same stage (some (switching_chain, rest)) w = refl
stage_taken-Same stage (some (asking_accounts a, rest)) w = refl
stage_taken-Same stage (some (asking_chain a, rest)) w = refl
stage_taken-Same stage (some (loading o, rest)) w = refl

end_bootstrap-Same :
    (a : ConfigAnswer) (s : WalletControllerState)
    → (end_bootstrap a s).payment_attempt_completed ≡ s.payment_attempt_completed
unfolding end_bootstrap
end_bootstrap-Same (configured config) s = refl
end_bootstrap-Same (threw error) s = refl

pub answer_config-Same : (a : ConfigAnswer) (w : Page) → Same w (answer_config a w)
answer_config-Same a w = ground (arith, end_bootstrap-Same a w.state)
