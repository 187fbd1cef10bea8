-- ===== src/Testnet/Page/Sound.antt =====
-- pay-main.ts: at most one call is open, and what is open belongs to the pending action.
use x402_worker_template.Prelude.{
  ℕ, String, Bool, true, false, ◌&&◌, Option, none, some, is_some, List, [], ◌∷◌, ◌≡◌, ◌⊎◌, refl,
  arith, inl, inr, Bool-cases,
}
use x402_worker_template.Testnet.Config.{PayPublicConfig}
use x402_worker_template.Testnet.Quote.{PaymentQuote, truthy, evaluate_payment_readiness}
use x402_worker_template.Testnet.Wallet.{
  PendingWalletAction, connect, switch_network, load_terms, confirm_payment, sign_and_submit, start,
  reset, WalletControllerState, can_start_action, is_payment_ready,
}
use x402_worker_template.Testnet.Page.{
  Deps, Clients, Payment, Call, requesting_accounts, switching_chain, paying, Page, new_page,
}
use x402_worker_template.Testnet.Page.Actions.{
  load_with, sign_with, connect_wallet, click_switch_network, click_load_terms, review_payment,
  click_sign_and_submit, click_reset,
}

abbrev pub is_paying : Call → Bool
is_paying (paying p) = true
is_paying c = false

-- The clients that the payment's account and configuration call for.
abbrev pub own_clients : Payment → Clients
own_clients p = record {
  account = p.account;
  expected_seller_address = p.public_config.seller_address;
}

pub data IsSound (w : Page) : Type 0 where
  idle : w.calls ≡ [] → w.payment_clients ≡ none → IsSound w
  busy :
      (c : Call)
      → w.calls ≡ c ∷ []
      → is_paying c ≡ false
      → is_some w.state.pending_action ≡ true
      → w.payment_clients ≡ none
      → IsSound w
  in_payment :
      (p : Payment)
      → w.calls ≡ paying p ∷ []
      → is_some w.state.pending_action ≡ true
      → w.state.payment_attempt_completed ≡ false
      → p.clients ≡ own_clients p
      → IsSound w

pub new_page-IsSound : (provider : Bool) → IsSound (new_page provider)
unfolding new_page
new_page-IsSound provider = idle refl refl

-- A change of nothing that counts.
pub moved :
    (v w : Page)
    → IsSound v
    → w.calls ≡ v.calls
    → w.state.pending_action ≡ v.state.pending_action
    → w.state.payment_attempt_completed ≡ v.state.payment_attempt_completed
    → (w.payment_clients ≡ none) ⊎ (w.payment_clients ≡ v.payment_clients)
    → IsSound w
moved v w (idle e n) c p d k = idle (ground arith) (ground arith)
moved v w (busy call e f s n) c p d k = busy call (ground arith) f (ground arith) (ground arith)
moved v w (in_payment pay e s f m) c p d k =
    in_payment pay (ground arith) (ground arith) (ground arith) m

-- Where no action is pending nothing is open.
pub rests :
    (w : Page)
    → IsSound w
    → is_some w.state.pending_action ≡ false
    → (w.calls ≡ []) × (w.payment_clients ≡ none)
rests w (idle e n) h = (e, n)
rests w (busy call e f s n) h = absurd (ground arith)
rests w (in_payment pay e s f m) h = absurd (ground arith)

-- A first call over no others.
first : (c : Call) {cs rest : List Call} → cs ≡ c ∷ rest → rest ≡ [] → cs ≡ c ∷ []
first c e n = rw e (rw n refl)

-- An action starts only where none is pending.
starts :
    (s : WalletControllerState) (a : PendingWalletAction)
    → can_start_action s (start a) ≡ true
    → is_some s.pending_action ≡ false
unfolding can_start_action
starts s a h = ground arith

pub connect_wallet-IsSound : (w : Page) → IsSound w → IsSound (connect_wallet w)
unfolding connect_wallet
connect_wallet-IsSound w s =
    elim (Bool-cases (can_start_action w.state (start connect) && w.provider)) [
      | inl h ↦
          let pending : is_some w.state.pending_action ≡ false =
            starts w.state connect (ground arith) in
          let (none_open, no_clients) = rests w s pending in
          rw h (busy requesting_accounts (rw none_open refl) refl refl no_clients)
      | inr h ↦ rw h s
    ]

pub click_switch_network-IsSound : (w : Page) → IsSound w → IsSound (click_switch_network w)
unfolding click_switch_network
click_switch_network-IsSound w s =
    elim (Bool-cases (can_start_action w.state (start switch_network) && w.provider)) [
      | inl h ↦
          let pending : is_some w.state.pending_action ≡ false =
            starts w.state switch_network (ground arith) in
          let (none_open, no_clients) = rests w s pending in
          rw h (busy switching_chain (rw none_open refl) refl refl no_clients)
      | inr h ↦ rw h s
    ]

load_with-IsSound :
    (d : Deps) (id : String) (config : Option PayPublicConfig) (account : Option String)
    (chain_id : Option ℕ) (w : Page)
    → IsSound w
    → is_some w.state.pending_action ≡ false
    → IsSound (load_with d id config account chain_id w)
load_with-IsSound d id (some config) (some account) (some n) w s pending =
    let (none_open, no_clients) = rests w s pending in
    busy _ (first _ refl none_open) refl refl no_clients
load_with-IsSound d id (some config) (some account) none w s pending = s
load_with-IsSound d id (some config) none n w s pending = s
load_with-IsSound d id none account n w s pending = s

pub click_load_terms-IsSound :
    (d : Deps) (id : String) (w : Page) → IsSound w → IsSound (click_load_terms d id w)
unfolding click_load_terms
click_load_terms-IsSound d id w s =
    elim (Bool-cases (can_start_action w.state (start load_terms))) [
      | inl h ↦ rw h (
          load_with-IsSound d id w.state.public_config (truthy w.state.account) w.state.chain_id w s
            (starts w.state load_terms h))
      | inr h ↦ rw h s
    ]

pub review_payment-IsSound : (w : Page) → IsSound w → IsSound (review_payment w)
unfolding review_payment
review_payment-IsSound w s = elim (Bool-cases (can_start_action w.state (start confirm_payment))) [
  | inl h ↦ rw h (moved w _ s refl refl refl (inr refl))
  | inr h ↦ rw h s
]

-- A payment is signed for only where none was completed since the last reset.
uncompleted :
    (s : WalletControllerState)
    → can_start_action s (start sign_and_submit) ≡ true
    → s.payment_attempt_completed ≡ false
unfolding can_start_action is_payment_ready evaluate_payment_readiness
uncompleted s h = ground arith

sign_with-IsSound :
    (config : Option PayPublicConfig) (quote : Option PaymentQuote) (account : Option String)
    (chain_id : Option ℕ) (w : Page)
    → IsSound w
    → is_some w.state.pending_action ≡ false
    → w.state.payment_attempt_completed ≡ false
    → IsSound (sign_with config quote account chain_id w)
sign_with-IsSound (some config) (some quote) (some account) (some n) w s pending fresh =
    let (none_open, no_clients) = rests w s pending in
    in_payment _ (first _ refl none_open) refl fresh (rw no_clients refl)
sign_with-IsSound (some config) (some quote) (some account) none w s pending fresh = s
sign_with-IsSound (some config) (some quote) none n w s pending fresh = s
sign_with-IsSound (some config) none account n w s pending fresh = s
sign_with-IsSound none quote account n w s pending fresh = s

pub click_sign_and_submit-IsSound : (w : Page) → IsSound w → IsSound (click_sign_and_submit w)
unfolding click_sign_and_submit
click_sign_and_submit-IsSound w s =
    elim (Bool-cases (can_start_action w.state (start sign_and_submit) && w.provider)) [
      | inl h ↦
          let can : can_start_action w.state (start sign_and_submit) ≡ true = ground arith in
          rw h (
            sign_with-IsSound w.state.public_config w.state.quote (truthy w.state.account)
              w.state.chain_id w s (starts w.state sign_and_submit can) (uncompleted w.state can))
      | inr h ↦ rw h s
    ]

resets_idle :
    (s : WalletControllerState) → can_start_action s reset ≡ true → is_some s.pending_action ≡ false
unfolding can_start_action
resets_idle s h = ground arith

pub click_reset-IsSound : (w : Page) → IsSound w → IsSound (click_reset w)
unfolding click_reset
click_reset-IsSound w s = elim (Bool-cases (can_start_action w.state reset)) [
  | inl h ↦ rw h (idle (rests w s (resets_idle w.state h)).0 refl)
  | inr h ↦ rw h s
]
