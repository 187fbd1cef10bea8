-- ===== src/Testnet/Page/Once.antt =====
-- pay-main.ts: how many payments the page sends, and which.
use x402_worker_template.Prelude.{
  ℕ, suc, ◌+◌, ◌≤◌, Bool, true, Option, none, some, List, [], ◌∷◌, ◌≡◌, refl, arith, inl,
  if◌then◌else◌, All, All-append, length, length-append, take_out,
}
use x402_worker_template.Js.{Value}
use x402_worker_template.Testnet.Wallet.{invalidate_payment_session}
use x402_worker_template.Client.Executor.{PaidRequest}
use x402_worker_template.Testnet.Quote.Laws.{MaySign}
use x402_worker_template.Testnet.Executor.{Wallet, PaymentExecutionResult, succeeded, stopped}
use x402_worker_template.Testnet.Executor.Laws.{
  IsBound, nothing_sent, sent, paid, execute_bound_payment-IsBound,
}
use x402_worker_template.Testnet.Page.{
  Deps, Clients, Payment, Call, requesting_accounts, switching_chain, asking_accounts, asking_chain,
  loading, paying, Page, new_page, on_accounts_changed, on_chain_changed,
}
use x402_worker_template.Testnet.Page.Actions.{click_reset, end_payment}
use x402_worker_template.Testnet.Page.Sound.{
  own_clients, IsSound, idle, moved, new_page-IsSound, connect_wallet-IsSound,
  click_switch_network-IsSound, click_load_terms-IsSound, review_payment-IsSound,
  click_sign_and_submit-IsSound, click_reset-IsSound,
}
use x402_worker_template.Testnet.Page.Answers.{
  IsPayment, opened_payment, provider_taken-IsSound, terms_taken-IsSound, stage_taken-IsSound,
  answer_config-IsSound,
}
use x402_worker_template.Testnet.Page.Same.{
  Same, connect_wallet-Same, click_switch_network-Same, click_load_terms-Same, review_payment-Same,
  click_sign_and_submit-Same, provider_taken-Same, terms_taken-Same, stage_taken-Same,
  answer_config-Same,
}
use x402_worker_template.Testnet.Page.Steps.{
  Event, connect_clicked, switch_clicked, review_clicked, sign_clicked, reset_clicked, load_clicked,
  accounts_changed, chain_changed, config_answered, provider_answered, terms_answered,
  stage_reported, payment_answered, Sent, execute, sent_for, answer_payment, payment_taken, perform,
  perform_all,
}

-- What is right about a request that bears a payment.
pub record IsAuthorized (s : Sent) : Type 0 where
  may_sign : MaySign s.payment.quote s.payment.account s.payment.chain_id s.payment.public_config
  of_quote : s.request.url ≡ s.payment.quote.request_url
  own : s.payment.clients ≡ own_clients s.payment

abbrev room : Page → ℕ
room w = if w.state.payment_attempt_completed then 0 else 1

pub resets : List Event → ℕ
resets [] = 0
resets (reset_clicked ∷ es) = suc (resets es)
resets (e ∷ es) = resets es

authorized :
    (p : Payment) (w : Wallet) (out : List PaidRequest × PaymentExecutionResult)
    → IsBound w p.quote p.account p.chain_id p.public_config out
    → p.clients ≡ own_clients p
    → All IsAuthorized (sent_for p out.0) × (length (sent_for p out.0) ≤ 1)
unfolding sent_for length
authorized p w out (nothing_sent status reason e n) own = (tt, omega arith)
authorized p w out (sent r status reason e may url) own =
    ((record { may_sign = may; of_quote = url; own = own }, tt), omega arith)
authorized p w out (paid r payload view status body headers s may url f low high e ok) own =
    ((record { may_sign = may; of_quote = url; own = own }, tt), omega arith)

execute-IsBound :
    (p : Payment) (wallet : Clients → Wallet)
    → IsBound (wallet p.clients) p.quote p.account p.chain_id p.public_config (execute p wallet)
unfolding execute
execute-IsBound p wallet =
    execute_bound_payment-IsBound (wallet p.clients) p.quote p.account p.chain_id p.public_config

completes :
    (r : PaymentExecutionResult) (w : Page)
    → (end_payment r w.state).payment_attempt_completed ≡ true
unfolding end_payment
completes (succeeded body view n m) w = refl
completes (stopped status reason e n m b) w = refl

-- What a step sends is authorized, leaves a sound page, and uses up what the page may send.
record IsStep (w : Page) (spare : ℕ) (out : List Sent × Page) : Type 0 where
  all : All IsAuthorized out.0
  sound : IsSound out.1
  bound : length out.0 + room out.1 ≤ room w + spare

payment_taken-IsStep :
    (n : ℕ) (wallet : Clients → Wallet) (o : Option (Call × List Call)) (w : Page)
    → IsSound w
    → take_out n w.calls ≡ o
    → IsStep w 0 (payment_taken wallet o w)
unfolding answer_payment length
payment_taken-IsStep n wallet none w s e = record { all = tt; sound = s; bound = omega arith }
payment_taken-IsStep n wallet (some (requesting_accounts, rest)) w s e = record {
  all = tt;
  sound = s;
  bound = omega arith;
}
payment_taken-IsStep n wallet (some (switching_chain, rest)) w s e = record {
  all = tt;
  sound = s;
  bound = omega arith;
}
payment_taken-IsStep n wallet (some (asking_accounts a, rest)) w s e = record {
  all = tt;
  sound = s;
  bound = omega arith;
}
payment_taken-IsStep n wallet (some (asking_chain a, rest)) w s e = record {
  all = tt;
  sound = s;
  bound = omega arith;
}
payment_taken-IsStep n wallet (some (loading l, rest)) w s e = record {
  all = tt;
  sound = s;
  bound = omega arith;
}
payment_taken-IsStep n wallet (some (paying p, rest)) w s e =
    let o : IsPayment w p rest = opened_payment w n p rest s e in
    let out = authorized p (wallet p.clients) (execute p wallet) (execute-IsBound p wallet) o.own in
    record {
      all = out.0;
      sound = idle o.alone refl;
      bound = ground (arith, o.uncompleted, completes (execute p wallet).1 w);
    }

-- A step that sends nothing.
silent :
    (v w : Page)
    → IsSound w
    → w.state.payment_attempt_completed ≡ v.state.payment_attempt_completed
    → IsStep v 0 ([], w)
unfolding length
silent v w s e = record { all = tt; sound = s; bound = ground arith }

on_accounts_changed-IsSound : (v : Value) (w : Page) → IsSound w → IsSound (on_accounts_changed v w)
unfolding on_accounts_changed invalidate_payment_session
on_accounts_changed-IsSound v w s = moved w _ s refl refl refl (inl refl)

on_accounts_changed-Same : (v : Value) (w : Page) → Same w (on_accounts_changed v w)
unfolding on_accounts_changed invalidate_payment_session
on_accounts_changed-Same v w = refl

on_chain_changed-IsSound :
    (d : Deps) (v : Value) (w : Page) → IsSound w → IsSound (on_chain_changed d v w)
unfolding on_chain_changed invalidate_payment_session
on_chain_changed-IsSound d v w s = moved w _ s refl refl refl (inl refl)

on_chain_changed-Same : (d : Deps) (v : Value) (w : Page) → Same w (on_chain_changed d v w)
unfolding on_chain_changed invalidate_payment_session
on_chain_changed-Same d v w = refl

reset_bound : (w : Page) → 0 + room (click_reset w) ≤ room w + 1
reset_bound w = ground arith

perform-IsStep :
    (d : Deps) (e : Event) (w : Page) → IsSound w → IsStep w (resets (e ∷ [])) (perform d e w)
unfolding perform resets
perform-IsStep d connect_clicked w s =
    silent w _ (connect_wallet-IsSound w s) (connect_wallet-Same w)
perform-IsStep d switch_clicked w s =
    silent w _ (click_switch_network-IsSound w s) (click_switch_network-Same w)
perform-IsStep d review_clicked w s =
    silent w _ (review_payment-IsSound w s) (review_payment-Same w)
perform-IsStep d sign_clicked w s =
    silent w _ (click_sign_and_submit-IsSound w s) (click_sign_and_submit-Same w)
perform-IsStep d reset_clicked w s = record {
  all = tt;
  sound = click_reset-IsSound w s;
  bound = reset_bound w;
}
perform-IsStep d (load_clicked id) w s =
    silent w _ (click_load_terms-IsSound d id w s) (click_load_terms-Same d id w)
perform-IsStep d (accounts_changed v) w s =
    silent w _ (on_accounts_changed-IsSound v w s) (on_accounts_changed-Same v w)
perform-IsStep d (chain_changed v) w s =
    silent w _ (on_chain_changed-IsSound d v w s) (on_chain_changed-Same d v w)
perform-IsStep d (config_answered a) w s =
    silent w _ (answer_config-IsSound a w s) (answer_config-Same a w)
perform-IsStep d (provider_answered n a) w s =
    silent w _ (provider_taken-IsSound d n a (take_out n w.calls) w s refl)
      (provider_taken-Same d a (take_out n w.calls) w)
perform-IsStep d (terms_answered n fetch) w s =
    silent w _ (terms_taken-IsSound d n fetch (take_out n w.calls) w s refl)
      (terms_taken-Same d fetch (take_out n w.calls) w)
perform-IsStep d (stage_reported n stage) w s =
    silent w _ (stage_taken-IsSound stage (take_out n w.calls) w s)
      (stage_taken-Same stage (take_out n w.calls) w)
perform-IsStep d (payment_answered n wallet) w s =
    payment_taken-IsStep n wallet (take_out n w.calls) w s refl

resets-cons : (e : Event) (es : List Event) → resets (e ∷ es) ≡ resets (e ∷ []) + resets es
unfolding resets
resets-cons connect_clicked es = omega arith
resets-cons switch_clicked es = omega arith
resets-cons review_clicked es = omega arith
resets-cons sign_clicked es = omega arith
resets-cons reset_clicked es = omega arith
resets-cons (load_clicked id) es = omega arith
resets-cons (accounts_changed v) es = omega arith
resets-cons (chain_changed v) es = omega arith
resets-cons (config_answered a) es = omega arith
resets-cons (provider_answered n a) es = omega arith
resets-cons (terms_answered n fetch) es = omega arith
resets-cons (stage_reported n stage) es = omega arith
resets-cons (payment_answered n wallet) es = omega arith

perform_all-sends :
    (d : Deps) (es : List Event) (w : Page)
    → IsSound w
    → All IsAuthorized (perform_all d es w).0 × (length (perform_all d es w).0 ≤ room w + resets es)
unfolding perform_all length resets
perform_all-sends d [] w s = (tt, omega arith)
perform_all-sends d (e ∷ es) w s =
    let step : IsStep w (resets (e ∷ [])) (perform d e w) = perform-IsStep d e w s in
    let (later, bound) = perform_all-sends d es (perform d e w).1 step.sound in
    let first : length (perform d e w).0 + room (perform d e w).1 ≤ room w + resets (e ∷ []) =
      step.bound in
    let both = length-append (perform d e w).0 (perform_all d es (perform d e w).1).0 in
    (All-append IsAuthorized _ _ step.all later, omega (arith, resets-cons e es))

-- From the moment the page is opened, whatever is clicked, whatever the provider reports and
-- whatever is answered, in any order and at any time: the requests that bear a payment are at most
-- one more than the resets. Each one goes to the URL of its quote, for a quote that may be signed
-- for the account, the chain and the configuration of its payment, and is signed by clients that
-- were made for that account and that configuration's seller.
pub new_page-sends_once :
    (d : Deps) (provider : Bool) (es : List Event)
    → All IsAuthorized (perform_all d es (new_page provider)).0
      × (length (perform_all d es (new_page provider)).0 ≤ 1 + resets es)
unfolding new_page
new_page-sends_once d provider es =
    perform_all-sends d es (new_page provider) (new_page-IsSound provider)
