-- ===== src/Testnet/Page/Answers.antt =====
-- pay-main.ts: an answer leaves the page with one open call at most.
use mathlib.Core.Option.{some_inj}
use x402_worker_template.Prelude.{
  ℕ, zero, suc, String, true, false, Option, none, some, is_some, List, [], ◌∷◌, ◌≡◌, refl, sym, ap,
  inl, inr, take_out, Bool-cases,
}
use x402_worker_template.Client.Web.{Answer}
use x402_worker_template.Testnet.Terms.{TermsLoadResult, load_and_validate_payment_terms}
use x402_worker_template.Testnet.Wallet.{
  PendingWalletAction, connect, switch_network, ExecutionStage,
}
use x402_worker_template.Testnet.Page.{
  Deps, Payment, Call, requesting_accounts, switching_chain, asking_accounts, asking_chain, loading,
  paying, Page, ConfigAnswer, configured, threw, end_bootstrap,
}
use x402_worker_template.Testnet.Page.Actions.{end_load_terms}
use x402_worker_template.Testnet.Page.Sound.{
  is_paying, own_clients, IsSound, idle, busy, in_payment, moved,
}
use x402_worker_template.Testnet.Page.Steps.{
  ProviderAnswer, returned, refused, refresh, set_account, answer_provider, provider_taken,
  answer_terms, terms_taken, report_stage, stage_taken, answer_config,
}

-- The one call of a list is what is taken out of it.
only :
    (n : ℕ) (c d : Call) (rest cs : List Call)
    → cs ≡ c ∷ []
    → take_out n cs ≡ some (d, rest)
    → (d ≡ c) × (rest ≡ [])
unfolding take_out
only zero c d rest cs e h =
    let t : (c, []) ≡ (d, rest) = some_inj.0 (rw e at h) in
    (sym (ap (λ (p : Call × List Call). p.0) t), sym (ap (λ (p : Call × List Call). p.1) t))
only (suc n) c d rest cs e h = cc (rw e at h)

record IsOpen (w : Page) (rest : List Call) : Type 0 where
  alone : rest ≡ []
  pending : is_some w.state.pending_action ≡ true
  no_clients : w.payment_clients ≡ none

opened :
    (w : Page) (n : ℕ) (c : Call) (rest : List Call)
    → IsSound w
    → take_out n w.calls ≡ some (c, rest)
    → is_paying c ≡ false
    → IsOpen w rest
unfolding take_out
opened w n c rest (idle e k) h f = cc (rw e at h)
opened w n c rest (busy d e g s k) h f = record {
  alone = (only n d c rest w.calls e h).1;
  pending = s;
  no_clients = k;
}
opened w n c rest (in_payment p e s u m) h f =
    let same : c ≡ paying p = (only n (paying p) c rest w.calls e h).0 in absurd (cc (rw same at f))

pub record IsPayment (w : Page) (p : Payment) (rest : List Call) : Type 0 where
  pub alone : rest ≡ []
  pub uncompleted : w.state.payment_attempt_completed ≡ false
  pub own : p.clients ≡ own_clients p

abbrev payment_or : Payment → Call → Payment
payment_or p (paying q) = q
payment_or p c = p

pub opened_payment :
    (w : Page) (n : ℕ) (p : Payment) (rest : List Call)
    → IsSound w
    → take_out n w.calls ≡ some (paying p, rest)
    → IsPayment w p rest
unfolding take_out
opened_payment w n p rest (idle e k) h = cc (rw e at h)
opened_payment w n p rest (busy d e g s k) h =
    let same : paying p ≡ d = (only n d (paying p) rest w.calls e h).0 in
    absurd (cc (rw (← same) at g))
opened_payment w n p rest (in_payment q e s u m) h =
    let (same, none_left) = only n (paying q) (paying p) rest w.calls e h in
    let alike : p ≡ q = ap (payment_or q) same in
    record { alone = none_left; uncompleted = u; own = rw alike m }

refresh-IsSound :
    (a : PendingWalletAction) (rest : List Call) (w : Page)
    → IsOpen w rest
    → IsSound (refresh a rest w)
unfolding refresh
refresh-IsSound a rest w o = elim (Bool-cases w.provider) [
  | inl h ↦ rw h (busy (asking_accounts a) (rw o.alone refl) refl o.pending o.no_clients)
  | inr h ↦ rw h (idle o.alone o.no_clients)
]

answer_provider-IsSound :
    (d : Deps) (c : Call) (rest : List Call) (a : ProviderAnswer) (w : Page)
    → IsSound w
    → IsOpen w rest
    → IsSound (answer_provider d c rest a w)
unfolding answer_provider
answer_provider-IsSound d requesting_accounts rest (returned v) w s o =
    refresh-IsSound connect rest (set_account v w)
      (record { alone = o.alone; pending = o.pending; no_clients = o.no_clients })
answer_provider-IsSound d switching_chain rest (returned v) w s o =
    refresh-IsSound switch_network rest w o
answer_provider-IsSound d (asking_accounts a) rest (returned v) w s o =
    busy (asking_chain a) (rw o.alone refl) refl o.pending o.no_clients
answer_provider-IsSound d (asking_chain a) rest (returned v) w s o = idle o.alone o.no_clients
answer_provider-IsSound d requesting_accounts rest (refused error) w s o = idle o.alone o.no_clients
answer_provider-IsSound d switching_chain rest (refused error) w s o = idle o.alone o.no_clients
answer_provider-IsSound d (asking_accounts a) rest (refused error) w s o = idle o.alone o.no_clients
answer_provider-IsSound d (asking_chain a) rest (refused error) w s o = idle o.alone o.no_clients
answer_provider-IsSound d (loading l) rest a w s o = s
answer_provider-IsSound d (paying p) rest a w s o = s

in_payment-IsSound :
    (d : Deps) (c : Call) (rest : List Call) (a : ProviderAnswer) (w : Page)
    → is_paying c ≡ true
    → IsSound w
    → IsSound (answer_provider d c rest a w)
unfolding answer_provider
in_payment-IsSound d (paying p) rest a w h s = s
in_payment-IsSound d requesting_accounts rest a w h s = cc h
in_payment-IsSound d switching_chain rest a w h s = cc h
in_payment-IsSound d (asking_accounts action) rest a w h s = cc h
in_payment-IsSound d (asking_chain action) rest a w h s = cc h
in_payment-IsSound d (loading o) rest a w h s = cc h

end_load-IsSound :
    (d : Deps) (r : Option TermsLoadResult) (rest : List Call) (w : Page)
    → IsOpen w rest
    → IsSound (record w { calls = rest; state = end_load_terms d r w.state })
unfolding end_load_terms
end_load-IsSound d none rest w o = idle o.alone o.no_clients
end_load-IsSound d (some (TermsLoadResult.bad reason)) rest w o = idle o.alone o.no_clients
end_load-IsSound d (some (TermsLoadResult.ok quote)) rest w o = idle o.alone o.no_clients

-- The answers, to a call that is open or to none.
pub provider_taken-IsSound :
    (d : Deps) (n : ℕ) (a : ProviderAnswer) (o : Option (Call × List Call)) (w : Page)
    → IsSound w
    → take_out n w.calls ≡ o
    → IsSound (provider_taken d a o w)
provider_taken-IsSound d n a none w s e = s
provider_taken-IsSound d n a (some (c, rest)) w s e = elim (Bool-cases (is_paying c)) [
  | inl h ↦ in_payment-IsSound d c rest a w h s
  | inr h ↦ answer_provider-IsSound d c rest a w s (opened w n c rest s e h)
]

pub terms_taken-IsSound :
    (d : Deps) (n : ℕ) (fetch : String → Answer) (o : Option (Call × List Call)) (w : Page)
    → IsSound w
    → take_out n w.calls ≡ o
    → IsSound (terms_taken d fetch o w)
unfolding answer_terms
terms_taken-IsSound d n fetch none w s e = s
terms_taken-IsSound d n fetch (some (loading o, rest)) w s e =
    end_load-IsSound d (load_and_validate_payment_terms d.terms_page o fetch) rest w
      (opened w n (loading o) rest s e refl)
terms_taken-IsSound d n fetch (some (requesting_accounts, rest)) w s e = s
terms_taken-IsSound d n fetch (some (switching_chain, rest)) w s e = s
terms_taken-IsSound d n fetch (some (asking_accounts a, rest)) w s e = s
terms_taken-IsSound d n fetch (some (asking_chain a, rest)) w s e = s
terms_taken-IsSound d n fetch (some (paying p, rest)) w s e = s

pub stage_taken-IsSound :
    (stage : ExecutionStage) (o : Option (Call × List Call)) (w : Page)
    → IsSound w
    → IsSound (stage_taken stage o w)
unfolding report_stage
stage_taken-IsSound stage none w s = s
stage_taken-IsSound stage (some (paying p, rest)) w s = moved w _ s refl refl refl (inr refl)
stage_taken-IsSound stage (some (requesting_accounts, rest)) w s = s
stage_taken-IsSound stage (some (switching_chain, rest)) w s = s
stage_taken-IsSound stage (some (asking_accounts a, rest)) w s = s
stage_taken-IsSound stage (some (asking_chain a, rest)) w s = s
stage_taken-IsSound stage (some (loading o, rest)) w s = s

pub answer_config-IsSound : (a : ConfigAnswer) (w : Page) → IsSound w → IsSound (answer_config a w)
unfolding end_bootstrap
answer_config-IsSound a w s = elim (Bool-cases w.fetching_config) [
  | inl h ↦ simp h (by_answer a)
  | inr h ↦ simp h s
]
  where
    by_answer :
        (a : ConfigAnswer)
        → IsSound (record w { fetching_config = false; state = end_bootstrap a w.state })
    by_answer (configured config) = moved w _ s refl refl refl (inr refl)
    by_answer (threw error) = moved w _ s refl refl refl (inr refl)
