-- ===== src/Orchestrator/Context/Sound.antt =====
-- mainnet-payment-orchestrator.ts, the quoting of the payment terms: its settle calls.
use x402_worker_template.Prelude.{String, Option, none, some, List, refl, Bool-cases, inl, inr}
use x402_worker_template.Sdk.{PaymentRequired}
use x402_worker_template.Policy.{
  PaymentRequirements, TermsResult, ok, bad, validate_base_mainnet_payment_requirements,
}
use x402_worker_template.Orchestrator.Prog.{Prog}
use x402_worker_template.Orchestrator.Context.{
  Ctx, is_get, validate_mainnet_example_query, quoted_terms, quoted, answer_required,
  build_server_payment_required, build_payment_error_from_required, answer_quote_terms,
  answer_quote, unpaid_query, handle_mainnet_example_unpaid_request,
}
use x402_worker_template.Orchestrator.Sound.{armed, IsCalm}

module _ (ctx : Ctx) where
  quoted-IsCalm :
      (error : Option String) (k : Option PaymentRequired → Prog)
      → ((o : Option PaymentRequired) → IsCalm (k o))
      → (o : Option (List PaymentRequirements)) → IsCalm (quoted ctx error k o)
  unfolding quoted
  quoted-IsCalm error k h none = h none
  quoted-IsCalm error k h (some rs) =
      by_terms (validate_base_mainnet_payment_requirements rs ctx.seller_address)
    where
      by_terms : (t : TermsResult) → IsCalm (quoted_terms ctx rs error k t)
      by_terms (bad reason) = h none
      by_terms (ok r) = record {
        sound = λ o. ((h o).sound, (h o).unarmed);
        unarmed = λ key. unfold armed in refl;
      }

  build_server_payment_required-IsCalm :
      (error : Option String) (k : Option PaymentRequired → Prog)
      → ((o : Option PaymentRequired) → IsCalm (k o))
      → IsCalm (build_server_payment_required ctx error k)
  unfolding build_server_payment_required armed
  build_server_payment_required-IsCalm error k h = record {
    sound = λ o. ((quoted-IsCalm error k h o).sound, (quoted-IsCalm error k h o).unarmed);
    unarmed = λ key. refl;
  }

  answer_required-IsCalm : (o : Option PaymentRequired) → IsCalm (answer_required ctx o)
  unfolding answer_required armed
  answer_required-IsCalm none = record { sound = tt; unarmed = λ key. refl }
  answer_required-IsCalm (some r) = record { sound = tt; unarmed = λ key. refl }

  pub build_payment_error-IsCalm :
      (reason : String) → IsCalm (build_payment_error_from_required ctx reason)
  unfolding build_payment_error_from_required
  build_payment_error-IsCalm reason =
      build_server_payment_required-IsCalm (some reason) (answer_required ctx)
        answer_required-IsCalm

  answer_quote-IsCalm : (o : Option PaymentRequired) → IsCalm (answer_quote ctx o)
  unfolding answer_quote armed
  answer_quote-IsCalm none = record { sound = tt; unarmed = λ key. refl }
  answer_quote-IsCalm (some r) =
      by_terms (validate_base_mainnet_payment_requirements r.accepts ctx.seller_address)
    where
      by_terms : (t : TermsResult) → IsCalm (answer_quote_terms ctx r t)
      by_terms (bad reason) = record { sound = tt; unarmed = λ key. refl }
      by_terms (ok q) = record { sound = tt; unarmed = λ key. refl }

  unpaid_query-IsCalm : (o : Option String) → IsCalm (unpaid_query ctx o)
  unfolding unpaid_query armed
  unpaid_query-IsCalm none = record { sound = tt; unarmed = λ key. refl }
  unpaid_query-IsCalm (some v) =
      build_server_payment_required-IsCalm none (answer_quote ctx) answer_quote-IsCalm

  pub handle_unpaid-IsCalm : IsCalm (handle_mainnet_example_unpaid_request ctx)
  unfolding handle_mainnet_example_unpaid_request armed
  handle_unpaid-IsCalm = elim (Bool-cases (is_get ctx)) [
    | inl e ↦ rw e (unpaid_query-IsCalm (validate_mainnet_example_query ctx.query))
    | inr e ↦ rw e (record { sound = tt; unarmed = λ key. refl })
  ]
