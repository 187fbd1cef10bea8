-- ===== src/Facilitator/Errors/Laws.antt =====
-- Results that are the same carry the same value.
use x402_worker_template.Prelude.{◌≡◌, ap}
use x402_worker_template.Facilitator.Errors.{Result, ok, threw}

pub ok_inj : {A : Type 0} → (a b : A) → ok a ≡ ok b → a ≡ b
ok_inj {A} a b h = ap (from a) h
  where
    from : A → Result A → A
    from d (ok x) = x
    from d (threw t) = d
