-- ===== src/Facilitator/Client/Tests.antt =====
-- proof-facilitator-client.mainnet.ts: a facilitator that refuses to settle.
use x402_worker_template.Prelude.{none, some, [], ◌∷◌}
use x402_worker_template.Js.Url.{Url}
use x402_worker_template.Authorization.Tests.{payload}
use x402_worker_template.Testnet.Quote.Tests.{requirement}
use x402_worker_template.Facilitator.Errors.{ok}
use x402_worker_template.Facilitator.Responses.{
  parse_verify_response_json, parse_settle_response_json,
}
use x402_worker_template.Facilitator.Responses.Tests.{failed_settlement}
use x402_worker_template.Facilitator.Http.{Platform, Fetch, verify, settle, facilitator_origin}
use x402_worker_template.Facilitator.Http.Body.{chunk, done}
use x402_worker_template.Facilitator.Http.Body.Tests.{limits}
use x402_worker_template.Facilitator.Client.{verify_payment, settle_payment}
use x402_worker_template.Facilitator.Client.Laws.{IsPosted, verify_and_settle-IsPosted}

abbrev settle_url : Url
settle_url = record {
  href = "https://facilitator.payai.network/settle";
  origin = facilitator_origin;
  protocol = "https:";
  username = "";
  password = "";
  hostname = "facilitator.payai.network";
  port = "";
  pathname = "/settle";
  search = "";
  hash = "";
  search_params = [];
}

abbrev platform : Platform
platform = record {
  resolve_url = λ path base. some settle_url;
  parse_url = λ s. none;
  stringify_request = λ payload requirements. "request";
  parse_bytes = λ bytes. some failed_settlement;
  limits = limits;
}

abbrev fetch : Fetch
fetch r = ok (record {
  url = "";
  status = 402;
  content_type = some "application/json";
  content = record { content_length = none; stream = some (chunk (1 ∷ []) done) };
})

verify_and_settle-IsPosted_example :
    IsPosted parse_verify_response_json "isValid" platform fetch verify payload requirement
      (verify_payment platform fetch payload requirement)
    × IsPosted parse_settle_response_json "success" platform fetch settle payload requirement
        (settle_payment platform fetch payload requirement)
verify_and_settle-IsPosted_example = verify_and_settle-IsPosted platform fetch payload requirement
