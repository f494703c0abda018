-- ===== src/BotServer/Samples.antt =====
-- Examples: an app whose digest is fixed, and a signed instruction.
use meetkai.Common.{false, none, some}
use meetkai.Common.Try.{returned}
use meetkai.BotServer.{App, Request, answered, webhook, tell, ingest, status, clear}
use meetkai.BotServer.Signed.{CallsSigned, routes-CallsSigned}

abbrev app : App
app = record {
  digest = λ algorithm key body. "abc";
  hmac_key = "key";
  hmac_algorithm = "SHA256";
  json = λ body. returned (record { event = "message"; message = "hi"; persist = some false });
  on_message = none;
  on_tell = some (λ message persist. answered "done");
  on_ingest = none;
  on_status = none;
  on_clear = none;
}

abbrev request : Request
request = record { body = "{}"; hmac_header = "abc" }

routes-CallsSigned_example :
    CallsSigned app request request.body (webhook app request)
    × CallsSigned app request request.body (tell app request)
    × CallsSigned app request request.body (ingest app request)
    × CallsSigned app request "" (status app request)
    × CallsSigned app request "" (clear app request)
routes-CallsSigned_example = routes-CallsSigned app request
