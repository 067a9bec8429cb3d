-- ===== src/App/Telegram.antt =====
-- hermes_vps_app/telegram_gateway.py: the verdict on a bot token.
use hermes_vps.Prelude.{ℕ, Bool, true, false, not, String, ◌==◌, nat_eq, if◌then◌else◌}
use hermes_vps.Value
use hermes_vps.Value.{Value, Fields, bool, str, dict, is_true, or_null}
use hermes_vps.Text.{◌<>◌, strip}

pub data TelegramValidationReason : Type 0 where
  ok missing_token invalid_token timeout network bad_response : TelegramValidationReason

pub record TelegramGatewayValidationResult : Type 0 where
  pub is_ok : Bool
  pub reason : TelegramValidationReason
  pub summary : String
  pub bot_username : String
  pub bot_first_name : String

-- How the request for `getMe` ends: an HTTPError with its code, a timeout, another URLError, another
-- OSError or a text that is no JSON, or the decoded payload.
pub data Reply : Type 0 where
  http_error : ℕ → Reply
  timed_out url_error unreadable : Reply
  payload : Value → Reply

abbrev refused : TelegramValidationReason → String → TelegramGatewayValidationResult
refused reason summary = record {
  is_ok = false;
  reason = reason;
  summary = summary;
  bot_username = "";
  bot_first_name = "";
}

abbrev unreachable : TelegramValidationReason → TelegramGatewayValidationResult
unreachable reason = refused reason "Unable to reach Telegram API. Please retry."

-- `_string_value`
abbrev string_value : Value → String
string_value (str s) = s
string_value _ = ""

abbrev valid_summary : String → String → String
valid_summary username first_name =
    if not (username == "")
    then "Telegram gateway is valid: @" <> username <> "."
    else if not (first_name == "")
    then "Telegram gateway is valid: " <> first_name <> "."
    else "Telegram gateway is valid."

of_bot : Value → TelegramGatewayValidationResult
unfolding Value.get
of_bot (dict bot) =
    let username = string_value (or_null (Value.get "username" bot)) in
    let first_name = string_value (or_null (Value.get "first_name" bot)) in
    record {
      is_ok = true;
      reason = ok;
      summary = valid_summary username first_name;
      bot_username = username;
      bot_first_name = first_name;
    }
of_bot _ = unreachable bad_response

of_payload : Value → TelegramGatewayValidationResult
unfolding Value.get of_bot
of_payload (dict d) =
    if is_true (or_null (Value.get "ok" d))
    then of_bot (or_null (Value.get "result" d))
    else unreachable bad_response
of_payload _ = unreachable bad_response

of_reply : Reply → TelegramGatewayValidationResult
unfolding of_payload
of_reply (http_error code) =
    if nat_eq code 401
    then refused invalid_token "Invalid Telegram bot token."
    else unreachable network
of_reply timed_out =
    refused timeout "Unable to validate Telegram bot token right now (timeout). Please retry."
of_reply url_error = unreachable network
of_reply unreadable = unreachable bad_response
of_reply (payload v) = of_payload v

-- `validate_bot_token`; `get_me` is the request with the stripped token.
unfoldable pub validate_bot_token : (String → Reply) → String → TelegramGatewayValidationResult
unfolding strip of_reply
validate_bot_token get_me token =
    let stripped = strip token in
    if stripped == ""
    then refused missing_token "Missing Telegram bot token."
    else of_reply (get_me stripped)
