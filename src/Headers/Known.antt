-- ===== src/Headers/Known.antt =====
-- src/headers.rs: the accessors of well-known headers.
use ws_fabric.Prelude.{List, map, Option, Text, text_of, list_eq}
use ws_fabric.Text.{Unicode, ascii_lower}
use ws_fabric.Error.{Error, Result}
use ws_fabric.Headers.{HeaderMap, insert, get, get_all}

abbrev pub authorization_name : Text
authorization_name = text_of "Authorization"

abbrev pub user_agent_name : Text
user_agent_name = text_of "User-Agent"

abbrev pub origin_name : Text
origin_name = text_of "Origin"

abbrev pub cookie_name : Text
cookie_name = text_of "Cookie"

abbrev pub host_name : Text
host_name = text_of "Host"

abbrev pub api_key_name : Text
api_key_name = text_of "X-API-Key"

module _ (u : Unicode) where
  abbrev pub get_authorization : HeaderMap → Option Text
  get_authorization m = get u authorization_name m

  abbrev pub set_authorization : Text → HeaderMap → Result (Unit {0}) × HeaderMap
  set_authorization value m = insert u authorization_name value m

  abbrev pub get_user_agent : HeaderMap → Option Text
  get_user_agent m = get u user_agent_name m

  abbrev pub set_user_agent : Text → HeaderMap → Result (Unit {0}) × HeaderMap
  set_user_agent value m = insert u user_agent_name value m

  abbrev pub get_origin : HeaderMap → Option Text
  get_origin m = get u origin_name m

  abbrev pub set_origin : Text → HeaderMap → Result (Unit {0}) × HeaderMap
  set_origin value m = insert u origin_name value m

  abbrev pub get_cookie : HeaderMap → Option Text
  get_cookie m = get u cookie_name m

  abbrev pub set_cookie : Text → HeaderMap → Result (Unit {0}) × HeaderMap
  set_cookie value m = insert u cookie_name value m

  abbrev pub get_all_cookies : HeaderMap → List Text
  get_all_cookies m = get_all u cookie_name m

  abbrev pub get_host : HeaderMap → Option Text
  get_host m = get u host_name m

  abbrev pub set_host : Text → HeaderMap → Result (Unit {0}) × HeaderMap
  set_host value m = insert u host_name value m

  abbrev pub get_api_key : HeaderMap → Option Text
  get_api_key m = get u api_key_name m

  abbrev pub set_api_key : Text → HeaderMap → Result (Unit {0}) × HeaderMap
  set_api_key value m = insert u api_key_name value m

-- The well-known headers.
pub data Known : Type 0 where
  authorization user_agent origin cookie host api_key : Known

abbrev pub set_known : Unicode → Known → Text → HeaderMap → Result (Unit {0}) × HeaderMap
set_known u Known.authorization = set_authorization u
set_known u Known.user_agent = set_user_agent u
set_known u Known.origin = set_origin u
set_known u Known.cookie = set_cookie u
set_known u Known.host = set_host u
set_known u Known.api_key = set_api_key u

abbrev pub get_known : Unicode → Known → HeaderMap → Option Text
get_known u Known.authorization = get_authorization u
get_known u Known.user_agent = get_user_agent u
get_known u Known.origin = get_origin u
get_known u Known.cookie = get_cookie u
get_known u Known.host = get_host u
get_known u Known.api_key = get_api_key u

abbrev pub known_name : Known → Text
known_name Known.authorization = authorization_name
known_name Known.user_agent = user_agent_name
known_name Known.origin = origin_name
known_name Known.cookie = cookie_name
known_name Known.host = host_name
known_name Known.api_key = api_key_name

-- The name that the map has it by.
abbrev pub known_key : Known → Text
known_key i = map ascii_lower (known_name i)
