-- ===== src/Request/Tests.antt =====
-- A redirect to another origin.
use agent_first_http.Prelude.{
  ℕ, ◌+◌, ◌≡◌, refl, Text, codes, Bool, true, false, not, Option, none, some, List, [], ◌∷◌, ◌==◌,
  if◌then◌else◌, All, ℤ, pos, text_eq, get, text_keys, keep, map,
}
use agent_first_http.Errors.{ok}
use agent_first_http.Cookies.Scope.{Url, HostNames}
use agent_first_http.Cookies.Entry.{JarEntry}
use agent_first_http.Cookies.Jar.{missing, parsed, PersistIo}
use agent_first_http.Request.Values.{Wiring}
use agent_first_http.Request.Options.{none_, bytes, PreparedRequestOptions, is_origin_scoped_header}
use agent_first_http.Request.Redirects.{
  HopUrl, Response, Exchange, Client, Wire, send_hops, send_http_response,
}
use agent_first_http.Request.Sent.{StaysHome}
use agent_first_http.Request.Credentials.{send_http_response-StaysHome}
use agent_first_http.Request.Methods.{
  IsResend, send_http_response-IsResend, send_http_response-ends,
}

abbrev home : HopUrl
home = record {
  url = record { scheme = codes "https"; host = some (codes "a.test"); path = codes "/" };
  port = some 443;
}

abbrev away : HopUrl
away = record home {
  url = record { scheme = codes "https"; host = some (codes "b.test"); path = codes "/" };
}

abbrev client : Client
client = record {
  wiring = record {
    is_header_value = λ v. true;
    is_method = λ m. true;
    header_name = λ n. some n;
    checked_add = λ now s. some now;
    to_uppercase = λ m. m;
  };
  names = record { is_ip_address = λ h. false; suffix_str = λ d. none };
  in_range = λ t. true;
  parse_cookie = λ line. none;
  has_jar = true;
}

abbrev held : JarEntry
held = record {
  name = codes "sid";
  value = codes "2";
  domain = some (codes "b.test");
  host_only = true;
  path = none;
  expires_epoch_s = none;
  secure = true;
  http_only = true;
  same_site = none;
}

abbrev answered : Response → Exchange
answered r = record {
  now = pos 1000;
  jar_file = parsed (held ∷ []);
  response = ok r;
  write_file = missing;
  locked_file = missing;
  write_io = record {
    has_parent = true;
    dir_created = true;
    lock_opened = true;
    lock_acquired = true;
    serialized = true;
    written = true;
  };
}

abbrev exchange : ℕ → Exchange
exchange i =
    if i == 0
    then answered (record { status = 302; set_cookies = []; location = some (some away) })
    else answered (record { status = 200; set_cookies = []; location = none })

abbrev posted : PreparedRequestOptions
posted = record {
  headers =
      record { name = codes "authorization"; value = codes "Basic x" }
      ∷ record { name = codes "content-type"; value = codes "text/plain" }
      ∷ record { name = codes "x-id"; value = codes "7" }
      ∷ [];
  user_agent = none;
  raw_cookie_header = some (codes "k=1");
  cookies = [];
  raw_cookie_pairs = [];
  evaluate_after_wait = [];
  method = codes "POST";
  body_payload = bytes (1 ∷ []);
}

sent_headers : List (List (Text × Text))
sent_headers = map (λ (w : Wire). w.headers) (send_http_response client exchange home posted).1

two_requests :
    sent_headers
    ≡ ((codes "cookie", codes "k=1")
        ∷ (codes "x-id", codes "7")
        ∷ (codes "content-type", codes "text/plain")
        ∷ (codes "authorization", codes "Basic x")
        ∷ [])
      ∷ ((codes "cookie", codes "sid=2") ∷ (codes "x-id", codes "7") ∷ [])
      ∷ []
unfolding sent_headers send_http_response text_eq keep is_origin_scoped_header send_hops
    agent_first_http.Request.Redirects.prepare_hop agent_first_http.Request.Redirects.jar_cookies
    agent_first_http.Request.Redirects.build_wire agent_first_http.Request.Redirects.scope_cookies
    agent_first_http.Request.Redirects.next_hop
    agent_first_http.Request.Redirects.persist_set_cookies
    agent_first_http.Request.Redirects.change_method agent_first_http.Request.Redirects.becomes_get
    agent_first_http.Request.Redirects.leave_origin agent_first_http.Request.Redirects.is_redirect
    agent_first_http.Request.Redirects.same_origin agent_first_http.Request.Redirects.sendable
    agent_first_http.Request.Options.http_header_map
    agent_first_http.Request.Options.merge_jar_cookies
    agent_first_http.Request.Options.cookie_header_for_url
    agent_first_http.Request.Options.cookie_pairs agent_first_http.Request.Options.insert_headers
    agent_first_http.Request.Options.join_jar agent_first_http.Request.Options.join_pairs
    agent_first_http.Request.Options.names_of agent_first_http.Request.Values.bad_in_name
    agent_first_http.Request.Values.bad_in_value
    agent_first_http.Request.Values.cookie_expires_epoch_s
    agent_first_http.Request.Values.cookie_is_expired
    agent_first_http.Request.Values.effective_cookie_secure
    agent_first_http.Request.Values.in_cookie_scope agent_first_http.Request.Values.prepare_cookie
    agent_first_http.Request.Values.trim_end agent_first_http.Request.Values.validate_cookie_pair
    agent_first_http.Request.Values.validate_cookie_scope agent_first_http.Cookies.Jar.load
    agent_first_http.Cookies.Jar.applicable_cookies agent_first_http.Cookies.Jar.applicable_entries
    agent_first_http.Cookies.Jar.applies agent_first_http.Cookies.Entry.to_cookie
    agent_first_http.Cookies.Entry.is_expired agent_first_http.Cookies.Scope.domain_matches
    agent_first_http.Cookies.Scope.path_matches agent_first_http.Cookies.Scope.within
    agent_first_http.Cookies.Scope.normal_host agent_first_http.Prelude.put
    agent_first_http.Prelude.remove agent_first_http.Prelude.any agent_first_http.Prelude.member
    agent_first_http.Prelude.ends_with agent_first_http.Prelude.eq_ignore_ascii_case
    agent_first_http.Prelude.to_ascii_lowercase agent_first_http.Prelude.trim_start_char
    agent_first_http.Pages.Classification.is_whitespace
    agent_first_http.Pages.Classification.trim_start
two_requests = refl

send_http_response-StaysHome_example :
    All (StaysHome client home) (send_http_response client exchange home posted).1
send_http_response-StaysHome_example = send_http_response-StaysHome client exchange home posted

send_http_response-IsResend_example :
    All
      (λ (w : Wire). IsResend posted w.method w.body)
      (send_http_response client exchange home posted).1
send_http_response-IsResend_example = send_http_response-IsResend client exchange home posted

send_http_response-ends_example :
    send_hops client exchange (11 + 3) 0 home posted
    ≡ send_http_response client exchange home posted
send_http_response-ends_example = send_http_response-ends client exchange 3 home posted
