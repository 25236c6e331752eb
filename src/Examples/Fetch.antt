-- ===== src/Examples/Fetch.antt =====
-- A source that redirects to a private address.
use ai_research_workbench.Common.{
  ℕ, ◌≡◌, not, ◌||◌, false, none, some, [], ◌∷◌, if◌then◌else◌, text, text_eq,
}
use ai_research_workbench.Common.Number.{not_a_number}
use ai_research_workbench.Common.Outcome.{ok}
use ai_research_workbench.Security.Addresses.{is_public_number}
use ai_research_workbench.Security.Addresses.Ranges.{between, dotted, is_public_number_ranges}
use ai_research_workbench.Security.Urls.{Url}
use ai_research_workbench.Security.Fetch.{
  SafeFetchOptions, Hop, UrlLibrary, fetch_rounds, safe_fetch,
}
use ai_research_workbench.Security.Fetch.Requests.{AtMost, safe_fetch-AtMost}

abbrev source_url : Url
source_url = record {
  protocol = text "https:";
  username = [];
  password = [];
  hostname = text "example.org";
  path = [];
  fragment = [];
}

abbrev private_url : Url
private_url = record source_url { hostname = text "10.0.0.1" }

abbrev two_urls : UrlLibrary
two_urls = record {
  is_ip = λ t. if text_eq t (text "example.org") then 0 else 4;
  parse_url = λ t. if text_eq t (text "10.0.0.1") then some private_url else some source_url;
  resolve_location = λ t base. some private_url;
  to_text = λ url. url.hostname;
  parse_number = λ t. not_a_number;
}

abbrev default_options : SafeFetchOptions
default_options = record {
  timeout_ms = none;
  max_bytes = none;
  max_redirects = none;
  allowed_mime_types = none;
  user_agent = none;
}

abbrev redirecting : ℕ → Hop
redirecting n = record {
  elapsed = 0;
  resolve = λ host. ok (record { address = text "93.184.216.34"; family = 4 } ∷ []);
  respond = λ request. ok (record {
    status = 302;
    headers = (text "location", text "http://10.0.0.1") ∷ [];
    body = [];
  });
}

safe_fetch-AtMost_example :
    AtMost two_urls.is_ip 11
      (fetch_rounds two_urls 20 default_options redirecting (text "https://example.org")).0
    × (fetch_rounds two_urls 32 default_options redirecting (text "https://example.org")
        ≡ safe_fetch two_urls default_options redirecting (text "https://example.org"))
safe_fetch-AtMost_example =
    safe_fetch-AtMost two_urls 20 default_options redirecting (text "https://example.org")

is_public_number_ranges_example :
    is_public_number 167772161
    ≡ not (
        between (dotted 0 0 0 0) 167772161 (dotted 0 255 255 255)
        || (between (dotted 10 0 0 0) 167772161 (dotted 10 255 255 255)
            || (between (dotted 100 64 0 0) 167772161 (dotted 100 127 255 255)
                || (between (dotted 127 0 0 0) 167772161 (dotted 127 255 255 255)
                    || (between (dotted 169 254 0 0) 167772161 (dotted 169 254 255 255)
                        || (between (dotted 172 16 0 0) 167772161 (dotted 172 31 255 255)
                            || (between (dotted 192 0 0 0) 167772161 (dotted 192 0 0 255)
                                || (between (dotted 192 0 2 0) 167772161 (dotted 192 0 2 255)
                                    || (between
                                          (dotted 192 88 99 0)
                                          167772161
                                          (dotted 192 88 99 255)
                                        || (between
                                              (dotted 192 168 0 0)
                                              167772161
                                              (dotted 192 168 255 255)
                                            || (between
                                                  (dotted 198 18 0 0)
                                                  167772161
                                                  (dotted 198 19 255 255)
                                                || (between
                                                      (dotted 198 51 100 0)
                                                      167772161
                                                      (dotted 198 51 100 255)
                                                    || (between
                                                          (dotted 203 0 113 0)
                                                          167772161
                                                          (dotted 203 0 113 255)
                                                        || (between
                                                            (dotted 224 0 0 0)
                                                            167772161
                                                            (dotted 239 255 255 255)
                                                            || (between
                                                            (dotted 240 0 0 0)
                                                            167772161
                                                            (dotted 255 255 255 255)
                                                            || false)))))))))))))))
is_public_number_ranges_example = is_public_number_ranges 167772161
