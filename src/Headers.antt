-- ===== src/Headers.antt =====
-- internal/proxy/http.go: the header fields of requests and responses. A header is the list of its
-- fields, each with its canonical name, in the order in which they were added.
pub mod Laws
pub mod Hop
pub mod Copied
pub mod Cors
use tvpn.Base.{
  Bool, List, Option, [], all, any, filter, find, if◌then◌else◌, leb, list_eq, map, nat_eq, none,
  not, some, true, ℕ, ◌!=◌, ◌&&◌, ◌++◌, ◌-◌, ◌==◌, ◌||◌, ◌∷◌,
}
use tvpn.Text.{Text, equal_fold, lower_byte, split, text, trim_space}

-- http.Header
abbrev pub Header : Type 0
Header = List (Text × Text)

abbrev pub upper_byte : ℕ → ℕ
upper_byte c = if leb 97 c && leb c 122 then c - 32 else c

-- The bytes of a token in a header's name.
abbrev pub is_token_byte : ℕ → Bool
is_token_byte c =
    leb 48 c && leb c 57
    || leb 65 c && leb c 90
    || leb 97 c && leb c 122
    || any (λ d. d == c) (text "!#$%&'*+-.^_`|~")

unfoldable pub canonical_from : Bool → Text → Text
canonical_from at_start [] = []
canonical_from at_start (c ∷ s) =
    (if at_start then upper_byte c else lower_byte c) ∷ canonical_from (c == b'-') s

-- http.CanonicalHeaderKey: a name that is no token is left as it is.
unfoldable pub canonical_header_key : Text → Text
unfolding canonical_from
canonical_header_key name = if all is_token_byte name then canonical_from true name else name

abbrev pub has_name : Text → Text × Text → Bool
has_name name field = field.0 == name

-- Header.Values
unfoldable pub header_values : Text → Header → List Text
header_values name h =
    map (λ (f : Text × Text). f.1) (filter (has_name (canonical_header_key name)) h)

unfoldable pub first_value : Option (Text × Text) → Text
first_value none = []
first_value (some (name, value)) = value

-- Header.Get: the first value, or the empty text.
unfoldable pub header_get : Text → Header → Text
unfolding first_value
header_get name h = first_value (find (has_name (canonical_header_key name)) h)

-- Header.Del
unfoldable pub header_del : Text → Header → Header
header_del name h = filter (λ f. not (has_name (canonical_header_key name) f)) h

-- Header.Set
unfoldable pub header_set : Text → Text → Header → Header
unfolding header_del
header_set name value h = header_del name h ++ ((canonical_header_key name, value) ∷ [])

-- Header.Add
unfoldable pub header_add : Text → Text → Header → Header
header_add name value h = h ++ ((canonical_header_key name, value) ∷ [])

unfoldable pub delete_all : List Text → Header → Header
delete_all [] h = h
delete_all (name ∷ names) h = delete_all names (header_del name h)

-- The names that the values of Connection list.
unfoldable pub connection_names : List Text → List Text
connection_names [] = []
connection_names (value ∷ values) = map trim_space (split value b',') ++ connection_names values

abbrev pub hop_names : List Text
hop_names =
    text "Connection"
    ∷ text "Proxy-Connection"
    ∷ text "Keep-Alive"
    ∷ text "Proxy-Authenticate"
    ∷ text "Proxy-Authorization"
    ∷ text "TE"
    ∷ text "Trailer"
    ∷ text "Transfer-Encoding"
    ∷ text "Upgrade"
    ∷ []

-- stripHopHeaders; the values of Connection are those from before the loop.
unfoldable pub strip_hop_headers : Header → Header
unfolding connection_names
strip_hop_headers h =
    delete_all hop_names (delete_all (connection_names (header_values (text "Connection") h)) h)

abbrev pub canonical_hop_names : List Text
canonical_hop_names =
    text "Connection"
    ∷ text "Proxy-Connection"
    ∷ text "Keep-Alive"
    ∷ text "Proxy-Authenticate"
    ∷ text "Proxy-Authorization"
    ∷ text "Te"
    ∷ text "Trailer"
    ∷ text "Transfer-Encoding"
    ∷ text "Upgrade"
    ∷ []

-- isHopHeader
unfoldable pub is_hop_header : Text → Bool
is_hop_header value = any (λ name. value == name) canonical_hop_names

-- The fields that are not copied to the browser.
unfoldable pub is_withheld : Text → Bool
is_withheld canonical =
    canonical == text "Set-Cookie"
    || canonical == text "Content-Security-Policy"
    || canonical == text "Content-Security-Policy-Report-Only"
    || canonical == text "X-Frame-Options"
    || canonical == text "Tvpn-Error-Code"
    || is_hop_header canonical

unfoldable pub copy_fields : Header → Header → Header
copy_fields dst [] = dst
copy_fields dst ((name, value) ∷ src) =
    let canonical = canonical_header_key name in
    copy_fields (if is_withheld canonical then dst else header_add canonical value dst) src

-- copyResponseHeaders
unfoldable pub copy_response_headers : Header → Header → Header
unfolding copy_fields
copy_response_headers dst src =
    header_set (text "Referrer-Policy") (text "no-referrer") (copy_fields dst src)

unfoldable pub lists_field : Text → Text → Bool
lists_field value item = any (λ field. equal_fold (trim_space field) value) (split item b',')

-- addVary
unfoldable pub add_vary : Text → Header → Header
unfolding lists_field
add_vary value h =
    if any (lists_field value) (header_values (text "Vary") h)
    then h
    else header_add (text "Vary") value h

abbrev pub allow_origin : Text
allow_origin = text "Access-Control-Allow-Origin"

unfoldable pub set_default : Text → Text → Header → Header
set_default name value h =
    if header_get name h == [] && value != [] then header_set name value h else h

-- What compatibility mode sets: the response is shared with the origin of the browser.
unfoldable pub share_response : Header → Header → Text → Header
unfolding set_default
share_response response request browser_origin =
    let asked = header_get (text "Access-Control-Request-Method") request in
    let asked_headers = header_get (text "Access-Control-Request-Headers") request in
    let shared = add_vary (text "Origin") (
      header_set (text "Access-Control-Allow-Credentials") (text "true")
        (header_set allow_origin browser_origin response)) in
    if asked == []
    then shared
    else set_default (text "Access-Control-Allow-Headers") asked_headers
        (set_default (text "Access-Control-Allow-Methods") asked shared)

-- translateCORS: the header of the response.
unfoldable pub translate_cors : Header → Header → Text → Text → Bool → Header
translate_cors response request browser_origin upstream_origin compatibility_mode =
    if browser_origin == [] || upstream_origin == []
    then response
    else if not compatibility_mode
    then (if header_get allow_origin response == upstream_origin
        then header_set allow_origin browser_origin response
        else response)
    else share_response response request browser_origin
