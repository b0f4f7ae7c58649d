-- ===== src/DemoSession/Pages.antt =====
-- modules/demo-session/demo-read.pagination.ts: the pages of the demo reads. JSON and base64url are
-- parameters. A page is read from the rows that the query orders by their key.
use cost_engine_orchestratio.Base.{
  ℕ, suc, ◌+◌, ◌-◌, ◌*◌, String, Bool, true, false, ◌&&◌, ◌||◌, Option, none, some, List, [], ◌∷◌,
  if◌then◌else◌, ◌==◌, nat_eq, string_eq, ltb, leb, length, all_rows, select,
}
use cost_engine_orchestratio.DemoSession.Errors.{
  DemoError, Outcome, returned, thrown, demo_error, ◌>>=◌, ◌>>◌,
}
use cost_engine_orchestratio.DemoSession.Maps.{get_key}
use cost_engine_orchestratio.DemoSession.Cookies.{Text, text_eq, is_token_char}
use cost_engine_orchestratio.DemoSession.Maintenance.{take_first}

-- a value of JSON, or of a query: a text, a number that is an integer from 0, null, or anything else
pub data Value : Type 0 where
  text_value : Text → Value
  number_value : ℕ → Value
  null_value other_value : Value

-- the key after which a page starts: the id of a row, or the number of an attempt
pub data Key : Type 0 where
  id_key : Text → Key
  number_key : ℕ → Key

pub record ReadPage : Type 0 where
  pub limit : ℕ
  pub after : Option Key

-- Kind
pub data Kind : Type 0 where
  datasets_kind jobs_kind attempts_kind : Kind

abbrev pub kind_name : Kind → Text
kind_name datasets_kind = b'd' ∷ b'a' ∷ b't' ∷ b'a' ∷ b's' ∷ b'e' ∷ b't' ∷ b's' ∷ []
kind_name jobs_kind = b'j' ∷ b'o' ∷ b'b' ∷ b's' ∷ []
kind_name attempts_kind = b'a' ∷ b't' ∷ b't' ∷ b'e' ∷ b'm' ∷ b'p' ∷ b't' ∷ b's' ∷ []

-- `encode` spells an object as a cursor; `decode` is the object that JSON.parse makes of one, if it
-- makes an object; `is_canonical` tells whether a cursor is the one spelling of its bytes
pub record CursorCodec : Type 0 where
  pub encode : List (String × Value) → Text
  pub decode : Text → Option (List (String × Value))
  pub is_canonical : Text → Bool

abbrev pub invalid_request : DemoError
invalid_request = demo_error "INVALID_REQUEST" 400

abbrev pub require_valid : Bool → Outcome (Unit {0})
require_valid true = returned tt
require_valid false = thrown invalid_request

abbrev pub is_digit : ℕ → Bool
is_digit c = leb b'0' c && leb c b'9'

abbrev is_hex : ℕ → Bool
is_hex c = is_digit c || (leb b'a' c && leb c b'f') || (leb b'A' c && leb c b'F')

-- a UUID from its place `i` on
abbrev uuid_from : ℕ → Text → Bool
uuid_from i [] = i == 36
uuid_from i (c ∷ s) =
    (if (i == 8) || (i == 13) || (i == 18) || (i == 23) then c == b'-' else is_hex c)
    && uuid_from (i + 1) s

-- validResourceId
unfoldable pub valid_resource_id : Text → Bool
valid_resource_id t = uuid_from 0 t

abbrev pub decimal : ℕ → Text → Option ℕ
decimal n [] = some n
decimal n (c ∷ s) = if is_digit c then decimal (n * 10 + (c - b'0')) s else none

-- /^[1-9][0-9]{0,2}$/, and Number
unfoldable pub limit_number : Text → Option ℕ
limit_number [] = none
limit_number (c ∷ s) =
    if leb b'1' c && leb c b'9' && leb (length s) 2 then decimal (c - b'0') s else none

abbrev pub page_limit : Option ℕ → Outcome ℕ
page_limit none = thrown invalid_request
page_limit (some n) = if ltb 100 n then thrown invalid_request else returned n

-- the limit, `values.limit ?? '20'`
unfoldable pub read_limit : Option Value → Outcome ℕ
unfolding limit_number
read_limit none = returned 20
read_limit (some null_value) = returned 20
read_limit (some (text_value t)) = page_limit (limit_number t)
read_limit (some (number_value n)) = thrown invalid_request
read_limit (some other_value) = thrown invalid_request

abbrev pub is_text : Text → Option Value → Bool
is_text t (some (text_value u)) = u == t
is_text t _ = false

abbrev pub is_number : ℕ → Option Value → Bool
is_number n (some (number_value m)) = m == n
is_number n _ = false

abbrev pub valid_key : Bool → Key → Outcome Key
valid_key true k = returned k
valid_key false k = thrown invalid_request

-- the key in a cursor, by the kind of page
unfoldable pub read_after : Kind → Option Value → Outcome Key
unfolding valid_resource_id
read_after attempts_kind (some (number_value n)) =
    valid_key (leb 1 n && leb n 2147483647) (number_key n)
read_after datasets_kind (some (text_value t)) = valid_key (valid_resource_id t) (id_key t)
read_after jobs_kind (some (text_value t)) = valid_key (valid_resource_id t) (id_key t)
read_after _ _ = thrown invalid_request

abbrev pub is_cursor_key : String → Bool
is_cursor_key k = (k == "after") || (k == "kind") || (k == "scope") || (k == "v")

-- `Object.keys(item).sort()` is these four; the keys of an object differ
abbrev pub has_cursor_keys : List (String × Value) → Bool
has_cursor_keys item = (length item == 4) && all_rows (λ e. is_cursor_key e.0) item

abbrev pub read_item : Kind → Text → Option (List (String × Value)) → Outcome Key
read_item kind scope none = thrown invalid_request
read_item kind scope (some item) = do
  require_valid (has_cursor_keys item)
  require_valid (is_number 1 (get_key "v" item))
  require_valid (is_text (kind_name kind) (get_key "kind" item))
  require_valid (is_text scope (get_key "scope" item))
  read_after kind (get_key "after" item)

-- the cursor: at most 512 letters of base64url
unfoldable pub read_cursor : CursorCodec → Kind → Text → Value → Outcome Key
unfolding all_rows is_token_char get_key read_after
read_cursor codec kind scope (text_value t) = do
  require_valid (leb 1 (length t) && leb (length t) 512 && all_rows is_token_char t)
  require_valid (codec.is_canonical t)
  read_item kind scope (codec.decode t)
read_cursor codec kind scope _ = thrown invalid_request

abbrev pub page_after : CursorCodec → Kind → Text → ℕ → Option Value → Outcome ReadPage
page_after codec kind scope limit none = returned (record { limit = limit; after = none })
page_after codec kind scope limit (some v) = do
  k ← read_cursor codec kind scope v
  returned (record { limit = limit; after = some k })

-- readPage, of the values of a query
unfoldable pub read_page : CursorCodec → List (String × Value) → Kind → Text → Outcome ReadPage
unfolding all_rows get_key read_limit read_cursor
read_page codec query kind scope = do
  require_valid (all_rows (λ e. (e.0 == "limit") || (e.0 == "cursor")) query)
  limit ← read_limit (get_key "limit" query)
  page_after codec kind scope limit (get_key "cursor" query)

abbrev pub key_value : Key → Value
key_value (id_key t) = text_value t
key_value (number_key n) = number_value n

-- JSON.stringify({ v: 1, kind, scope, after })
abbrev pub cursor_item : Kind → Text → Key → List (String × Value)
cursor_item kind scope k =
    ("v", number_value 1)
    ∷ ("kind", text_value (kind_name kind))
    ∷ ("scope", text_value scope)
    ∷ ("after", key_value k)
    ∷ []

abbrev pub next_text : CursorCodec → Kind → Text → Option Key → Option Text
next_text codec kind scope none = none
next_text codec kind scope (some k) = some (codec.encode (cursor_item kind scope k))

module _ {A : Type 0} (key : A → Key) where
  unfoldable pub last_key : List A → Option Key
  last_key [] = none
  last_key (x ∷ []) = some (key x)
  last_key (x ∷ y ∷ xs) = last_key (y ∷ xs)

  -- items and the key that the next cursor holds
  unfoldable pub page_of : ℕ → List A → List A × Option Key
  unfolding take_first last_key
  page_of limit rows =
      let items = take_first limit rows in
      (items, if ltb limit (length rows) then last_key items else none)

  -- publicPage
  unfoldable pub public_page : CursorCodec → List A → ReadPage → Kind → Text → List A × Option Text
  unfolding page_of
  public_page codec rows page kind scope =
      let (items, next) = page_of page.limit rows in (items, next_text codec kind scope next)

  abbrev pub is_after : (Key → Key → Bool) → Option Key → A → Bool
  is_after lt none x = true
  is_after lt (some k) x = lt k (key x)

  -- WHERE (after IS NULL OR key > after) ORDER BY key LIMIT limit + 1, of rows in the order of the key
  unfoldable pub query_rows : (Key → Key → Bool) → ReadPage → List A → List A
  unfolding take_first select
  query_rows lt page ordered = take_first (suc page.limit) (select (is_after lt page.after) ordered)
