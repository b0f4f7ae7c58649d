-- ===== src/DemoSession/PageCursors.antt =====
-- modules/demo-session/demo-read.pagination.ts: cursors that are read back.
use cost_engine_orchestratio.Base.{
  ◌≤◌, String, ◌||◌, ◌==◌, Memᴰ, inl, inr, Bool-cases, and-true, arith, Bool, true, false, ◌&&◌,
  ◌≡◌, refl, subst, Option, none, some, List, [], ◌∷◌, if◌then◌else◌, nat_eq, string_eq, ltb, leb,
  length, all_rows, ==-refl,
}
use cost_engine_orchestratio.DemoSession.Errors.{returned}
use cost_engine_orchestratio.DemoSession.Maps.{get_key, set_key, get_key-set_key}
use cost_engine_orchestratio.DemoSession.PageLimits.{read_page-limit}
use cost_engine_orchestratio.DemoSession.PageOrder.{last_key-mem}
use cost_engine_orchestratio.DemoSession.Cookies.{Text, text_eq, is_token_char}
use cost_engine_orchestratio.DemoSession.Maintenance.{take_first}
use cost_engine_orchestratio.DemoSession.Pages.{
  Value, text_value, Key, ReadPage, Kind, kind_name, CursorCodec, read_after, read_cursor,
  read_page, key_value, cursor_item, last_key, page_of, next_text, public_page,
}

some_inj : {B : Type 0} {a b : B} → ◌≡◌ {A = Option B} (some a) (some b) → a ≡ b
some_inj h = cc

-- The next cursor of a page holds the key of its last row.
next_cursor :
    {A : Type 0} (key : A → Key) (codec : CursorCodec) (rows : List A) (page : ReadPage)
    (kind : Kind) (scope : Text) {cursor : Text}
    → (public_page key codec rows page kind scope).1 ≡ some cursor
    → (k : Key) × (last_key key (take_first page.limit rows) ≡ some k)
      × (codec.encode (cursor_item kind scope k) ≡ cursor)
unfolding public_page page_of
next_cursor key codec rows page kind scope {cursor = cursor} next =
    by_test (ltb page.limit (length rows)) next
  where
    of_last :
        (o : Option Key)
        → last_key key (take_first page.limit rows) ≡ o
        → next_text codec kind scope o ≡ some cursor
        → (k : Key) × (last_key key (take_first page.limit rows) ≡ some k)
          × (codec.encode (cursor_item kind scope k) ≡ cursor)
    of_last none e g = cc
    of_last (some a) e g = (a, e, some_inj g)

    by_test :
        (b : Bool)
        → next_text codec kind scope (if b then last_key key (take_first page.limit rows) else none)
          ≡ some cursor
        → (k : Key) × (last_key key (take_first page.limit rows) ≡ some k)
          × (codec.encode (cursor_item kind scope k) ≡ cursor)
    by_test true g = of_last (last_key key (take_first page.limit rows)) refl g
    by_test false g = cc

-- The key can be read from a cursor of the kind.
abbrev pub IsKey : Kind → Key → Type 0
IsKey kind k = read_after kind (some (key_value k)) ≡ returned k

-- What Node documents of base64url and JSON, for the cursors of a kind and a scope: a cursor is a text of
-- the alphabet, spelled in the one way of its bytes, and JSON.parse gives back what JSON.stringify was given.
pub record IsCodec (codec : CursorCodec) (kind : Kind) (scope : Text) : Type 0 where
  pub decoded :
      (k : Key)
      → IsKey kind k
      → codec.decode (codec.encode (cursor_item kind scope k)) ≡ some (cursor_item kind scope k)
  pub canonical :
      (k : Key) → IsKey kind k → codec.is_canonical (codec.encode (cursor_item kind scope k)) ≡ true
  pub letters :
      (k : Key)
      → IsKey kind k
      → all_rows is_token_char (codec.encode (cursor_item kind scope k)) ≡ true
  pub not_empty : (k : Key) → IsKey kind k → 1 ≤ length (codec.encode (cursor_item kind scope k))

read_cursor-item :
    (codec : CursorCodec) (kind : Kind) (scope : Text) (k : Key) (cursor : Text)
    → IsCodec codec kind scope
    → codec.encode (cursor_item kind scope k) ≡ cursor
    → length cursor ≤ 512
    → IsKey kind k
    → read_cursor codec kind scope (text_value cursor) ≡ returned k
unfolding read_cursor all_rows get_key
read_cursor-item codec kind scope k cursor law same bound valid =
    rw (spelled, canonical, decoded, ==-refl (kind_name kind), ==-refl scope) valid
  where
    item : List (String × Value)
    item = cursor_item kind scope k

    canonical : codec.is_canonical cursor ≡ true
    canonical = subst (λ (t : Text). codec.is_canonical t ≡ true) same (law.canonical k valid)

    decoded : codec.decode cursor ≡ some item
    decoded = subst (λ (t : Text). codec.decode t ≡ some item) same (law.decoded k valid)

    letters : all_rows is_token_char cursor ≡ true
    letters = subst (λ (t : Text). all_rows is_token_char t ≡ true) same (law.letters k valid)

    not_empty : 1 ≤ length cursor
    not_empty = subst (λ (t : Text). 1 ≤ length t) same (law.not_empty k valid)

    spelled :
        (leb 1 (length cursor) && leb (length cursor) 512 && all_rows is_token_char cursor) ≡ true
    spelled = rw letters (ground (arith, not_empty, bound))

all_rows-set_key :
    (p : String × Value → Bool) (k : String) (v : Value) (m : List (String × Value))
    → p (k, v) ≡ true
    → all_rows p m ≡ true
    → all_rows p (set_key k v m) ≡ true
unfolding all_rows set_key
all_rows-set_key p k v [] h g = rw h refl
all_rows-set_key p k v ((j, w) ∷ m) h g =
    let (here, there) = and-true {a = p (j, w)} g in
    elim (Bool-cases (j == k)) [
      | inl e ↦ rw (e, h) there
      | inr e ↦ rw (e, here) (all_rows-set_key p k v m h there)
    ]

-- When a page of a query has a next cursor, the query with this cursor is read as the page of the same limit
-- after the last row of the first page: if the keys of the rows are of the kind, the cursor has at most 512
-- letters, and base64url and JSON are as documented.
pub public_page-read_page :
    {A : Type 0} (key : A → Key) (codec : CursorCodec) (rows : List A)
    (query : List (String × Value)) (page : ReadPage) (kind : Kind) (scope cursor : Text)
    → IsCodec codec kind scope
    → ((x : A) → Memᴰ x rows → IsKey kind (key x))
    → read_page codec query kind scope ≡ returned page
    → (public_page key codec rows page kind scope).1 ≡ some cursor
    → length cursor ≤ 512
    → (k : Key) × (last_key key (take_first page.limit rows) ≡ some k)
      × (read_page codec (set_key "cursor" (text_value cursor) query) kind scope
          ≡ returned (record { limit = page.limit; after = some k }))
unfolding read_page
public_page-read_page key codec rows query page kind scope cursor law keys read next bound =
    let (k, last, same) = next_cursor key codec rows page kind scope next in
    let (x, m, e) = last_key-mem key page.limit rows last in
    let valid : IsKey kind k = subst (IsKey kind) e (keys x m) in
    let cursor_read = read_cursor-item codec kind scope k cursor law same bound valid in
    let (known, limit) = read_page-limit codec query kind scope page read in
    (
      k,
      last,
      rw
          (
            all_rows-set_key (λ e. (e.0 == "limit") || (e.0 == "cursor")) "cursor"
                (text_value cursor) query refl known,
            get_key-set_key "limit" "cursor" (text_value cursor) query,
            limit,
            get_key-set_key "cursor" "cursor" (text_value cursor) query,
          )
          (rw cursor_read refl),
    )
