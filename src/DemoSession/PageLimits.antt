-- ===== src/DemoSession/PageLimits.antt =====
-- modules/demo-session/demo-read.pagination.ts: the limits of pages.
use cost_engine_orchestratio.Base.{
  refl, ℕ, ◌+◌, ◌-◌, ◌*◌, ◌≤◌, String, Bool, true, false, ◌&&◌, ◌||◌, ◌≡◌, ◌∙◌, ap, Option, none,
  some, List, [], ◌∷◌, ◌==◌, nat_eq, string_eq, leb, length, all_rows, Bool-cases, inl, inr,
  Option-cases, arith,
}
use cost_engine_orchestratio.DemoSession.Errors.{
  Outcome, returned, >>=-eq-returned, returned_inj, ◌>>=◌, ◌>>◌,
}
use cost_engine_orchestratio.DemoSession.Maps.{get_key}
use cost_engine_orchestratio.DemoSession.Cookies.{Text, text_eq}
use cost_engine_orchestratio.DemoSession.Pages.{
  null_value, Value, text_value, number_value, other_value, ReadPage, Kind, CursorCodec,
  require_valid, limit_number, page_limit, read_limit, read_cursor, page_after, read_page, decimal,
  is_digit,
}

decimal_le : (n m : ℕ) (t : Text) → decimal n t ≡ some m → n ≤ m
decimal_le n m [] h = ground arith
decimal_le n m (c ∷ t) h = elim (Bool-cases (is_digit c)) [
  | inl e ↦ omega (arith, decimal_le (n * 10 + (c - b'0')) m t (ground (arith, e, h)))
  | inr e ↦ ground arith
]

limit_number_pos : (t : Text) (n : ℕ) → limit_number t ≡ some n → 1 ≤ n
unfolding limit_number
limit_number_pos [] n h = cc
limit_number_pos (c ∷ t) n h = elim (Bool-cases (leb b'1' c && leb c b'9' && leb (length t) 2)) [
  | inl e ↦
      let d : decimal (c - b'0') t ≡ some n = rw e at h in
      let le = decimal_le (c - b'0') n t d in ground arith
  | inr e ↦ cc (rw e at h)
]

read_limit_bounds : (v : Option Value) (n : ℕ) → read_limit v ≡ returned n → (1 ≤ n) × (n ≤ 100)
unfolding read_limit
read_limit_bounds none n h = ground arith
read_limit_bounds (some (number_value m)) n h = cc
read_limit_bounds (some null_value) n h = ground arith
read_limit_bounds (some other_value) n h = cc
read_limit_bounds (some (text_value t)) n h = elim (Option-cases (limit_number t)) [
  | inl e ↦ cc (rw e at h)
  | inr (m, e) ↦
      let g : page_limit (some m) ≡ returned n = rw e at h in
      let pos = limit_number_pos t m e in ground arith
]

-- A page that is read has the limit of its query, which has no other values than a limit and a cursor.
pub read_page-limit :
    (codec : CursorCodec) (query : List (String × Value)) (kind : Kind) (scope : Text)
    (page : ReadPage)
    → read_page codec query kind scope ≡ returned page
    → (all_rows (λ e. (e.0 == "limit") || (e.0 == "cursor")) query ≡ true)
      × (read_limit (get_key "limit" query) ≡ returned page.limit)
unfolding read_page
read_page-limit codec query kind scope page h =
    tested (all_rows (λ e. (e.0 == "limit") || (e.0 == "cursor")) query) h
  where
    limit_of : Outcome ReadPage
    limit_of = do
      n ← read_limit (get_key "limit" query)
      page_after codec kind scope n (get_key "cursor" query)

    limit_kept :
        (n : ℕ) (v : Option Value)
        → page_after codec kind scope n v ≡ returned page
        → n ≡ page.limit
    limit_kept n none k = ap (λ (p : ReadPage). p.limit) (returned_inj k)
    limit_kept n (some v) k =
        let (a, e, f) = >>=-eq-returned (read_cursor codec kind scope v) _ k in
        ap (λ (p : ReadPage). p.limit) (returned_inj f)

    tested :
        (b : Bool)
        → (require_valid b >> limit_of) ≡ returned page
        → (b ≡ true) × (read_limit (get_key "limit" query) ≡ returned page.limit)
    tested false g = cc
    tested true g =
        let (n, e, k) =
          >>=-eq-returned (read_limit (get_key "limit" query))
            (λ n. page_after codec kind scope n (get_key "cursor" query)) g in
        (refl, e ∙ ap (λ (m : ℕ). returned m) (limit_kept n (get_key "cursor" query) k))

-- Every page that is read has a limit from 1 to 100.
pub read_page_bounds :
    (codec : CursorCodec) (query : List (String × Value)) (kind : Kind) (scope : Text)
    (page : ReadPage)
    → read_page codec query kind scope ≡ returned page
    → (1 ≤ page.limit) × (page.limit ≤ 100)
read_page_bounds codec query kind scope page h =
    read_limit_bounds (get_key "limit" query) page.limit
      (read_page-limit codec query kind scope page h).1
