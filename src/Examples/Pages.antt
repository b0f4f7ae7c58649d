-- ===== src/Examples/Pages.antt =====
-- The attempts of a job, read in pages of two and by a cursor.
use cost_engine_orchestratio.Base.{
  ℕ, ◌≤◌, String, Bool, true, false, ◌≡◌, refl, List, [], ◌∷◌, some, none, ltb, length, leb, ◌&&◌,
  all_rows, nat_eq, arith,
}
use cost_engine_orchestratio.DemoSession.Errors.{returned}
use cost_engine_orchestratio.Base.Rows.{all_rows-mem}
use cost_engine_orchestratio.DemoSession.Maintenance.{take_first}
use cost_engine_orchestratio.DemoSession.Cookies.{Text, is_token_char}
use cost_engine_orchestratio.DemoSession.Pages.{
  Value, text_value, number_value, Key, id_key, number_key, ReadPage, attempts_kind, CursorCodec,
  read_page, cursor_item, last_key, read_after, public_page, query_rows,
}
use cost_engine_orchestratio.DemoSession.PageLaws.{read_pages, read_pages_all}
use cost_engine_orchestratio.DemoSession.PageOrder.{IsOrder, IsOrdered}
use cost_engine_orchestratio.DemoSession.PageLimits.{read_page_bounds}
use cost_engine_orchestratio.DemoSession.PageCursors.{IsCodec, IsKey, public_page-read_page}
use cost_engine_orchestratio.DemoSession.Maps.{set_key}
use cost_engine_orchestratio.Examples.Credentials.{repeated}
use cost_engine_orchestratio.Base.{zero, suc, Memᴰ, ap, and-true, Bool-cases, inl, inr}

-- attempts by their numbers
abbrev attempt_number : ℕ → Key
attempt_number n = number_key n

abbrev number_lt : Key → Key → Bool
number_lt (number_key a) (number_key b) = ltb a b
number_lt _ _ = false

abbrev five_attempts : List ℕ
five_attempts = 1 ∷ 2 ∷ 3 ∷ 4 ∷ 5 ∷ []

-- a codec of the cursors of attempts: as many letters as the number of the attempt
abbrev cursor_number : List (String × Value) → ℕ
cursor_number (e1 ∷ e2 ∷ e3 ∷ (k, number_value n) ∷ item) = n
cursor_number _ = 0

abbrev attempts_codec : CursorCodec
attempts_codec = record {
  encode = λ item. repeated (cursor_number item) b'a';
  decode = λ t. some (cursor_item attempts_kind [] (number_key (length t)));
  is_canonical = λ _. true;
}

length-repeated : (n c : ℕ) → length (repeated n c) ≡ n
length-repeated zero c = refl
length-repeated (suc n) c = ap suc (length-repeated n c)

all_rows-repeated : (n : ℕ) → all_rows is_token_char (repeated n b'a') ≡ true
unfolding all_rows is_token_char
all_rows-repeated zero = refl
all_rows-repeated (suc n) = all_rows-repeated n

number_pos : (n : ℕ) → IsKey attempts_kind (number_key n) → 1 ≤ n
unfolding read_after
number_pos n h = elim (Bool-cases (leb 1 n)) [ inl e ↦ ground arith | inr e ↦ cc (rw e at h) ]

no_text : (t : Text) → ¬ IsKey attempts_kind (id_key t)
unfolding read_after
no_text t h = cc

attempts_codec-IsCodec : IsCodec attempts_codec attempts_kind []
attempts_codec-IsCodec = record {
  decoded = decoded;
  canonical = λ k h. refl;
  letters = letters;
  not_empty = not_empty;
}
  where
    decoded :
        (k : Key)
        → IsKey attempts_kind k
        → attempts_codec.decode (attempts_codec.encode (cursor_item attempts_kind [] k))
          ≡ some (cursor_item attempts_kind [] k)
    decoded (number_key n) h =
        ap (λ (m : ℕ). some (cursor_item attempts_kind [] (number_key m))) (length-repeated n b'a')
    decoded (id_key t) h = absurd (no_text t h)

    letters :
        (k : Key)
        → IsKey attempts_kind k
        → all_rows is_token_char (attempts_codec.encode (cursor_item attempts_kind [] k)) ≡ true
    letters (number_key n) h = all_rows-repeated n
    letters (id_key t) h = absurd (no_text t h)

    not_empty :
        (k : Key)
        → IsKey attempts_kind k
        → 1 ≤ length (attempts_codec.encode (cursor_item attempts_kind [] k))
    not_empty (number_key n) h = omega (arith, number_pos n h, length-repeated n b'a')
    not_empty (id_key t) h = absurd (no_text t h)

abbrev first_page : ReadPage
first_page = record { limit = 2; after = none }

number_lt-IsOrder : IsOrder number_lt
number_lt-IsOrder = record { irreflexive = irreflexive; transitive = transitive }
  where
    irreflexive : (a : Key) → number_lt a a ≡ false
    irreflexive (id_key t) = refl
    irreflexive (number_key n) = ground arith

    transitive : (a b c : Key) → number_lt a b ≡ true → number_lt b c ≡ true → number_lt a c ≡ true
    transitive (number_key a) (number_key b) (number_key c) h g = ground arith
    transitive (id_key a) b c h g = cc
    transitive (number_key a) (id_key b) c h g = cc
    transitive (number_key a) (number_key b) (id_key c) h g = cc

five_attempts-IsOrdered : IsOrdered attempt_number number_lt five_attempts
unfolding all_rows
five_attempts-IsOrdered = (
  λ y m. all_rows-mem (ltb 1) (2 ∷ 3 ∷ 4 ∷ 5 ∷ []) refl m,
  (
    λ y m. all_rows-mem (ltb 2) (3 ∷ 4 ∷ 5 ∷ []) refl m,
    (
      λ y m. all_rows-mem (ltb 3) (4 ∷ 5 ∷ []) refl m,
      (λ y m. all_rows-mem (ltb 4) (5 ∷ []) refl m, (λ y m. all_rows-mem (ltb 5) [] refl m, tt)),
    ),
  ),
)

second_page_test :
    query_rows attempt_number number_lt
      (record { limit = 2; after = some (number_key 2) })
      five_attempts
    ≡ 3 ∷ 4 ∷ 5 ∷ []
unfolding query_rows
second_page_test = refl

read_pages_all_example :
    read_pages attempt_number number_lt 6 (record { limit = 2; after = none }) five_attempts
    ≡ five_attempts
read_pages_all_example =
    read_pages_all attempt_number number_lt 2 five_attempts number_lt-IsOrder (omega arith)
      five_attempts-IsOrdered

abbrev first_query : List (String × Value)
first_query = ("limit", text_value (b'2' ∷ [])) ∷ []

first_query_read : read_page attempts_codec first_query attempts_kind [] ≡ returned first_page
unfolding read_page
first_query_read = refl

read_page_bounds_example : (1 ≤ 2) × (2 ≤ 100)
read_page_bounds_example =
    read_page_bounds attempts_codec first_query attempts_kind [] first_page first_query_read

abbrev two_letters : Text
two_letters = repeated 2 b'a'

three_next :
    (public_page attempt_number attempts_codec (1 ∷ 2 ∷ 3 ∷ []) first_page attempts_kind []).1
    ≡ some two_letters
unfolding public_page
three_next = refl

three_keys : (n : ℕ) → Memᴰ n (1 ∷ 2 ∷ 3 ∷ []) → IsKey attempts_kind (attempt_number n)
unfolding read_after all_rows
three_keys n m =
    let small = all_rows-mem (λ n. leb 1 n && leb n 3) (1 ∷ 2 ∷ 3 ∷ []) refl m in
    let (low, high) = and-true {a = leb 1 n} {b = leb n 3} small in
    let bound : leb n 2147483647 ≡ true = ground (arith, high) in rw (low, bound) refl

public_page-read_page_example :
    (k : Key) × (last_key attempt_number (take_first 2 (1 ∷ 2 ∷ 3 ∷ [])) ≡ some k)
    × (read_page attempts_codec
          (set_key "cursor" (text_value two_letters) first_query)
          attempts_kind
          []
        ≡ returned (record { limit = 2; after = some k }))
public_page-read_page_example =
    public_page-read_page attempt_number attempts_codec (1 ∷ 2 ∷ 3 ∷ []) first_query first_page
      attempts_kind [] two_letters attempts_codec-IsCodec three_keys first_query_read three_next
      (omega arith)
