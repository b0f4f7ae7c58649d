-- ===== src/DemoSession/CookieRoundTrip.antt =====
-- modules/demo-session/demo-session.service.ts: a header with the one cookie of a session is read back.
use cost_engine_orchestratio.Base.{
  ℕ, suc, ◌+◌, ◌≡◌, refl, Bool, true, not, ◌&&◌, some, [], ◌∷◌, ◌++◌, ◌==◌, nat_eq, ==-refl, length,
  select, all_rows, arith,
}
use cost_engine_orchestratio.DemoSession.Errors.{returned}
use cost_engine_orchestratio.DemoSession.Cookies.{
  Text, text_eq, Codec, split_on, prefix_before, is_space, trim_start, trim_end, slice_from,
  is_token_char, is_credential, read_session_cookie,
}

-- code units that neither end a cookie nor are trimmed
abbrev pub is_inner : ℕ → Bool
is_inner c = not (c == b';') && not (is_space c)

-- code units of a cookie's name
abbrev pub is_name_char : ℕ → Bool
is_name_char c = is_inner c && not (c == b'=')

all-append :
    (p : ℕ → Bool) (s t : Text)
    → all_rows p s ≡ true
    → all_rows p t ≡ true
    → all_rows p (s ++ t) ≡ true
unfolding all_rows
all-append p [] t h k = k
all-append p (c ∷ s) t h k = ground (arith, all-append p s t)

all_mono :
    (p r : ℕ → Bool) (s : Text)
    → ((c : ℕ) → p c ≡ true → r c ≡ true)
    → all_rows p s ≡ true
    → all_rows r s ≡ true
unfolding all_rows
all_mono p r [] h k = refl
all_mono p r (c ∷ s) h k = ground (arith, h c, all_mono p r s h)

token_char-inner : (c : ℕ) → is_token_char c ≡ true → is_inner c ≡ true
unfolding is_token_char is_space
token_char-inner c h = ground arith

name_char-inner : (c : ℕ) → is_name_char c ≡ true → is_inner c ≡ true
name_char-inner c h = ground arith

split_one : (s : Text) → all_rows is_inner s ≡ true → split_on b';' s ≡ s ∷ []
unfolding split_on all_rows
split_one [] h = refl
split_one (c ∷ s) h = ground (arith, split_one s)

trim_start-inner : (s : Text) → all_rows is_inner s ≡ true → trim_start s ≡ s
unfolding trim_start all_rows
trim_start-inner [] h = refl
trim_start-inner (c ∷ s) h = ground arith

trim_end-inner : (s : Text) → all_rows is_inner s ≡ true → trim_end s ≡ s
unfolding trim_end all_rows
trim_end-inner [] h = refl
trim_end-inner (c ∷ s) h = ground (arith, trim_end-inner s)

before-name : (s t : Text) → all_rows is_name_char s ≡ true → prefix_before b'=' (s ++ b'=' ∷ t) ≡ s
unfolding prefix_before all_rows
before-name [] t h = refl
before-name (c ∷ s) t h = ground (arith, before-name s t)

slice_from-name : (s : Text) (c : ℕ) (t : Text) → slice_from (suc (length s)) (s ++ c ∷ t) ≡ t
unfolding slice_from
slice_from-name [] c t = refl
slice_from-name (d ∷ s) c t = slice_from-name s c t

inner_tail : (t : Text) → all_rows is_inner t ≡ true → all_rows is_inner (b'=' ∷ t) ≡ true
unfolding all_rows is_space
inner_tail t h = ground arith

token_chars : (k : Codec) (t : Text) → is_credential k t ≡ true → all_rows is_inner t ≡ true
unfolding is_credential
token_chars k t h = all_mono is_token_char is_inner t token_char-inner (ground arith)

-- A header that holds the one cookie `name=token` is read as that token, for a token of the right form.
pub read_session_cookie-one :
    (k : Codec) (name token : Text)
    → all_rows is_name_char name ≡ true
    → is_credential k token ≡ true
    → read_session_cookie k (some (name ++ b'=' ∷ token)) name ≡ returned (some token)
unfolding read_session_cookie select
read_session_cookie-one k name token h credential =
    rw
      (
        split_one whole inner,
        trim_start-inner whole inner,
        trim_end-inner whole inner,
        before-name name token h,
        ==-refl name,
        one_more,
        slice_from-name name b'=' token,
        credential,
      )
      refl
  where
    whole : Text
    whole = name ++ b'=' ∷ token

    inner : all_rows is_inner whole ≡ true
    inner =
        all-append is_inner name (b'=' ∷ token)
          (all_mono is_name_char is_inner name name_char-inner h)
          (inner_tail token (token_chars k token credential))

    one_more : length name + 1 ≡ suc (length name)
    one_more = omega arith
