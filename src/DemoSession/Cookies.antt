-- ===== src/DemoSession/Cookies.antt =====
-- modules/demo-session/demo-session.service.ts: the credential in a Cookie header. A text is the list
-- of its code units. `base64url` is a parameter: the two directions of Node's Buffer.
use cost_engine_orchestratio.Base.{
  ℕ, zero, suc, String, ◌+◌, ◌≡◌, refl, ap, ◌↔◌, Bool, true, false, ◌&&◌, ◌||◌, Option, none, some,
  List, [], ◌∷◌, map, if◌then◌else◌, ◌==◌, nat_eq, Eq, eq_of_==, ==-refl, and-true, leb, length,
  select, all_rows, arith,
}
use cost_engine_orchestratio.DemoSession.Errors.{Outcome, returned, thrown, session_unavailable}

abbrev pub Text : Type 0
Text = List ℕ

abbrev text_beq : Text → Text → Bool
text_beq [] [] = true
text_beq (a ∷ s) (b ∷ t) = (a == b) && text_beq s t
text_beq _ _ = false

pub text_beq_iff : (s t : Text) → (text_beq s t ≡ true) ↔ (s ≡ t)
text_beq_iff [] [] = (λ _. refl, λ _. refl)
text_beq_iff [] (b ∷ t) = (λ h. cc, λ h. cc)
text_beq_iff (a ∷ s) [] = (λ h. cc, λ h. cc)
text_beq_iff (a ∷ s) (b ∷ t) = (
  λ h.
      let (p, q) = and-true {a = a == b} {b = text_beq s t} h in
      let e : a ≡ b = eq_of_== p in rw (e, (text_beq_iff s t).0 q),
  λ h. ground (arith, ==-refl a, (text_beq_iff s t).1, ap first_unit h, ap rest_units h),
)
  where
    first_unit : Text → ℕ
    first_unit [] = 0
    first_unit (c ∷ cs) = c

    rest_units : Text → Text
    rest_units [] = []
    rest_units (c ∷ cs) = cs

instance abbrev pub text_eq : Eq Text
text_eq = record { equal = text_beq; equal_iff = text_beq_iff }

-- Buffer.from(token, 'base64url'), buffer.toString('base64url'), and the digest that sha256 gives
pub record Codec : Type 0 where
  pub encode : Text → Text
  pub decode : Text → Text
  pub sha256 : Text → String

abbrev prepend : ℕ → List Text → List Text
prepend c [] = (c ∷ []) ∷ []
prepend c (p ∷ ps) = (c ∷ p) ∷ ps

-- text.split(sep) at one code unit
unfoldable pub split_on : ℕ → Text → List Text
split_on sep [] = [] ∷ []
split_on sep (c ∷ s) = let rest = split_on sep s in if c == sep then [] ∷ rest else prepend c rest

-- text.split(sep, 1)[0]
unfoldable pub prefix_before : ℕ → Text → Text
prefix_before sep [] = []
prefix_before sep (c ∷ s) = let rest = prefix_before sep s in if c == sep then [] else c ∷ rest

-- white space and line terminators of ECMAScript
unfoldable pub is_space : ℕ → Bool
is_space c =
    (leb 9 c && leb c 13)
    || (c == 32)
    || (c == 160)
    || (c == 5760)
    || (leb 8192 c && leb c 8202)
    || (c == 8232)
    || (c == 8233)
    || (c == 8239)
    || (c == 8287)
    || (c == 12288)
    || (c == 65279)

unfoldable pub trim_start : Text → Text
trim_start [] = []
trim_start (c ∷ s) = let rest = trim_start s in if is_space c then rest else c ∷ s

abbrev is_blank : Text → Bool
is_blank [] = true
is_blank (_ ∷ _) = false

unfoldable pub trim_end : Text → Text
trim_end [] = []
trim_end (c ∷ s) = let rest = trim_end s in if is_blank rest && is_space c then [] else c ∷ rest

-- text.trim()
abbrev pub trim : Text → Text
trim s = trim_end (trim_start s)

-- text.slice(n)
unfoldable pub slice_from : ℕ → Text → Text
slice_from zero s = s
slice_from (suc n) [] = []
slice_from (suc n) (c ∷ s) = slice_from n s

-- [A-Za-z0-9_-]
unfoldable pub is_token_char : ℕ → Bool
is_token_char c =
    (leb b'A' c && leb c b'Z')
    || (leb b'a' c && leb c b'z')
    || (leb b'0' c && leb c b'9')
    || (c == b'_')
    || (c == b'-')

-- the test of a credential: 43 letters of base64url, in the one spelling of their bytes
unfoldable pub is_credential : Codec → Text → Bool
unfolding all_rows is_token_char
is_credential k t = (length t == 43) && all_rows is_token_char t && (k.encode (k.decode t) == t)

abbrev single_value : Codec → Text → List Text → Outcome (Option Text)
single_value k name [] = returned none
single_value k name (v ∷ []) =
    let token = slice_from (length name + 1) v in
    if is_credential k token then returned (some token) else thrown session_unavailable
single_value k name (v ∷ w ∷ vs) = thrown session_unavailable

-- readSessionCookie
unfoldable pub read_session_cookie : Codec → Option Text → Text → Outcome (Option Text)
unfolding split_on prefix_before trim_start trim_end is_space slice_from select is_credential
read_session_cookie k none name = returned none
read_session_cookie k (some header) name =
    single_value k name
      (select (λ part. prefix_before b'=' part == name) (map trim (split_on b';' header)))
