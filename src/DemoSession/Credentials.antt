-- ===== src/DemoSession/Credentials.antt =====
-- modules/demo-session/demo-session.service.ts: the credential that a creation issues, the capacity, and
-- the revocation.
use cost_engine_orchestratio.Base.{
  ℕ, ◌+◌, ◌≤◌, ◌<◌, String, Bool, true, false, ◌&&◌, ◌≡◌, ◌≢◌, ◌⊎◌, inl, inr, refl, sym, ap, subst,
  ◌∙◌, Option, none, some, List, [], ◌∷◌, ◌++◌, Memᴰ, if◌then◌else◌, ◌==◌, nat_eq, string_eq,
  option_eq, ltb, lt→ltb, length, find_row, any_row, all_rows, count_rows, select, Bool-cases,
  Option-cases, eq_of_==, ==-refl, arith,
}
use cost_engine_orchestratio.Base.Rows.{find_row-mem, mem-update_rows, any_row-none, select-mem}
use cost_engine_orchestratio.DemoSession.Errors.{
  Outcome, returned, thrown, session_unavailable, returned_inj,
}
use cost_engine_orchestratio.DemoSession.Context.{Session, assert_trusted}
use cost_engine_orchestratio.DemoSession.Cookies.{Text, Codec, is_credential, read_session_cookie}
use cost_engine_orchestratio.DemoSession.CookieRoundTrip.{is_name_char, read_session_cookie-one}
use cost_engine_orchestratio.DemoSession.Service.{
  SessionRow, CreateOptions, SessionState, candidate_row, collides, is_at_capacity, create,
  is_current, authenticate, authenticate_token, found_session, revalidate, revoke, first_revocation,
  time_or_clock, context_of, add_context,
}
use cost_engine_orchestratio.DemoSession.Sessions.{
  Allocated, Inserted, same_rows, one_row, create-Inserted, create-Allocated,
}

find_row-last :
    (p : SessionRow → Bool) (rows : List SessionRow) (a : SessionRow)
    → ((x : SessionRow) → Memᴰ x rows → p x ≡ false)
    → p a ≡ true
    → find_row p (rows ++ a ∷ []) ≡ some a
unfolding find_row
find_row-last p [] a h k = rw k refl
find_row-last p (x ∷ rows) a h k =
    rw (h x (Memᴰ.head refl)) (find_row-last p rows a (λ y m. h y (Memᴰ.tail m)) k)

count_rows-last :
    (p : SessionRow → Bool) (rows : List SessionRow) (a : SessionRow)
    → count_rows p (rows ++ a ∷ []) ≡ count_rows p rows + (if p a then 1 else 0)
unfolding count_rows
count_rows-last p [] a = ground arith
count_rows-last p (x ∷ rows) a = ground (arith, count_rows-last p rows a)

length-last : (rows : List SessionRow) (a : SessionRow) → length (rows ++ a ∷ []) ≡ length rows + 1
length-last [] a = refl
length-last (x ∷ rows) a = omega (arith, length-last rows a)

-- The cookie that a creation issues, presented while the session lasts, is answered by a trusted context
-- of the session that was created.
pub create-authenticate :
    (k : Codec) (o : CreateOptions) (st : SessionState) (s : Session) (token name : Text) (now : ℕ)
    (st' : SessionState)
    → create k o st ≡ (returned (s, token), st')
    → ((n : ℕ)
        → (is_credential k (k.encode (st.candidates n).token) ≡ true)
          × (k.decode (k.encode (st.candidates n).token) ≡ (st.candidates n).token))
    → all_rows is_name_char name ≡ true
    → now < s.expires_at
    → authenticate k (some now) (some (name ++ b'=' ∷ token)) name st'
      ≡ (returned (record s { object = st'.next_context }), add_context st')
unfolding authenticate
create-authenticate k o st s token name now st' h codec named early =
    ap (authenticate_token k (some now) st') read
    ∙ ap (found_session st') found
    ∙ ap (λ (z : Session). (returned z, add_context st')) context
  where
    a : Allocated k st s token st'
    a = create-Allocated k o st h

    row : SessionRow
    row = candidate_row k st (st.candidates a.number)

    read : read_session_cookie k (some (name ++ b'=' ∷ token)) name ≡ returned (some token)
    read = read_session_cookie-one k name token named (rw a.token (codec a.number).0)

    test : SessionRow → Bool
    test r = (r.token_hash == k.sha256 (k.decode token)) && is_current now r

    digest : k.sha256 (k.decode token) ≡ row.token_hash
    digest = ap k.sha256 (ap k.decode a.token ∙ (codec a.number).1)

    others : (x : SessionRow) → Memᴰ x st.sessions → test x ≡ false
    others x m =
        let apart = any_row-none (collides row) st.sessions a.no_collision m in
        rw digest (ground (arith, apart))

    its_own : test row ≡ true
    its_own =
        rw (digest, ==-refl row.token_hash)
          (lt→ltb now row.expires_at (subst (λ (z : Session). now < z.expires_at) a.session early))

    found : find_row test st'.sessions ≡ some row
    found = rw a.inserted (find_row-last test st.sessions row others its_own)

    context : context_of st' row ≡ record s { object = st'.next_context }
    context = ap (λ (z : Session). record z { object = st'.next_context }) (sym a.session)

-- No creation exceeds the capacity, whatever it answers.
pub create_capacity :
    (k : Codec) (o : CreateOptions) (st : SessionState) (active retained : ℕ)
    → o.capacity ≡ some (active, retained)
    → count_rows (is_current st.clock) st.sessions ≤ active
    → length st.sessions ≤ retained
    → (count_rows (is_current st.clock) (create k o st).1.sessions ≤ active)
      × (length (create k o st).1.sessions ≤ retained)
create_capacity k o st active retained e h g = capacity_of (create k o st).1.sessions (
    subst (λ (c : Option (ℕ × ℕ)). Admits c (create k o st).1.sessions) e
      (admitted (create k o st).1.sessions (create-Inserted k o st)))
  where
    Admits : Option (ℕ × ℕ) → List SessionRow → Type 0
    Admits c rows =
        (rows ≡ st.sessions)
        ⊎ ((row : SessionRow) × (rows ≡ st.sessions ++ row ∷ []) × (is_at_capacity c st ≡ false))

    admitted : (rows : List SessionRow) → Inserted k o st rows → Admits o.capacity rows
    admitted rows (same_rows f) = inl f
    admitted rows (one_row row f _ room) = inr (row, f, room)

    capacity_of :
        (rows : List SessionRow)
        → Admits (some (active, retained)) rows
        → (count_rows (is_current st.clock) rows ≤ active) × (length rows ≤ retained)
    capacity_of rows (inl f) = rw f (h, g)
    capacity_of rows (inr (row, f, room)) =
        rw (f, count_rows-last (is_current st.clock) st.sessions row, length-last st.sessions row)
          (ground (arith, room))

-- No row of a revoked session is active.
revoked_inactive :
    (id : String) (st : SessionState) (now : ℕ) {r : SessionRow}
    → Memᴰ r (revoke id st).sessions
    → r.id ≡ id
    → is_current now r ≡ false
unfolding revoke
revoked_inactive id st now {r} m e =
    let (x, n, f) =
      mem-update_rows (λ y. y.id == id)
        (λ y. record y { revoked_at = first_revocation st.clock y.revoked_at }) st.sessions m in
    elim (Bool-cases (x.id == id)) [
      | inl hit ↦
          let same : r ≡ record x { revoked_at = first_revocation st.clock x.revoked_at } =
            f ∙ rw hit refl in
          subst (λ (z : SessionRow). is_current now z ≡ false) (sym same) (never x x.revoked_at)
      | inr miss ↦
          let same : r ≡ x = f ∙ rw miss refl in
          absurd (clash x miss (sym (ap (λ (z : SessionRow). z.id) same) ∙ e))
    ]
  where
    never :
        (y : SessionRow) (t : Option ℕ)
        → ((first_revocation st.clock t == none) && ltb now y.expires_at) ≡ false
    never y none = refl
    never y (some t) = refl

    clash : (x : SessionRow) → (x.id == id) ≡ false → x.id ≡ id → ⊥
    clash x miss h = ground (arith, subst (λ (z : String). (x.id == z) ≡ true) h (==-refl x.id))

-- A session that was revoked is answered to no cookie, at any time.
pub revoke-authenticate :
    (k : Codec) (id : String) (st : SessionState) (now : Option ℕ) (cookie : Option Text)
    (name : Text) (s : Session) (st' : SessionState)
    → authenticate k now cookie name (revoke id st) ≡ (returned s, st')
    → s.session_id ≢ id
unfolding authenticate
revoke-authenticate k id st now cookie name s st' h e =
    from_cookie (read_session_cookie k cookie name) h
  where
    from_cookie :
        (c : Outcome (Option Text))
        → authenticate_token k now (revoke id st) c ≡ (returned s, st')
        → ⊥
    from_cookie (thrown d) g = cc (ap (λ (y : Outcome Session × SessionState). y.0) g)
    from_cookie (returned none) g = cc (ap (λ (y : Outcome Session × SessionState). y.0) g)
    from_cookie (returned (some token)) g =
        let test = λ (r : SessionRow).
          (r.token_hash == k.sha256 (k.decode token))
          && is_current (time_or_clock now (revoke id st)) r in
        elim (Option-cases (find_row test (revoke id st).sessions)) [
          | inl f ↦ cc (ap (λ (y : Outcome Session × SessionState). y.0) (rw f at g))
          | inr (r, f) ↦
              let (m, q) = find_row-mem test (revoke id st).sessions f in
              let es =
                returned_inj (ap (λ (y : Outcome Session × SessionState). y.0) (rw f at g)) in
              let er = ap (λ (z : Session). z.session_id) es in
              let off = revoked_inactive id st (time_or_clock now (revoke id st)) m (er ∙ e) in
              ground (arith, off, q)
        ]

-- No context of a session that was revoked is confirmed.
pub revoke-revalidate :
    (s : Session) (st : SessionState) (now : Option ℕ)
    → revalidate now s (revoke s.session_id st) ≡ thrown session_unavailable
unfolding revalidate assert_trusted
revoke-revalidate s st now =
    elim (Bool-cases (any_row (λ o. o == s.object) (revoke s.session_id st).contexts)) [
      | inr off ↦ rw off refl
      | inl on ↦
          rw on (rw (no_rows (select test (revoke s.session_id st).sessions) (λ x m. m)) refl)
    ]
  where
    test : SessionRow → Bool
    test r =
        (r.id == s.session_id)
        && (r.company_code == s.company_code)
        && is_current (time_or_clock now (revoke s.session_id st)) r

    no_rows :
        (rows : List SessionRow)
        → ((x : SessionRow) → Memᴰ x rows → Memᴰ x (select test (revoke s.session_id st).sessions))
        → rows ≡ []
    no_rows [] h = refl
    no_rows (x ∷ rows) h =
        let (m, q) = select-mem test (revoke s.session_id st).sessions (h x (Memᴰ.head refl)) in
        let same : (x.id == s.session_id) ≡ true = ground (arith, q) in
        let e : x.id ≡ s.session_id = eq_of_== same in
        let off =
          revoked_inactive s.session_id st (time_or_clock now (revoke s.session_id st)) m e in
        absurd (ground (arith, off, q))
