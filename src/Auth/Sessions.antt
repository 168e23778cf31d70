-- ===== src/Auth/Sessions.antt =====
-- apps/api/src/auth/sessions.ts: the sessions of users, on the table sessions of
-- packages/db/src/schema/index.ts. A time is in milliseconds.
use proveria.Common.{
  ℕ, ◌+◌, ◌*◌, ◌≡◌, ◌∙◌, refl, Bool, true, false, ◌&&◌, Option, none, some, List, [], ◌∷◌, inl, inr,
  Bool-cases, if◌then◌else◌, ltb, arith,
}
use proveria.Bytes.{Text, same_text}
use proveria.Bytes.Order.{same_text_iff}

pub record Session : Type 0 where
  pub id : Text
  pub user_id : Text
  pub created_at : ℕ
  pub expires_at : ℕ
  pub last_seen_at : ℕ
  pub ip : Option Text
  pub user_agent : Option Text
  pub revoked_at : Option ℕ

abbrev pub session_lifetime_ms : ℕ → ℕ
session_lifetime_ms lifetime_days = lifetime_days * 24 * 60 * 60 * 1000

pub record CreateSessionInput : Type 0 where
  pub user_id : Text
  pub ip : Option Text
  pub user_agent : Option Text

-- The row of the insert, under the id that the database has drawn.
abbrev pub new_session : (lifetime_days : ℕ) (id : Text) → CreateSessionInput → (now : ℕ) → Session
new_session lifetime_days id input now = record {
  id = id;
  user_id = input.user_id;
  created_at = now;
  expires_at = now + session_lifetime_ms lifetime_days;
  last_seen_at = now;
  ip = input.ip;
  user_agent = input.user_agent;
  revoked_at = none;
}

unfoldable pub create_session :
    (lifetime_days : ℕ) (id : Text)
    → CreateSessionInput
    → (now : ℕ) → List Session
    → Session × List Session
create_session lifetime_days id input now rows =
    (new_session lifetime_days id input now, new_session lifetime_days id input now ∷ rows)

abbrev pub is_revoked : Option ℕ → Bool
is_revoked none = false
is_revoked (some _) = true

abbrev pub is_active : Text → ℕ → Session → Bool
is_active session_id now s =
    same_text s.id session_id && (if is_revoked s.revoked_at then false else ltb now s.expires_at)

unfoldable pub get_active_session : Text → ℕ → List Session → Option Session
get_active_session session_id now [] = none
get_active_session session_id now (s ∷ rest) =
    let later = get_active_session session_id now rest in
    if is_active session_id now s then some s else later

abbrev pub revoked_session : ℕ → Session → Session
revoked_session now s = record {
  id = s.id;
  user_id = s.user_id;
  created_at = s.created_at;
  expires_at = s.expires_at;
  last_seen_at = s.last_seen_at;
  ip = s.ip;
  user_agent = s.user_agent;
  revoked_at = some now;
}

unfoldable pub revoke_session : Text → ℕ → List Session → List Session
revoke_session session_id now [] = []
revoke_session session_id now (s ∷ rest) =
    let after = revoke_session session_id now rest in
    if is_revoked s.revoked_at
    then s ∷ after
    else if same_text s.id session_id
    then revoked_session now s ∷ after
    else s ∷ after

abbrev pub seen_session : ℕ → Session → Session
seen_session now s = record {
  id = s.id;
  user_id = s.user_id;
  created_at = s.created_at;
  expires_at = s.expires_at;
  last_seen_at = now;
  ip = s.ip;
  user_agent = s.user_agent;
  revoked_at = s.revoked_at;
}

unfoldable pub touch_session : Text → ℕ → List Session → List Session
touch_session session_id now [] = []
touch_session session_id now (s ∷ rest) =
    let after = touch_session session_id now rest in
    if same_text s.id session_id then seen_session now s ∷ after else s ∷ after

unfoldable pub has_id : Text → List Session → Bool
has_id id [] = false
has_id id (s ∷ rest) = let later = has_id id rest in if same_text s.id id then true else later

-- The calls that change the table. The database draws no id twice.
pub data Call (rows : List Session) : List Session → Type 0 where
  creates :
      (lifetime_days : ℕ) (id : Text) (input : CreateSessionInput) (now : ℕ)
      → has_id id rows ≡ false
      → Call rows (create_session lifetime_days id input now rows).1
  revokes : (session_id : Text) (now : ℕ) → Call rows (revoke_session session_id now rows)
  touches : (session_id : Text) (now : ℕ) → Call rows (touch_session session_id now rows)

pub data Calls (rows : List Session) : List Session → Type 0 where
  none_made : Calls rows rows
  and_call : {mid next : List Session} → Calls rows mid → Call mid next → Calls rows next

-- Every session of that id is revoked.
unfoldable pub is_over : Text → List Session → Bool
is_over id [] = true
is_over id (s ∷ rest) =
    let later = is_over id rest in
    if same_text s.id id then is_revoked s.revoked_at && later else later

revoke_session-is_over :
    (id : Text) (now : ℕ) (rows : List Session) → is_over id (revoke_session id now rows) ≡ true
unfolding is_over revoke_session
revoke_session-is_over id now [] = refl
revoke_session-is_over id now (s ∷ rest) = ground (arith, revoke_session-is_over id now rest)

over_is_inactive :
    (id : Text) (now : ℕ) (rows : List Session)
    → is_over id rows ≡ true
    → get_active_session id now rows ≡ none
unfolding is_over get_active_session
over_is_inactive id now [] e = refl
over_is_inactive id now (s ∷ rest) e = ground (arith, over_is_inactive id now rest)

touch_is_over :
    (id other : Text) (now : ℕ) (rows : List Session)
    → is_over id rows ≡ true
    → is_over id (touch_session other now rows) ≡ true
unfolding is_over touch_session
touch_is_over id other now [] e = refl
touch_is_over id other now (s ∷ rest) e = ground (arith, touch_is_over id other now rest)

revoke_is_over :
    (id other : Text) (now : ℕ) (rows : List Session)
    → is_over id rows ≡ true
    → is_over id (revoke_session other now rows) ≡ true
unfolding is_over revoke_session
revoke_is_over id other now [] e = refl
revoke_is_over id other now (s ∷ rest) e = ground (arith, revoke_is_over id other now rest)

touch_has_id :
    (id other : Text) (now : ℕ) (rows : List Session)
    → has_id id (touch_session other now rows) ≡ has_id id rows
unfolding has_id touch_session
touch_has_id id other now [] = refl
touch_has_id id other now (s ∷ rest) = ground (arith, touch_has_id id other now rest)

revoke_has_id :
    (id other : Text) (now : ℕ) (rows : List Session)
    → has_id id (revoke_session other now rows) ≡ has_id id rows
unfolding has_id revoke_session
revoke_has_id id other now [] = refl
revoke_has_id id other now (s ∷ rest) = ground (arith, revoke_has_id id other now rest)

Call-is_over :
    (id : Text) (rows next : List Session)
    → Call rows next
    → has_id id rows ≡ true
    → is_over id rows ≡ true
    → (has_id id next ≡ true) × (is_over id next ≡ true)
unfolding has_id is_over create_session
Call-is_over id rows next (creates days drawn input now fresh) known over =
    elim (Bool-cases (same_text drawn id)) [
      | inl same ↦ absurd (cc (fresh, known, (same_text_iff drawn id).0 same))
      | inr other ↦ (ground arith, ground arith)
    ]
Call-is_over id rows next (revokes other now) known over =
    (revoke_has_id id other now rows ∙ known, revoke_is_over id other now rows over)
Call-is_over id rows next (touches other now) known over =
    (touch_has_id id other now rows ∙ known, touch_is_over id other now rows over)

Calls-is_over :
    (id : Text) (rows next : List Session)
    → Calls rows next
    → has_id id rows ≡ true
    → is_over id rows ≡ true
    → (has_id id next ≡ true) × (is_over id next ≡ true)
Calls-is_over id rows next none_made known over = (known, over)
Calls-is_over id rows next (and_call {mid} calls call) known over =
    let (known', over') = Calls-is_over id rows mid calls known over in
    Call-is_over id mid next call known' over'

-- Once a stored session is revoked, no number of creations, revocations and touches makes it active
-- again, at whatever time it is asked for; the database draws no id twice.
pub Calls-revoked :
    (id : Text) (now later : ℕ) (rows next : List Session)
    → has_id id rows ≡ true
    → Calls (revoke_session id now rows) next
    → get_active_session id later next ≡ none
Calls-revoked id now later rows next known calls =
    over_is_inactive id later next
      (Calls-is_over id (revoke_session id now rows) next calls
        (revoke_has_id id id now rows ∙ known) (revoke_session-is_over id now rows)).1
