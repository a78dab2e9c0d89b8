-- ===== src/Notifications/Inbox/Devices.antt =====
-- Whose a device is.
use uevent_backend.Base.{
  ℕ, ◌≡◌, refl, subst, Bool, true, false, ◌&&◌, List, [], ◌∷◌, arith, ◌==◌, ==_refl, inl, inr,
  Option-cases, Bool-cases,
}
use uevent_backend.Base.Texts.{Text, strip, text_eq}
use uevent_backend.Common.Errors.{Result, ok, >>=-eq-ok, ok-injective}
use uevent_backend.Common.Host.{Host}
use uevent_backend.Orm.Table.{alive, first, count, update, update_where}
use uevent_backend.Orm.Table.Laws.{count-append}
use uevent_backend.Users.{UserSession}
use uevent_backend.Notifications.Inbox.{
  session_key, has_token, without_token, is_held_by_other, Device, token_hash, with_defaults,
  new_session, insert_session, upsert_session, register_device, unregister_device,
}

-- Once the tokens of others are gone, none holds it.
count-released :
    (now user_id : ℕ) (token : Text) (sessions : List UserSession)
    → count
        (is_held_by_other user_id token)
        (update_where (is_held_by_other user_id token) (without_token now) sessions)
      ≡ 0
unfolding count update_where
count-released now user_id token [] = refl
count-released now user_id token (s ∷ sessions) =
    elim (Bool-cases (is_held_by_other user_id token s)) [
      | inl e ↦ ground (arith, count-released now user_id token sessions)
      | inr e ↦ ground (arith, count-released now user_id token sessions)
    ]

-- A row that is given to the user is not held by another.
count-given :
    (h : Host) (user_id : ℕ) (device : Device) (token : Text) (i : ℕ) (sessions : List UserSession)
    → count (is_held_by_other user_id token) sessions ≡ 0
    → count
        (is_held_by_other user_id token)
        (update session_key i (with_defaults h user_id device) sessions)
      ≡ 0
unfolding count update with_defaults
count-given h user_id device token i [] none_else = refl
count-given h user_id device token i (s ∷ sessions) none_else = elim (Bool-cases (s.id == i)) [
  | inl e ↦ ground (arith, ==_refl user_id)
  | inr e ↦ ground (arith, count-given h user_id device token i sessions)
]

count-inserted :
    (h : Host) (user_id : ℕ) (device : Device) (token : Text) (sessions rows : List UserSession)
    → count (is_held_by_other user_id token) sessions ≡ 0
    → insert_session (new_session h user_id device) sessions ≡ ok rows
    → count (is_held_by_other user_id token) rows ≡ 0
unfolding insert_session new_session with_defaults
count-inserted h user_id device token sessions rows none_else done =
    let new : UserSession = new_session h user_id device in
    ground (arith, count-append (is_held_by_other user_id token) sessions new, ==_refl user_id)

abbrev upserted : Host → List UserSession → Result (ℕ × Bool × List UserSession)
upserted h rows = ok (h.new_id 0, true, rows)

-- Once a user has registered a device, no live session of another user holds its token.
pub register_device-sole :
    (h : Host) (user_id : ℕ) (device : Device) (sessions : List UserSession) (i : ℕ)
    (created : Bool) (sessions' : List UserSession)
    → register_device h user_id device sessions ≡ ok (i, created, sessions')
    → count (is_held_by_other user_id (strip device.fcm_token)) sessions' ≡ 0
unfolding register_device upsert_session
register_device-sole h user_id device sessions i created sessions' done =
    let token : Text = strip device.fcm_token in
    let rest : List UserSession =
      update_where (is_held_by_other user_id token) (without_token h.now) sessions in
    let released = count-released h.now user_id token sessions in
    let mine : UserSession → Bool =
      λ s. alive s.deleted_at && text_eq s.refresh_token_hash (token_hash h user_id token) in
    let out : ℕ × Bool × List UserSession = (i, created, sessions') in
    elim (Option-cases (first mine rest)) [
      | inl n ↦
          let (rows, inserted, e) =
            >>=-eq-ok (insert_session (new_session h user_id device) rest) (λ r. upserted h r) out
              (rw n at done) in
          let made : ℕ × Bool × List UserSession = (h.new_id 0, true, rows) in
          subst
            (λ (d : ℕ × Bool × List UserSession). count (is_held_by_other user_id token) d.2 ≡ 0)
            (ok-injective made out e)
            (count-inserted h user_id device token rest rows released inserted)
      | inr (s, there) ↦
          let kept : ℕ × Bool × List UserSession =
            (s.id, false, update session_key s.id (with_defaults h user_id device) rest) in
          subst
            (λ (d : ℕ × Bool × List UserSession). count (is_held_by_other user_id token) d.2 ≡ 0)
            (ok-injective kept out (rw there at done))
            (count-given h user_id device token s.id rest released)
    ]

-- The token is held by a live session.
abbrev pub is_held : Text → UserSession → Bool
is_held token s = alive s.deleted_at && has_token token s.fcm_token

count-unregistered :
    (now user_id : ℕ) (token : Text) (sessions : List UserSession)
    → count (is_held_by_other user_id token) sessions ≡ 0
    → count (is_held token) (
        update_where
          (λ s. alive s.deleted_at && (s.user_id == user_id && has_token token s.fcm_token))
          (without_token now)
          sessions)
      ≡ 0
unfolding count update_where
count-unregistered now user_id token [] none_else = refl
count-unregistered now user_id token (s ∷ sessions) none_else =
    elim (Bool-cases
      (alive s.deleted_at && (s.user_id == user_id && has_token token s.fcm_token))) [
        | inl e ↦ ground (arith, count-unregistered now user_id token sessions)
        | inr e ↦ ground (arith, count-unregistered now user_id token sessions)
      ]

-- A user who registers a device and then unregisters it, with no other call in between, leaves no
-- live session that holds its token.
pub unregister_device-register_device :
    (h later : Host) (user_id : ℕ) (device : Device) (sessions : List UserSession) (i : ℕ)
    (created : Bool) (sessions' : List UserSession)
    → register_device h user_id device sessions ≡ ok (i, created, sessions')
    → count
        (is_held (strip device.fcm_token))
        (unregister_device later user_id device.fcm_token sessions').1
      ≡ 0
unfolding unregister_device
unregister_device-register_device h later user_id device sessions i created sessions' done =
    count-unregistered later.now user_id (strip device.fcm_token) sessions'
      (register_device-sole h user_id device sessions i created sessions' done)
