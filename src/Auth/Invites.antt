-- ===== src/Auth/Invites.antt =====
-- One-time invite codes (backend/internal/auth/invite.go). The hash is a parameter; random codes come from
-- the supply of ids.
use hamsa.Base.{
  ℕ, ◌+◌, Bool, true, false, ◌&&◌, ◌||◌, not, List, [], ◌∷◌, ◌++◌, Option, none, some, exists,
  update_where, length, ltb, leb, ◌==◌, if◌then◌else◌,
}
use hamsa.Base.Text.{Text, text_eq}
use hamsa.Server.{
  M, ApiError, unauthorized, bad_request, record_not_found, invalid_phone, invite_invalid,
  invite_expired, pure, fail_if, ◌>>=◌, ◌>>◌, exec, first, map_error, new_id, time_now,
}

-- "" is a row of before migration 0010.
pub data Role : Type 0 where
  blank resident manager other_role : Role

pub record InviteCode : Type 0 where
  pub id : ℕ
  pub phone : Text
  pub code_hash : ℕ
  pub role : Role
  pub created_by : Option ℕ
  pub expires_at : ℕ
  pub consumed_at : Option ℕ
  pub created_at : ℕ

pub record InviteDb : Type 0 where
  pub invites : List InviteCode

abbrev Invite : Type 0 → Type 0
Invite = M InviteDb

abbrev is_digit : ℕ → Bool
is_digit c = leb b'0' c && leb c b'9'

abbrev all_digits : Text → Bool
all_digits [] = true
all_digits (c ∷ cs) = if is_digit c then all_digits cs else false

-- `^09\d{9}$`
unfoldable pub is_iranian_mobile : Text → Bool
is_iranian_mobile (a ∷ b ∷ cs) = a == b'0' && b == b'9' && length cs == 9 && all_digits cs
is_iranian_mobile _ = false

abbrev invite_validity : ℕ
invite_validity = 604800

abbrev is_consumed : Option ℕ → Bool
is_consumed none = false
is_consumed (some _) = true

-- GormInviteStore. Of two invites, `created_at DESC` puts the newer first, and of one instant the
-- one with the smaller id comes first, since First of GORM orders by the primary key behind that.
abbrev pub comes_first : InviteCode → InviteCode → Bool
comes_first c b = ltb b.created_at c.created_at || (b.created_at == c.created_at && ltb c.id b.id)

abbrev pub newest : Text → Option InviteCode → List InviteCode → Option InviteCode
newest phone best [] = best
newest phone none (c ∷ cs) = newest phone (if text_eq c.phone phone then some c else none) cs
newest phone (some b) (c ∷ cs) =
    newest phone (if text_eq c.phone phone && comes_first c b then some c else some b) cs

unfoldable pub latest : Text → Invite InviteCode
latest phone = first (λ db. newest phone none db.invites)

abbrev add_invite : InviteCode → InviteDb → InviteDb
add_invite c db = record db { invites = db.invites ++ c ∷ [] }

unfoldable pub create : InviteCode → Invite (Unit {0})
create c = exec (add_invite c)

abbrev pub can_consume : ℕ → InviteCode → Bool
can_consume id c = c.id == id && not (is_consumed c.consumed_at)

abbrev pub mark_consumed : ℕ → ℕ → InviteDb → InviteDb
mark_consumed id at db = record db {
  invites = update_where (can_consume id) (λ c. record c { consumed_at = some at }) db.invites;
}

-- The guarded UPDATE; `found` is whether a row was affected.
unfoldable pub consume : ℕ → ℕ → Invite (Unit {0})
consume id at w =
    let found = exists (can_consume id) w.db.invites in
    (exec (mark_consumed id at) >> fail_if (not found) (unauthorized invite_invalid)) w

abbrev pub registrant_role : Role → Role
registrant_role blank = resident
registrant_role r = r

abbrev invite_error : ApiError → ApiError
invite_error record_not_found = unauthorized invite_invalid
invite_error e = e

module _ (hash : ℕ → ℕ) where
  unfoldable pub issue : Text → Role → Option ℕ → Invite ℕ
  unfolding create
  issue phone role created_by = do
    fail_if (not (is_iranian_mobile phone)) (bad_request invalid_phone)
    code ← new_id
    now ← time_now
    id ← new_id
    create (record {
      id = id;
      phone = phone;
      code_hash = hash code;
      role = role;
      created_by = created_by;
      expires_at = now + invite_validity;
      consumed_at = none;
      created_at = now;
    })
    pure code

  unfoldable pub redeem : Text → ℕ → Invite Role
  unfolding latest consume
  redeem phone code = do
    fail_if (not (is_iranian_mobile phone)) (bad_request invalid_phone)
    invite ← map_error invite_error (latest phone)
    now ← time_now
    fail_if (ltb invite.expires_at now) (unauthorized invite_expired)
    fail_if (not (invite.code_hash == hash code)) (unauthorized invite_invalid)
    consume invite.id now
    pure (registrant_role invite.role)
