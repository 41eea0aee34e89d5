-- ===== src/Auth/Tokens.antt =====
-- Rotating refresh tokens (backend/internal/auth/token.go). Random tokens come from the supply of ids;
-- the hash and the signature of access tokens are parameters.
use hamsa.Base.{
  ℕ, ◌+◌, ◌-◌, Bool, true, false, ◌&&◌, not, List, [], ◌∷◌, ◌++◌, Option, none, some, find,
  update_where, ltb, ◌==◌, if◌then◌else◌,
}
use hamsa.Server.{
  M, unauthorized, database, invalid_token, token_expired, token_reused, pure, fail, fail_if, ◌>>=◌,
  ◌>>◌, query, exec, first, map_error, new_id, time_now,
}

pub record RefreshToken : Type 0 where
  pub id : ℕ
  pub user_id : ℕ
  pub family_id : ℕ
  pub token_hash : ℕ
  pub expires_at : ℕ
  pub revoked_at : Option ℕ
  pub created_at : ℕ

pub record TokenDb : Type 0 where
  pub tokens : List RefreshToken

abbrev pub Auth : Type 0 → Type 0
Auth = M TokenDb

abbrev pub is_revoked : Option ℕ → Bool
is_revoked none = false
is_revoked (some _) = true

-- GormRefreshStore.

abbrev pub find_hash : ℕ → TokenDb → Option RefreshToken
find_hash h db = find (λ t. t.token_hash == h) db.tokens

unfoldable pub find_by_hash : ℕ → Auth RefreshToken
find_by_hash h = first (find_hash h)

abbrev pub add_token : RefreshToken → TokenDb → TokenDb
add_token t db = record db { tokens = db.tokens ++ t ∷ [] }

unfoldable pub create : RefreshToken → Auth (Unit {0})
create t = exec (add_token t)

abbrev pub put_token : RefreshToken → TokenDb → TokenDb
put_token t db = record db { tokens = update_where (λ u. u.id == t.id) (λ _. t) db.tokens }

unfoldable pub save : RefreshToken → Auth (Unit {0})
save t = exec (put_token t)

abbrev pub revoke : ℕ → ℕ → TokenDb → TokenDb
revoke family_id at db = record db {
  tokens =
      update_where (λ t. t.family_id == family_id && not (is_revoked t.revoked_at))
        (λ t. record t { revoked_at = some at }) db.tokens;
}

unfoldable pub revoke_family : ℕ → ℕ → Auth (Unit {0})
revoke_family family_id at = exec (revoke family_id at)

pub record Rotation : Type 0 where
  pub user_id : ℕ
  pub access_token : ℕ
  pub refresh_token : ℕ
  pub expires_in : ℕ

-- `sign user issued_at expires_at`, or an error.
pub record TokenService : Type 0 where
  pub hash : ℕ → ℕ
  pub sign : ℕ → ℕ → ℕ → Option ℕ
  pub access_ttl : ℕ
  pub refresh_ttl : ℕ

abbrev or_sign_error : Option ℕ → Auth ℕ
or_sign_error none = fail database
or_sign_error (some t) = pure t

abbrev pub successor : TokenService → RefreshToken → ℕ → ℕ → ℕ → RefreshToken
successor s rec id raw now = record {
  id = id;
  user_id = rec.user_id;
  family_id = rec.family_id;
  token_hash = s.hash raw;
  expires_at = now + s.refresh_ttl;
  revoked_at = none;
  created_at = now;
}

abbrev revoke_found : Option RefreshToken → ℕ → Auth (Unit {0})
revoke_found none now = pure tt
revoke_found (some rec) now = revoke_family rec.family_id now

module _ (s : TokenService) where
  -- The signed token and its expiry.
  unfoldable pub issue_access_token : ℕ → Auth (ℕ × ℕ)
  issue_access_token user_id = do
    now ← time_now
    token ← or_sign_error (s.sign user_id now (now + s.access_ttl))
    pure (token, now + s.access_ttl)

  unfoldable issue_refresh_token : ℕ → Auth ℕ
  unfolding create
  issue_refresh_token user_id = do
    raw ← new_id
    now ← time_now
    id ← new_id
    family_id ← new_id
    create (record {
      id = id;
      user_id = user_id;
      family_id = family_id;
      token_hash = s.hash raw;
      expires_at = now + s.refresh_ttl;
      revoked_at = none;
      created_at = now;
    })
    pure raw

  -- A used token was presented: the whole family is revoked.
  unfoldable pub reject_reuse : RefreshToken → ℕ → Auth Rotation
  unfolding revoke_family
  reject_reuse rec now = do revoke_family rec.family_id now; fail (unauthorized token_reused)

  -- The presented token is revoked, and its successor stored.
  unfoldable pub rotate : RefreshToken → ℕ → Auth Rotation
  unfolding save create issue_access_token
  rotate rec now = do
    fail_if (ltb rec.expires_at now) (unauthorized token_expired)
    raw ← new_id
    save (record rec { revoked_at = some now })
    id ← new_id
    create (successor s rec id raw now)
    (access, expires) ← issue_access_token rec.user_id
    pure (record {
      user_id = rec.user_id;
      access_token = access;
      refresh_token = raw;
      expires_in = expires - now;
    })

  unfoldable pub rotate_refresh_token : ℕ → Auth Rotation
  unfolding find_by_hash reject_reuse rotate
  rotate_refresh_token raw = do
    rec ← map_error (λ _. unauthorized invalid_token) (find_by_hash (s.hash raw))
    now ← time_now
    if is_revoked rec.revoked_at then reject_reuse rec now else rotate rec now

  -- Logout: an unknown token is a no-op.
  unfoldable revoke_family_by_token : ℕ → Auth (Unit {0})
  unfolding revoke_family
  revoke_family_by_token raw = do
    found ← query (find_hash (s.hash raw))
    now ← time_now
    revoke_found found now
