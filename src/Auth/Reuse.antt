-- ===== src/Auth/Reuse.antt =====
-- The rotation of refresh tokens (backend/internal/auth/token.go, lines 160-232).
use hamsa.Base.{
  arith, ◌⊎◌, ◌≡◌, refl, ap, ◌∙◌, sym, Bool, true, false, ◌&&◌, not, some, ℕ, ◌+◌, exists, ◌==◌,
  List, [], ◌∷◌, ltb, inl, inr, if◌then◌else◌,
}
use hamsa.Server.{
  ApiError, World, unauthorized, token_reused, token_expired, invalid_token, database, ◌>>=◌,
  time_now, map_error, first, tick,
}
use hamsa.Server.Rules.{Ends, bind-Ends, imp-Ends, map_error-Ends, first-Ends}
use hamsa.Auth.Tokens.{
  RefreshToken, TokenDb, TokenService, Rotation, find_hash, add_token, put_token, revoke,
  is_revoked, successor, rotate_refresh_token, rotate, reject_reuse, revoke_family, find_by_hash,
  save, create, issue_access_token,
}

abbrev TWorld : Type 0
TWorld = World TokenDb

-- Some token of the family can still be used.
abbrev family_lives : ℕ → TokenDb → Bool
family_lives family_id db =
    exists (λ t. t.family_id == family_id && not (is_revoked t.revoked_at)) db.tokens

revoke-family_lives :
    (family_id at : ℕ) (ts : List RefreshToken)
    → family_lives family_id (revoke family_id at (record { tokens = ts })) ≡ false
revoke-family_lives family_id at [] = refl
revoke-family_lives family_id at (t ∷ ts) = ground (arith, revoke-family_lives family_id at ts)

-- The presented token was unused, and not expired; it is revoked, and its successor in the family stored.
abbrev pub Rotated : TokenService → ℕ → TWorld → Rotation → TWorld → Type 0
Rotated s raw w r w' =
    (rec : RefreshToken) × (find_hash (s.hash raw) w.db ≡ some rec)
    × (is_revoked rec.revoked_at ≡ false)
    × (ltb rec.expires_at w.now ≡ false)
    × (r.user_id ≡ rec.user_id)
    × (w'.db
        ≡ add_token (successor s rec (w.uuid (w.drawn + 1)) r.refresh_token w.now)
            (put_token (record rec { revoked_at = some w.now }) w.db))

-- Why no token was issued, and what was written all the same.
pub data Refusal (s : TokenService) (raw : ℕ) (w : TWorld) (e : ApiError) (w' : TWorld)
    : Type 0 where
  unknown : e ≡ unauthorized invalid_token → w'.db ≡ w.db → Refusal s raw w e w'
  reused :
      (rec : RefreshToken)
      → find_hash (s.hash raw) w.db ≡ some rec
      → is_revoked rec.revoked_at ≡ true
      → e ≡ unauthorized token_reused
      → w'.db ≡ revoke rec.family_id w.now w.db
      → family_lives rec.family_id w'.db ≡ false
      → Refusal s raw w e w'
  reuse_failed :
      (rec : RefreshToken)
      → find_hash (s.hash raw) w.db ≡ some rec
      → is_revoked rec.revoked_at ≡ true
      → e ≡ database
      → w'.db ≡ w.db
      → Refusal s raw w e w'
  expired :
      (rec : RefreshToken)
      → find_hash (s.hash raw) w.db ≡ some rec
      → is_revoked rec.revoked_at ≡ false
      → ltb rec.expires_at w.now ≡ true
      → e ≡ unauthorized token_expired
      → w'.db ≡ w.db
      → Refusal s raw w e w'
  rotation_failed :
      (rec : RefreshToken)
      → find_hash (s.hash raw) w.db ≡ some rec
      → is_revoked rec.revoked_at ≡ false
      → e ≡ database
      → Refusal s raw w e w'

module _ (s : TokenService) (rec : RefreshToken) (w1 : TWorld) where
  reject_reuse-Ends :
      Ends
        (λ _ _. ⊥)
        (λ e w'.
          ((e ≡ unauthorized token_reused) × (w'.db ≡ revoke rec.family_id w1.now w1.db))
          ⊎ ((e ≡ database) × (w'.db ≡ w1.db)))
        (reject_reuse s rec w1.now w1)
  unfolding reject_reuse revoke_family hamsa.Server.Monad.exec
  reject_reuse-Ends = ground arith

  rotate-Ends :
      Ends
        (λ r w'.
          (ltb rec.expires_at w1.now ≡ false)
          × (r.user_id ≡ rec.user_id)
          × (w'.db
              ≡ add_token
                  (successor s rec (w1.uuid (w1.drawn + 1)) r.refresh_token w1.now)
                  (put_token (record rec { revoked_at = some w1.now }) w1.db)))
        (λ e w'.
          ((e ≡ unauthorized token_expired) × (ltb rec.expires_at w1.now ≡ true) × (w'.db ≡ w1.db))
          ⊎ (e ≡ database))
        (rotate s rec w1.now w1)
  unfolding rotate save create issue_access_token hamsa.Server.Monad.exec hamsa.Server.Monad.new_id
      hamsa.Server.Monad.time_now
  rotate-Ends = ground arith

module _ (s : TokenService) (raw : ℕ) (w : TWorld) (rec : RefreshToken)
    (found : find_hash (s.hash raw) w.db ≡ some rec) (w1 : TWorld) where
  -- The lookup has only read.
  abbrev Fresh : Type 0
  Fresh = (w1.db ≡ w.db) × (w1.now ≡ w.now) × (w1.drawn ≡ w.drawn) × (w1.uuid ≡ w.uuid)

  used :
      Fresh
      → is_revoked rec.revoked_at ≡ true
      → Ends (Rotated s raw w) (Refusal s raw w) (reject_reuse s rec w1.now w1)
  used f r =
      imp-Ends _ _ (λ _ _. ⊥)
        (λ e w'.
          ((e ≡ unauthorized token_reused) × (w'.db ≡ revoke rec.family_id w1.now w1.db))
          ⊎ ((e ≡ database) × (w'.db ≡ w1.db)))
        (reject_reuse s rec w1.now w1) (reject_reuse-Ends s rec w1) (λ _ _ q. absurd q)
        (λ e w' q. elim q [
          | inl h ↦
              let d : w'.db ≡ revoke rec.family_id w.now w.db =
                h.1 ∙ (λ i. revoke rec.family_id (f.1 i) (f.0 i)) in
              reused rec found r h.0 d (
                ap (family_lives rec.family_id) d
                ∙ revoke-family_lives rec.family_id w.now w.db.tokens)
          | inr h ↦ reuse_failed rec found r h.0 (h.1 ∙ f.0)
        ])

  unused :
      Fresh
      → is_revoked rec.revoked_at ≡ false
      → Ends (Rotated s raw w) (Refusal s raw w) (rotate s rec w1.now w1)
  unused f r =
      imp-Ends _ _
        (λ x w'.
          (ltb rec.expires_at w1.now ≡ false)
          × (x.user_id ≡ rec.user_id)
          × (w'.db
              ≡ add_token (successor s rec (w1.uuid (w1.drawn + 1)) x.refresh_token w1.now)
                  (put_token (record rec { revoked_at = some w1.now }) w1.db)))
        (λ e w'.
          ((e ≡ unauthorized token_expired) × (ltb rec.expires_at w1.now ≡ true) × (w'.db ≡ w1.db))
          ⊎ (e ≡ database))
        (rotate s rec w1.now w1) (rotate-Ends s rec w1)
        (λ x w' q. (
          rec,
          found,
          r,
          ap (ltb rec.expires_at) (sym f.1) ∙ q.0,
          q.1,
          q.2 ∙ (λ i.
              add_token (successor s rec (f.3 i (f.2 i + 1)) x.refresh_token (f.1 i))
                (put_token (record rec { revoked_at = some (f.1 i) }) (f.0 i))),
        ))
        (λ e w' q. elim q [
          | inl h ↦ expired rec found r (ap (ltb rec.expires_at) (sym f.1) ∙ h.1) h.0 (h.2 ∙ f.0)
          | inr h ↦ rotation_failed rec found r h
        ])

pub rotate_refresh_token-Rotated :
    (s : TokenService) (raw : ℕ) (w : TWorld)
    → Ends (Rotated s raw w) (Refusal s raw w) (rotate_refresh_token s raw w)
unfolding rotate_refresh_token find_by_hash hamsa.Server.Monad.time_now
rotate_refresh_token-Rotated s raw w =
    bind-Ends (Rotated s raw w) (Refusal s raw w)
      (map_error (λ _. unauthorized invalid_token) (find_by_hash (s.hash raw)))
      (λ rec. time_now >>= λ now.
        if is_revoked rec.revoked_at then reject_reuse s rec now else rotate s rec now)
      w
      (map_error-Ends _ _ (λ _. unauthorized invalid_token) (first (find_hash (s.hash raw))) w
        (first-Ends _ _ (find_hash (s.hash raw)) w
          (λ rec found. choose rec found (is_revoked rec.revoked_at) refl) (λ _. unknown refl refl)
          (unknown refl refl)))
  where
    choose :
        (rec : RefreshToken)
        → find_hash (s.hash raw) w.db ≡ some rec
        → (b : Bool) → is_revoked rec.revoked_at ≡ b
        → Ends
            (Rotated s raw w)
            (Refusal s raw w)
            ((if b then reject_reuse s rec w.now else rotate s rec w.now) (tick w))
    choose rec found true e = used s raw w rec found (tick w) (refl, refl, refl, refl) e
    choose rec found false e = unused s raw w rec found (tick w) (refl, refl, refl, refl) e
