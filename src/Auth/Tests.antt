-- ===== src/Auth/Tests.antt =====
-- Examples for backend/internal/auth: one refresh token, and one invite code.
use hamsa.Base.{ℕ, ◌≡◌, refl, true, false, [], ◌∷◌, none, some, ◌+◌}
use hamsa.Base.Text.{Text, codes}
use hamsa.Base.Results.{is_ok}
use hamsa.Server.{World}
use hamsa.Server.Rules.{Ends}
use hamsa.Auth.Tokens.{TokenDb, TokenService, rotate_refresh_token}
use hamsa.Auth.Invites.{InviteDb, manager, redeem}
use hamsa.Auth.Reuse.{Rotated, Refusal, rotate_refresh_token-Rotated}
use hamsa.Auth.Redemption.{Redeemed, Unredeemed, redeem-Redeemed, redeem-redeem}

abbrev service : TokenService
service = record {
  hash = λ k. k + 1000;
  sign = λ user iat exp. some (user + exp);
  access_ttl = 900;
  refresh_ttl = 604800;
}

abbrev token_world : World TokenDb
token_world = record {
  db = record {
    tokens =
        record {
          id = 1;
          user_id = 7;
          family_id = 3;
          token_hash = 1042;
          expires_at = 500;
          revoked_at = none;
          created_at = 0;
        }
        ∷ [];
  };
  faults = λ _. false;
  calls = 0;
  uuid = λ k. 200 + k;
  drawn = 0;
  now = 100;
}

rotate_refresh_token-Rotated_example :
    Ends
      (Rotated service 42 token_world)
      (Refusal service 42 token_world)
      (rotate_refresh_token service 42 token_world)
rotate_refresh_token-Rotated_example = rotate_refresh_token-Rotated service 42 token_world

rotate_refresh_token_runs : is_ok (rotate_refresh_token service 42 token_world).0 ≡ true
unfolding rotate_refresh_token hamsa.Auth.Tokens.find_by_hash hamsa.Auth.Tokens.rotate
    hamsa.Auth.Tokens.save hamsa.Auth.Tokens.create hamsa.Auth.Tokens.issue_access_token
    hamsa.Server.Monad.first hamsa.Server.Monad.exec hamsa.Server.Monad.new_id
    hamsa.Server.Monad.time_now
rotate_refresh_token_runs = refl

abbrev phone : Text
phone = codes "09120000000"

abbrev invite_world : World InviteDb
invite_world = record {
  db = record {
    invites =
        record {
          id = 4;
          phone = phone;
          code_hash = 1055;
          role = manager;
          created_by = none;
          expires_at = 700;
          consumed_at = none;
          created_at = 50;
        }
        ∷ [];
  };
  faults = λ _. false;
  calls = 0;
  uuid = λ k. 200 + k;
  drawn = 0;
  now = 100;
}

abbrev hash : ℕ → ℕ
hash k = k + 1000

redeem-Redeemed_example :
    Ends
      (Redeemed hash phone 55 invite_world)
      (Unredeemed invite_world)
      (redeem hash phone 55 invite_world)
redeem-Redeemed_example = redeem-Redeemed hash phone 55 invite_world

abbrev next_day : World InviteDb
next_day = record invite_world { calls = 40; now = invite_world.now + 86400 }

redeem-redeem_example :
    Ends
      (λ r w1.
        Ends (λ _ _. ⊥) (Unredeemed w1) (redeem hash phone 55 (record next_day { db = w1.db })))
      (Unredeemed invite_world)
      (redeem hash phone 55 invite_world)
redeem-redeem_example = redeem-redeem hash phone 55 55 invite_world next_day

redeem_runs : is_ok (redeem hash phone 55 invite_world).0 ≡ true
unfolding redeem hamsa.Auth.Invites.is_iranian_mobile hamsa.Auth.Invites.latest
    hamsa.Auth.Invites.consume hamsa.Server.Monad.first hamsa.Server.Monad.exec
    hamsa.Server.Monad.time_now
redeem_runs = refl
